-- ===== src/KvStore/Routing.antt =====
-- GET of kv-store/app/main.py over the replicas that kv-store/app/db.py chooses.
use the_grind.Prelude.{
  ℕ, ◌+◌, ◌%◌, ◌≤◌, ◌<◌, String, ◌≡◌, ◌⊎◌, refl, ap, inl, inr, Bool, true, false, some, List,
  length, get_elem?, sym, ◌∙◌, arith,
}
use the_grind.KvStore.Engine.{Engine}
use the_grind.KvStore.Pools.{Pool, ok, get_replica_pool, replica_ports}
use the_grind.KvStore.Pools.RoundRobin.{serving, get_replica_pool-FirstHealthy}
use the_grind.KvStore.Handlers.{done, App, get_key, select_row, row_response}
use the_grind.KvStore.Replies.{get_consistent, get_consistent_lem}

module _ (E : Engine) where
  get_replica_lem :
      (key : String) (healthy : ℕ → Bool) (now : ℕ) (app : App E) (pool : Pool)
      → (get_replica_pool healthy app.pools).1 ≡ ok pool
      → (get_key E key false healthy now done app).1
        ≡ row_response key (select_row E key now (app.tables pool.port))
  unfolding get_key
  get_replica_lem key healthy now app pool e = rw e

  -- A replica that lags behind holds the table that the primary had in some earlier state; `past`
  -- names that state for each replica. Then a GET without `consistent` answers as one with it
  -- would in the past of a replica that is healthy, by the clock of today, or as one with it today
  -- if every replica fails its health check.
  pub get_stale :
      (key : String) (healthy : ℕ → Bool) (now : ℕ) (primary : Pool) (pools : List Pool) (i : ℕ)
      (tables : ℕ → E.Table) (past : ℕ → App E)
      → 0 < length pools
      → length pools ≤ length replica_ports
      → ((idx : ℕ) → (past idx).pools.primary_pool ≡ some primary)
      → ((idx : ℕ) (pool : Pool)
          → get_elem? pools idx ≡ some pool
          → healthy idx ≡ true
          → tables pool.port ≡ (past idx).tables primary.port)
      → let app : App E = record { pools = serving primary pools i; tables = tables } in
        let answer = (get_key E key false healthy now done app).1 in
        ((idx : ℕ) × (healthy idx ≡ true) × (answer ≡ get_consistent E key now (past idx)))
        ⊎ (((j : ℕ) → j < length pools → healthy ((i + j) % length pools) ≡ false)
            × (answer ≡ get_consistent E key now app))
  get_stale key healthy now primary pools i tables past some_replica few up lag =
      elim (get_replica_pool-FirstHealthy healthy primary pools i some_replica few).1 [
        | inl f ↦
            let idx = (i + f.k) % length pools in
            inl (
              idx,
              f.up,
              get_replica_lem key healthy now app f.pool f.result
                  ∙ ap (λ (t : E.Table). row_response key (select_row E key now t))
                      (lag idx f.pool f.found f.up)
                  ∙ sym (get_consistent_lem E key now (past idx) primary (up idx)),
            )
        | inr g ↦ inr (
          λ j lt. g.down j (omega arith) (omega arith),
          get_replica_lem key healthy now app primary g.result
              ∙ sym (get_consistent_lem E key now app primary refl),
        )
      ]
    where
      app : App E
      app = record { pools = serving primary pools i; tables = tables }

  -- Where every healthy replica holds the same table as the primary, a GET without `consistent`
  -- answers as one with it, whichever replicas are down; so too where all of them are down.
  get_in_sync :
      (key : String) (healthy : ℕ → Bool) (now : ℕ) (primary : Pool) (pools : List Pool) (i : ℕ)
      (tables : ℕ → E.Table)
      → 0 < length pools
      → length pools ≤ length replica_ports
      → ((idx : ℕ) (pool : Pool)
          → get_elem? pools idx ≡ some pool
          → healthy idx ≡ true
          → tables pool.port ≡ tables primary.port)
      → let app : App E = record { pools = serving primary pools i; tables = tables } in
        (get_key E key false healthy now done app).1 ≡ get_consistent E key now app
  get_in_sync key healthy now primary pools i tables some_replica few sync =
      elim (get_stale key healthy now primary pools i tables (λ idx. app) some_replica few
        (λ idx. refl) sync) [ inl (idx, healthy_idx, same) ↦ same | inr (down, same) ↦ same ]
    where
      app : App E
      app = record { pools = serving primary pools i; tables = tables }
