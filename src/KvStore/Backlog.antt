-- ===== src/KvStore/Backlog.antt =====
-- Rounds of `cleanup_loop` of kv-store/app/main.py, one after the other, with GETs between them.
use the_grind.Prelude.{
  subst, ℕ, ◌+◌, ◌*◌, ◌≤◌, String, ◌≡◌, refl, ap, ◌∙◌, sym, ◌⊎◌, inl, inr, Bool, true, false, some,
  List, [], ◌∷◌, arith, min,
}
use native.Mathlib.Decide.{dec_lt}
use the_grind.KvStore.Models.{Row}
use the_grind.KvStore.Engine.{Engine}
use the_grind.KvStore.Pools.{Pool, Pools, get_primary_pool}
use the_grind.KvStore.Pools.RoundRobin.{primary_pool-get_replica_pool}
use the_grind.KvStore.Handlers.{
  Fate, done, not_run, answer_lost, App, choose_pool, get_key, is_dead, cleanup, cleanup_batch_size,
}
use the_grind.KvStore.Requests.{Request, put, get, delete, clean, Event, serve, effect}
use the_grind.KvStore.Cleanup.{pruned, dead_rows}
use the_grind.KvStore.Program.{app_after}

is_dead_later :
    (now later : ℕ) (r : Row) → now ≤ later → is_dead now r ≡ true → is_dead later r ≡ true
unfolding is_dead
is_dead_later now later r h e = ground arith

-- Only reads and cleanups, from one time on and up to another.
abbrev IsQuiet : Request → Type 0
IsQuiet (put key body) = ⊥
IsQuiet (get key consistent healthy) = Unit
IsQuiet (delete key) = ⊥
IsQuiet clean = Unit

abbrev AllQuiet : ℕ → ℕ → List Event → Type 0
AllQuiet now later [] = Unit
AllQuiet now later (e ∷ events) =
    IsQuiet e.request × (now ≤ e.now) × (e.now ≤ later) × AllQuiet now later events

-- The rounds of the cleanup whose statement runs, also when its answer is lost.
abbrev round_of : Request → Fate → ℕ
round_of clean fate = effect fate 1 0
round_of _ fate = 0

unfoldable pub rounds_run : List Event → ℕ
rounds_run [] = 0
rounds_run (e ∷ events) = round_of e.request e.fate + rounds_run events

module _ (E : Engine) (pool : Pool) (now later : ℕ) where
  abbrev IsUp : App E → Type 0
  IsUp app = app.pools.primary_pool ≡ some pool

  abbrev table_of : App E → E.Table
  table_of app = app.tables pool.port

  -- A round either lowers the backlog by a whole batch or leaves no row that was dead at `now`.
  abbrev Progress : ℕ → E.Table → E.Table → Type 0
  Progress rounds t next =
      (E.count_where (is_dead now) next ≤ E.count_where (is_dead now) t)
      × ((E.count_where (is_dead now) next ≡ 0)
          ⊎ (E.count_where (is_dead later) next + cleanup_batch_size * rounds
              ≤ E.count_where (is_dead later) t))

  stands_still : (t : E.Table) → Progress 0 t t
  stands_still t = (omega arith, inr (omega arith))

  prunes : (t : E.Table) (time : ℕ) → now ≤ time → time ≤ later → Progress 1 t (pruned E time t)
  prunes t time lo hi = (
    E.count_where-delete-le (is_dead now) (is_dead time) cleanup_batch_size t,
    elim (dec_lt (E.count_where (is_dead time) t) cleanup_batch_size) [
      | yes few ↦ inl (
          omega (
            arith,
            few,
            removed,
            E.count_where-delete (is_dead time) (is_dead time) (λ r e. e) cleanup_batch_size t,
            E.count_where-le (is_dead time) (is_dead now) (λ r. is_dead_later now time r lo)
                (pruned E time t),
          ))
      | no many ↦ inr (
          omega (
            arith,
            many,
            removed,
            E.count_where-delete (is_dead later) (is_dead time) (λ r. is_dead_later time later r hi)
                cleanup_batch_size t,
            E.count_where-le (is_dead later) (is_dead time) (λ r. is_dead_later time later r hi) t,
          ))
    ],
  )
    where
      removed :
          (E.delete_where (is_dead time) cleanup_batch_size t).1
          ≡ min cleanup_batch_size (E.count_where (is_dead time) t)
      removed = E.count-delete (is_dead time) cleanup_batch_size t

  cleanup_lem :
      (app : App E) (time : ℕ) (fate : Fate)
      → IsUp app
      → ((cleanup E time fate app).0.pools ≡ app.pools)
        × (table_of (cleanup E time fate app).0
            ≡ effect fate (pruned E time (table_of app)) (table_of app))
  unfolding cleanup get_primary_pool
  cleanup_lem app time fate up = ground (arith, up)

  effect_progresses :
      (fate : Fate) (t : E.Table) (time : ℕ)
      → now ≤ time
      → time ≤ later
      → Progress (effect fate 1 0) t (effect fate (pruned E time t) t)
  effect_progresses done t time lo hi = prunes t time lo hi
  effect_progresses not_run t time lo hi = stands_still t
  effect_progresses answer_lost t time lo hi = prunes t time lo hi

  get_key_lem :
      (app : App E) (key : String) (consistent : Bool) (healthy : ℕ → Bool) (time : ℕ) (fate : Fate)
      → ((get_key E key consistent healthy time fate app).0.pools.primary_pool
          ≡ app.pools.primary_pool)
        × (table_of (get_key E key consistent healthy time fate app).0 ≡ table_of app)
  unfolding get_key choose_pool
  get_key_lem app key true healthy time fate = (refl, refl)
  get_key_lem app key false healthy time fate =
      (primary_pool-get_replica_pool healthy app.pools, refl)

  serve_progresses :
      (request : Request) (time : ℕ) (fate : Fate) (app : App E)
      → IsUp app
      → IsQuiet request
      → now ≤ time
      → time ≤ later
      → IsUp (serve E request time fate app).0
        × Progress
            (round_of request fate)
            (table_of app)
            (table_of (serve E request time fate app).0)
  unfolding serve
  serve_progresses (get key consistent healthy) time fate app up calm lo hi =
      let (pools, same) = get_key_lem app key consistent healthy time fate in
      (pools ∙ up, subst (Progress 0 (table_of app)) (sym same) (stands_still (table_of app)))
  serve_progresses clean time fate app up calm lo hi =
      let (pools, same) = cleanup_lem app time fate up in
      (
        ap (λ (p : Pools). p.primary_pool) pools ∙ up,
        subst (Progress (effect fate 1 0) (table_of app)) (sym same)
            (effect_progresses fate (table_of app) time lo hi),
      )
  serve_progresses (put key body) time fate app up calm lo hi = absurd calm
  serve_progresses (delete key) time fate app up calm lo hi = absurd calm

  none_left :
      (events : List Event) (app : App E)
      → IsUp app
      → AllQuiet now later events
      → (E.count_where (is_dead now) (table_of app) ≡ 0)
        ⊎ (E.count_where (is_dead later) (table_of app) ≤ cleanup_batch_size * rounds_run events)
      → now ≤ later
      → E.count_where (is_dead now) (table_of (app_after E events app)) ≡ 0
  unfolding app_after rounds_run
  none_left [] app up calm (inl z) h = z
  none_left [] app up calm (inr z) h = omega (
    arith,
    z,
    E.count_where-le (is_dead later) (is_dead now) (λ r. is_dead_later now later r h)
        (app.tables pool.port),
  )
  none_left (e ∷ events) app up (calm, lo, hi, rest) few h =
      let (up', (fewer, progress)) = serve_progresses e.request e.now e.fate app up calm lo hi in
      none_left events (serve E e.request e.now e.fate app).0 up' rest
        (elim few [
          | inl z ↦ inl (omega (arith, fewer, z))
          | inr z ↦ elim progress [
            | inl gone ↦ inl gone
            | inr lower ↦ inr (omega (arith, lower, z))
          ]
        ])
        h

  -- While a primary's pool is there and the clients only read: after rounds of the cleanup between
  -- two times, as many of them run as it takes batches of a thousand rows for all rows that are
  -- expired or deleted at the later time, no row is left that was so at the earlier one, whatever
  -- GETs came between the rounds and however many rounds failed.
  pub backlog_drained :
      (events : List Event) (app : App E)
      → app.pools.primary_pool ≡ some pool
      → now ≤ later
      → AllQuiet now later events
      → dead_rows E later pool.port app ≤ cleanup_batch_size * rounds_run events
      → (key : String) (r : Row) → E.find? ((app_after E events app).tables pool.port) key ≡ some r
      → is_dead now r ≡ false
  backlog_drained events app up h calm enough key r =
      E.count_where-zero (is_dead now) (table_of (app_after E events app)) key r
        (none_left events app up calm (inr enough) h)
