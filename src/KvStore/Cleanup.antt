-- ===== src/KvStore/Cleanup.antt =====
-- A round of `cleanup_loop` of kv-store/app/main.py: what it removes, and that no client sees it.
use the_grind.Prelude.{
  ℕ, ◌-◌, ◌≤◌, min, String, ◌≡◌, refl, ap, ◌⊎◌, inl, inr, true, false, not, some, ltb,
  if◌then◌else◌, arith,
}
use the_grind.KvStore.Models.{Row}
use the_grind.KvStore.Status.{row_count, row_count-delete}
use the_grind.KvStore.Engine.{Engine}
use the_grind.KvStore.Pools.{Pool, get_primary_pool}
use the_grind.KvStore.Handlers.{
  Fate, done, not_run, answer_lost, App, write, is_alive, is_dead, alive_only, select_row, cleanup,
  cleanup_batch_size, report, deleted_rows, quiet,
}
use the_grind.KvStore.Replies.{get_consistent, get_consistent_lem, tables_write}

-- The cleanup's condition is the exact opposite of the one under which GET returns a row.
is_dead-not-is_alive : (now : ℕ) (r : Row) → is_dead now r ≡ not (is_alive now r)
unfolding is_dead is_alive
is_dead-not-is_alive now r = ground arith

dead_later :
    (now later : ℕ) (r : Row) → now ≤ later → is_dead now r ≡ true → is_alive later r ≡ false
unfolding is_dead is_alive
dead_later now later r h e = ground arith

module _ (E : Engine) where
  abbrev pub pruned : ℕ → E.Table → E.Table
  pruned now t = (E.delete_where (is_dead now) cleanup_batch_size t).0

  pub select-pruned :
      (j : String) (now later : ℕ) (t : E.Table)
      → now ≤ later
      → select_row E j later (pruned now t) ≡ select_row E j later t
  unfolding select_row alive_only
  select-pruned j now later t h = elim (E.find-delete (is_dead now) cleanup_batch_size t j) [
    | inl e ↦ rw (select_row, e)
    | inr (r, e, dead, gone) ↦ rw (select_row, e, gone, dead_later now later r h dead)
  ]

  -- The rows with a dead row's mark on the server behind a pool.
  abbrev pub dead_rows : ℕ → ℕ → App E → ℕ
  dead_rows now port app = E.count_where (is_dead now) (app.tables port)

  module _ (now : ℕ) (app : App E) (pool : Pool) (up : app.pools.primary_pool ≡ some pool) where
    abbrev t : E.Table
    t = app.tables pool.port

    cleanup_done : cleanup E now done app ≡ (
      write E pool.port (pruned now t) app,
      report (row_count (E.status "DELETE" (E.delete_where (is_dead now) cleanup_batch_size t).1)),
    )
    unfolding cleanup get_primary_pool
    cleanup_done = rw up

    pub cleanup_writes :
        (fate : Fate)
        → ((cleanup E now fate app).0 ≡ app)
          ⊎ ((cleanup E now fate app).0 ≡ write E pool.port (pruned now t) app)
    unfolding cleanup get_primary_pool
    cleanup_writes done = inr (rw up)
    cleanup_writes not_run = inl (rw up)
    cleanup_writes answer_lost = inr (rw up)

    -- No client sees a cleanup: whether its DELETE was done, failed or lost its answer, no
    -- consistent GET of any key, at its time or later, answers otherwise than without it.
    cleanup_invisible :
        (fate : Fate) (j : String) (later : ℕ)
        → now ≤ later
        → get_consistent E j later (cleanup E now fate app).0 ≡ get_consistent E j later app
    cleanup_invisible fate j later h = elim (cleanup_writes fate) [
      | inl e ↦ rw e
      | inr e ↦ rw (
        e,
        get_consistent_lem E j later (write E pool.port (pruned now t) app) pool up,
        tables_write E pool.port (pruned now t) app,
        select-pruned j now later t h,
        get_consistent_lem E j later app pool up,
      )
    ]

    -- A cleanup that is done removes as many expired and deleted rows as there are, a thousand at
    -- most, and logs exactly that number.
    cleanup_progress :
        let n = min cleanup_batch_size (dead_rows now pool.port app) in
        (dead_rows now pool.port (cleanup E now done app).0 ≡ dead_rows now pool.port app - n)
        × ((cleanup E now done app).1 ≡ (if ltb 0 n then deleted_rows n else quiet))
    cleanup_progress =
        rw
          (
            cleanup_done,
            ap (E.count_where (is_dead now)) (tables_write E pool.port (pruned now t) app),
            E.count_where-delete (is_dead now) (is_dead now) (λ r dead. dead) cleanup_batch_size t,
            E.status_lem "DELETE" (E.delete_where (is_dead now) cleanup_batch_size t).1,
            E.count-delete (is_dead now) cleanup_batch_size t,
            row_count-delete (min cleanup_batch_size (E.count_where (is_dead now) t)),
          )
          (refl, refl)

    -- If no more than a thousand rows are expired or deleted, a cleanup that is done leaves none
    -- of them.
    cleanup_complete :
        dead_rows now pool.port app ≤ cleanup_batch_size
        → (j : String) (r : Row) → E.find? ((cleanup E now done app).0.tables pool.port) j ≡ some r
        → is_dead now r ≡ false
    cleanup_complete few j r e =
        E.count_where-zero (is_dead now) ((cleanup E now done app).0.tables pool.port) j r
          (omega (arith, cleanup_progress.0)) e
