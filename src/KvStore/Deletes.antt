-- ===== src/KvStore/Deletes.antt =====
-- DELETE of kv-store/app/main.py: its answer, and what GET answers after it.
use mathlib.Core.Option
use the_grind.Prelude.{
  ℕ, ◌≤◌, String, ◌≡◌, ◌≢◌, refl, ◌⊎◌, inl, inr, false, Option, none, some, if◌then◌else◌, arith,
  str_eq, Bool-cases,
}
use the_grind.KvStore.Models.{success, not_found, Row}
use the_grind.KvStore.Status.{is_update_zero-update}
use the_grind.KvStore.Engine.{Engine, matches}
use the_grind.KvStore.Pools.{Pool, get_primary_pool}
use the_grind.KvStore.Handlers.{
  done, App, write, is_alive, soft_delete, alive_only, select_row, delete_key, delete_answer,
  row_response,
}
use the_grind.KvStore.Replies.{get_consistent, get_consistent_lem, tables_write}

hidden :
    (later : ℕ) (o : Option Row)
    → ((r : Row) → o ≡ some r → is_alive later r ≡ false)
    → alive_only later o ≡ none
unfolding alive_only
hidden later none h = refl
hidden later (some r) h = rw (h r refl)

module _ (E : Engine) where
  abbrev pub after_update : String → ℕ → E.Table → E.Table
  after_update key now t = (E.update_where key (is_alive now) soft_delete t).0

  pub delete_key_done :
      (key : String) (now : ℕ) (app : App E) (pool : Pool)
      → app.pools.primary_pool ≡ some pool
      → delete_key E key now done app ≡ (
        write E pool.port (after_update key now (app.tables pool.port)) app,
        delete_answer (
            E.status "UPDATE"
              (E.update_where key (is_alive now) soft_delete (app.tables pool.port)).1),
      )
  unfolding delete_key get_primary_pool
  delete_key_done key now app pool e = rw e

  -- The row that was alive becomes invisible at every time, and one that was dead stays so.
  after_delete :
      (now later : ℕ) (o : Option Row)
      → now ≤ later
      → (r : Row) → Option.map (λ x. if is_alive now x then soft_delete x else x) o ≡ some r
      → is_alive later r ≡ false
  unfolding is_alive soft_delete
  after_delete now later none h r e = absurd (ground arith)
  after_delete now later (some x) h r e = ground arith

  pub select-deleted :
      (key j : String) (now later : ℕ) (t : E.Table)
      → now ≤ later
      → select_row E j later (after_update key now t)
        ≡ (if str_eq key j then none else select_row E j later t)
  unfolding select_row
  select-deleted key j now later t h = elim (Bool-cases (str_eq key j)) [
    | inl same ↦
        rw (select_row, E.find-update key j (is_alive now) soft_delete t, same)
          (hidden later
            (Option.map (λ x. if is_alive now x then soft_delete x else x) (E.find? t j))
            (after_delete now later (E.find? t j) h))
    | inr other ↦ rw (select_row, E.find-update key j (is_alive now) soft_delete t, other)
  ]

  pub answer_lem :
      (key : String) (now : ℕ) (t : E.Table)
      → delete_answer (E.status "UPDATE" (matches (is_alive now) (E.find? t key)))
        ≡ (elim (select_row E key now t) [ none ↦ not_found | some r ↦ success ])
  unfolding select_row alive_only
  answer_lem key now t =
      rw
        (
          E.status_lem "UPDATE" (matches (is_alive now) (E.find? t key)),
          is_update_zero-update (matches (is_alive now) (E.find? t key)),
        )
        (ground arith)

  module _ (key : String) (now : ℕ) (app : App E) (pool : Pool)
      (up : app.pools.primary_pool ≡ some pool) where
    -- A DELETE that reaches the primary succeeds exactly if a consistent GET at that moment would
    -- have found the key, and otherwise answers 404 as that GET would.
    delete_reply :
        (((delete_key E key now done app).1 ≡ success) × (get_consistent E key now app ≢ not_found))
        ⊎ (((delete_key E key now done app).1 ≡ not_found)
            × (get_consistent E key now app ≡ not_found))
    delete_reply =
        rw
          (
            delete_key_done key now app pool up,
            E.count-update key (is_alive now) soft_delete (app.tables pool.port),
            answer_lem key now (app.tables pool.port),
            get_consistent_lem E key now app pool up,
          )
          (cases (select_row E key now (app.tables pool.port)))
      where
        cases :
            (o : Option Row)
            → (((elim o [ none ↦ not_found | some r ↦ success ]) ≡ success)
                × (row_response key o ≢ not_found))
              ⊎ (((elim o [ none ↦ not_found | some r ↦ success ]) ≡ not_found)
                  × (row_response key o ≡ not_found))
        cases none = inr (refl, refl)
        cases (some r) = inl (refl, λ e. cc)

    -- After a DELETE that reaches the primary, whatever it answered, no consistent GET of the key
    -- at that time or later finds it, and the consistent GETs of the other keys are as before.
    get_after_delete :
        (j : String) (later : ℕ)
        → now ≤ later
        → get_consistent E j later (delete_key E key now done app).0
          ≡ (if str_eq key j then not_found else get_consistent E j later app)
    get_after_delete j later h =
        rw
          (
            delete_key_done key now app pool up,
            get_consistent_lem E j later
                (write E pool.port (after_update key now (app.tables pool.port)) app) pool up,
            tables_write E pool.port (after_update key now (app.tables pool.port)) app,
            select-deleted key j now later (app.tables pool.port) h,
            get_consistent_lem E j later app pool up,
          )
          (ground arith)
