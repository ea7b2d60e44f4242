-- ===== src/KvStore/Answers.antt =====
-- What each handler of kv-store/app/main.py writes and answers, for each fate of its statement.
use the_grind.Prelude.{
  ℕ, String, ◌≡◌, refl, ap, ◌∙◌, inl, inr, Bool, Option, none, some, if◌then◌else◌, Bool-cases,
}
use the_grind.KvStore.Models.{PutRequest, Response, server_error, success, not_found, Row}
use the_grind.KvStore.Engine.{Engine}
use the_grind.KvStore.Pools.{Pool, get_primary_pool}
use the_grind.KvStore.Handlers.{
  Fate, done, not_run, answer_lost, App, write, is_alive, soft_delete, delete_answer, row_response,
  select_row, put_key, delete_key,
}
use the_grind.KvStore.Replies.{written_row}
use the_grind.KvStore.Deletes.{after_update, answer_lem, delete_key_done}
use the_grind.KvStore.Requests.{effect, reply, value_reply, deletion_reply}
use the_grind.KvStore.Sees.{value_of}

-- The database takes the row that a PUT writes.
abbrev pub accepts : Engine → String → PutRequest → ℕ → Bool
accepts E key body now = E.fits key (written_row E body now)

answer_value :
    (E : Engine) (key : String) (now : ℕ) (t : E.Table)
    → delete_answer (E.status "UPDATE" (E.update_where key (is_alive now) soft_delete t).1)
      ≡ deletion_reply (value_of (select_row E key now t))
answer_value E key now t =
    rw (E.count-update key (is_alive now) soft_delete t, answer_lem E key now t)
      (cases (select_row E key now t))
  where
    cases :
        (o : Option Row)
        → (elim o [ none ↦ not_found | some r ↦ success ]) ≡ deletion_reply (value_of o)
    cases none = refl
    cases (some r) = refl

pub found_value :
    (key : String) (o : Option Row) → row_response key o ≡ value_reply key (value_of o)
found_value key none = refl
found_value key (some r) = refl

-- The handlers on the primary's pool, for each fate of their statement.
module _ (E : Engine) (pool : Pool) (app : App E) (now : ℕ)
    (up : app.pools.primary_pool ≡ some pool) where
  pub put_key_lem :
      (key : String) (body : PutRequest) (fate : Fate)
      → put_key E key body now fate app ≡ (
          if accepts E key body now
          then (
            effect fate
                (write E pool.port
                  (E.upsert key (written_row E body now) (app.tables pool.port))
                  app)
                app,
            reply fate (value_reply key (some body.value)),
          )
          else (app, server_error))
  unfolding put_key get_primary_pool
  put_key_lem key body done = elim (Bool-cases (accepts E key body now)) [
    | inl fits ↦ rw (up, fits)
    | inr unfit ↦ rw (up, unfit)
  ]
  put_key_lem key body not_run = elim (Bool-cases (accepts E key body now)) [
    | inl fits ↦ rw (up, fits)
    | inr unfit ↦ rw (up, unfit)
  ]
  put_key_lem key body answer_lost = elim (Bool-cases (accepts E key body now)) [
    | inl fits ↦ rw (up, fits)
    | inr unfit ↦ rw (up, unfit)
  ]

  pub delete_key_lem :
      (key : String) (fate : Fate)
      → delete_key E key now fate app ≡ (
        effect fate (write E pool.port (after_update E key now (app.tables pool.port)) app) app,
        reply fate (deletion_reply (value_of (select_row E key now (app.tables pool.port)))),
      )
  unfolding delete_key get_primary_pool
  delete_key_lem key done =
      delete_key_done E key now app pool up
      ∙ ap
          (λ (r : Response).
            (write E pool.port (after_update E key now (app.tables pool.port)) app, r))
          (answer_value E key now (app.tables pool.port))
  delete_key_lem key not_run = rw up
  delete_key_lem key answer_lost = rw up
