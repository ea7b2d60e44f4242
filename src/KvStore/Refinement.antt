-- ===== src/KvStore/Refinement.antt =====
-- The application of kv-store/app/main.py keeps the promise of KvStore/Requests.antt.
use the_grind.Prelude.{
  ℕ, ◌≤◌, String, ◌≡◌, refl, ap, ◌∙◌, inl, inr, Bool, true, false, Option, none, some, List, [],
  ◌∷◌, arith, Bool-cases,
}
use the_grind.KvStore.Models.{PutRequest, Response}
use the_grind.KvStore.Engine.{Engine}
use the_grind.KvStore.Pools.{Pool, ok, get_primary_pool}
use the_grind.KvStore.Pools.RoundRobin.{primary_pool-get_replica_pool}
use the_grind.KvStore.Handlers.{Fate, done, not_run, answer_lost, App, write, select_row, get_key}
use the_grind.KvStore.Replies.{written_row, tables_write}
use the_grind.KvStore.Deletes.{after_update}
use the_grind.KvStore.Cleanup.{pruned, cleanup_writes}
use the_grind.KvStore.Requests.{
  Request, put, get, delete, clean, Event, serve, run, Store, visible, assign, entry_of, promise,
  Honours, Fulfils, HasTrueDeadline, Timely, effect, reply, value_reply, deletion_reply,
}
use the_grind.KvStore.Sees.{
  meaning, alive-meaning, Sees, Sees-later, Sees-upsert, Sees-delete, Sees-pruned,
}
use the_grind.KvStore.Answers.{accepts, found_value, put_key_lem, delete_key_lem}

module _ (E : Engine) (pool : Pool) where
  record Shows (app : App E) (now : ℕ) (store : Store) : Type 0 where
    pub up : app.pools.primary_pool ≡ some pool
    pub sees : Sees E (app.tables pool.port) now store

  writes :
      (app : App E) (t : E.Table) (now : ℕ) (store : Store)
      → app.pools.primary_pool ≡ some pool
      → Sees E t now store
      → Shows (write E pool.port t app) now store
  writes app t now store up sees = record {
    up = up;
    sees = rw (tables_write E pool.port t app) sees;
  }

  -- What one request does, told by the store that is promised after it and the promised answer.
  abbrev Kept : ℕ → App E × Option Response → Store × Option Response → Type 0
  Kept now (app, answer) (store, promised) = Shows app now store × Honours answer promised

  module _ (app : App E) (now : ℕ) (store : Store) (shows : Shows app now store) where
    wrote :
        (key : String) (body : PutRequest)
        → HasTrueDeadline (put key body) now
        → Shows
            (write E pool.port (E.upsert key (written_row E body now) (app.tables pool.port)) app)
            now
            (assign store key (some (entry_of body now)))
    wrote key body h =
        writes app (E.upsert key (written_row E body now) (app.tables pool.port)) now
          (assign store key (some (entry_of body now))) shows.up
          (Sees-upsert E (app.tables pool.port) now store key body h shows.sees)

    by_fate :
        {next : App E} {promised : Store} (answer : Response) (fate : Fate)
        → Shows next now promised
        → Kept now
            (effect fate next app, some (reply fate answer))
            (effect fate promised store, some (reply fate answer))
    by_fate answer done h = (h, refl)
    by_fate answer not_run h = (shows, refl)
    by_fate answer answer_lost h = (h, refl)

    puts :
        (key : String) (body : PutRequest) (fate : Fate)
        → HasTrueDeadline (put key body) now
        → Kept now
            (serve E (put key body) now fate app)
            (promise (accepts E) (put key body) now fate store)
    unfolding serve
    puts key body fate h =
        rw (put_key_lem E pool app now shows.up key body fate)
          (elim (Bool-cases (accepts E key body now)) [
            | inl fits ↦
                rw fits (by_fate (value_reply key (some body.value)) fate (wrote key body h))
            | inr unfit ↦ rw unfit (shows, refl)
          ])

    deletes :
        (key : String) (fate : Fate)
        → Kept now
            (serve E (delete key) now fate app)
            (promise (accepts E) (delete key) now fate store)
    unfolding serve
    deletes key fate =
        rw (delete_key_lem E pool app now shows.up key fate, shows.sees key now (omega arith))
          (by_fate (deletion_reply (visible now (store key))) fate (
            writes app (after_update E key now (app.tables pool.port)) now (assign store key none)
              shows.up (Sees-delete E (app.tables pool.port) now store key shows.sees)))

    cleans :
        (fate : Fate)
        → Kept now (serve E clean now fate app) (promise (accepts E) clean now fate store)
    unfolding serve
    cleans fate = (
      elim (cleanup_writes E now app pool shows.up fate) [
        | inl e ↦ rw e shows
        | inr e ↦ rw e (
            writes app (pruned E now (app.tables pool.port)) now store shows.up
              (Sees-pruned E (app.tables pool.port) now store shows.sees))
      ],
      tt,
    )

    primary : get_primary_pool app.pools ≡ ok pool
    unfolding get_primary_pool
    primary = rw shows.up refl

    gets :
        (key : String) (consistent : Bool) (healthy : ℕ → Bool) (fate : Fate)
        → Kept now
            (serve E (get key consistent healthy) now fate app)
            (promise (accepts E) (get key consistent healthy) now fate store)
    unfolding serve get_key
    gets key true healthy done = (
      shows,
      ap some (
          rw primary (
            found_value key (select_row E key now (app.tables pool.port))
            ∙ ap (value_reply key) (shows.sees key now (omega arith)))),
    )
    gets key true healthy not_run = (shows, ap some (rw primary refl))
    gets key true healthy answer_lost = (shows, ap some (rw primary refl))
    gets key false healthy fate = (
      record { up = primary_pool-get_replica_pool healthy app.pools ∙ shows.up; sees = shows.sees },
      tt,
    )

    serves :
        (request : Request) (fate : Fate)
        → HasTrueDeadline request now
        → Kept now (serve E request now fate app) (promise (accepts E) request now fate store)
    serves (put key body) fate h = puts key body fate h
    serves (get key consistent healthy) fate h = gets key consistent healthy fate
    serves (delete key) fate h = deletes key fate
    serves clean fate h = cleans fate

  runs :
      (events : List Event) (app : App E) (now : ℕ) (store : Store)
      → Shows app now store
      → Timely now events
      → Fulfils (accepts E) events store (run E events app)
  unfolding run
  runs [] app now store shows timely = refl
  runs (e ∷ events) app now store shows (le, deadline, timely) =
      let (next, honoured) = serves app e.now store (later le) e.request e.fate deadline in
      (
        honoured,
        runs events (serve E e.request e.now e.fate app).0 e.now
            (promise (accepts E) e.request e.now e.fate store).0 next timely,
      )
    where
      later : now ≤ e.now → Shows app e.now store
      later le = record {
        up = shows.up;
        sees = Sees-later E (app.tables pool.port) now e.now store le shows.sees;
      }

  -- From any state of the application with a primary pool, in any order of requests and cleanup
  -- rounds at times that do not run backwards, whatever becomes of their statements and whichever
  -- replicas are down, each answer is the one that a map from keys to values with deadlines gives.
  -- The map starts as the primary's table reads; no PUT has a `ttl` that counts back to the epoch.
  pub run-Fulfils :
      (app : App E) (now : ℕ) (events : List Event)
      → app.pools.primary_pool ≡ some pool
      → Timely now events
      → Fulfils
          (accepts E)
          events
          (λ key. meaning (E.find? (app.tables pool.port) key))
          (run E events app)
  unfolding select_row
  run-Fulfils app now events up timely =
      runs events app now _
        (record {
          up = up;
          sees = λ key later le. alive-meaning later (E.find? (app.tables pool.port) key);
        })
        timely
