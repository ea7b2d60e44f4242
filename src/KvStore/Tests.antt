-- ===== src/KvStore/Tests.antt =====
-- The store on concrete inputs, over the table of KvStore/Table.antt.
use the_grind.Prelude.{
  ℕ, zero, suc, if◌then◌else◌, ◌==◌, ◌<◌, ◌+◌, ◌%◌, ◌≡◌, ◌⊎◌, refl, Option, none, some, List, [],
  ◌∷◌, Bool, true, false, arith, ℤ, pos, get_elem?, eq_ℤ, ◌+ℤ◌, subst,
}
use the_grind.Dict.{insert, lookup}
use the_grind.KvStore.Models.{PutRequest, Response, value_response, not_found, server_error}
use the_grind.KvStore.Table.{rows_engine, empty, prune}
use the_grind.KvStore.Pools.{Pool, ok, get_primary_pool, get_replica_pool, no_pools}
use the_grind.KvStore.Pools.RoundRobin.{
  serving, pool_at, FirstHealthy, NoneHealthy, calls-FirstHealthy, after_calls,
}
use the_grind.KvStore.Handlers.{App, done, not_run, answer_lost, put_key, get_key, cleanup, is_dead}
use the_grind.KvStore.Replies.{get_consistent}
use the_grind.KvStore.Status.{row_count, status_line, row_count-delete}
use the_grind.KvStore.Backlog.{backlog_drained, rounds_run}
use the_grind.KvStore.Requests.{Event, put, get, delete, clean, serve, run, Fulfils, Timely}
use the_grind.KvStore.Sees.{meaning}
use the_grind.KvStore.Refinement.{run-Fulfils}
use the_grind.KvStore.Program.{app_after, lifetime, stopped, lifetime-Fulfils}
use the_grind.KvStore.Answers.{accepts}
use the_grind.KvStore.Routing.{get_stale}
use the_grind.KvStore.Lifespan.{
  Server, imported, running, boot, next, starts, startup, pools_while_running,
}

abbrev main_pool : Pool
main_pool = pool_at 5432 5 20

abbrev two_replicas : List Pool
two_replicas = pool_at 5433 2 10 ∷ pool_at 5434 2 10 ∷ []

abbrev fresh_app : App rows_engine
fresh_app = record { pools = serving main_pool two_replicas 0; tables = λ port. empty }

abbrev request : Option ℤ → PutRequest
request ttl = record { value = "v"; ttl = ttl }

abbrev always : ℕ → Bool
always i = true

abbrev never : ℕ → Bool
never i = false

abbrev value_of_a : Response
value_of_a = value_response (record { key = "a"; value = "v" })

abbrev stored_app : App rows_engine
stored_app = (put_key rows_engine "a" (request (some (pos 5))) 100 done fresh_app).0

stored_primary : stored_app.pools.primary_pool ≡ some main_pool
unfolding put_key
stored_primary = refl

-- One row that expires, and one that does not.
abbrev two_rows : App rows_engine
two_rows = (put_key rows_engine "b" (request none) 101 done stored_app).0

abbrev quiet_hours : List Event
quiet_hours =
    record { request = clean; now = 106; fate = not_run }
    ∷ record { request = get "a" true always; now = 107; fate = done }
    ∷ record { request = clean; now = 108; fate = done }
    ∷ []

backlog_drained_example : is_dead 106 (record { value = "v"; expire_at = pos 0 }) ≡ false
unfolding put_key insert app_after serve cleanup get_key is_dead lookup rounds_run prune
backlog_drained_example =
    backlog_drained rows_engine main_pool 106 110 quiet_hours two_rows refl (omega arith)
      (
        tt,
        omega arith,
        omega arith,
        (tt, omega arith, omega arith, (tt, omega arith, omega arith, tt)),
      )
      (ground arith) "b" (record { value = "v"; expire_at = pos 0 }) refl

row_count-delete_example : row_count (status_line "DELETE" 1000) ≡ some 1000
row_count-delete_example = row_count-delete 1000

calls-FirstHealthy_example :
    let r =
      get_replica_pool never (after_calls (λ j. never) 3 (serving main_pool two_replicas 1)) in
    (r.0 ≡ serving main_pool two_replicas 1)
    × (FirstHealthy never main_pool two_replicas 0 0 2 r.1
        ⊎ NoneHealthy never main_pool two_replicas 0 0 2 r.1)
calls-FirstHealthy_example =
    calls-FirstHealthy (λ j. never) main_pool two_replicas 1 (omega arith) (omega arith)
      (omega arith) 3

-- The replicas hold the table from before the PUT of "a".
abbrev lagging : ℕ → rows_engine.Table
lagging port = if port == 5432 then stored_app.tables 5432 else empty

replicas_lag :
    (idx : ℕ) (pool : Pool)
    → get_elem? two_replicas idx ≡ some pool
    → always idx ≡ true
    → lagging pool.port ≡ empty
replicas_lag zero pool e up =
    let first : pool_at 5433 2 10 ≡ pool = cc in
    subst (λ (q : Pool). lagging q.port ≡ empty) first refl
replicas_lag (suc zero) pool e up =
    let second : pool_at 5434 2 10 ≡ pool = cc in
    subst (λ (q : Pool). lagging q.port ≡ empty) second refl
replicas_lag (suc (suc idx)) pool e up = absurd (ground arith)

get_stale_example :
    let app : App rows_engine = record {
      pools = serving main_pool two_replicas 0;
      tables = lagging;
    } in
    let answer = (get_key rows_engine "a" false always 101 done app).1 in
    ((idx : ℕ) × (always idx ≡ true) × (answer ≡ get_consistent rows_engine "a" 101 fresh_app))
    ⊎ (((j : ℕ) → j < 2 → always ((0 + j) % 2) ≡ false)
        × (answer ≡ get_consistent rows_engine "a" 101 app))
get_stale_example =
    get_stale rows_engine "a" always 101 main_pool two_replicas 0 lagging (λ idx. fresh_app)
      (omega arith) (omega arith) (λ idx. refl) replicas_lag

abbrev started : Server
started = startup always (record { phase = imported; pools = no_pools })

started_running : started.phase ≡ running
unfolding startup
started_running = refl

pools_while_running_example :
    (get_primary_pool started.pools ≡ ok main_pool)
    × ((pool : Pool) × ((get_replica_pool never started.pools).1 ≡ ok pool))
pools_while_running_example =
    pools_while_running (next boot (starts always refl)) started_running never

-- A PUT, a GET in time, a DELETE that never ran, a cleanup, a GET after the deadline.
abbrev visits : List Event
visits =
    record { request = put "a" (request (some (pos 5))); now = 100; fate = done }
    ∷ record { request = get "a" true always; now = 104; fate = done }
    ∷ record { request = delete "a"; now = 104; fate = not_run }
    ∷ record { request = clean; now = 106; fate = answer_lost }
    ∷ record { request = get "a" true always; now = 106; fate = done }
    ∷ []

answers_of_visits :
    run rows_engine visits fresh_app
    ≡ some value_of_a ∷ some value_of_a ∷ some server_error ∷ none ∷ some not_found ∷ []
unfolding run lookup insert prune
answers_of_visits = refl

five_from_100 :
    (ttl : ℤ)
    → some (pos 5) ≡ some ttl
    → eq_ℤ ttl (pos 0) ≡ false
    → eq_ℤ (pos 100 +ℤ ttl) (pos 0) ≡ false
five_from_100 ttl e nonzero =
    let five : pos 5 ≡ ttl = cc in subst (λ t. eq_ℤ (pos 100 +ℤ t) (pos 0) ≡ false) five refl

visits-Timely : Timely 50 visits
visits-Timely = (
  omega arith,
  five_from_100,
  (omega arith, tt, (omega arith, tt, (omega arith, tt, (omega arith, tt, tt)))),
)

run-Fulfils_example :
    Fulfils
      (accepts rows_engine)
      visits
      (λ key. meaning (rows_engine.find? empty key))
      (run rows_engine visits fresh_app)
run-Fulfils_example = run-Fulfils rows_engine main_pool fresh_app 50 visits refl visits-Timely

lifetime-Fulfils_example :
    (answers : List (Option Response)) × (lifetime rows_engine always (λ port. empty) visits
      ≡ stopped answers no_pools (main_pool ∷ two_replicas))
    × Fulfils (accepts rows_engine) visits (λ key. meaning (rows_engine.find? empty key)) answers
lifetime-Fulfils_example =
    lifetime-Fulfils rows_engine always (λ port. empty) 50 visits refl refl refl visits-Timely
