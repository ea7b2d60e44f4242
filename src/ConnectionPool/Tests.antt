-- ===== src/ConnectionPool/Tests.antt =====
-- A pool of two connections and its workers on concrete runs.
use the_grind.Prelude.{
  ℕ, ◌≡◌, ◌⊎◌, refl, ◌+◌, ◌*◌, ◌≤◌, pos, true, false, some, none, ltb, if◌then◌else◌, [], ◌∷◌,
  arith, update,
}
use the_grind.ConnectionPool.{
  World, Pool, Factory, connect, connect_error, create, created, close_connection, execute,
  get_conn, release_conn,
}
use the_grind.ConnectionPool.Create.{is_fresh}
use the_grind.ConnectionPool.Factory.{opened, outcome, create-opened}
use the_grind.ConnectionPool.Demo
use the_grind.ConnectionPool.Demo.{Demo, DemoStep, DemoReach, AllDone, begins, joins, goes_on}
use the_grind.ConnectionPool.Demo.Completes.{program_completes}
use the_grind.ConnectionPool.Threads.{
  outside, wanting, holding, used, draining, closed, queue_empty, System, Step, Reach, here, next,
  start,
}
use the_grind.ConnectionPool.Sharing.{no_sharing, worker_never_fails, close_can_raise}

abbrev clean : World
clean = record { counter = 0; closed = λ id. false }

abbrev pool_of_two : Pool
pool_of_two = record {
  pool_size = 2;
  queue = record { maxsize = 2; items = 1 ∷ 2 ∷ [] };
  world = record { counter = 2; closed = update (update (λ id. false) 1 false) 2 false };
}

made : create connect (pos 2) clean ≡ created pool_of_two
unfolding create connect
made = refl

-- Opens one connection, and raises then.
abbrev one_only : Factory
one_only w = if ltb 0 w.counter then (w, none) else connect w

one_left_open :
    create one_only (pos 2) clean
    ≡ connect_error (record { counter = 1; closed = update (λ id. false) 1 false })
unfolding create connect
one_left_open = refl

create-opened_example : create one_only (pos 2) clean ≡ outcome 2 (opened one_only 2 clean)
create-opened_example = create-opened one_only 1 clean

abbrev rest : Pool
rest = record pool_of_two { queue = record { maxsize = 2; items = 2 ∷ [] } }

-- Worker 0 has connection 1.
abbrev lent : System
lent = record (start rest) { pc = update (update (λ i. outside) 0 wanting) 0 (holding 1) }

lent_reached : Reach 2 (start pool_of_two) lent
unfolding get_conn
lent_reached =
    next (next here (Step.asks 0 (omega arith) refl)) (Step.gets 0 1 rest (omega arith) refl refl)

abbrev ready : System
ready = record lent { pc = update lent.pc 0 (used 1) }

ready_reached : Reach 2 (start pool_of_two) ready
unfolding execute
ready_reached = next lent_reached (Step.executes 0 1 (omega arith) refl)

no_sharing_example : ◌≡◌ {A = ℕ} 0 0
no_sharing_example =
    no_sharing 1 2 clean pool_of_two made lent_reached 1 0 0 (omega arith) (omega arith) refl refl

worker_never_fails_example :
    (ready.pool.world.closed 1 ≡ false)
    × (execute 1 ready.pool.world ≡ some 1)
    × ((p : Pool) × (release_conn 1 ready.pool ≡ some p))
worker_never_fails_example =
    worker_never_fails 1 2 clean pool_of_two made ready_reached 0 1 (omega arith) refl

-- The main thread closes the pool before any worker starts.
abbrev half_closed : System
half_closed = record {
  pool = record rest { world = record rest.world { closed = update rest.world.closed 1 true } };
  pc = λ i. outside;
  main = draining;
}

abbrev all_closed : System
all_closed = record half_closed {
  pool = record half_closed.pool {
    queue = record { maxsize = 2; items = [] };
    world = record half_closed.pool.world { closed = update half_closed.pool.world.closed 2 true };
  };
}

all_closed_reached : Reach 2 (start pool_of_two) all_closed
unfolding get_conn close_connection
all_closed_reached =
    next
      (next
        (next (next (next here (Step.begins_close refl)) (Step.sees_some refl (λ e. ground arith)))
          (Step.drains 1 rest refl refl))
        (Step.sees_some refl (λ e. ground arith)))
      (Step.drains 2 (record half_closed.pool { queue = record { maxsize = 2; items = [] } }) refl
        refl)

-- One worker, then the main thread.
abbrev after_work : Pool
after_work = record pool_of_two { queue = record { maxsize = 2; items = 2 ∷ 1 ∷ [] } }

abbrev one_left : Pool
one_left = record after_work {
  queue = record { maxsize = 2; items = 1 ∷ [] };
  world = close_connection 2 after_work.world;
}

abbrev ended : Demo
ended = record {
  system = record {
    pool = record one_left {
      queue = record { maxsize = 2; items = [] };
      world = close_connection 1 one_left.world;
    };
    pc =
        update (update (update (update (λ i. outside) 0 wanting) 0 (holding 1)) 0 (used 1)) 0
          outside;
    main = closed;
  };
  started = update (λ i. false) 0 true;
}

ended_reached : DemoReach 1 pool_of_two 10 ended
unfolding get_conn execute release_conn close_connection
ended_reached =
    Demo.next
      (Demo.next
        (Demo.next
          (Demo.next
            (Demo.next
              (Demo.next
                (Demo.next
                  (Demo.next
                    (Demo.next (Demo.next Demo.here (begins 0 (omega arith) refl refl))
                      (goes_on (Step.gets 0 1 rest (omega arith) refl refl) refl))
                    (goes_on (Step.executes 0 1 (omega arith) refl) refl))
                  (goes_on (Step.releases 0 1 after_work (omega arith) refl refl) refl))
                (joins refl (λ i lt. (ground arith, ground arith))))
              (goes_on (Step.sees_some refl (λ e. ground arith)) refl))
            (goes_on
              (Step.drains 2 (record after_work { queue = record { maxsize = 2; items = 1 ∷ [] } })
                refl refl)
              refl))
          (goes_on (Step.sees_some refl (λ e. ground arith)) refl))
        (goes_on
          (Step.drains 1 (record one_left { queue = record { maxsize = 2; items = [] } }) refl refl)
          refl))
      (goes_on (Step.ends_close refl refl) refl)

program_completes_example :
    ((AllDone 1 ended
        × (ended.system.main ≡ closed)
        × ((conn : ℕ) → is_fresh 0 2 conn ≡ true → ended.system.pool.world.closed conn ≡ true))
      ⊎ ((e : Demo) × DemoStep 1 ended e))
    × (10 ≤ 4 * 1 + 2 * 2 + 2)
program_completes_example = program_completes 1 1 clean pool_of_two made 10 ended_reached

abbrev pool_of_one : Pool
pool_of_one = record {
  pool_size = 1;
  queue = record { maxsize = 1; items = 1 ∷ [] };
  world = record { counter = 1; closed = update (λ id. false) 1 false };
}

made_one : create connect (pos 1) clean ≡ created pool_of_one
unfolding create connect
made_one = refl

close_can_raise_example :
    (t : System) × Reach 2 (start pool_of_one) t × (t.main ≡ queue_empty) × (t.pc 0 ≡ holding 1)
close_can_raise_example = close_can_raise 2 clean pool_of_one (omega arith) made_one
