-- ===== src/GoPool/Tests.antt =====
-- A pool of connection-pooling/pool.go with two connections, on concrete runs.
use the_grind.Prelude.{
  ℕ, ◌+◌, ◌*◌, ◌≤◌, ◌≡◌, ◌≢◌, ◌⊎◌, refl, pos, true, false, some, none, List, [], ◌∷◌, arith, update,
}
use the_grind.ConnectionPool
use the_grind.ConnectionPool.Threads
use the_grind.GoPool.{
  Heap, Pool, made, new_pool, nil_dereference, get_conn, panics, release_conn, close, execute,
  receive, send, shut, close_conn,
}
use the_grind.GoPool.Made.{python, python_world}
use the_grind.GoPool.Agreement.{Call, gets, releases, executes, go_run, python_run, calls_agree}
use the_grind.GoPool.Closed.{closed_pool_panics}
use the_grind.GoPool.Program.{
  before, panicked, finished, wanting, holding, used, Main, System, Step, Reach, here, next,
}
use the_grind.GoPool.Program.Simulation.{python_system}
use the_grind.GoPool.Program.Steps.{goroutines_refine}
use the_grind.GoPool.Program.Ends.{is_prompt, IsOver, main_ends}

abbrev clean : Heap
clean = record { conn_counter = 0; closed = λ id. false }

abbrev pool_of_two : Pool
pool_of_two = record {
  conns = record { capacity = 2; buffer = 1 ∷ 2 ∷ []; is_shut = false };
  pool_size = 2;
  heap = record { conn_counter = 2; closed = update (update (λ id. false) 1 false) 2 false };
}

new_two : new_pool (pos 2) clean ≡ made pool_of_two
unfolding new_pool
new_two = refl

-- The calls of one worker, and one call too many.
abbrev work : List Call
work = gets ∷ executes 1 ∷ releases 1 ∷ releases 2 ∷ []

calls_agree_example :
    (p : Pool) × (new_pool (pos 2) clean ≡ made p)
    × (ConnectionPool.create ConnectionPool.connect (pos 2) (python_world clean)
        ≡ ConnectionPool.created (python p))
    × ((go_run work p).1 ≡ (python_run work (python p)).1)
    × ((end : Pool) × (close (go_run work p).0 ≡ some end)
        × (end.conns.is_shut ≡ true)
        × (end.conns.buffer ≡ [])
        × (python end ≡ ConnectionPool.close (python_run work (python p)).0))
calls_agree_example = calls_agree 1 clean work

abbrev both_closed : Pool
both_closed = record pool_of_two {
  conns = record { capacity = 2; buffer = []; is_shut = true };
  heap = record pool_of_two.heap { closed = update (update pool_of_two.heap.closed 1 true) 2 true };
}

closes_both : close pool_of_two ≡ some both_closed
unfolding close
closes_both = refl

closed_pool_panics_example :
    (get_conn both_closed ≡ nil_dereference)
    × (release_conn 1 both_closed ≡ panics)
    × (close both_closed ≡ none)
    × (ConnectionPool.get_conn (python both_closed) ≡ none)
    × ((q : ConnectionPool.Pool) × (ConnectionPool.release_conn 1 (python both_closed) ≡ some q))
closed_pool_panics_example = closed_pool_panics pool_of_two both_closed 1 (omega arith) closes_both

-- One worker, then `Close`.
abbrev rest : Pool
rest = record pool_of_two { conns = record { capacity = 2; buffer = 2 ∷ []; is_shut = false } }

abbrev after_work : Pool
after_work = record pool_of_two {
  conns = record { capacity = 2; buffer = 2 ∷ 1 ∷ []; is_shut = false };
}

abbrev over : System
over = record {
  pool = record pool_of_two {
    conns = record { capacity = 2; buffer = []; is_shut = true };
    heap = record pool_of_two.heap {
      closed = update (update pool_of_two.heap.closed 2 true) 1 true;
    };
  };
  pc =
      update (update (update (update (λ i. before) 0 wanting) 0 (holding 1)) 0 (used 1)) 0 finished;
  count = 0;
  main = Main.ended;
}

over_reached : Reach 1 pool_of_two 8 over
unfolding get_conn receive execute release_conn send shut close_conn
over_reached =
    next
      (next
        (next
          (next
            (next
              (next
                (next (next here (Step.starts 0 (omega arith) refl))
                  (Step.gets 0 1 rest (omega arith) refl refl))
                (Step.executes 0 1 (omega arith) refl))
              (Step.releases 0 1 after_work (omega arith) refl refl))
            (Step.closes (record { capacity = 2; buffer = 2 ∷ 1 ∷ []; is_shut = true }) refl refl
              refl))
          (Step.drains 2 (record { capacity = 2; buffer = 1 ∷ []; is_shut = true }) refl refl))
        (Step.drains 1 (record { capacity = 2; buffer = []; is_shut = true }) refl refl))
      (Step.ends refl refl)

goroutines_refine_example :
    (ConnectionPool.create ConnectionPool.connect (pos 2) (python_world clean)
      ≡ ConnectionPool.created (python pool_of_two))
    × Threads.Reach 1 (Threads.start (python pool_of_two)) (python_system over)
goroutines_refine_example = goroutines_refine 1 1 clean pool_of_two new_two over_reached

main_ends_example :
    ((i : ℕ) → over.pc i ≢ panicked)
    × (IsOver 2 1 0 over ⊎ ((t : System) × (st : Step 1 over t) × (is_prompt st ≡ true)))
    × (8 ≤ 4 * 1 + 2 + 2)
main_ends_example = main_ends 1 1 clean pool_of_two new_two over_reached
