-- ===== src/GoPool/Program/Closing.antt =====
-- The steps of `main` of connection-pooling/pool.go are steps of the main thread of
-- connection-pooling/pool.py.
use the_grind.Prelude.{
  ℕ, suc, ◌+◌, ◌≡◌, refl, ap, sym, ◌∙◌, true, false, some, length, arith, subst, sum_below,
}
use the_grind.ConnectionPool
use the_grind.ConnectionPool.Threads
use the_grind.GoPool.{
  Pool, Channel, close_conn, received, zero_value, receive, get_conn, shut, getting,
}
use the_grind.GoPool.Made.{python}
use the_grind.GoPool.Program.{Main, waiting, draining, ended, System}
use the_grind.GoPool.Program.Simulation.{
  python_main, python_system, held, to_close, Going, got_lem, length-receive, receive-zero_value,
}

module _ (m n k : ℕ) (q : Pool) {s : System} (going : Going n (suc m) k q s) where
  open going use {reach, counted, calm, above, main, bound}

  pub closed_channel :
      (c : Channel)
      → s.main ≡ waiting
      → s.count ≡ 0
      → shut s.pool.conns ≡ some c
      → Going n (suc m) (suc k) q (record s { pool = record s.pool { conns = c }; main = draining })
  unfolding shut
  closed_channel c e zero_left g =
      let (still, all_there) : (s.pool.conns.is_shut ≡ false)
          × (length s.pool.conns.buffer + sum_below held n s.pc ≡ suc m) =
        rw e at main in
      let it : record s.pool.conns { is_shut = true } ≡ c = ground (arith, still, g) in
      subst
        (λ (c : Channel).
          Going n (suc m) (suc k) q
            (record s { pool = record s.pool { conns = c }; main = draining }))
        it
        (record {
          reach = Threads.next reach (Threads.begins_close (ap python_main e));
          counted = counted;
          calm = calm;
          above = above;
          main = (refl, zero_left);
          bound =
              omega (arith, bound, all_there, ap (to_close (suc m) (length s.pool.conns.buffer)) e);
        })

  pub drained :
      (conn : ℕ) (c : Channel)
      → s.main ≡ draining
      → receive s.pool.conns ≡ received conn c
      → Going n
          (suc m)
          (suc k)
          q
          (record s { pool = record s.pool { conns = c; heap = close_conn conn s.pool.heap } })
  unfolding close_conn get_conn ConnectionPool.close_connection
  drained conn c e g =
      let (there, same, fewer) =
        got_lem conn s.pool (record s.pool { conns = c }) s.pool.conns.buffer refl
          (ap (getting s.pool) g) in
      let (is_shut, none_running) : (s.pool.conns.is_shut ≡ true) × (s.count ≡ 0) = rw e at main in
      record {
        reach =
            subst
              (λ (x : Main). Threads.Reach n (Threads.start (python q)) (record (python_system s) {
                pool = python (record s.pool { conns = c; heap = close_conn conn s.pool.heap });
                main = python_main x;
              }))
              (sym e)
              (Threads.next
                (Threads.next reach (
                  Threads.sees_some (ap python_main e)
                    (λ z. ground (arith, length-receive conn s.pool.conns c g, z))))
                (Threads.drains conn (python (record s.pool { conns = c })) refl there));
        counted = counted;
        calm = calm;
        above = above;
        main = rw e (same ∙ is_shut, none_running);
        bound = omega (
          arith,
          bound,
          length-receive conn s.pool.conns c g,
          ap (to_close (suc m) (length s.pool.conns.buffer)) e,
          ap (to_close (suc m) (length c.buffer)) e,
        );
      }

  pub done :
      s.main ≡ draining
      → receive s.pool.conns ≡ zero_value
      → Going n (suc m) (suc k) q (record s { main = ended })
  done e g =
      let none_left = receive-zero_value s.pool.conns g in
      let (is_shut, none_running) : (s.pool.conns.is_shut ≡ true) × (s.count ≡ 0) = rw e at main in
      record {
        reach = Threads.next reach (Threads.ends_close (ap python_main e) none_left);
        counted = counted;
        calm = calm;
        above = above;
        main = (is_shut, none_running, none_left);
        bound = omega (arith, bound, ap (to_close (suc m) (length s.pool.conns.buffer)) e);
      }
