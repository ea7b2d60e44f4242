-- ===== src/GoPool/Program/Steps.antt =====
-- Each step of the goroutines and of `main` of connection-pooling/pool.go is one that threads of
-- connection-pooling/pool.py could take.
use the_grind.Prelude.{
  ℕ, suc, ◌+◌, ◌-◌, ◌≤◌, ◌<◌, ◌≡◌, ◌≢◌, refl, ap, sym, ◌∙◌, pos, false, Option, some, length, arith,
  update, subst, sum_below, sum_below-zero, sum_below-update, le-sum_below, sum_below-const,
  fun_ext,
}
use the_grind.ConnectionPool
use the_grind.ConnectionPool.Threads
use the_grind.ConnectionPool.Sharing.{lent_stays_open}
use the_grind.GoPool.{made, new_pool, Pool, Heap, execute}
use the_grind.ConnectionPool.Places.{created_Filled}
use the_grind.ConnectionPool.Create.{length-fresh_ids}
use the_grind.GoPool.Made.{python, python_world, new_lem}
use the_grind.GoPool.Program.{
  Pc, before, wanting, holding, used, finished, failed, panicked, Main, waiting, draining, ended,
  System, executed, Step, starts, gets, gets_nil, times_out, executes, releases, releases_late,
  closes, drains, ends, Reach, here, next,
}
use the_grind.GoPool.Program.Simulation.{
  python_pc, python_system, active, active_le, held, to_do, to_close, MainInv, Going, update_pc,
  got_lem, not_nil, released_lem, not_late,
}
use the_grind.GoPool.Program.Closing.{closed_channel, drained, done}

module _ (m n k : ℕ) (w : ConnectionPool.World) (q : Pool)
    (made : ConnectionPool.create ConnectionPool.connect (pos (suc m)) w
      ≡ ConnectionPool.created (python q))
    {s : System} (going : Going n (suc m) k q s) where
  open going use {reach, counted, calm, above, main, bound}

  -- A goroutine runs only while `main` waits for it, and then the channel is open.
  pub main_waits :
      (i : ℕ)
      → i < n
      → active (s.pc i) ≡ 1
      → (s.main ≡ waiting)
        × (s.pool.conns.is_shut ≡ false)
        × (length s.pool.conns.buffer + sum_below held n s.pc ≡ suc m)
  main_waits i lt busy = cases s.main refl main
    where
      some_active : 1 ≤ s.count
      some_active = omega (arith, counted, busy, le-sum_below active n i s.pc lt)

      cases :
          (x : Main)
          → s.main ≡ x
          → MainInv (suc m) (sum_below held n s.pc) s.count s.pool.conns x
          → (s.main ≡ waiting)
            × (s.pool.conns.is_shut ≡ false)
            × (length s.pool.conns.buffer + sum_below held n s.pc ≡ suc m)
      cases waiting e h = (e, h.0, h.1)
      cases draining e h = absurd (omega (arith, h.1, some_active))
      cases ended e h = absurd (omega (arith, h.1, some_active))

  -- A step of a goroutine that a thread of pool.py can take.
  moves :
      (i : ℕ) (p : Pc) (pool : Pool) (count : ℕ)
      → i < n
      → active (s.pc i) ≡ 1
      → count ≡ s.count - (1 - active p)
      → pool.conns.is_shut ≡ false
      → length pool.conns.buffer + held p ≡ length s.pool.conns.buffer + held (s.pc i)
      → p ≢ panicked
      → to_do p < to_do (s.pc i)
      → Threads.Reach n (Threads.start (python q)) (record (python_system s) {
        pool = python pool;
        pc = update (λ j. python_pc (s.pc j)) i (python_pc p);
      })
      → Going n (suc m) (suc k) q (record s { pool = pool; pc = update s.pc i p; count = count })
  moves i p pool count lt busy left still same fine less there = record {
    reach =
        subst
          (λ (f : ℕ → Threads.Pc).
            Threads.Reach n (Threads.start (python q))
              (record (python_system s) { pool = python pool; pc = f }))
          (sym (update_pc s.pc i p)) there;
    counted = omega (
      arith,
      left,
      counted,
      busy,
      sum_below-update active n i s.pc p lt,
      le-sum_below active n i s.pc lt,
      active_le p,
    );
    calm = λ j. ground (arith, calm j, fine);
    above = λ j h. ground (arith, above j h, lt);
    main = rw (main_waits i lt busy).0 (
      still,
      omega (
        arith,
        (main_waits i lt busy).2,
        same,
        sum_below-update held n i s.pc p lt,
        le-sum_below held n i s.pc lt,
      ),
    );
    bound = omega (
      arith,
      bound,
      less,
      sum_below-update to_do n i s.pc p lt,
      ap (to_close (suc m) (length s.pool.conns.buffer)) (main_waits i lt busy).0,
      ap (to_close (suc m) (length pool.conns.buffer)) (main_waits i lt busy).0,
    );
  }

  went_on :
      (i : ℕ) (p : Pc)
      → s.pc i ≡ p
      → ◌≡◌ {A = ℕ → Threads.Pc}
          (update (λ j. python_pc (s.pc j)) i (python_pc p))
          (λ j. python_pc (s.pc j))
  went_on i p e = fun_ext (λ j. ground (arith, e))

  executes_fine :
      (i conn : ℕ) → s.pool.heap.closed conn ≡ false → execute conn s.pool.heap ≡ some conn
  unfolding execute
  executes_fine i conn is_open = rw is_open refl

  stepped : {t : System} → Step n s t → Going n (suc m) (suc k) q t
  stepped (starts i lt e) =
      moves i wanting s.pool s.count lt (rw e refl) (omega arith) (main_waits i lt (rw e refl)).1
        (rw e refl) (λ z. ground arith) (rw e (omega arith))
        (Threads.next reach (Threads.asks i lt (ap python_pc e)))
  stepped (gets i conn p lt e g) =
      let still = (main_waits i lt (rw e refl)).1 in
      let (there, same, fewer) = got_lem conn s.pool p s.pool.conns.buffer refl g in
      moves i (holding conn) p s.count lt (rw e refl) (omega arith) (same ∙ still)
        (rw e (omega (arith, fewer))) (λ z. ground arith) (rw e (omega arith))
        (Threads.next reach (Threads.gets i conn (python p) lt (ap python_pc e) there))
  stepped (gets_nil i lt e g) =
      absurd (not_nil s.pool s.pool.conns.buffer refl (main_waits i lt (rw e refl)).1 g)
  stepped (times_out i lt e) =
      moves i failed s.pool (s.count - 1) lt (rw e refl) refl (main_waits i lt (rw e refl)).1
        (rw e refl) (λ z. ground arith) (rw e (omega arith))
        (subst
          (λ (f : ℕ → Threads.Pc).
            Threads.Reach n (Threads.start (python q)) (record (python_system s) { pc = f }))
          (sym (went_on i wanting e)) reach)
  stepped (executes i conn lt e) =
      let (is_open, ran) =
        lent_stays_open m n w (python q) made reach i conn lt (rw e (ground arith)) in
      subst
        (λ (r : Option ℕ).
          Going n (suc m) (suc k) q (record s { pc = update s.pc i (executed conn r) }))
        (sym (executes_fine i conn is_open))
        (moves i (used conn) s.pool s.count lt (rw e refl) (omega arith)
          (main_waits i lt (rw e refl)).1 (rw e refl) (λ z. ground arith) (rw e (omega arith))
          (subst
            (λ (r : Option ℕ).
              Threads.Reach n (Threads.start (python q)) (record (python_system s) {
                pc = update (λ j. python_pc (s.pc j)) i (Threads.executed conn r);
              }))
            ran (Threads.next reach (Threads.executes i conn lt (ap python_pc e)))))
  stepped (releases i conn p lt e g) =
      let (there, still, more) = released_lem conn s.pool p (main_waits i lt (rw e refl)).1 g in
      moves i finished p (s.count - 1) lt (rw e refl) refl still (rw e (omega (arith, more)))
        (λ z. ground arith) (rw e (omega arith))
        (Threads.next reach (Threads.releases i conn (python p) lt (ap python_pc e) there))
  stepped (releases_late i conn lt e g) =
      absurd (not_late conn s.pool (main_waits i lt (rw e refl)).1 g)
  stepped (closes c e zero_left g) = closed_channel m n k q going c e zero_left g
  stepped (drains conn c e g) = drained m n k q going conn c e g
  stepped (ends e g) = done m n k q going e g

module _ (m n : ℕ) (w : ConnectionPool.World) (q : Pool)
    (made : ConnectionPool.create ConnectionPool.connect (pos (suc m)) w
      ≡ ConnectionPool.created (python q))
    (still : q.conns.is_shut ≡ false) where
  pub Reach-Going : {k : ℕ} {s : System} → Reach n q k s → Going n (suc m) k q s
  Reach-Going here =
      let filled : length q.conns.buffer ≡ suc m =
        ap length (created_Filled m w (python q) made).items ∙ length-fresh_ids w.counter (suc m) in
      record {
        reach = Threads.here;
        counted = omega (arith, sum_below-const active n 1 (λ i. before) (λ i lt. refl));
        calm = λ i e. ground (arith, e);
        above = λ i h. refl;
        main = (still, omega (arith, filled, sum_below-zero held n (λ i. before) (λ i. refl)));
        bound = omega (arith, filled, sum_below-const to_do n 4 (λ i. before) (λ i lt. refl));
      }
  Reach-Going {k = suc k} (next r st) = stepped m n k w q made (Reach-Going r) st

-- What the goroutines and `main` of pool.go reach with a pool of a positive size, the threads of
-- pool.py reach too, with the pool that pool.py makes: a worker that has given up is there one
-- that still waits.
pub goroutines_refine :
    (m n : ℕ) (h : Heap) (q : Pool)
    → new_pool (pos (suc m)) h ≡ made q
    → {k : ℕ} {s : System} → Reach n q k s
    → (ConnectionPool.create ConnectionPool.connect (pos (suc m)) (python_world h)
        ≡ ConnectionPool.created (python q))
      × Threads.Reach n (Threads.start (python q)) (python_system s)
goroutines_refine m n h q e r =
    let (py, still) = new_lem m h q e in (py, (Reach-Going m n (python_world h) q py still r).reach)
