-- ===== src/ConnectionPool/Demo/Progress.antt =====
-- Each step of the program of connection-pooling/pool.py does some of the work that is left.
use the_grind.Prelude.{
  ℕ, suc, ◌+◌, ◌*◌, ◌≤◌, ◌<◌, ◌≡◌, ◌≢◌, refl, ap, inl, inr, pos, Bool, true, false, none, some, [],
  ◌∷◌, length, ◌==◌, update, arith, Bool-cases, length-append, sum_below, sum_below-update,
}
use the_grind.ConnectionPool.{
  World, Pool, connect, create, created, execute, get_conn, release_conn,
}
use the_grind.ConnectionPool.Threads.{
  Pc, outside, wanting, holding, used, timed_out, crashed, Main, open_for_use, draining, seen_some,
  closed, queue_empty, System, executed, Step, asks, gets, gives_up, executes, releases,
  begins_close, sees_some, drains, finds_none, ends_close, Reach, start,
}
use the_grind.ConnectionPool.Places.{has, has_any}
use the_grind.ConnectionPool.Sharing.{lent_stays_open}
use the_grind.ConnectionPool.Threads
use the_grind.ConnectionPool.Demo.{Demo, AllDone, is_inside}

-- What the threads have still to do.
abbrev pub to_do : Pc → ℕ
to_do wanting = 3
to_do (holding conn) = 2
to_do (used conn) = 1
to_do _ = 0

abbrev pub to_start : Bool → ℕ
to_start true = 0
to_start false = 4

abbrev to_close : ℕ → ℕ → Main → ℕ
to_close size items open_for_use = 2 * size + 2
to_close size items draining = 2 * items + 1
to_close size items seen_some = 2 * items
to_close size items _ = 0

abbrev IsFine : Pc → Type 0
IsFine timed_out = ⊥
IsFine (crashed conn) = ⊥
IsFine _ = Unit

-- What holds at each position of the main thread.
abbrev MainInv : ℕ → ℕ → Demo → Main → Type 0
MainInv n size d open_for_use =
    length d.system.pool.queue.items + sum_below has_any n d.system.pc ≡ size
MainInv n size d draining = AllDone n d
MainInv n size d seen_some = AllDone n d × (d.system.pool.queue.items ≢ [])
MainInv n size d closed = AllDone n d × (d.system.pool.queue.items ≡ [])
MainInv n size d queue_empty = ⊥

pub record Going (n size k : ℕ) (q : Pool) (d : Demo) : Type 0 where
  pub reach : Reach n (start q) d.system
  pub idle : (i : ℕ) → d.started i ≡ false → d.system.pc i ≡ outside
  pub above : (i : ℕ) → n ≤ i → d.system.pc i ≡ outside
  pub fine : (i : ℕ) → IsFine (d.system.pc i)
  pub main : MainInv n size d d.system.main
  pub bound :
      k
        + sum_below to_start n d.started
        + sum_below to_do n d.system.pc
        + to_close size (length d.system.pool.queue.items) d.system.main
      ≤ 4 * n + 2 * size + 2

length-get_conn :
    (s p : Pool) (conn : ℕ)
    → get_conn s ≡ some (conn, p)
    → length s.queue.items ≡ suc (length p.queue.items)
unfolding get_conn
length-get_conn s p conn g = ground arith

pub get_conn-none : (s : Pool) → get_conn s ≡ none → s.queue.items ≡ []
unfolding get_conn
get_conn-none s g = ground arith

length-release_conn :
    (s p : Pool) (conn : ℕ)
    → release_conn conn s ≡ some p
    → length p.queue.items ≡ suc (length s.queue.items)
unfolding release_conn
length-release_conn s p conn g = ground (arith, length-append s.queue.items (conn ∷ []))

module _ (m n k : ℕ) (w : World) (q : Pool) (made : create connect (pos (suc m)) w ≡ created q)
    {d : Demo} (going : Going n (suc m) k q d) where
  open going use {reach, idle, above, fine, main, bound}

  -- A worker runs only while the main thread waits for it.
  pub still_open :
      (i : ℕ) → i < n → (p : Pc) → d.system.pc i ≡ p → p ≢ outside → d.system.main ≡ open_for_use
  still_open i lt p e inside = cases d.system.main main
    where
      cases : (x : Main) → MainInv n (suc m) d x → x ≡ open_for_use
      cases open_for_use h = refl
      cases draining h = absurd (ground (arith, h i lt, inside))
      cases seen_some h = absurd (ground (arith, h.0 i lt, inside))
      cases closed h = absurd (ground (arith, h.0 i lt, inside))
      cases queue_empty h = absurd h

  begun :
      (i : ℕ) → i < n → d.started i ≡ false → d.system.pc i ≡ outside → d.system.main ≡ open_for_use
  begun i lt new out = cases d.system.main main
    where
      cases : (x : Main) → MainInv n (suc m) d x → x ≡ open_for_use
      cases open_for_use h = refl
      cases draining h = absurd (ground (arith, h i lt))
      cases seen_some h = absurd (ground (arith, h.0 i lt))
      cases closed h = absurd (ground (arith, h.0 i lt))
      cases queue_empty h = absurd h

  -- A worker's step while the main thread waits.
  worker_moves :
      (i : ℕ) (p : Pc) (t : System)
      → i < n
      → d.system.main ≡ open_for_use
      → Reach n (start q) t
      → t.pc ≡ update d.system.pc i p
      → t.main ≡ d.system.main
      → length t.pool.queue.items + has_any p
        ≡ length d.system.pool.queue.items + has_any (d.system.pc i)
      → IsFine p
      → d.system.pc i ≢ outside
      → to_do p < to_do (d.system.pc i)
      → Going n (suc m) (suc k) q (record d { system = t })
  worker_moves i p t lt is_open r moved stays items good busy less = record {
    reach = r;
    idle = λ j new. rw moved (ground (arith, idle j new, busy));
    above = λ j h. rw moved (ground (arith, above j h));
    fine = λ j. rw moved (elim (Bool-cases (i == j)) [ inl e ↦ rw e good | inr e ↦ rw e (fine j) ]);
    main =
        rw (stays, is_open)
          (rw moved
            (omega (arith, items, open_main, sum_below-update has_any n i d.system.pc p lt)));
    bound =
        rw (stays, is_open)
          (rw moved (
            omega (arith, rw is_open at bound, less, sum_below-update to_do n i d.system.pc p lt)));
  }
    where
      open_main : length d.system.pool.queue.items + sum_below has_any n d.system.pc ≡ suc m
      open_main = rw is_open at main

  pub starts :
      (i : ℕ)
      → i < n
      → d.started i ≡ false
      → d.system.pc i ≡ outside
      → Going n (suc m) (suc k) q (record {
        system = record d.system { pc = update d.system.pc i wanting };
        started = update d.started i true;
      })
  starts i lt new out = record {
    reach = Threads.next reach (asks i lt out);
    idle = λ j. ground (arith, idle j);
    above = λ j. ground (arith, above j);
    fine = λ j. elim (Bool-cases (i == j)) [ inl e ↦ rw e tt | inr e ↦ rw e (fine j) ];
    main = rw (begun i lt new out) (
        omega (
          arith,
          rw (begun i lt new out) at main,
          ap has_any out,
          sum_below-update has_any n i d.system.pc wanting lt,
        ));
    bound = omega (
      arith,
      bound,
      ap to_do out,
      ap to_start new,
      sum_below-update to_do n i d.system.pc wanting lt,
      sum_below-update to_start n i d.started true lt,
    );
  }

  -- A step of the main thread, when all workers are done.
  pub main_moves :
      (t : System)
      → Reach n (start q) t
      → t.pc ≡ d.system.pc
      → MainInv n (suc m) (record d { system = t }) t.main
      → suc (to_close (suc m) (length t.pool.queue.items) t.main)
        ≤ to_close (suc m) (length d.system.pool.queue.items) d.system.main
      → Going n (suc m) (suc k) q (record d { system = t })
  main_moves t r same after less = record {
    reach = r;
    idle = rw same idle;
    above = rw same above;
    fine = rw same fine;
    main = after;
    bound = omega (arith, bound, less, ap (sum_below to_do n) same);
  }

  pub goes :
      {t : System} (st : Step n d.system t)
      → is_inside st ≡ true
      → Going n (suc m) (suc k) q (record d { system = t })
  goes (asks i lt e) inside = absurd (ground arith)
  goes (gets i conn p lt e g) inside =
      let r = Threads.next reach (gets i conn p lt e g) in
      worker_moves i (holding conn) _ lt (still_open i lt wanting e (λ x. ground arith)) r refl refl
        (rw e (omega (arith, length-get_conn d.system.pool p conn g))) tt (rw e (λ x. ground arith))
        (rw e (omega arith))
  goes (gives_up i lt e g) inside = absurd (ground arith)
  goes (executes i conn lt e) inside =
      let mine : has conn (d.system.pc i) ≡ 1 = rw e (ground arith) in
      let runs : executed conn (execute conn d.system.pool.world) ≡ used conn =
        rw (lent_stays_open m n w q made reach i conn lt mine).1 refl in
      worker_moves i (executed conn (execute conn d.system.pool.world)) _ lt
        (still_open i lt (holding conn) e (λ x. ground arith))
        (Threads.next reach (executes i conn lt e)) refl refl (rw (runs, e) refl) (rw runs tt)
        (rw e (λ x. ground arith)) (rw (runs, e) (omega arith))
  goes (releases i conn p lt e g) inside =
      worker_moves i outside _ lt (still_open i lt (used conn) e (λ x. ground arith))
        (Threads.next reach (releases i conn p lt e g)) refl refl
        (rw e (omega (arith, length-release_conn d.system.pool p conn g))) tt
        (rw e (λ x. ground arith)) (rw e (omega arith))
  goes (begins_close e) inside = absurd (ground arith)
  goes (sees_some e g) inside =
      main_moves _ (Threads.next reach (sees_some e g)) refl (rw e at main, g) (rw e (omega arith))
  goes (drains conn p e g) inside =
      main_moves _ (Threads.next reach (drains conn p e g)) refl (rw e at main).0
        (rw e (omega (arith, length-get_conn d.system.pool p conn g)))
  goes (finds_none e g) inside = absurd ((rw e at main).1 (get_conn-none d.system.pool g))
  goes (ends_close e g) inside =
      main_moves _ (Threads.next reach (ends_close e g)) refl (rw e at main, g) (rw e (omega arith))
