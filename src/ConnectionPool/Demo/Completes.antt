-- ===== src/ConnectionPool/Demo/Completes.antt =====
-- The program of connection-pooling/pool.py runs to its end.
use the_grind.Prelude.{
  ℕ, zero, suc, ◌+◌, ◌*◌, ◌≤◌, ◌<◌, ◌≡◌, refl, ap, inl, inr, pos, true, false, List, [], ◌∷◌,
  length, arith, Bool-cases, Option-cases, sum_below-zero, sum_below-const, sum_below-pos, all_or,
  ◌⊎◌,
}
use native.Mathlib.Decide.{dec_lt}
use the_grind.ConnectionPool.{World, Pool, connect, create, created, get_conn}
use the_grind.ConnectionPool.Create.{is_fresh, length-fresh_ids}
use the_grind.ConnectionPool.Threads.{
  Pc, outside, wanting, holding, used, timed_out, crashed, Main, open_for_use, draining, seen_some,
  closed, queue_empty, System, executed, Step, asks, gets, gives_up, executes, releases,
  begins_close, sees_some, drains, finds_none, ends_close, Reach, start,
}
use the_grind.ConnectionPool.Places.{has_any, created_Filled, Reach-Inv}
use the_grind.ConnectionPool.Sharing.{release_never_blocks, closed_at_the_end}
use the_grind.ConnectionPool.Threads
use the_grind.ConnectionPool.Demo.{
  Demo, AllDone, DemoStep, begins, joins, goes_on, DemoReach, here, next,
}
use the_grind.ConnectionPool.Demo.Progress.{
  Going, to_do, to_start, get_conn-none, still_open, starts, main_moves, goes,
}

module _ (m n : ℕ) (w : World) (q : Pool) (made : create connect (pos (suc m)) w ≡ created q) where
  step-Going :
      (k : ℕ) {d e : Demo} → DemoStep n d e → Going n (suc m) k q d → Going n (suc m) (suc k) q e
  step-Going k (begins i lt new out) going = starts m n k w q made going i lt new out
  step-Going k {d} (joins e all) going =
      main_moves m n k w q made going _ (Threads.next going.reach (begins_close e)) refl all
        (rw e (omega (arith, (Reach-Inv m n w q made going.reach).room)))
  step-Going k (goes_on st inside) going = goes m n k w q made going st inside

  DemoReach-Going : (k : ℕ) {d : Demo} → DemoReach n q k d → Going n (suc m) k q d
  DemoReach-Going zero here = record {
    reach = Threads.here;
    idle = λ i new. refl;
    above = λ i h. refl;
    fine = λ i. tt;
    main = omega (
      arith,
      ap length (created_Filled m w q made).items,
      length-fresh_ids w.counter (suc m),
      sum_below-zero has_any n (λ i. outside) (λ i. refl),
    );
    bound = omega (
      arith,
      sum_below-const to_start n 4 (λ i. false) (λ i lt. refl),
      sum_below-zero to_do n (λ i. outside) (λ i. refl),
    );
  }
  DemoReach-Going (suc k) (next r st) = step-Going k st (DemoReach-Going k r)

  module _ (k : ℕ) {d : Demo} (r : DemoReach n q k d) where
    abbrev CanStep : Type 0
    CanStep = (e : Demo) × DemoStep n d e

    going : Going n (suc m) k q d
    going = DemoReach-Going k r

    -- A worker that has started, and has no connection.
    abbrev IsEmptyHanded : ℕ → Type 0
    IsEmptyHanded i = (d.started i ≡ true) × ((d.system.pc i ≡ outside) ⊎ (d.system.pc i ≡ wanting))

    started_goes_on :
        (i : ℕ) (p : Pc)
        → i < n
        → d.started i ≡ true
        → d.system.pc i ≡ p
        → IsEmptyHanded i ⊎ CanStep
    started_goes_on i outside lt on e = inl (on, inl e)
    started_goes_on i wanting lt on e = inl (on, inr e)
    started_goes_on i (holding conn) lt on e = inr (_, goes_on (executes i conn lt e) refl)
    started_goes_on i (used conn) lt on e =
        let (p, room) = release_never_blocks m n w q made going.reach i conn lt (rw e refl) in
        inr (_, goes_on (releases i conn p lt e room) refl)
    started_goes_on i timed_out lt on e = absurd (rw e at (going.fine i))
    started_goes_on i (crashed conn) lt on e = absurd (rw e at (going.fine i))

    worker_goes_on : (i : ℕ) → i < n → IsEmptyHanded i ⊎ CanStep
    worker_goes_on i lt = elim (Bool-cases (d.started i)) [
      | inl on ↦ started_goes_on i (d.system.pc i) lt on refl
      | inr new ↦ inr (_, begins i lt new (going.idle i new))
    ]

    -- While nobody has a connection there is one for a worker that wants it.
    gets_one :
        ((i : ℕ) → i < n → IsEmptyHanded i)
        → (i : ℕ) → i < n
        → ((d.started i ≡ true) × (d.system.pc i ≡ outside)) ⊎ CanStep
    gets_one empty_handed i lt = elim (empty_handed i lt).1 [
      | inl out ↦ inl ((empty_handed i lt).0, out)
      | inr e ↦ elim (Option-cases (get_conn d.system.pool)) [
        | inr ((conn, p), g) ↦ inr (_, goes_on (gets i conn p lt e g) refl)
        | inl g ↦
            let is_open = still_open m n k w q made going i lt wanting e (λ x. ground arith) in
            let (j, lt', some_held) = sum_below-pos has_any n d.system.pc (
              omega (arith, rw is_open at going.main, ap length (get_conn-none d.system.pool g))) in
            absurd (elim (empty_handed j lt').1 [
              | inl out ↦ omega (arith, rw out at some_held)
              | inr wants ↦ omega (arith, rw wants at some_held)
            ])
      ]
    ]

    -- After the workers `close` goes on to its end.
    closes :
        AllDone n d
        → (x : Main) → d.system.main ≡ x
        → ((d.system.main ≡ closed) × (d.system.pool.queue.items ≡ [])) ⊎ CanStep
    closes done open_for_use e = inr (_, joins e done)
    closes done draining e = tests d.system.pool.queue.items refl
      where
        tests :
            (l : List ℕ)
            → d.system.pool.queue.items ≡ l
            → ((d.system.main ≡ closed) × (d.system.pool.queue.items ≡ [])) ⊎ CanStep
        tests [] none_left = inr (_, goes_on (ends_close e none_left) refl)
        tests (x ∷ l) more = inr (_, goes_on (sees_some e (λ z. ground arith)) refl)
    closes done seen_some e = elim (Option-cases (get_conn d.system.pool)) [
      | inl g ↦ inr (_, goes_on (finds_none e g) refl)
      | inr ((conn, p), g) ↦ inr (_, goes_on (drains conn p e g) refl)
    ]
    closes done closed e = inl (e, (rw e at going.main).1)
    closes done queue_empty e = absurd (rw e at going.main)

    all_closed :
        AllDone n d
        → d.system.pool.queue.items ≡ []
        → (conn : ℕ) → is_fresh w.counter (suc m) conn ≡ true
        → d.system.pool.world.closed conn ≡ true
    all_closed done none_left = closed_at_the_end m n w q made going.reach none_left idle
      where
        idle : (i : ℕ) → has_any (d.system.pc i) ≡ 0
        idle i = elim (dec_lt i n) [
          | yes lt ↦ rw (done i lt).1 refl
          | no above ↦ rw (going.above i (omega arith)) refl
        ]

    -- The workers have run to their end, `close` has returned, and every connection of the pool is
    -- closed.
    abbrev IsOver : Type 0
    IsOver =
        AllDone n d
        × (d.system.main ≡ closed)
        × ((conn : ℕ)
            → is_fresh w.counter (suc m) conn ≡ true
            → d.system.pool.world.closed conn ≡ true)

    all_done : AllDone n d ⊎ CanStep
    all_done = elim (all_or n worker_goes_on) [
      | inr step ↦ inr step
      | inl empty_handed ↦ all_or n (gets_one empty_handed)
    ]

    ends : AllDone n d → IsOver ⊎ CanStep
    ends done = elim (closes done d.system.main refl) [
      | inr step ↦ inr step
      | inl (end, none_left) ↦ inl (done, end, all_closed done none_left)
    ]

    -- In every state of the program in which no wait has run out, either every worker has run to
    -- its end without an exception, `close` has returned and every connection of the pool is
    -- closed, or some thread can take a step that is not the end of a wait; and the run had four
    -- steps for each worker and two for each connection, and two more, at most. So the program
    -- comes to its end.
    pub program_completes : (IsOver ⊎ ((e : Demo) × DemoStep n d e)) × (k ≤ 4 * n + 2 * suc m + 2)
    program_completes =
        (elim all_done [ inl done ↦ ends done | inr step ↦ inr step ], omega (arith, going.bound))
