-- ===== src/ConditionPool/Demo/Completes.antt =====
-- The program of 02-condition-variables.py runs to its end.
use the_grind.Prelude.{
  ℕ, zero, suc, ◌+◌, ◌*◌, ◌≤◌, ◌<◌, ◌≡◌, ◌≢◌, refl, ◌⊎◌, inl, inr, Bool, true, false, List, [], ◌∷◌,
  length, update, arith, count_if-le-length, Bool-cases, Option-cases, sum_below, sum_below-update,
  sum_below-zero, all_or, sum_below-const,
}
use native.Mathlib.Decide.{dec_lt}
use the_grind.ConditionPool.{
  Pc, outside, waiting, notified, timed_out, has_conn, failed, System, pop, init, look, notify,
  return_conn, Step, Reach, borrows, resumes, returns, times_out, gives_up,
}
use the_grind.ConditionPool.Wakeups.{Patient, is_timeout, Inv, Patient-Inv, patient_wakeup, asleep}
use the_grind.ConditionPool.Wakeups
use the_grind.ConditionPool.Places.{is, has, each_conn_in_one_place}
use the_grind.ConditionPool
use the_grind.ConditionPool.Demo.{Demo, ready, DemoStep, begins, goes_on, DemoReach, here, next}

-- What a thread has still to do.
abbrev to_do : Pc → ℕ
to_do outside = 0
to_do waiting = 2
to_do notified = 3
to_do timed_out = 1
to_do (has_conn conn) = 2
to_do failed = 0

abbrev to_start : Bool → ℕ
to_start true = 0
to_start false = 4

record Going (n size k : ℕ) (d : Demo) : Type 0 where
  patient : Patient n size d.system
  idle : (i : ℕ) → d.started i ≡ false → d.system.pc i ≡ outside
  bound : k + sum_below to_start n d.started + sum_below to_do n d.system.pc ≤ 4 * n

-- A thread at the test of `borrow` does less after it: it sleeps, or has a connection.
looks :
    (n i : ℕ) (s : System)
    → i < n
    → sum_below to_do n (look i s).pc + to_do (s.pc i) ≡ sum_below to_do n s.pc + 2
unfolding look
looks n i s lt = elim (Option-cases (pop s.pool)) [
  | inl e ↦ rw (e, look) (sum_below-update to_do n i s.pc waiting lt)
  | inr ((conn, rest), e) ↦ rw (e, look) (sum_below-update to_do n i s.pc (has_conn conn) lt)
]

returned :
    (n i conn : ℕ) (s : System)
    → Inv n s
    → i < n
    → s.pc i ≡ has_conn conn
    → suc (sum_below to_do n (return_conn i conn s).pc) ≤ sum_below to_do n s.pc
unfolding return_conn notify
returned n i conn s inv lt e = cases s.waiters refl
  where
    below : (j : ℕ) → s.pc j ≡ waiting → j < n
    below j at = elim (dec_lt j n) [ yes p ↦ p | no p ↦ absurd (ground (arith, inv.above j, at)) ]

    cases :
        (l : List ℕ)
        → s.waiters ≡ l
        → suc (sum_below to_do n (return_conn i conn s).pc) ≤ sum_below to_do n s.pc
    cases [] w =
        rw (w, return_conn, notify) (ground (arith, e, sum_below-update to_do n i s.pc outside lt))
    cases (j ∷ l) w =
        let asleep_j : s.pc j ≡ waiting = ground (arith, rw w at (inv.listed j)) in
        let still : update s.pc i outside j ≡ waiting = ground (arith, asleep_j, e) in
        rw (w, return_conn, notify, still)
          (ground (
            arith,
            e,
            still,
            sum_below-update to_do n i s.pc outside lt,
            sum_below-update to_do n j (update s.pc i outside) notified (below j asleep_j),
          ))

look-other : (i j : ℕ) (s : System) → i ≢ j → (look i s).pc j ≡ s.pc j
unfolding look
look-other i j s other = elim (Option-cases (pop s.pool)) [
  | inl e ↦ rw (e, look) (ground (arith, other))
  | inr ((conn, rest), e) ↦ rw (e, look) (ground (arith, other))
]

return_conn_outside :
    (i conn j : ℕ) (s : System) → s.pc j ≡ outside → (return_conn i conn s).pc j ≡ outside
unfolding return_conn notify
return_conn_outside i conn j s out = cases s.waiters refl
  where
    cases : (l : List ℕ) → s.waiters ≡ l → (return_conn i conn s).pc j ≡ outside
    cases [] w = rw (w, return_conn, notify) (ground (arith, out))
    cases (k ∷ l) w = rw (w, return_conn, notify) (ground (arith, out))

step-Going :
    (n size k : ℕ) {d e : Demo} → DemoStep n d e → Going n size k d → Going n size (suc k) e
step-Going n size k {d} (begins i lt fresh) going =
    let at_start : d.system.pc i ≡ outside = going.idle i fresh in
    record {
      patient = Wakeups.next going.patient (borrows i lt at_start) refl;
      idle = λ j. ground (arith, going.idle j, look-other i j d.system);
      bound = ground (
        arith,
        going.bound,
        looks n i d.system lt,
        at_start,
        fresh,
        sum_below-update to_start n i d.started true lt,
      );
    }
step-Going n size k {d} (goes_on (borrows i lt e) not_borrow on_time) going = absurd (ground arith)
step-Going n size k {d} (goes_on (times_out i lt e) not_borrow on_time) going =
    absurd (ground arith)
step-Going n size k {d} (goes_on (gives_up i lt e) not_borrow on_time) going =
    absurd ((Patient-Inv n size going.patient).quiet i e)
step-Going n size k {d} (goes_on (resumes i lt e) not_borrow on_time) going = record {
  patient = Wakeups.next going.patient (resumes i lt e) refl;
  idle = λ j. ground (arith, going.idle j, look-other i j d.system, e);
  bound = ground (arith, going.bound, looks n i d.system lt, e);
}
step-Going n size k {d} (goes_on (returns i conn lt e) not_borrow on_time) going = record {
  patient = Wakeups.next going.patient (returns i conn lt e) refl;
  idle = λ j new. return_conn_outside i conn j d.system (going.idle j new);
  bound =
      omega
        (arith, going.bound, returned n i conn d.system (Patient-Inv n size going.patient) lt e);
}

DemoReach-Going : (n size k : ℕ) {d : Demo} → DemoReach n size k d → Going n size k d
unfolding ready init
DemoReach-Going n size zero here = record {
  patient = Wakeups.here;
  idle = λ i new. refl;
  bound = omega (
    arith,
    sum_below-const to_start n 4 (λ i. false) (λ i lt. refl),
    sum_below-zero to_do n (λ i. outside) (λ i. refl),
  );
}
DemoReach-Going n size (suc k) (next r st) = step-Going n size k st (DemoReach-Going n size k r)

look-failed : (i j : ℕ) (s : System) → (look i s).pc j ≡ failed → s.pc j ≡ failed
unfolding look
look-failed i j s e = elim (Option-cases (pop s.pool)) [
  | inl none_free ↦ let e' = rw (none_free, look) at e in ground arith
  | inr ((conn, rest), free) ↦ let e' = rw (free, look) at e in ground arith
]

return_conn-failed :
    (i conn j : ℕ) (s : System) → (return_conn i conn s).pc j ≡ failed → s.pc j ≡ failed
unfolding return_conn notify
return_conn-failed i conn j s e = cases s.waiters refl
  where
    cases : (l : List ℕ) → s.waiters ≡ l → s.pc j ≡ failed
    cases [] w = let e' = rw (w, return_conn, notify) at e in ground arith
    cases (k ∷ l) w = let e' = rw (w, return_conn, notify) at e in ground arith

-- While no wait runs out nobody fails.
Patient-ne-failed : (n size : ℕ) {s : System} → Patient n size s → (j : ℕ) → s.pc j ≢ failed
unfolding init
Patient-ne-failed n size Wakeups.here j e = ground arith
Patient-ne-failed n size (Wakeups.next {s} r (borrows i lt at) q) j e =
    Patient-ne-failed n size r j (look-failed i j s e)
Patient-ne-failed n size (Wakeups.next {s} r (resumes i lt at) q) j e =
    Patient-ne-failed n size r j (look-failed i j s e)
Patient-ne-failed n size (Wakeups.next {s} r (returns i conn lt at) q) j e =
    Patient-ne-failed n size r j (return_conn-failed i conn j s e)
Patient-ne-failed n size (Wakeups.next r (times_out i lt at) q) j e = ground arith
Patient-ne-failed n size (Wakeups.next r (gives_up i lt at) q) j e =
    (Patient-Inv n size r).quiet i at

Patient-Reach : (n size : ℕ) {s : System} → Patient n size s → Reach n size s
Patient-Reach n size Wakeups.here = ConditionPool.here
Patient-Reach n size (Wakeups.next r st q) = ConditionPool.next (Patient-Reach n size r) st

module _ (n size k : ℕ) {d : Demo} (r : DemoReach n size k d) where
  abbrev CanStep : Type 0
  CanStep = (e : Demo) × DemoStep n d e

  patient : Patient n size d.system
  patient = (DemoReach-Going n size k r).patient

  -- A thread that has started, and neither has a connection nor is about to take one.
  abbrev IsAtRest : ℕ → Type 0
  IsAtRest i = (d.started i ≡ true) × ((d.system.pc i ≡ outside) ⊎ (d.system.pc i ≡ waiting))

  started_rests :
      (i : ℕ) (p : Pc) → i < n → d.started i ≡ true → d.system.pc i ≡ p → IsAtRest i ⊎ CanStep
  started_rests i outside lt on e = inl (on, inl e)
  started_rests i waiting lt on e = inl (on, inr e)
  started_rests i notified lt on e = inr (_, goes_on (resumes i lt e) refl refl)
  started_rests i (has_conn conn) lt on e = inr (_, goes_on (returns i conn lt e) refl refl)
  started_rests i timed_out lt on e = absurd ((Patient-Inv n size patient).quiet i e)
  started_rests i failed lt on e = absurd (Patient-ne-failed n size patient i e)

  rests : (i : ℕ) → i < n → IsAtRest i ⊎ CanStep
  rests i lt = elim (Bool-cases (d.started i)) [
    | inl on ↦ started_rests i (d.system.pc i) lt on refl
    | inr new ↦ inr (_, begins i lt new)
  ]

  module _ (at_rest : (i : ℕ) → i < n → IsAtRest i) where
    none_held : (c : ℕ) → sum_below (has c) n d.system.pc ≡ 0
    unfolding has
    none_held c = sum_below-zero (has c) n d.system.pc (λ i. elim (dec_lt i n) [
      | yes lt ↦ elim (at_rest i lt).1 [ inl e ↦ rw e refl | inr e ↦ rw e refl ]
      | no above ↦ rw ((Patient-Inv n size patient).above i (omega arith)) refl
    ])

    some_free : 0 < size → 0 < length d.system.pool
    some_free pos = ground (
      arith,
      each_conn_in_one_place n size (Patient-Reach n size patient) 0,
      none_held 0,
      count_if-le-length (is 0) d.system.pool,
    )

    -- While a thread sleeps another one has been woken up.
    awake :
        0 < size → (i : ℕ) → i < n → ((d.started i ≡ true) × (d.system.pc i ≡ outside)) ⊎ CanStep
    awake pos i lt = elim (at_rest i lt).1 [
      | inl out ↦ inl ((at_rest i lt).0, out)
      | inr sleeps ↦
          let (j, lt', woken) = patient_wakeup n size patient i sleeps (some_free pos) in
          inr (_, goes_on (resumes j lt' woken) refl refl)
    ]

  -- In every state of the demo with a pool of one connection at least in which no wait has run
  -- out, every thread has borrowed a connection and returned it, or some thread can take a step
  -- that is not the end of a wait; and the run had four steps for each thread at most. So all of
  -- them come to their end.
  pub demo_completes :
      0 < size
      → (((i : ℕ) → i < n → (d.started i ≡ true) × (d.system.pc i ≡ outside))
          ⊎ ((e : Demo) × DemoStep n d e))
        × (k ≤ 4 * n)
  demo_completes pos = (
    elim (all_or n rests) [ inr step ↦ inr step | inl at_rest ↦ all_or n (awake at_rest pos) ],
    omega (arith, (DemoReach-Going n size k r).bound),
  )
