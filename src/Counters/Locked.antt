-- ===== src/Counters/Locked.antt =====
-- The threads of `increment_safe` of 01-threads-and-locks.py, with the steps of `with lock:
-- counter += 1`.
use the_grind.Prelude.{
  ℕ, zero, suc, ◌+◌, ◌≤◌, ◌<◌, ◌≡◌, refl, ap, ◌⊎◌, Option, none, some, update, arith, inl, inr,
  Option-cases, sum_below, sum_below-update, sum_below-zero, sum_below-const, sum_below_no_thread,
  sum_below-suc,
}
use Prim.Native.Nat.{◌*◌}
use native.Mathlib.Decide.{dec_lt}

-- Where a thread stands in a round of its loop.
pub data Pc : Type 0 where
  idle : Pc  -- before `with lock`
  locked : Pc
  has_read : ℕ → Pc  -- it has read the counter
  wrote : Pc  -- it has written the counter, and still has the lock

pub record System : Type 0 where
  pub counter : ℕ
  pub lock : Option ℕ  -- the thread that has it
  pub done : ℕ → ℕ  -- the rounds of the loop that each thread has behind it
  pub pc : ℕ → Pc

unfoldable pub init : System
init = record { counter = 0; lock = none; done = λ i. 0; pc = λ i. idle }

-- `n` threads with a loop of `rounds` rounds each
pub data Step (n rounds : ℕ) (s : System) : System → Type 0 where
  acquires :
      (i : ℕ)
      → i < n
      → s.done i < rounds
      → s.pc i ≡ idle
      → s.lock ≡ none
      → Step n rounds s (record s { lock = some i; pc = update s.pc i locked })
  reads :
      (i : ℕ)
      → i < n
      → s.pc i ≡ locked
      → Step n rounds s (record s { pc = update s.pc i (has_read s.counter) })
  writes :
      (i v : ℕ)
      → i < n
      → s.pc i ≡ has_read v
      → Step n rounds s (record s { counter = v + 1; pc = update s.pc i wrote })
  releases :
      (i : ℕ)
      → i < n
      → s.pc i ≡ wrote
      → Step n rounds s
          (record s { lock = none; done = update s.done i (s.done i + 1); pc = update s.pc i idle })

-- The states after a number of steps.
pub data Reach (n rounds : ℕ) : ℕ → System → Type 0 where
  here : Reach n rounds 0 init
  next : {k : ℕ} {s t : System} → Reach n rounds k s → Step n rounds s t → Reach n rounds (suc k) t

abbrev stage : Pc → ℕ
stage idle = 0
stage locked = 1
stage (has_read v) = 2
stage wrote = 3

abbrev written : Pc → ℕ
written wrote = 1
written _ = 0

abbrev busy : Pc → ℕ
busy idle = 0
busy _ = 1

abbrev same : ℕ → ℕ
same m = m

record Inv (n rounds k : ℕ) (s : System) : Type 0 where
  total : s.counter ≡ sum_below same n s.done + sum_below written n s.pc
  holder : (j : ℕ) → 0 < busy (s.pc j) → s.lock ≡ some j
  owned : (j : ℕ) → s.lock ≡ some j → (j < n) × (0 < busy (s.pc j))
  fresh : (j v : ℕ) → s.pc j ≡ has_read v → v ≡ s.counter
  within : (j : ℕ) → s.done j + busy (s.pc j) ≤ rounds
  steps : k ≡ 4 * sum_below same n s.done + sum_below stage n s.pc

Step-Inv :
    (n rounds k : ℕ) {s t : System} → Step n rounds s t → Inv n rounds k s → Inv n rounds (suc k) t
Step-Inv n rounds k {s} (acquires i lt below e free) inv = record {
  total = ground (arith, inv.total, sum_below-update written n i s.pc locked lt);
  holder = λ j. ground (arith, inv.holder j);
  owned = λ j. ground (arith, inv.owned j);
  fresh = λ j v. ground (arith, inv.fresh j v);
  within = λ j. ground (arith, inv.within j);
  steps = ground (arith, inv.steps, sum_below-update stage n i s.pc locked lt);
}
Step-Inv n rounds k {s} (reads i lt e) inv = record {
  total = ground (arith, inv.total, sum_below-update written n i s.pc (has_read s.counter) lt);
  holder = λ j. ground (arith, inv.holder j);
  owned = λ j. ground (arith, inv.owned j);
  fresh = λ j v. ground (arith, inv.fresh j v);
  within = λ j. ground (arith, inv.within j);
  steps = ground (arith, inv.steps, sum_below-update stage n i s.pc (has_read s.counter) lt);
}
Step-Inv n rounds k {s} (writes i v lt e) inv = record {
  total = ground (arith, inv.total, inv.fresh i v, sum_below-update written n i s.pc wrote lt);
  holder = λ j. ground (arith, inv.holder j);
  owned = λ j. ground (arith, inv.owned j);
  fresh = λ j u. ground (arith, inv.fresh j u, inv.holder i, inv.holder j);
  within = λ j. ground (arith, inv.within j);
  steps = ground (arith, inv.steps, sum_below-update stage n i s.pc wrote lt);
}
Step-Inv n rounds k {s} (releases i lt e) inv = record {
  total = ground (
    arith,
    inv.total,
    sum_below-update written n i s.pc idle lt,
    sum_below-update same n i s.done (s.done i + 1) lt,
  );
  holder = λ j. ground (arith, inv.holder j, inv.holder i);
  owned = λ j. ground (arith, inv.owned j);
  fresh = λ j v. ground (arith, inv.fresh j v);
  within = λ j. ground (arith, inv.within j, inv.within i);
  steps = ground (
    arith,
    inv.steps,
    sum_below-update stage n i s.pc idle lt,
    sum_below-update same n i s.done (s.done i + 1) lt,
  );
}

Reach-Inv : (n rounds k : ℕ) {s : System} → Reach n rounds k s → Inv n rounds k s
unfolding init
Reach-Inv n rounds zero here = record {
  total = omega (
    arith,
    sum_below-zero same n (λ i. 0) (λ i. refl),
    sum_below-zero written n (λ i. idle) (λ i. refl),
  );
  holder = λ j h. absurd (omega arith);
  owned = λ j e. absurd (ground arith);
  fresh = λ j v e. absurd (ground arith);
  within = λ j. omega arith;
  steps = omega (
    arith,
    sum_below-zero same n (λ i. 0) (λ i. refl),
    sum_below-zero stage n (λ i. idle) (λ i. refl),
  );
}
Reach-Inv n rounds (suc k) (next r st) = Step-Inv n rounds k st (Reach-Inv n rounds k r)

-- A thread with rounds left, or all threads have had them all.
left_or_done :
    (n rounds : ℕ) (done : ℕ → ℕ)
    → ((i : ℕ) × (i < n) × (done i < rounds)) ⊎ ((i : ℕ) → i < n → rounds ≤ done i)
left_or_done zero rounds done = inr (λ i h. absurd (omega arith))
left_or_done (suc n) rounds done = elim (dec_lt (done n) rounds) [
  | yes left ↦ inl (n, omega arith, left)
  | no none_left ↦ elim (left_or_done n rounds done) [
    | inl (i, lt, left) ↦ inl (i, omega arith, left)
    | inr all ↦ inr (λ i h. ground (arith, all i))
  ]
]

-- The lock's holder can go on, and while the lock is free any thread with rounds left can.
goes_on :
    (n rounds k : ℕ) {s : System}
    → Inv n rounds k s
    → ((t : System) × Step n rounds s t)
      ⊎ (((i : ℕ) → i < n → s.done i ≡ rounds) × ((i : ℕ) → s.pc i ≡ idle))
goes_on n rounds k {s} inv = elim (Option-cases s.lock) [
  | inr (i, has) ↦ let (lt, on) = inv.owned i has in inl (holder_goes_on i (s.pc i) lt on refl)
  | inl free ↦ elim (left_or_done n rounds s.done) [
    | inl (i, lt, left) ↦ inl (_, acquires i lt left (ground (arith, rest i free)) free)
    | inr all ↦ inr (λ i lt. ground (arith, all i, inv.within i), λ i. rest i free)
  ]
]
  where
    holder_goes_on :
        (i : ℕ) (p : Pc) → i < n → 0 < busy p → s.pc i ≡ p → (t : System) × Step n rounds s t
    holder_goes_on i idle lt on e = absurd (omega arith)
    holder_goes_on i locked lt on e = (_, reads i lt e)
    holder_goes_on i (has_read v) lt on e = (_, writes i v lt e)
    holder_goes_on i wrote lt on e = (_, releases i lt e)

    rest : (i : ℕ) → s.lock ≡ none → s.pc i ≡ idle
    rest i free = ground (arith, inv.holder i)

sum_below-le :
    (n r : ℕ) (f : ℕ → ℕ) (pc : ℕ → Pc)
    → ((i : ℕ) → f i + busy (pc i) ≤ r)
    → 4 * sum_below same n f + sum_below stage n pc ≤ 4 * (n * r)
sum_below-le zero r f pc h = omega (arith, sum_below_no_thread same f, sum_below_no_thread stage pc)
sum_below-le (suc n) r f pc h =
    ground (arith, h n, sum_below-suc same n f, sum_below-suc stage n pc, sum_below-le n r f pc h)

-- A run of the threads with the lock has at most four steps for each round of each thread.
locked_ends : (n rounds k : ℕ) {s : System} → Reach n rounds k s → k ≤ 4 * (n * rounds)
locked_ends n rounds k {s} r =
    let inv = Reach-Inv n rounds k r in
    omega (arith, inv.steps, sum_below-le n rounds s.done s.pc inv.within)

-- In every state that the threads with the lock reach, a thread can take a step, or the counter is
-- the number of threads times the rounds and the run took four steps for each of them; it never
-- takes more. So the threads come to their end, with no deadlock before it, and lose no update.
pub locked_exact :
    (n rounds k : ℕ) {s : System}
    → Reach n rounds k s
    → (((t : System) × Step n rounds s t) ⊎ ((s.counter ≡ n * rounds) × (k ≡ 4 * (n * rounds))))
      × (k ≤ 4 * (n * rounds))
locked_exact n rounds k {s} r = (
  elim (goes_on n rounds k inv) [
    | inl step ↦ inl step
    | inr (all, at_rest) ↦
        let sum = sum_below-const same n rounds s.done all in
        inr (
          omega
              (arith, inv.total, sum, sum_below-zero written n s.pc (λ i. ap written (at_rest i))),
          omega (arith, inv.steps, sum, sum_below-zero stage n s.pc (λ i. ap stage (at_rest i))),
        )
  ],
  locked_ends n rounds k r,
)
  where
    inv : Inv n rounds k s
    inv = Reach-Inv n rounds k r
