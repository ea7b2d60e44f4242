-- ===== src/Counters/Unsafe.antt =====
-- The threads of `increment_unsafe` of 01-threads-and-locks.py: `counter += 1` reads the counter,
-- adds one and writes, and other threads may run between the read and the write.
use the_grind.Prelude.{
  ℕ, zero, suc, ◌+◌, ◌*◌, ◌≤◌, ◌<◌, ◌≡◌, ◌≢◌, refl, Option, none, some, update, arith, sum_below,
  sum_below-update, sum_below-const,
}

pub record System : Type 0 where
  pub counter : ℕ
  pub done : ℕ → ℕ  -- the rounds of the loop that each thread has behind it
  pub held : ℕ → Option ℕ  -- what a thread has read and not written back yet

unfoldable pub init : System
init = record { counter = 0; done = λ i. 0; held = λ i. none }

abbrev pub reading : ℕ → System → System
reading i s = record s { held = update s.held i (some s.counter) }

abbrev pub writing : ℕ → ℕ → System → System
writing i v s = record {
  counter = v + 1;
  done = update s.done i (s.done i + 1);
  held = update s.held i none;
}

-- `n` threads with a loop of `rounds` rounds each
pub data Step (n rounds : ℕ) (s : System) : System → Type 0 where
  reads : (i : ℕ) → i < n → s.done i < rounds → s.held i ≡ none → Step n rounds s (reading i s)
  writes : (i v : ℕ) → i < n → s.held i ≡ some v → Step n rounds s (writing i v s)

pub data Reach (n rounds : ℕ) (s : System) : System → Type 0 where
  here : Reach n rounds s s
  next : {t u : System} → Reach n rounds s t → Step n rounds t u → Reach n rounds s u

abbrev same : ℕ → ℕ
same m = m

record Inv (n : ℕ) (s : System) : Type 0 where
  total : s.counter ≤ sum_below same n s.done
  held_below : (j v : ℕ) → s.held j ≡ some v → v ≤ sum_below same n s.done

Reach-Inv : (n rounds : ℕ) {s : System} → Reach n rounds init s → Inv n s
unfolding init
Reach-Inv n rounds here = record {
  total = omega arith;
  held_below = λ j v e. absurd (ground arith);
}
Reach-Inv n rounds (next {t} r (reads i lt left e)) =
    let inv = Reach-Inv n rounds r in
    record { total = inv.total; held_below = λ j v. ground (arith, inv.total, inv.held_below j v) }
Reach-Inv n rounds (next {t} r (writes i v lt e)) =
    let inv = Reach-Inv n rounds r in
    let more = sum_below-update same n i t.done (t.done i + 1) lt in
    record {
      total = omega (arith, more, inv.held_below i v e);
      held_below = λ j u. ground (arith, more, inv.held_below j u);
    }

-- Without the lock the counter never exceeds the number of rounds that the threads have done, and
-- is at most the number of threads times the rounds once all have done theirs.
pub unsafe_at_most :
    (n rounds : ℕ) {s : System}
    → Reach n rounds init s
    → ((i : ℕ) → i < n → s.done i ≡ rounds)
    → s.counter ≤ n * rounds
unsafe_at_most n rounds {s} r all =
    omega (arith, (Reach-Inv n rounds r).total, sum_below-const same n rounds s.done all)

joined :
    (n rounds : ℕ) {s t u : System} → Reach n rounds s t → Reach n rounds t u → Reach n rounds s u
joined n rounds r here = r
joined n rounds r (next q st) = next (joined n rounds r q) st

-- Thread `i` alone does `k` rounds of its loop.
alone :
    (n rounds i k : ℕ) (s : System)
    → i < n
    → s.done i + k ≤ rounds
    → s.held i ≡ none
    → (t : System) × Reach n rounds s t
      × (t.counter ≡ s.counter + k)
      × (t.done i ≡ s.done i + k)
      × (t.held i ≡ none)
      × ((j : ℕ) → j ≢ i → (t.done j ≡ s.done j) × (t.held j ≡ s.held j))
alone n rounds i zero s lt fits e = (s, here, omega arith, omega arith, e, λ j ne. (refl, refl))
alone n rounds i (suc k) s lt fits e =
    let (t, r, counted, did, idle, others) = alone n rounds i k s lt (omega arith) e in
    (
      writing i t.counter (reading i t),
      next (next r (reads i lt (omega arith) idle)) (writes i t.counter lt (ground arith)),
      omega arith,
      ground arith,
      ground arith,
      λ j ne. (ground (arith, others j ne), ground (arith, others j ne)),
    )

-- Two threads with any positive number `suc m` of rounds each can both finish and leave the
-- counter at 2: all other updates are lost.
pub lost_updates :
    (m : ℕ)
    → (s : System) × Reach 2 (suc m) init s
      × (s.counter ≡ 2)
      × (s.done 0 ≡ suc m)
      × (s.done 1 ≡ suc m)
unfolding init
lost_updates m =
    let a = reading 0 init in
    let (b, to_b, count_b, did_b, idle_b, others_b) =
      alone 2 (suc m) 1 m a (omega arith) (omega arith) refl in
    let (still_b, held_b) = others_b 0 (ground arith) in
    let c = reading 1 (writing 0 0 b) in
    let (d, to_d, count_d, did_d, idle_d, others_d) =
      alone 2 (suc m) 0 m c (omega arith) (omega (arith, still_b)) refl in
    let (still_d, held_d) = others_d 1 (ground arith) in
    let to_a : Reach 2 (suc m) init a = next here (reads 0 (omega arith) (omega arith) refl) in
    let to_c : Reach 2 (suc m) init c =
      next (next (joined 2 (suc m) to_a to_b) (writes 0 0 (omega arith) held_b))
        (reads 1 (omega arith) (omega (arith, did_b)) idle_b) in
    (
      writing 1 1 d,
      next (joined 2 (suc m) to_c to_d) (writes 1 1 (omega arith) held_d),
      refl,
      omega (arith, did_d, still_b),
      omega (arith, still_d, did_b),
    )
