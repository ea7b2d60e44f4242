-- ===== src/Counters/Bounds.antt =====
-- What the threads without a lock of 01-threads-and-locks.py can leave in the counter.
use the_grind.Prelude.{ℕ, ◌*◌, ◌≤◌, ◌<◌, ◌≡◌, ◌⊎◌, refl, inl, inr, some, arith}
use native.Mathlib.Decide.{dec_lt}
use the_grind.Counters.Unsafe.{System, init, reads, writes, Reach, here, next, unsafe_at_most}

-- The last round that ended was a thread's first, if the counter is still below 2.
record Low (n : ℕ) (s : System) : Type 0 where
  counted : (j : ℕ) → 0 < s.done j → 0 < s.counter
  held_counted : (j v : ℕ) → s.held j ≡ some v → 0 < s.done j → 0 < v
  last : (2 ≤ s.counter) ⊎ ((i : ℕ) → s.done i ≡ 0) ⊎ ((i : ℕ) × (i < n) × (s.done i ≡ 1))

Reach-Low : (n rounds : ℕ) {s : System} → Reach n rounds init s → Low n s
unfolding init
Reach-Low n rounds here = record {
  counted = λ j lt. absurd (omega arith);
  held_counted = λ j v e. absurd (ground arith);
  last = inr (inl (λ i. refl));
}
Reach-Low n rounds (next {t} r (reads i lt left e)) =
    let low = Reach-Low n rounds r in
    record {
      counted = low.counted;
      held_counted = λ j v. ground (arith, low.counted j, low.held_counted j v);
      last = low.last;
    }
Reach-Low n rounds (next {t} r (writes i v lt e)) =
    let low = Reach-Low n rounds r in
    record {
      counted = λ j pos. omega arith;
      held_counted = λ j u. ground (arith, low.held_counted j u);
      last = elim (dec_lt 0 (t.done i)) [
        | yes again ↦ inl (omega (arith, low.held_counted i v e again))
        | no first ↦ inr (inr (i, lt, ground arith))
      ];
    }

-- Once all threads without the lock, one at least, have done their rounds, two at least, the
-- counter is 2 or more, and at most the number of threads times the rounds.
pub unsafe_between :
    (n rounds : ℕ) {s : System}
    → 0 < n
    → 2 ≤ rounds
    → Reach n rounds init s
    → ((i : ℕ) → i < n → s.done i ≡ rounds)
    → (2 ≤ s.counter) × (s.counter ≤ n * rounds)
unsafe_between n rounds {s} some_thread two r all = (
  elim (Reach-Low n rounds r).last [
    | inl enough ↦ enough
    | inr rest ↦ elim rest [
      | inl none_done ↦ absurd (omega (arith, none_done 0, all 0 some_thread))
      | inr (i, lt, one) ↦ absurd (omega (arith, all i lt))
    ]
  ],
  unsafe_at_most n rounds r all,
)
