-- ===== src/Prelude/Family.antt =====
-- Sums over the threads 0, …, n - 1 of a family.
use Prim.Native.Nat.{ℕ, zero, suc, ◌+◌, ◌*◌, ◌≤◌, ◌<◌}
use mathlib.Core.Path.{◌≡◌, refl, sym, subst}
use mathlib.Core.Logic.{◌≢◌, ◌⊎◌, inl, inr}
use native.Mathlib.Decide.{dec_lt, ℕ_discrete}
use native.Mathlib.Omega.{arith}
use the_grind.Prelude.Tests.{update}

module _ {ℓ} {A : Type ℓ} (weight : A → ℕ) where
  pub sum_below : ℕ → (ℕ → A) → ℕ
  sum_below zero f = 0
  sum_below (suc n) f = weight (f n) + sum_below n f

  pub sum_below_no_thread : (f : ℕ → A) → sum_below 0 f ≡ 0
  unfolding sum_below
  sum_below_no_thread f = refl

  pub sum_below-suc : (n : ℕ) (f : ℕ → A) → sum_below (suc n) f ≡ weight (f n) + sum_below n f
  unfolding sum_below
  sum_below-suc n f = refl

  pub sum_below-const :
      (n r : ℕ) (f : ℕ → A) → ((i : ℕ) → i < n → weight (f i) ≡ r) → sum_below n f ≡ n * r
  unfolding sum_below
  sum_below-const zero r f h = omega arith
  sum_below-const (suc n) r f h =
      omega (arith, h n (omega arith), sum_below-const n r f (λ i lt. h i (omega arith)))

  sum_below-update_above :
      (n i : ℕ) (f : ℕ → A) (a : A) → n ≤ i → sum_below n (update f i a) ≡ sum_below n f
  unfolding sum_below
  sum_below-update_above zero i f a h = refl
  sum_below-update_above (suc n) i f a h = ground (arith, sum_below-update_above n i f a)

  pub sum_below-update :
      (n i : ℕ) (f : ℕ → A) (a : A)
      → i < n
      → sum_below n (update f i a) + weight (f i) ≡ sum_below n f + weight a
  unfolding sum_below
  sum_below-update zero i f a h = absurd (omega arith)
  sum_below-update (suc n) i f a h = elim (ℕ_discrete i n) [
    | yes last ↦ ground (arith, sum_below-update_above n i f a)
    | no other ↦ ground (arith, sum_below-update n i f a)
  ]

  pub le-sum_below : (n i : ℕ) (f : ℕ → A) → i < n → weight (f i) ≤ sum_below n f
  unfolding sum_below
  le-sum_below zero i f h = absurd (omega arith)
  le-sum_below (suc n) i f h = elim (ℕ_discrete i n) [
    | yes last ↦ ground arith
    | no other ↦ ground (arith, le-sum_below n i f)
  ]

  pub add-le-sum_below :
      (n i j : ℕ) (f : ℕ → A) → i < n → j < n → i ≢ j → weight (f i) + weight (f j) ≤ sum_below n f
  unfolding sum_below
  add-le-sum_below zero i j f hi hj ne = absurd (omega arith)
  add-le-sum_below (suc n) i j f hi hj ne = elim (ℕ_discrete i n) [
    | yes last ↦ ground (arith, le-sum_below n j f)
    | no other ↦ elim (ℕ_discrete j n) [
      | yes last ↦ ground (arith, le-sum_below n i f)
      | no more ↦ ground (arith, add-le-sum_below n i j f)
    ]
  ]

  pub sum_below-zero : (n : ℕ) (f : ℕ → A) → ((i : ℕ) → weight (f i) ≡ 0) → sum_below n f ≡ 0
  unfolding sum_below
  sum_below-zero zero f h = refl
  sum_below-zero (suc n) f h = omega (arith, h n, sum_below-zero n f h)

  pub sum_below-update_same :
      (n i : ℕ) (f : ℕ → A) (a : A)
      → weight a ≡ weight (f i)
      → sum_below n (update f i a) ≡ sum_below n f
  sum_below-update_same n i f a e = elim (dec_lt i n) [
    | yes below ↦ omega (arith, e, sum_below-update n i f a below)
    | no above ↦ sum_below-update_above n i f a (omega arith)
  ]

  pub sum_below-le_add :
      (n : ℕ) (f g : ℕ → A)
      → ((i : ℕ) → weight (g i) ≤ weight (f i) + 1)
      → sum_below n g ≤ sum_below n f + n
  unfolding sum_below
  sum_below-le_add zero f g h = omega arith
  sum_below-le_add (suc n) f g h = omega (arith, h n, sum_below-le_add n f g h)

  -- A sum that is not zero has a thread behind it.
  pub sum_below-pos :
      (n : ℕ) (f : ℕ → A) → 0 < sum_below n f → (i : ℕ) × (i < n) × (0 < weight (f i))
  unfolding sum_below
  sum_below-pos zero f h = absurd (omega arith)
  sum_below-pos (suc n) f h = elim (dec_lt 0 (weight (f n))) [
    | yes here ↦ (n, omega arith, here)
    | no below ↦ let (i, lt, p) = sum_below-pos n f (omega arith) in (i, omega arith, p)
  ]

-- What all numbers below `n` have, or what one of them gives.
pub all_or {ℓ κ} :
    {P : ℕ → Type ℓ} {C : Type κ} (n : ℕ)
    → ((i : ℕ) → i < n → P i ⊎ C)
    → ((i : ℕ) → i < n → P i) ⊎ C
all_or zero f = inl (λ i lt. absurd (omega arith))
all_or {P} (suc n) f = elim (all_or n (λ i lt. f i (omega arith))) [
  | inr c ↦ inr c
  | inl below ↦ elim (f n (omega arith)) [
    | inr c ↦ inr c
    | inl last ↦ inl (λ i lt. elim (ℕ_discrete i n) [
      | yes e ↦ subst P (sym e) last
      | no other ↦ below i (omega arith)
    ])
  ]
]
