-- ===== src/Prelude/Bags.antt =====
-- Lists up to their order.
use Prim.Native.Nat.{ℕ, ◌+◌}
use mathlib.Core.Path.{◌≡◌}
use mathlib.Core.Bool.{Bool}
use mathlib.Core.List.{List, ◌++◌}
use mathlib.Core.Quot
use mathlib.Core.Quot.{Quot, Quot-set}
use native.Mathlib.Nat.{ℕ_set}
use native.Mathlib.Omega.{arith}
use the_grind.Prelude.Lists.{count_if, count_if-append}

module _ {ℓ} {A : Type ℓ} where
  -- They hold the same items, as often.
  abbrev pub SameItems : List A → List A → Type ℓ
  SameItems xs ys = (p : A → Bool) → count_if p xs ≡ count_if p ys

abbrev pub Bag {ℓ} : Type ℓ → Type ℓ
Bag A = Quot (SameItems {A = A})

module _ {ℓ} {A : Type ℓ} where
  abbrev pub bag : List A → Bag A
  bag xs = Quot.mk xs

  pub bag-eq : (xs ys : List A) → SameItems xs ys → bag xs ≡ bag ys
  bag-eq xs ys h = Quot.sound h

  abbrev pub number : (A → Bool) → Bag A → ℕ
  number p = Quot.lift ℕ_set (count_if p) (λ xs ys h. h p)

  SameItems-append : (ms xs ys : List A) → SameItems xs ys → SameItems (ms ++ xs) (ms ++ ys)
  SameItems-append ms xs ys h p =
      omega (arith, count_if-append p ms xs, count_if-append p ms ys, h p)

  -- A bag with these items added.
  pub add : List A → Bag A → Bag A
  add ms =
      Quot.lift Quot-set (λ xs. bag (ms ++ xs))
        (λ xs ys h. bag-eq (ms ++ xs) (ms ++ ys) (SameItems-append ms xs ys h))

  pub bag-add :
      (ms xs ys : List A)
      → ((p : A → Bool) → count_if p ys ≡ count_if p ms + count_if p xs)
      → bag ys ≡ add ms (bag xs)
  unfolding add
  bag-add ms xs ys h = bag-eq ys (ms ++ xs) (λ p. omega (arith, h p, count_if-append p ms xs))
