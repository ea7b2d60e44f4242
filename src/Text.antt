-- ===== src/Text.antt =====
-- Texts as lists of character codes, and Python's `str` of a number that is not negative and `int`
-- of a text.
use Prim.Native.Char.{code}
use the_grind.Prelude.{
  ◌-◌, ◌*◌, ◌≤◌, ◌<◌, ◌≡◌, refl, ap, ◌&&◌, Bool, true, Option, none, some, arith, leb, Bool-cases,
  inl, inr, ℕ, zero, suc, ◌+◌, ◌/◌, ◌%◌, String, List, [], ◌∷◌, ◌++◌, ltb, if◌then◌else◌,
}

abbrev pub codes : String → List ℕ
codes String.[] = []
codes (String.◌∷◌ c s) = code c ∷ codes s

-- The decimal digits of a number, with fuel.
unfoldable pub decimal_fuel : ℕ → ℕ → List ℕ
decimal_fuel zero n = []
decimal_fuel (suc f) n =
    let front = decimal_fuel f (n / 10) in
    if ltb n 10 then (48 + n) ∷ [] else front ++ (48 + n % 10) ∷ []

unfoldable pub decimal : ℕ → List ℕ
unfolding decimal_fuel
decimal n = decimal_fuel (suc n) n

-- `int(text)` on a text of digits; `none` is ValueError. (Signs, blanks and underscores, which
-- `int` also reads, do not occur in a count.)
unfoldable pub int_from : ℕ → List ℕ → Option ℕ
int_from n [] = some n
int_from n (c ∷ cs) = if leb 48 c && leb c 57 then int_from (n * 10 + (c - 48)) cs else none

int_from-append :
    (n : ℕ) (xs : List ℕ) (m c : ℕ)
    → int_from n xs ≡ some m
    → 48 ≤ c
    → c ≤ 57
    → int_from n (xs ++ c ∷ []) ≡ some (m * 10 + (c - 48))
unfolding int_from
int_from-append n [] m c e lo hi = ground arith
int_from-append n (x ∷ xs) m c e lo hi = elim (Bool-cases (leb 48 x && leb x 57)) [
  | inl digit ↦ rw digit (int_from-append (n * 10 + (x - 48)) xs m c (rw digit at e) lo hi)
  | inr other ↦ absurd (ground arith)
]

pub int_from-decimal : (f n : ℕ) → n < f → int_from 0 (decimal_fuel f n) ≡ some n
unfolding decimal_fuel
int_from-decimal zero n h = absurd (omega arith)
int_from-decimal (suc f) n h = elim (Bool-cases (ltb n 10)) [
  | inl e ↦ rw e (unfold int_from in ground arith)
  | inr e ↦
      rw
        (
          e,
          int_from-append 0 (decimal_fuel f (n / 10)) (n / 10) (48 + n % 10)
              (int_from-decimal f (n / 10) (ground arith)) (omega arith) (omega arith),
        )
        (ap some (omega arith))
]

pub decimal-injective : (m n : ℕ) → decimal m ≡ decimal n → m ≡ n
unfolding decimal
decimal-injective m n e =
    let found_m = int_from-decimal (suc m) m (omega arith) in
    let found_n = int_from-decimal (suc n) n (omega arith) in
    ground (arith, ap (int_from 0) e, found_m, found_n)

unfoldable pub is_ascii : List ℕ → Bool
is_ascii [] = true
is_ascii (c ∷ cs) = ltb c 128 && is_ascii cs

pub is_ascii-append :
    (xs ys : List ℕ) → is_ascii xs ≡ true → is_ascii ys ≡ true → is_ascii (xs ++ ys) ≡ true
unfolding is_ascii
is_ascii-append [] ys a b = b
is_ascii-append (x ∷ xs) ys a b = ground (arith, a, is_ascii-append xs ys, b)

is_ascii-decimal_fuel : (f n : ℕ) → is_ascii (decimal_fuel f n) ≡ true
unfolding decimal_fuel is_ascii
is_ascii-decimal_fuel zero n = refl
is_ascii-decimal_fuel (suc f) n = elim (Bool-cases (ltb n 10)) [
  | inl e ↦ rw e (ground arith)
  | inr e ↦ rw e (
      is_ascii-append (decimal_fuel f (n / 10)) _ (is_ascii-decimal_fuel f (n / 10)) (ground arith))
]

pub is_ascii-decimal : (n : ℕ) → is_ascii (decimal n) ≡ true
unfolding decimal
is_ascii-decimal n = is_ascii-decimal_fuel (suc n) n
