-- ===== src/KvStore/Status.antt =====
-- The status line of a statement, such as `UPDATE 1` or `DELETE 42`, as texts of character codes,
-- and the two ways in which kv-store/app/main.py reads it.
use the_grind.Prelude.{
  ℕ, zero, suc, ◌+◌, ◌/◌, ◌%◌, ◌≤◌, String, ◌≡◌, refl, ap, ◌∙◌, Bool, true, false, ◌&&◌, ◌||◌,
  Option, none, some, List, [], ◌∷◌, ◌++◌, arith, ltb, leb, ◌==◌, if◌then◌else◌, Bool-cases, inl,
  inr, All, append_assoc, append-nil,
}
use mathlib.Core.Option
use the_grind.Text.{codes, decimal, decimal_fuel, int_from, int_from-decimal}

-- `verb count`
abbrev pub status_line : String → ℕ → List ℕ
status_line verb n = codes verb ++ 32 ∷ decimal n

-- `a == b` on texts
same_text : List ℕ → List ℕ → Bool
same_text [] [] = true
same_text [] (y ∷ ys) = false
same_text (x ∷ xs) [] = false
same_text (x ∷ xs) (y ∷ ys) = x == y && same_text xs ys

-- ASCII white space, at which `str.split()` splits
is_space : ℕ → Bool
is_space c = c == 32 || (leb 9 c && leb c 13) || (leb 28 c && leb c 31)

abbrev close_word : List ℕ → List (List ℕ) → List (List ℕ)
close_word [] ws = ws
close_word (c ∷ w) ws = (c ∷ w) ∷ ws

-- `text.split()` after the word `w`: a run of white space ends a word and makes none.
split_from : List ℕ → List ℕ → List (List ℕ)
split_from w [] = close_word w []
split_from w (c ∷ cs) =
    let within = split_from (w ++ c ∷ []) cs in
    let after = split_from [] cs in if is_space c then close_word w after else within

abbrev last? {ℓ} : {A : Type ℓ} → List A → Option A
last? [] = none
last? (x ∷ []) = some x
last? (x ∷ y ∷ l) = last? (y ∷ l)

abbrev int_of : List ℕ → Option ℕ
unfolding int_from
int_of [] = none
int_of (c ∷ cs) = int_from 0 (c ∷ cs)

-- `int(result.split()[-1])`
pub row_count : List ℕ → Option ℕ
unfolding split_from is_space int_from
row_count text = Option.bind (last? (split_from [] text)) int_of

-- `result == "UPDATE 0"`
pub is_update_zero : List ℕ → Bool
unfolding same_text
is_update_zero text = same_text text (codes "UPDATE 0")

abbrev IsDigits : List ℕ → Type 0
IsDigits = All (λ c. (48 ≤ c) × (c ≤ 57))

IsDigits-append : (xs ys : List ℕ) → IsDigits xs → IsDigits ys → IsDigits (xs ++ ys)
IsDigits-append [] ys hx hy = hy
IsDigits-append (x ∷ xs) ys hx hy = (hx.0, IsDigits-append xs ys hx.1 hy)

decimal_fuel-IsDigits : (f n : ℕ) → IsDigits (decimal_fuel f n)
unfolding decimal_fuel
decimal_fuel-IsDigits zero n = tt
decimal_fuel-IsDigits (suc f) n = elim (Bool-cases (ltb n 10)) [
  | inl e ↦ rw e (ground arith, tt)
  | inr e ↦ rw e (IsDigits-append _ _ (decimal_fuel-IsDigits f (n / 10)) (omega arith, tt))
]

digit_not_space : (d : ℕ) → 48 ≤ d → is_space d ≡ false
unfolding is_space
digit_not_space d lo = ground arith

split_from-digits : (w ds : List ℕ) → IsDigits ds → split_from w ds ≡ close_word (w ++ ds) []
unfolding split_from
split_from-digits w [] h = rw (append-nil w)
split_from-digits w (d ∷ ds) h =
    rw (digit_not_space d h.0.0, split_from-digits (w ++ d ∷ []) ds h.1)
      (ap (λ (v : List ℕ). close_word v []) (append_assoc w (d ∷ []) ds))

decimal_fuel-cons : (f n : ℕ) → (c : ℕ) × (cs : List ℕ) × (decimal_fuel (suc f) n ≡ c ∷ cs)
unfolding decimal_fuel
decimal_fuel-cons f n = elim (Bool-cases (ltb n 10)) [
  | inl e ↦ (48 + n, [], rw e)
  | inr e ↦ rw e (append-cons (decimal_fuel f (n / 10)) (48 + n % 10))
]
  where
    append-cons : (xs : List ℕ) (x : ℕ) → (c : ℕ) × (cs : List ℕ) × (xs ++ x ∷ [] ≡ c ∷ cs)
    append-cons [] x = (x, [], refl)
    append-cons (y ∷ ys) x = (y, ys ++ x ∷ [], refl)

decimal-cons : (n : ℕ) → (c : ℕ) × (cs : List ℕ) × (decimal n ≡ c ∷ cs)
unfolding decimal
decimal-cons n = decimal_fuel-cons n n

int_of-decimal : (n : ℕ) → int_of (decimal n) ≡ some n
unfolding decimal int_of int_from
int_of-decimal n =
    let (c, cs, e) = decimal_fuel-cons n n in
    rw e (rw e at (int_from-decimal (suc n) n (omega arith)))

-- The last word of a line that ends in digits.
last?-split :
    (w ds : List ℕ) (c : ℕ) (cs : List ℕ)
    → IsDigits ds
    → ds ≡ c ∷ cs
    → last? (w ∷ split_from [] ds) ≡ some ds
last?-split w ds c cs h e = rw (split_from-digits [] ds h, e)

same_text-long :
    (xs : List ℕ) (x y c : ℕ) (cs : List ℕ)
    → xs ≡ c ∷ cs
    → same_text (xs ++ x ∷ []) (y ∷ []) ≡ false
unfolding same_text
same_text-long xs x y c [] e = rw e (ground arith)
same_text-long xs x y c (d ∷ ds) e = rw e (ground arith)

-- The count that the cleanup reads out of `DELETE n` is `n`.
pub row_count-delete : (n : ℕ) → row_count (status_line "DELETE" n) ≡ some n
unfolding row_count Option.bind
row_count-delete n =
    let (c, cs, e) = decimal-cons n in
    rw
      (
        row_count,
        last?-split (codes "DELETE") (decimal n) c cs
            (unfold decimal in decimal_fuel-IsDigits (suc n) n) e,
      )
      (int_of-decimal n)

-- The test for `UPDATE 0` passes exactly on a count of zero.
pub is_update_zero-update : (n : ℕ) → is_update_zero (status_line "UPDATE" n) ≡ (n == 0)
unfolding is_update_zero decimal
is_update_zero-update n = elim (Bool-cases (ltb n 10)) [
  | inl e ↦ rw e (ground arith)
  | inr e ↦ rw e (two_digits n e)
]
  where
    two_digits :
        (m : ℕ)
        → ltb m 10 ≡ false
        → same_text (decimal_fuel m (m / 10) ++ (48 + m % 10) ∷ []) (48 ∷ []) ≡ (m == 0)
    two_digits zero e = ground arith
    two_digits (suc m) e =
        let (c, cs, e') = decimal_fuel-cons m (suc m / 10) in
        same_text-long (decimal_fuel (suc m) (suc m / 10)) (48 + suc m % 10) 48 c cs e'
        ∙ ground arith
