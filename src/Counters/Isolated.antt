-- ===== src/Counters/Isolated.antt =====
-- The threads of `increment_isolated` of 01-threads-and-locks.py, which share only the list of
-- results.
use the_grind.Prelude.{
  ℕ, zero, suc, ◌+◌, ◌*◌, ◌<◌, ◌≡◌, refl, ap, ◌∙◌, inl, inr, Bool, true, false, Option, none, some,
  List, [], ◌∷◌, ◌==◌, length, get_elem?, if◌then◌else◌, update, arith, Option-cases,
}
use mathlib.Core.Option

pub record System : Type 0 where
  pub results : List ℕ
  pub done : ℕ → ℕ
  pub local_counter : ℕ → ℕ
  pub stored : ℕ → Bool

abbrev zeros : ℕ → List ℕ
zeros zero = []
zeros (suc n) = 0 ∷ zeros n

-- `results = [0, 0]` for two threads
unfoldable pub init : ℕ → System
init n = record { results = zeros n; done = λ i. 0; local_counter = λ i. 0; stored = λ i. false }

-- `results[index] = value`; `none` is IndexError
unfoldable pub set_elem : List ℕ → ℕ → ℕ → Option (List ℕ)
set_elem [] index value = none
set_elem (x ∷ xs) zero value = some (value ∷ xs)
set_elem (x ∷ xs) (suc index) value = Option.map (◌∷◌ x) (set_elem xs index value)

-- `sum(results)`
pub sum : List ℕ → ℕ
sum [] = 0
sum (x ∷ xs) = x + sum xs

pub data Step (n rounds : ℕ) (s : System) : System → Type 0 where
  adds :
      (i : ℕ)
      → i < n
      → s.done i < rounds
      → Step n rounds s (record s {
        done = update s.done i (s.done i + 1);
        local_counter = update s.local_counter i (s.local_counter i + 1);
      })
  stores :
      (i : ℕ) (results : List ℕ)
      → i < n
      → s.done i ≡ rounds
      → s.stored i ≡ false
      → set_elem s.results i (s.local_counter i) ≡ some results
      → Step n rounds s (record s { results = results; stored = update s.stored i true })

pub data Reach (n rounds : ℕ) : System → Type 0 where
  here : Reach n rounds (init n)
  next : {s t : System} → Reach n rounds s → Step n rounds s t → Reach n rounds t

get_elem?-set_elem :
    (xs ys : List ℕ) (i j value : ℕ)
    → set_elem xs i value ≡ some ys
    → get_elem? ys j ≡ (if i == j then some value else get_elem? xs j)
unfolding set_elem
get_elem?-set_elem [] ys i j value e = absurd (ground arith)
get_elem?-set_elem (x ∷ xs) ys zero zero value e = ground arith
get_elem?-set_elem (x ∷ xs) ys zero (suc j) value e = ground arith
get_elem?-set_elem (x ∷ xs) ys (suc i) j value e = elim (Option-cases (set_elem xs i value)) [
  | inl missing ↦ absurd (ground arith)
  | inr (zs, there) ↦ deeper j zs there (λ k. get_elem?-set_elem xs zs i k value there)
]
  where
    deeper :
        (j : ℕ) (zs : List ℕ)
        → set_elem xs i value ≡ some zs
        → ((k : ℕ) → get_elem? zs k ≡ (if i == k then some value else get_elem? xs k))
        → get_elem? ys j ≡ (if suc i == j then some value else get_elem? (x ∷ xs) j)
    deeper zero zs there rec = ground arith
    deeper (suc j) zs there rec = ground (arith, rec j)

length-set_elem :
    (xs ys : List ℕ) (i value : ℕ) → set_elem xs i value ≡ some ys → length ys ≡ length xs
unfolding set_elem
length-set_elem [] ys i value e = absurd (ground arith)
length-set_elem (x ∷ xs) ys zero value e = ground arith
length-set_elem (x ∷ xs) ys (suc i) value e = elim (Option-cases (set_elem xs i value)) [
  | inl missing ↦ absurd (ground arith)
  | inr (zs, there) ↦ ground (arith, length-set_elem xs zs i value there)
]

sum-const :
    (r : ℕ) (xs : List ℕ)
    → ((j : ℕ) → j < length xs → get_elem? xs j ≡ some r)
    → sum xs ≡ length xs * r
unfolding sum
sum-const r [] h = omega arith
sum-const r (x ∷ xs) h =
    let first : some x ≡ some r = h 0 (omega arith) in
    let it : x ≡ r = cc in omega (arith, it, sum-const r xs (λ j lt. h (suc j) (omega arith)))

length-zeros : (n : ℕ) → length (zeros n) ≡ n
length-zeros zero = refl
length-zeros (suc n) = ap suc (length-zeros n)

record Inv (n rounds : ℕ) (s : System) : Type 0 where
  size : length s.results ≡ n
  kept : (j : ℕ) → s.local_counter j ≡ s.done j
  result : (j : ℕ) → s.stored j ≡ true → get_elem? s.results j ≡ some rounds

Reach-Inv : (n rounds : ℕ) {s : System} → Reach n rounds s → Inv n rounds s
unfolding init
Reach-Inv n rounds here = record {
  size = length-zeros n;
  kept = λ j. refl;
  result = λ j e. absurd (ground arith);
}
Reach-Inv n rounds (next {s = t} r (adds i lt left)) =
    let inv = Reach-Inv n rounds r in
    record { size = inv.size; kept = λ j. ground (arith, inv.kept j); result = inv.result }
Reach-Inv n rounds (next {s = t} r (stores i results lt all new e)) =
    let inv = Reach-Inv n rounds r in
    record {
      size = omega (arith, inv.size, length-set_elem t.results results i (t.local_counter i) e);
      kept = inv.kept;
      result = λ j. ground (
        arith,
        inv.kept i,
        inv.result j,
        get_elem?-set_elem t.results results i j (t.local_counter i) e,
      );
    }

-- In every state that the threads with local counters reach and in which each of them has stored
-- its result, the results add up to the number of threads times the rounds.
pub isolated_exact :
    (n rounds : ℕ) {s : System}
    → Reach n rounds s
    → ((i : ℕ) → i < n → s.stored i ≡ true)
    → sum s.results ≡ n * rounds
isolated_exact n rounds {s} r all =
    let inv = Reach-Inv n rounds r in
    sum-const rounds s.results (λ j lt. inv.result j (all j (omega (arith, inv.size))))
    ∙ ap (λ (m : ℕ). m * rounds) inv.size
