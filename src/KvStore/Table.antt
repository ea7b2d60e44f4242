-- ===== src/KvStore/Table.antt =====
-- A table that meets the laws of `Engine`: rows in the order of their insertion, with distinct
-- keys.
use mathlib.Core.Option
use the_grind.Prelude.{
  ℕ, zero, suc, ◌-◌, ◌≤◌, min, String, ◌≡◌, refl, ◌⊎◌, inl, inr, ◌&&◌, Bool, true, false, none,
  some, [], ◌∷◌, arith, str_eq, eq_iff, if◌then◌else◌, Bool-cases, count_if,
}
use the_grind.Dict.{
  Dict, count_key, HasDistinctKeys, lookup, insert, lookup_absent, lookup-insert,
  HasDistinctKeys-insert,
}
use the_grind.KvStore.Models.{Row}
use the_grind.KvStore.Status.{status_line}
use the_grind.KvStore.Engine.{Engine, matches}

pub record Rows : Type 0 where
  pub rows : Dict Row
  pub distinct : HasDistinctKeys rows

unfoldable pub update_rows : String → (Row → Bool) → (Row → Row) → Dict Row → Dict Row
update_rows k p f [] = []
update_rows k p f ((j, r) ∷ d) = (j, if str_eq j k && p r then f r else r) ∷ update_rows k p f d

pub updated : String → (Row → Bool) → Dict Row → ℕ
updated k p d = count_if (λ e. str_eq e.0 k && p e.1) d

unfoldable pub prune : (Row → Bool) → ℕ → Dict Row → Dict Row
prune p n [] = []
prune p zero (e ∷ d) = e ∷ d
prune p (suc n) ((k, r) ∷ d) =
    let rest = prune p (suc n) d in let fewer = prune p n d in if p r then fewer else (k, r) ∷ rest

abbrev pub count_rows : (Row → Bool) → Dict Row → ℕ
count_rows p d = count_if (λ e. p e.1) d

count_key-update :
    (k j : String) (p : Row → Bool) (f : Row → Row) (d : Dict Row)
    → count_key j (update_rows k p f d) ≡ count_key j d
unfolding update_rows
count_key-update k j p f [] = refl
count_key-update k j p f ((i, r) ∷ d) = ground (arith, count_key-update k j p f d)

pub lookup-update :
    (k j : String) (p : Row → Bool) (f : Row → Row) (d : Dict Row)
    → lookup j (update_rows k p f d)
      ≡ (if str_eq k j then Option.map (λ r. if p r then f r else r) (lookup j d) else lookup j d)
unfolding update_rows lookup
lookup-update k j p f [] = ground arith
lookup-update k j p f ((i, r) ∷ d) =
    ground (arith, eq_iff k j, eq_iff i k, eq_iff i j, lookup-update k j p f d)

updated_absent :
    (k : String) (p : Row → Bool) (d : Dict Row) → count_key k d ≡ 0 → updated k p d ≡ 0
unfolding updated
updated_absent k p [] h = refl
updated_absent k p ((j, r) ∷ d) h = ground (arith, updated_absent k p d)

pub updated-matches :
    (k : String) (p : Row → Bool) (d : Dict Row)
    → count_key k d ≤ 1
    → updated k p d ≡ matches p (lookup k d)
unfolding updated lookup
updated-matches k p [] h = refl
updated-matches k p ((j, r) ∷ d) h = ground (arith, updated_absent k p d, updated-matches k p d)

count_key-prune-le :
    (p : Row → Bool) (n : ℕ) (j : String) (d : Dict Row) → count_key j (prune p n d) ≤ count_key j d
unfolding prune
count_key-prune-le p n j [] = omega arith
count_key-prune-le p zero j (e ∷ d) = omega arith
count_key-prune-le p (suc n) j ((k, r) ∷ d) =
    ground (arith, count_key-prune-le p (suc n) j d, count_key-prune-le p n j d)

pub count_rows-le :
    (p q : Row → Bool)
    → ((r : Row) → q r ≡ true → p r ≡ true)
    → (d : Dict Row) → count_rows q d ≤ count_rows p d
count_rows-le p q imp [] = omega arith
count_rows-le p q imp ((k, r) ∷ d) = ground (arith, count_rows-le p q imp d, imp r)

pub count_rows-prune :
    (p q : Row → Bool)
    → ((r : Row) → q r ≡ true → p r ≡ true)
    → (n : ℕ) (d : Dict Row) → count_rows p (prune q n d) ≡ count_rows p d - min n (count_rows q d)
unfolding prune
count_rows-prune p q imp n [] = omega arith
count_rows-prune p q imp zero (e ∷ d) = omega arith
count_rows-prune p q imp (suc n) ((k, r) ∷ d) = ground (
  arith,
  imp r,
  count_rows-le p q imp d,
  count_rows-prune p q imp (suc n) d,
  count_rows-prune p q imp n d,
)

pub count_rows-prune-le :
    (p q : Row → Bool) (n : ℕ) (d : Dict Row) → count_rows p (prune q n d) ≤ count_rows p d
unfolding prune
count_rows-prune-le p q n [] = omega arith
count_rows-prune-le p q zero (e ∷ d) = omega arith
count_rows-prune-le p q (suc n) ((k, r) ∷ d) =
    ground (arith, count_rows-prune-le p q (suc n) d, count_rows-prune-le p q n d)

pub lookup-prune :
    (p : Row → Bool) (n : ℕ) (d : Dict Row) (j : String)
    → count_key j d ≤ 1
    → (lookup j (prune p n d) ≡ lookup j d)
      ⊎ ((r : Row) × (lookup j d ≡ some r) × (p r ≡ true) × (lookup j (prune p n d) ≡ none))
unfolding prune lookup
lookup-prune p n [] j h = inl refl
lookup-prune p zero (e ∷ d) j h = inl refl
lookup-prune p (suc n) ((k, r) ∷ d) j h = elim (Bool-cases (p r)) [
  | inl hit ↦ rw hit (elim (Bool-cases (str_eq k j)) [
    | inl same ↦ rw same (inr (r, refl, hit, lookup_absent j (prune p n d) (pruned same)))
    | inr other ↦ rw other (lookup-prune p n d j (omega arith))
  ])
  | inr miss ↦ rw miss (elim (Bool-cases (str_eq k j)) [
    | inl same ↦ rw same (inl refl)
    | inr other ↦ rw other (lookup-prune p (suc n) d j (omega arith))
  ])
]
  where
    pruned : str_eq k j ≡ true → count_key j (prune p n d) ≡ 0
    pruned same = ground (arith, count_key-prune-le p n j d)

pub count_rows-zero :
    (p : Row → Bool) (d : Dict Row) (j : String) (r : Row)
    → count_rows p d ≡ 0
    → lookup j d ≡ some r
    → p r ≡ false
unfolding lookup
count_rows-zero p [] j r z e = absurd (ground arith)
count_rows-zero p ((k, w) ∷ d) j r z e = ground (arith, count_rows-zero p d j r)

pub HasDistinctKeys-update :
    (k : String) (p : Row → Bool) (f : Row → Row) (d : Dict Row)
    → HasDistinctKeys d
    → HasDistinctKeys (update_rows k p f d)
HasDistinctKeys-update k p f d h j = omega (arith, h j, count_key-update k j p f d)

pub HasDistinctKeys-prune :
    (p : Row → Bool) (n : ℕ) (d : Dict Row) → HasDistinctKeys d → HasDistinctKeys (prune p n d)
HasDistinctKeys-prune p n d h j = omega (arith, h j, count_key-prune-le p n j d)

abbrev pub empty : Rows
empty = record { rows = []; distinct = λ k. omega arith }

abbrev pub rows_engine : Engine
rows_engine = record {
  Table = Rows;
  find? = λ t k. lookup k t.rows;
  count_where = λ p t. count_rows p t.rows;
  fits = λ k r. true;
  upsert = λ k r t. record {
    rows = insert k r t.rows;
    distinct = HasDistinctKeys-insert k r t.rows t.distinct;
  };
  update_where = λ k p f t. (
    record {
      rows = update_rows k p f t.rows;
      distinct = HasDistinctKeys-update k p f t.rows t.distinct;
    },
    updated k p t.rows,
  );
  delete_where = λ p n t. (
    record { rows = prune p n t.rows; distinct = HasDistinctKeys-prune p n t.rows t.distinct },
    min n (count_rows p t.rows),
  );
  status = status_line;
  status_lem = λ verb n. refl;
  find-upsert = λ k j r t. lookup-insert k j r t.rows;
  find-update = λ k j p f t. lookup-update k j p f t.rows;
  count-update = λ k p f t. updated-matches k p t.rows (t.distinct k);
  find-delete = λ p n t j. lookup-prune p n t.rows j (t.distinct j);
  count-delete = λ p n t. refl;
  count_where-delete = λ p q imp n t. count_rows-prune p q imp n t.rows;
  count_where-delete-le = λ p q n t. count_rows-prune-le p q n t.rows;
  count_where-le = λ p q imp t. count_rows-le p q imp t.rows;
  count_where-zero = λ p t j r. count_rows-zero p t.rows j r;
}
