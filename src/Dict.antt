-- ===== src/Dict.antt =====
-- Python's `dict` with text keys, in insertion order: a new key goes to the end, a write to an
-- old key keeps its place, `del` of a missing key fails (KeyError).
use the_grind.Prelude.{
  ℕ, suc, length, ◌+◌, ◌≤◌, String, ◌≡◌, refl, subst, Option, none, some, List, [], ◌∷◌, ◌++◌, Bool,
  false, arith, str_eq, eq_iff, eq_refl, if◌then◌else◌, count_if, inl, inr, Bool-cases,
  Option-cases,
}
use mathlib.Core.Option

abbrev pub Dict {ℓ} : Type ℓ → Type ℓ
Dict V = List (String × V)

module _ {ℓ} {V : Type ℓ} where
  -- d.get(k)
  unfoldable pub lookup : String → Dict V → Option V
  lookup k [] = none
  lookup k ((j, v) ∷ d) = if str_eq j k then some v else lookup k d

  -- d[k] = v
  unfoldable pub insert : String → V → Dict V → Dict V
  insert k v [] = (k, v) ∷ []
  insert k v ((j, w) ∷ d) = if str_eq j k then (j, v) ∷ d else (j, w) ∷ insert k v d

  -- del d[k]
  unfoldable pub delete : String → Dict V → Option (Dict V)
  delete k [] = none
  delete k ((j, v) ∷ d) = if str_eq j k then some d else Option.map (◌∷◌ (j, v)) (delete k d)

  -- for k in ks: del d[k]
  unfoldable pub delete_all : List String → Dict V → Option (Dict V)
  delete_all [] d = some d
  delete_all (k ∷ ks) d = elim (delete k d) [ none ↦ none | some d' ↦ delete_all ks d' ]

  abbrev pub count_key : String → Dict V → ℕ
  count_key k d = count_if (λ e. str_eq e.0 k) d

  -- A key stands once at most.
  abbrev pub HasDistinctKeys : Dict V → Type 0
  HasDistinctKeys d = (k : String) → count_key k d ≤ 1

  pub lookup_absent : (k : String) (d : Dict V) → count_key k d ≡ 0 → lookup k d ≡ none
  unfolding lookup
  lookup_absent k [] h = refl
  lookup_absent k ((j, v) ∷ d) h = ground (arith, lookup_absent k d)

  pub insert_absent :
      (k : String) (v : V) (d : Dict V) → count_key k d ≡ 0 → insert k v d ≡ d ++ (k, v) ∷ []
  unfolding insert
  insert_absent k v [] h = refl
  insert_absent k v ((j, w) ∷ d) h = ground (arith, insert_absent k v d)

  pub delete_absent : (k : String) (d : Dict V) → count_key k d ≡ 0 → delete k d ≡ none
  unfolding delete
  delete_absent k [] h = refl
  delete_absent k ((j, v) ∷ d) h = ground (arith, delete_absent k d)

  -- Nothing but the looked up entry leaves the dictionary.
  pub count_if-delete :
      (p : String × V → Bool) (k : String) (v : V) (d d' : Dict V)
      → lookup k d ≡ some v
      → delete k d ≡ some d'
      → count_if p d ≡ count_if p d' + count_if p ((k, v) ∷ [])
  unfolding lookup delete
  count_if-delete p k v [] d' h e = ground arith
  count_if-delete p k v ((j, w) ∷ d) d' h e = elim (Option-cases (delete k d)) [
    | inl gone ↦ ground (arith, eq_iff j k)
    | inr (r, left) ↦ ground (arith, eq_iff j k, count_if-delete p k v d r)
  ]

  pub length-delete :
      (k : String) (d d' : Dict V) → delete k d ≡ some d' → length d ≡ suc (length d')
  unfolding delete
  length-delete k [] d' e = ground arith
  length-delete k ((j, w) ∷ d) d' e = elim (Option-cases (delete k d)) [
    | inl gone ↦ ground arith
    | inr (r, left) ↦ ground (arith, length-delete k d r left)
  ]

  -- A key that is there is deleted, and one that is not is KeyError.
  pub lookup-delete :
      (k : String) (v : V) (d : Dict V)
      → lookup k d ≡ some v
      → (d' : Dict V) × (delete k d ≡ some d')
  unfolding lookup delete
  lookup-delete k v [] h = ground arith
  lookup-delete k v ((j, w) ∷ d) h = elim (Bool-cases (str_eq j k)) [
    | inl hit ↦ (d, rw hit)
    | inr miss ↦ let (r, e) = lookup-delete k v d (rw miss at h) in ((j, w) ∷ r, rw (miss, e))
  ]

  -- Only the deleted key goes.
  pub lookup-delete_ne :
      (k j : String) (d d' : Dict V)
      → str_eq k j ≡ false
      → delete k d ≡ some d'
      → lookup j d' ≡ lookup j d
  unfolding lookup delete
  lookup-delete_ne k j [] d' h e = ground arith
  lookup-delete_ne k j ((i, w) ∷ d) d' h e = elim (Option-cases (delete k d)) [
    | inl gone ↦ ground (arith, eq_iff i k, eq_iff i j, eq_iff k j)
    | inr (r, left) ↦ ground (arith, eq_iff i k, eq_iff i j, eq_iff k j, lookup-delete_ne k j d r)
  ]

  -- The deletions of a batch skip an entry whose key is not in the batch.
  pub delete_all-cons :
      (k : String) (v : V) (ks : List String) (d : Dict V)
      → count_if (λ j. str_eq j k) ks ≡ 0
      → delete_all ks ((k, v) ∷ d) ≡ Option.map (◌∷◌ (k, v)) (delete_all ks d)
  unfolding delete_all delete
  delete_all-cons k v [] d h = refl
  delete_all-cons k v (j ∷ ks) d h = elim (Option-cases (delete j d)) [
    | inl gone ↦ ground (arith, eq_iff j k, eq_iff k j)
    | inr (r, left) ↦ ground (arith, eq_iff j k, eq_iff k j, delete_all-cons k v ks r)
  ]

  pub delete_all-cons_self :
      (k : String) (v : V) (ks : List String) (d : Dict V)
      → delete_all (k ∷ ks) ((k, v) ∷ d) ≡ delete_all ks d
  unfolding delete_all delete
  delete_all-cons_self k v ks d = rw (eq_refl k, delete_all)

  pub delete_of_lookup-none : (k : String) (d : Dict V) → lookup k d ≡ none → delete k d ≡ none
  unfolding lookup delete
  delete_of_lookup-none k [] h = refl
  delete_of_lookup-none k ((j, v) ∷ d) h = ground (arith, delete_of_lookup-none k d)

  pub lookup-insert :
      (k j : String) (v : V) (d : Dict V)
      → lookup j (insert k v d) ≡ (if str_eq k j then some v else lookup j d)
  unfolding lookup insert
  lookup-insert k j v [] = refl
  lookup-insert k j v ((i, w) ∷ d) =
      ground (arith, eq_iff k j, eq_iff i k, eq_iff i j, lookup-insert k j v d)

  count_key-insert-le :
      (k j : String) (v : V) (d : Dict V)
      → count_key j (insert k v d) ≤ count_key j d + (if str_eq k j then 1 else 0)
  unfolding insert
  count_key-insert-le k j v [] = ground arith
  count_key-insert-le k j v ((i, w) ∷ d) =
      ground (arith, eq_iff k j, eq_iff i k, eq_iff i j, count_key-insert-le k j v d)

  count_key-insert_self :
      (k : String) (v : V) (d : Dict V) → count_key k d ≤ 1 → count_key k (insert k v d) ≤ 1
  unfolding insert
  count_key-insert_self k v [] h = ground arith
  count_key-insert_self k v ((i, w) ∷ d) h = ground (arith, eq_iff i k, count_key-insert_self k v d)

  pub HasDistinctKeys-insert :
      (k : String) (v : V) (d : Dict V) → HasDistinctKeys d → HasDistinctKeys (insert k v d)
  HasDistinctKeys-insert k v d h j = elim (Bool-cases (str_eq k j)) [
    | inl e ↦
        subst (λ i. count_key i (insert k v d) ≤ 1) ((eq_iff k j).0 e)
          (count_key-insert_self k v d (h k))
    | inr e ↦ ground (arith, h j, count_key-insert-le k j v d)
  ]
