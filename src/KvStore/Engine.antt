-- ===== src/KvStore/Engine.antt =====
-- PostgreSQL behind asyncpg, which the repository does not contain: what the four SQL statements of
-- kv-store/app/main.py do to the table `store`, as documented. Each statement is atomic.
use the_grind.Prelude.{
  ℕ, ◌-◌, ◌≤◌, min, String, ◌≡◌, ◌⊎◌, Bool, true, false, Option, none, some, List, str_eq,
  if◌then◌else◌,
}
use mathlib.Core.Option
use the_grind.KvStore.Models.{Row}
use the_grind.KvStore.Status.{status_line}

abbrev pub matches : (Row → Bool) → Option Row → ℕ
matches p none = 0
matches p (some r) = if p r then 1 else 0

pub record Engine : Type 1 where
  pub Table : Type 0
  -- the row under a primary key
  pub find? : Table → String → Option Row
  -- how many rows satisfy a condition
  pub count_where : (Row → Bool) → Table → ℕ
  -- the values fit the columns (VARCHAR(255), TEXT, BIGINT); otherwise the statement raises
  pub fits : String → Row → Bool
  -- INSERT ... ON CONFLICT (key) DO UPDATE
  pub upsert : String → Row → Table → Table
  -- UPDATE ... WHERE key = k AND p, with the number of rows updated
  pub update_where : String → (Row → Bool) → (Row → Row) → Table → Table × ℕ
  -- DELETE ... WHERE ctid IN (SELECT ctid ... WHERE p LIMIT n), with the number of rows deleted
  pub delete_where : (Row → Bool) → ℕ → Table → Table × ℕ
  -- the command tag that asyncpg returns for a statement that touched n rows
  pub status : String → ℕ → List ℕ
  pub status_lem : (verb : String) (n : ℕ) → status verb n ≡ status_line verb n
  pub find-upsert :
      (k j : String) (r : Row) (t : Table)
      → find? (upsert k r t) j ≡ (if str_eq k j then some r else find? t j)
  pub find-update :
      (k j : String) (p : Row → Bool) (f : Row → Row) (t : Table)
      → find? (update_where k p f t).0 j
        ≡ (if str_eq k j then Option.map (λ r. if p r then f r else r) (find? t j) else find? t j)
  pub count-update :
      (k : String) (p : Row → Bool) (f : Row → Row) (t : Table)
      → (update_where k p f t).1 ≡ matches p (find? t k)
  -- a deletion takes whole rows, and only such as satisfy the condition
  pub find-delete :
      (p : Row → Bool) (n : ℕ) (t : Table) (j : String)
      → (find? (delete_where p n t).0 j ≡ find? t j)
        ⊎ ((r : Row) × (find? t j ≡ some r)
            × (p r ≡ true)
            × (find? (delete_where p n t).0 j ≡ none))
  -- it takes as many as there are, up to the limit
  pub count-delete :
      (p : Row → Bool) (n : ℕ) (t : Table) → (delete_where p n t).1 ≡ min n (count_where p t)
  -- so it lowers the count of any condition that these rows satisfy
  pub count_where-delete :
      (p q : Row → Bool)
      → ((r : Row) → q r ≡ true → p r ≡ true)
      → (n : ℕ) (t : Table)
      → count_where p (delete_where q n t).0 ≡ count_where p t - (delete_where q n t).1
  -- and raises none
  pub count_where-delete-le :
      (p q : Row → Bool) (n : ℕ) (t : Table)
      → count_where p (delete_where q n t).0 ≤ count_where p t
  pub count_where-le :
      (p q : Row → Bool)
      → ((r : Row) → q r ≡ true → p r ≡ true)
      → (t : Table) → count_where q t ≤ count_where p t
  -- no row is counted only if no key has one
  pub count_where-zero :
      (p : Row → Bool) (t : Table) (j : String) (r : Row)
      → count_where p t ≡ 0
      → find? t j ≡ some r
      → p r ≡ false
