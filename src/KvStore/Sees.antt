-- ===== src/KvStore/Sees.antt =====
-- When the primary's table of kv-store/app/main.py shows the map of KvStore/Requests.antt.
use mathlib.Core.Option
use the_grind.Prelude.{
  ℕ, ◌≤◌, String, ◌≡◌, refl, inl, inr, false, Option, none, some, ℤ, pos, ◌+ℤ◌, eq_ℤ, if◌then◌else◌,
  str_eq, arith, Bool-cases,
}
use the_grind.KvStore.Models.{PutRequest, Row}
use the_grind.KvStore.Engine.{Engine}
use the_grind.KvStore.Handlers.{expire_at, is_alive, alive_only, select_row}
use the_grind.KvStore.Replies.{written_row, select-upsert, alive_row}
use the_grind.KvStore.Deletes.{after_update, select-deleted}
use the_grind.KvStore.Cleanup.{pruned, select-pruned}
use the_grind.KvStore.Requests.{
  put, Entry, Store, visible, assign, deadline_of, entry_of, HasTrueDeadline,
}

-- A row, read by the meaning of its `expire_at`.
abbrev pub meaning : Option Row → Option Entry
meaning none = none
meaning (some r) = some (record {
  value = r.value;
  deadline = if eq_ℤ r.expire_at (pos 0) then none else some r.expire_at;
})

abbrev pub value_of : Option Row → Option String
value_of o = Option.map (λ (r : Row). r.value) o

pub alive-meaning :
    (now : ℕ) (o : Option Row) → value_of (alive_only now o) ≡ visible now (meaning o)
unfolding alive_only is_alive
alive-meaning now none = refl
alive-meaning now (some r) = ground arith

written_lem :
    (E : Engine) (key : String) (body : PutRequest) (now later : ℕ)
    → HasTrueDeadline (put key body) now
    → value_of (alive_row E later (written_row E body now))
      ≡ visible later (some (entry_of body now))
unfolding is_alive expire_at
written_lem E key body now later h = cases body.ttl h
  where
    cases :
        (ttl : Option ℤ)
        → ((t : ℤ) → ttl ≡ some t → eq_ℤ t (pos 0) ≡ false → eq_ℤ (pos now +ℤ t) (pos 0) ≡ false)
        → value_of
            (alive_row E later (record { value = body.value; expire_at = expire_at now ttl }))
          ≡ visible later (some (record { value = body.value; deadline = deadline_of now ttl }))
    cases none h = ground arith
    cases (some t) h = elim (Bool-cases (eq_ℤ t (pos 0))) [
      | inl zero_ttl ↦ rw zero_ttl (ground arith)
      | inr other ↦ let true_deadline = h t refl other in rw (other, true_deadline) (ground arith)
    ]

module _ (E : Engine) where
  -- From `now` on, GETs of the table find what the store shows.
  abbrev pub Sees : E.Table → ℕ → Store → Type 0
  Sees t now store =
      (key : String) (later : ℕ)
      → now ≤ later
      → value_of (select_row E key later t) ≡ visible later (store key)

  pub Sees-later :
      (t : E.Table) (now later : ℕ) (store : Store)
      → now ≤ later
      → Sees t now store
      → Sees t later store
  Sees-later t now later store h sees key time le = sees key time (omega arith)

  pub Sees-upsert :
      (t : E.Table) (now : ℕ) (store : Store) (key : String) (body : PutRequest)
      → HasTrueDeadline (put key body) now
      → Sees t now store
      → Sees
          (E.upsert key (written_row E body now) t)
          now
          (assign store key (some (entry_of body now)))
  Sees-upsert t now store key body h sees j later le =
      rw (select-upsert E key j (written_row E body now) later t)
        (elim (Bool-cases (str_eq key j)) [
          | inl same ↦ rw same (written_lem E key body now later h)
          | inr other ↦ rw other (sees j later le)
        ])

  pub Sees-delete :
      (t : E.Table) (now : ℕ) (store : Store) (key : String)
      → Sees t now store
      → Sees (after_update E key now t) now (assign store key none)
  Sees-delete t now store key sees j later le =
      rw (select-deleted E key j now later t le) (elim (Bool-cases (str_eq key j)) [
        | inl same ↦ rw same refl
        | inr other ↦ rw other (sees j later le)
      ])

  pub Sees-pruned :
      (t : E.Table) (now : ℕ) (store : Store) → Sees t now store → Sees (pruned E now t) now store
  Sees-pruned t now store sees j later le = rw (select-pruned E j now later t le) (sees j later le)
