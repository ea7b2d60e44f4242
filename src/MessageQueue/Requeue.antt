-- ===== src/MessageQueue/Requeue.antt =====
-- `requeue_expired` of 03-simple-message-queue.py against a description without the two loops.
use mathlib.Core.List.{reverse-cons}
use the_grind.Prelude.{
  ℕ, suc, ◌+◌, ◌≤◌, String, ◌≡◌, refl, some, List, [], ◌∷◌, ◌++◌, Bool, reverse, arith,
  append_assoc, append-nil, eq_refl, str_eq, if◌then◌else◌, count_if, inl, inr, Bool-cases, map,
}
use the_grind.Dict.{
  Dict, count_key, HasDistinctKeys, delete_all, delete_all-cons, delete_all-cons_self,
}
use the_grind.MessageQueue.{Message, Delivery, SimpleQueue, is_overdue, scan, requeue_expired}

module _ (clock : ℕ → ℕ) (timeout : ℕ) where
  -- The messages whose time has run out, in the order of the dictionary.
  unfoldable pub overdue : ℕ → Dict Delivery → List Message
  overdue i [] = []
  overdue i ((k, d) ∷ rest) =
      if is_overdue timeout (clock i) d
      then d.message ∷ overdue (suc i) rest
      else overdue (suc i) rest

  overdue_keys : ℕ → Dict Delivery → List String
  overdue_keys i [] = []
  overdue_keys i ((k, d) ∷ rest) =
      if is_overdue timeout (clock i) d
      then k ∷ overdue_keys (suc i) rest
      else overdue_keys (suc i) rest

  -- The entries that stay in flight.
  unfoldable pub kept : ℕ → Dict Delivery → Dict Delivery
  kept i [] = []
  kept i ((k, d) ∷ rest) =
      if is_overdue timeout (clock i) d then kept (suc i) rest else (k, d) ∷ kept (suc i) rest

  scan-eq :
      (i : ℕ) (d : Dict Delivery) (queue : List Message) (ks : List String)
      → scan clock timeout i d queue ks ≡ (reverse (overdue i d) ++ queue, ks ++ overdue_keys i d)
  unfolding scan overdue overdue_keys
  scan-eq i [] queue ks = ground (arith, append-nil ks)
  scan-eq i ((k, d) ∷ rest) queue ks = elim (Bool-cases (is_overdue timeout (clock i) d)) [
    | inl e ↦
        rw (e, scan-eq (suc i) rest (d.message ∷ queue) (ks ++ k ∷ []))
          (simp (reverse-cons, append_assoc))
    | inr e ↦ rw (e, scan-eq (suc i) rest queue ks)
  ]

  count_if-overdue_keys :
      (k : String) (i : ℕ) (d : Dict Delivery)
      → count_if (λ j. str_eq j k) (overdue_keys i d) ≤ count_key k d
  unfolding overdue_keys
  count_if-overdue_keys k i [] = omega arith
  count_if-overdue_keys k i ((j, d) ∷ rest) = ground (arith, count_if-overdue_keys k (suc i) rest)

  delete_all-overdue_keys :
      (i : ℕ) (d : Dict Delivery)
      → HasDistinctKeys d
      → delete_all (overdue_keys i d) d ≡ some (kept i d)
  unfolding overdue_keys kept delete_all
  delete_all-overdue_keys i [] h = refl
  delete_all-overdue_keys i ((k, d) ∷ rest) h = elim (Bool-cases (is_overdue timeout (clock i) d)) [
    | inl e ↦
        rw (e, delete_all-cons_self k d (overdue_keys (suc i) rest) rest)
          (delete_all-overdue_keys (suc i) rest tail)
    | inr e ↦ rw (
      e,
      delete_all-cons k d (overdue_keys (suc i) rest) rest absent,
      delete_all-overdue_keys (suc i) rest tail,
    )
  ]
    where
      tail : HasDistinctKeys rest
      tail j = ground (arith, h j)

      absent : count_if (λ j. str_eq j k) (overdue_keys (suc i) rest) ≡ 0
      absent = ground (arith, h k, eq_refl k, count_if-overdue_keys k (suc i) rest)

  -- An entry either goes back or stays.
  pub count_if-overdue-kept :
      (p : Message → Bool) (i : ℕ) (d : Dict Delivery)
      → count_if p (overdue i d) + count_if p (map (λ e. e.1.message) (kept i d))
        ≡ count_if p (map (λ e. e.1.message) d)
  unfolding overdue kept
  count_if-overdue-kept p i [] = omega arith
  count_if-overdue-kept p i ((k, d) ∷ rest) = ground (arith, count_if-overdue-kept p (suc i) rest)

  pub count_key-kept :
      (k : String) (i : ℕ) (d : Dict Delivery) → count_key k (kept i d) ≤ count_key k d
  unfolding kept
  count_key-kept k i [] = omega arith
  count_key-kept k i ((j, d) ∷ rest) = ground (arith, count_key-kept k (suc i) rest)

-- `requeue_expired` never fails on a dictionary with distinct keys: what is overdue moves to the
-- front of the queue, the entry that was handed out last first, and what is not overdue stays in
-- flight.
pub requeue_expired_lem :
    (clock : ℕ → ℕ) (q : SimpleQueue)
    → HasDistinctKeys q.in_flight
    → requeue_expired clock q
      ≡ some (record q {
        queue = reverse (overdue clock q.visibility_timeout 0 q.in_flight) ++ q.queue;
        in_flight = kept clock q.visibility_timeout 0 q.in_flight;
      })
unfolding requeue_expired
requeue_expired_lem clock q h = rw (
  scan-eq clock q.visibility_timeout 0 q.in_flight q.queue [],
  delete_all-overdue_keys clock q.visibility_timeout 0 q.in_flight h,
)
