-- ===== src/MessageQueue/Methods.antt =====
-- The methods of `SimpleQueue` one by one: what each keeps, and what becomes of a message.
use the_grind.Prelude.{
  ℕ, suc, ◌+◌, ◌≤◌, String, ◌≡◌, refl, some, List, [], ◌∷◌, ◌++◌, Bool, true, reverse, arith,
  eq_iff, eq_refl, str_eq, count_if, count_if-append, count_if-reverse, inl, inr, Option-cases, map,
  All, All-append,
}
use the_grind.Dict.{Dict, count_key, HasDistinctKeys, lookup, delete, insert_absent}
use the_grind.MessageQueue.{
  Message, Delivery, SimpleQueue, init, publish, hand_out, receive, ack, is_overdue,
  requeue_expired,
}
use the_grind.MessageQueue.Requeue.{
  overdue, kept, count_if-overdue-kept, count_key-kept, requeue_expired_lem,
}

abbrev pub has_id : String → Message → Bool
has_id k m = str_eq m.id k

abbrev pub flying : Dict Delivery → List Message
flying d = map (λ e. e.1.message) d

abbrev pub IsKeyed : Dict Delivery → Type 0
IsKeyed d = All (λ e. e.0 ≡ e.1.message.id) d

-- Every delivery stands under its message's id, and no id is there twice.
pub record IsValid (q : SimpleQueue) : Type 0 where
  pub keyed : IsKeyed q.in_flight
  pub unique : (k : String) → count_if (has_id k) q.queue + count_key k q.in_flight ≤ 1

-- No message of the queue object has this id.
abbrev pub IsFresh : String → SimpleQueue → Type 0
IsFresh k q = (count_if (has_id k) q.queue ≡ 0) × (count_key k q.in_flight ≡ 0)

pub count_key-flying :
    (k : String) (d : Dict Delivery) → IsKeyed d → count_key k d ≡ count_if (has_id k) (flying d)
count_key-flying k [] h = refl
count_key-flying k ((j, d) ∷ rest) h =
    ground (arith, h.0, eq_iff j k, eq_iff d.message.id k, count_key-flying k rest h.1)

pub count_if-flying :
    (p : Message → Bool) (d : Dict Delivery)
    → count_if (λ e. p e.1.message) d ≡ count_if p (flying d)
count_if-flying p [] = refl
count_if-flying p (e ∷ d) = ground (arith, count_if-flying p d)

pub IsValid-HasDistinctKeys : (q : SimpleQueue) → IsValid q → HasDistinctKeys q.in_flight
IsValid-HasDistinctKeys q v k = omega (arith, v.unique k)

pub init-IsValid : (timeout : ℕ) → IsValid (init timeout)
unfolding init
init-IsValid timeout = record { keyed = tt; unique = λ k. omega arith }

-- A publish with a fresh id keeps the object well formed.
pub publish-IsValid :
    (uuid body : String) (q : SimpleQueue)
    → IsFresh uuid q
    → IsValid q
    → IsValid (publish uuid body q).0
unfolding publish
publish-IsValid uuid body q (a, b) v = record {
  keyed = v.keyed;
  unique = λ k. ground (
    arith,
    count_if-append (has_id k) q.queue (record { id = uuid; body = body } ∷ []),
    v.unique k,
    eq_iff uuid k,
  );
}

-- A message that still waits is not in flight.
pub head_absent :
    (m : Message) (rest : List Message) (q : SimpleQueue)
    → q.queue ≡ m ∷ rest
    → IsValid q
    → count_key m.id q.in_flight ≡ 0
head_absent m rest q e v = ground (arith, rw e at (v.unique m.id), eq_refl m.id)

hand_out-IsValid :
    (now : ℕ) (ms : List Message) (q : SimpleQueue)
    → q.queue ≡ ms
    → IsValid q
    → IsValid (hand_out now ms q).0
unfolding hand_out
hand_out-IsValid now [] q e v = v
hand_out-IsValid now (m ∷ rest) q e v =
    rw
      (insert_absent m.id (record { message = m; handed_out_time = now }) q.in_flight
        (head_absent m rest q e v))
      (record {
        keyed = All-append (λ e. e.0 ≡ e.1.message.id) q.in_flight _ v.keyed (refl, tt);
        unique = λ k. ground (
          arith,
          count_if-append (λ e. str_eq e.0 k) q.in_flight
              ((m.id, record { message = m; handed_out_time = now }) ∷ []),
          rw e at (v.unique k),
        );
      })

pub receive-IsValid : (now : ℕ) (q : SimpleQueue) → IsValid q → IsValid (receive now q).0
unfolding receive
receive-IsValid now q v = hand_out-IsValid now q.queue q refl v

IsKeyed-delete : (k : String) (d d' : Dict Delivery) → IsKeyed d → delete k d ≡ some d' → IsKeyed d'
unfolding delete
IsKeyed-delete k [] d' h e = absurd (ground arith)
IsKeyed-delete k ((j, w) ∷ d) d' h e = elim (Option-cases (delete k d)) [
  | inl gone ↦ ground (arith, h.1)
  | inr (r, left) ↦ ground (arith, h.1, h.0, IsKeyed-delete k d r h.1 left)
]

pub count_key-delete-le :
    (j k : String) (d d' : Dict Delivery) → delete k d ≡ some d' → count_key j d' ≤ count_key j d
unfolding delete
count_key-delete-le j k [] d' e = absurd (ground arith)
count_key-delete-le j k ((i, w) ∷ d) d' e = elim (Option-cases (delete k d)) [
  | inl gone ↦ ground arith
  | inr (r, left) ↦ ground (arith, count_key-delete-le j k d r left)
]

-- `ack` that succeeds has deleted the entry, and changed nothing else.
pub ack-eq-some :
    (k : String) (q q' : SimpleQueue)
    → ack k q ≡ some q'
    → (d : Dict Delivery) × (delete k q.in_flight ≡ some d) × (q' ≡ record q { in_flight = d })
unfolding ack
ack-eq-some k q q' e = elim (Option-cases (delete k q.in_flight)) [
  | inl gone ↦ absurd (ground arith)
  | inr (d, left) ↦ (d, left, ground arith)
]

pub ack-IsValid : (k : String) (q q' : SimpleQueue) → IsValid q → ack k q ≡ some q' → IsValid q'
ack-IsValid k q q' v e =
    let (d, left, same) = ack-eq-some k q q' e in
    rw same (record {
      keyed = IsKeyed-delete k q.in_flight d v.keyed left;
      unique = λ j. omega (arith, v.unique j, count_key-delete-le j k q.in_flight d left);
    })

IsKeyed-kept :
    (clock : ℕ → ℕ) (timeout i : ℕ) (d : Dict Delivery)
    → IsKeyed d
    → IsKeyed (kept clock timeout i d)
unfolding kept
IsKeyed-kept clock timeout i [] h = tt
IsKeyed-kept clock timeout i ((k, d) ∷ rest) h =
    ground (arith, h.0, IsKeyed-kept clock timeout (suc i) rest h.1)

unfoldable pub requeued : (ℕ → ℕ) → SimpleQueue → SimpleQueue
requeued clock q = record q {
  queue = reverse (overdue clock q.visibility_timeout 0 q.in_flight) ++ q.queue;
  in_flight = kept clock q.visibility_timeout 0 q.in_flight;
}

pub requeued-IsValid : (clock : ℕ → ℕ) (q : SimpleQueue) → IsValid q → IsValid (requeued clock q)
unfolding requeued
requeued-IsValid clock q v = record {
  keyed = IsKeyed-kept clock q.visibility_timeout 0 q.in_flight v.keyed;
  unique = λ k. omega (
    arith,
    count_if-append (has_id k) (reverse gone) q.queue,
    count_if-reverse (has_id k) gone,
    count_if-overdue-kept clock q.visibility_timeout (has_id k) 0 q.in_flight,
    count_key-flying k q.in_flight v.keyed,
    count_key-flying k _ (IsKeyed-kept clock q.visibility_timeout 0 q.in_flight v.keyed),
    v.unique k,
  );
}
  where
    gone : List Message
    gone = overdue clock q.visibility_timeout 0 q.in_flight

-- A valid object never meets KeyError in `requeue_expired`.
pub requeue_expired-eq :
    (clock : ℕ → ℕ) (q : SimpleQueue)
    → IsValid q
    → requeue_expired clock q ≡ some (requeued clock q)
unfolding requeued
requeue_expired-eq clock q v = requeue_expired_lem clock q (IsValid-HasDistinctKeys q v)

pub lookup-kept_overdue :
    (k : String) (x : Delivery) (clock : ℕ → ℕ) (timeout : ℕ)
    → ((i : ℕ) → is_overdue timeout (clock i) x ≡ true)
    → (i : ℕ) (d : Dict Delivery) → count_key k d ≤ 1
    → lookup k d ≡ some x
    → count_key k (kept clock timeout i d) ≡ 0
unfolding lookup kept
lookup-kept_overdue k x clock timeout late i [] h e = refl
lookup-kept_overdue k x clock timeout late i ((j, w) ∷ d) h e = ground (
  arith,
  late i,
  count_key-kept clock timeout k (suc i) d,
  lookup-kept_overdue k x clock timeout late (suc i) d,
)
