-- ===== src/MessageQueue/Contract.antt =====
-- What `SimpleQueue` of 03-simple-message-queue.py promises its callers, whatever order its queue
-- and its dictionary have: messages wait in one bag, and are out with consumers in another.
use the_grind.Prelude.{
  ℕ, String, ◌≡◌, refl, ap, ◌⊎◌, inl, inr, none, some, List, [], ◌∷◌, ◌++◌, true, reverse, arith,
  count_if, count_if-append, count_if-reverse, append-nil, Option-cases, Bool-cases, str_eq,
  bag-add, map-append, Bag, bag, add, number,
}
use the_grind.Dict.{
  Dict, lookup, insert_absent, count_if-delete, lookup-delete, delete_of_lookup-none, count_key,
}
use the_grind.MessageQueue.{Message, Delivery, init, publish, hand_out, receive, ack}
use the_grind.MessageQueue.Requeue.{overdue, kept, count_if-overdue-kept}
use the_grind.MessageQueue.Methods.{
  has_id, IsKeyed, flying, head_absent, IsValid, init-IsValid, requeued, requeue_expired-eq,
  count_if-flying, count_key-flying,
}
use the_grind.MessageQueue.History.{
  delivery, Call, publishes, receives, acks, requeues, Trace, start, to_list, step, run,
  IsFreshCall, IsFreshRun, step-IsValid,
}

pub record Office : Type 0 where
  pub waiting : Bag Message
  pub out : Bag Message
  pub received : List Message  -- what `receive` has returned so far

abbrev Promised : Call → Office → Office → Type 0
-- the message waits
Promised (publishes uuid body) o o' =
    (o'.waiting ≡ add (record { id = uuid; body = body } ∷ []) o.waiting)
    × (o'.out ≡ o.out)
    × (o'.received ≡ o.received)
-- some message that waits goes out, or there is none
Promised (receives now) o o' =
    ((m : Message) × (o.waiting ≡ add (m ∷ []) o'.waiting)
      × (o'.out ≡ add (m ∷ []) o.out)
      × (o'.received ≡ o.received ++ m ∷ []))
    ⊎ ((o.waiting ≡ bag []) × (o' ≡ o))
-- the message with this id is out and goes, or there is none
Promised (acks message_id) o o' =
    ((m : Message) × (has_id message_id m ≡ true)
      × (o.out ≡ add (m ∷ []) o'.out)
      × (o'.waiting ≡ o.waiting)
      × (o'.received ≡ o.received))
    ⊎ ((number (has_id message_id) o.out ≡ 0) × (o' ≡ o))
-- some messages that are out wait again
Promised (requeues clock) o o' =
    (ms : List Message) × (o.out ≡ add ms o'.out)
    × (o'.waiting ≡ add ms o.waiting)
    × (o'.received ≡ o.received)

abbrev pub office : Trace → Office
office t = record {
  waiting = bag t.object.queue;
  out = bag (flying t.object.in_flight);
  received = t.received;
}

id_of_lookup :
    (k : String) (d : Dict Delivery) (v : Delivery)
    → IsKeyed d
    → lookup k d ≡ some v
    → has_id k v.message ≡ true
unfolding lookup
id_of_lookup k [] v h e = absurd (ground arith)
id_of_lookup k ((j, w) ∷ d) v h e = elim (Bool-cases (str_eq j k)) [
  | inl hit ↦ let same : w ≡ v = ground arith in ground (arith, same, h.0)
  | inr miss ↦ id_of_lookup k d v h.1 (rw miss at e)
]

absent_of_lookup : (k : String) (d : Dict Delivery) → lookup k d ≡ none → count_key k d ≡ 0
unfolding lookup
absent_of_lookup k [] e = refl
absent_of_lookup k ((j, w) ∷ d) e = ground (arith, absent_of_lookup k d)

receives_lem :
    (now : ℕ) (ms : List Message) (t : Trace)
    → t.object.queue ≡ ms
    → IsValid t.object
    → Promised (receives now) (office t) (
        office (record t {
          object = (hand_out now ms t.object).0;
          received = t.received ++ to_list (hand_out now ms t.object).1;
        }))
unfolding hand_out
receives_lem now [] t e v = inr (
  ap bag e,
  ap (λ (ms : List Message). record (office t) { received = ms }) (append-nil t.received),
)
receives_lem now (m ∷ rest) t e v = inl (
  m,
  bag-add (m ∷ []) rest t.object.queue (λ p. omega (arith, ap (count_if p) e)),
  rw (insert_absent m.id (delivery m now) t.object.in_flight (head_absent m rest t.object e v)) (
      bag-add (m ∷ []) (flying t.object.in_flight) _ (λ p. ground (
        arith,
        map-append (λ (x : String × Delivery). x.1.message) t.object.in_flight
            ((m.id, delivery m now) ∷ []),
        count_if-append p (flying t.object.in_flight) (m ∷ []),
      ))),
  refl,
)

acks_lem :
    (k : String) (t : Trace)
    → IsValid t.object
    → Promised (acks k) (office t) (office (step t (acks k)))
unfolding step ack
acks_lem k t v = elim (Option-cases (lookup k t.object.in_flight)) [
  | inl gone ↦ inr (
    omega (
      arith,
      absent_of_lookup k t.object.in_flight gone,
      count_key-flying k t.object.in_flight v.keyed,
    ),
    rw (delete_of_lookup-none k t.object.in_flight gone) refl,
  )
  | inr (d, there) ↦
      let (rest, left) = lookup-delete k d t.object.in_flight there in
      rw left (
        inl (
          d.message,
          id_of_lookup k t.object.in_flight d v.keyed there,
          bag-add (d.message ∷ []) (flying rest) (flying t.object.in_flight) (λ p. omega (
            arith,
            count_if-delete (λ e. p e.1.message) k d t.object.in_flight rest there left,
            count_if-flying p t.object.in_flight,
            count_if-flying p rest,
          )),
          refl,
          refl,
        ))
]

requeues_lem :
    (clock : ℕ → ℕ) (t : Trace)
    → IsValid t.object
    → Promised (requeues clock) (office t) (office (step t (requeues clock)))
unfolding step requeued
requeues_lem clock t v =
    rw (requeue_expired-eq clock t.object v, requeued)
      (
        gone,
        bag-add gone (flying (kept clock t.object.visibility_timeout 0 t.object.in_flight))
            (flying t.object.in_flight)
            (λ p. omega (
              arith,
              count_if-overdue-kept clock t.object.visibility_timeout p 0 t.object.in_flight,
            )),
        bag-add gone t.object.queue (reverse gone ++ t.object.queue) (λ p.
            omega
              (arith, count_if-append p (reverse gone) t.object.queue, count_if-reverse p gone)),
        refl,
      )
  where
    gone : List Message
    gone = overdue clock t.object.visibility_timeout 0 t.object.in_flight

step-Promised :
    (t : Trace) (c : Call)
    → IsFreshCall t c
    → IsValid t.object
    → Promised c (office t) (office (step t c))
unfolding step publish receive
step-Promised t (publishes uuid body) f v = (
  bag-add (record { id = uuid; body = body } ∷ []) t.object.queue _ (λ p.
      omega (arith, count_if-append p t.object.queue (record { id = uuid; body = body } ∷ []))),
  refl,
  refl,
)
step-Promised t (receives now) f v = receives_lem now t.object.queue t refl v
step-Promised t (acks k) f v = acks_lem k t v
step-Promised t (requeues clock) f v = requeues_lem clock t v

-- A sequence of calls, each of which does what is promised.
abbrev pub AllPromised : List Call → Office → Office → Type 0
AllPromised [] o o' = o' ≡ o
AllPromised (c ∷ cs) o o' = (next : Office) × Promised c o next × AllPromised cs next o'

runs_as_promised :
    (cs : List Call) (t : Trace)
    → IsFreshRun t cs
    → IsValid t.object
    → AllPromised cs (office t) (office (run t cs))
unfolding run
runs_as_promised [] t f v = refl
runs_as_promised (c ∷ cs) t (f, fs) v = (
  office (step t c),
  step-Promised t c f v,
  runs_as_promised cs (step t c) fs (step-IsValid t c f v),
)

abbrev pub empty_office : Office
empty_office = record { waiting = bag []; out = bag []; received = [] }

-- With fresh ids any calls do, one after the other, what two bags promise that forget all order
-- and all times: a publish adds its message to those that wait; a receive returns one that waits
-- and moves it to those that are out, or returns None if none waits; an ack takes the message with
-- its id from those that are out, or changes nothing if none has it; a requeue moves some of those
-- that are out back.
pub run-AllPromised :
    (timeout : ℕ) (cs : List Call)
    → IsFreshRun (start timeout) cs
    → AllPromised cs empty_office (office (run (start timeout) cs))
unfolding start init
run-AllPromised timeout cs f = runs_as_promised cs (start timeout) f (init-IsValid timeout)
