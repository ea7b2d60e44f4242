-- ===== src/MessageQueue/Conservation.antt =====
-- Where the messages of 03-simple-message-queue.py are after any calls.
use the_grind.Prelude.{
  ℕ, ◌+◌, String, ◌≡◌, ◌≢◌, refl, ap, none, List, [], ◌∷◌, Bool, reverse, arith, count_if,
  count_if-append, count_if-reverse, inl, inr, Option-cases, map-append,
}
use the_grind.Dict.{lookup, insert_absent, count_if-delete, lookup-delete, delete_of_lookup-none}
use the_grind.MessageQueue.{
  Message, Delivery, SimpleQueue, init, publish, hand_out, receive, ack, requeue_expired,
}
use the_grind.MessageQueue.Requeue.{overdue, count_if-overdue-kept}
use the_grind.MessageQueue.Methods.{
  head_absent, flying, IsValid, init-IsValid, requeued, requeue_expired-eq, count_if-flying,
}
use the_grind.MessageQueue.History.{
  delivery, Call, publishes, receives, acks, requeues, Trace, start, message_of, or_same, step, run,
  IsFreshRun, step-IsValid,
}

-- Where the messages are: waiting, in flight or acknowledged.
abbrev IsConserved : Trace → Type 0
IsConserved t =
    (p : Message → Bool)
    → count_if p t.published
      ≡ count_if p t.object.queue + count_if p (flying t.object.in_flight) + count_if p t.acked

hand_out-count :
    (p : Message → Bool) (now : ℕ) (ms : List Message) (q : SimpleQueue)
    → q.queue ≡ ms
    → IsValid q
    → count_if p (hand_out now ms q).0.queue + count_if p (flying (hand_out now ms q).0.in_flight)
      ≡ count_if p q.queue + count_if p (flying q.in_flight)
unfolding hand_out
hand_out-count p now [] q e v = refl
hand_out-count p now (m ∷ rest) q e v =
    rw (insert_absent m.id (delivery m now) q.in_flight (head_absent m rest q e v)) (
      ground (
        arith,
        e,
        ap (count_if p) e,
        map-append (λ (x : String × Delivery). x.1.message) q.in_flight
            ((m.id, delivery m now) ∷ []),
        count_if-append p (flying q.in_flight) (m ∷ []),
      ))

ack-count :
    (p : Message → Bool) (k : String) (q : SimpleQueue)
    → IsValid q
    → count_if p (or_same q (ack k q)).queue
        + count_if p (flying (or_same q (ack k q)).in_flight)
        + count_if p (message_of (lookup k q.in_flight))
      ≡ count_if p q.queue + count_if p (flying q.in_flight)
unfolding ack
ack-count p k q v = elim (Option-cases (lookup k q.in_flight)) [
  | inl gone ↦ rw (gone, delete_of_lookup-none k q.in_flight gone) (omega arith)
  | inr (d, there) ↦
      let (rest, left) = lookup-delete k d q.in_flight there in
      rw (there, left)
        (omega (
          arith,
          count_if-delete (λ e. p e.1.message) k d q.in_flight rest there left,
          count_if-flying p q.in_flight,
          count_if-flying p rest,
        ))
]

requeued-count :
    (p : Message → Bool) (clock : ℕ → ℕ) (q : SimpleQueue)
    → count_if p (requeued clock q).queue + count_if p (flying (requeued clock q).in_flight)
      ≡ count_if p q.queue + count_if p (flying q.in_flight)
unfolding requeued
requeued-count p clock q = omega (
  arith,
  count_if-append p (reverse gone) q.queue,
  count_if-reverse p gone,
  count_if-overdue-kept clock q.visibility_timeout p 0 q.in_flight,
)
  where
    gone : List Message
    gone = overdue clock q.visibility_timeout 0 q.in_flight

publish-count :
    (p : Message → Bool) (uuid body : String) (q : SimpleQueue)
    → count_if p (publish uuid body q).0.queue
        + count_if p (flying (publish uuid body q).0.in_flight)
      ≡ count_if p q.queue
        + count_if p (flying q.in_flight)
        + count_if p (record { id = uuid; body = body } ∷ [])
unfolding publish
publish-count p uuid body q =
    omega (arith, count_if-append p q.queue (record { id = uuid; body = body } ∷ []))

step-IsConserved :
    (t : Trace) (c : Call) → IsValid t.object → IsConserved t → IsConserved (step t c)
unfolding step receive
step-IsConserved t (publishes uuid body) v h p = omega (
  arith,
  h p,
  publish-count p uuid body t.object,
  count_if-append p t.published (record { id = uuid; body = body } ∷ []),
)
step-IsConserved t (receives now) v h p =
    omega (arith, h p, hand_out-count p now t.object.queue t.object refl v)
step-IsConserved t (acks k) v h p = omega (
  arith,
  h p,
  ack-count p k t.object v,
  count_if-append p t.acked (message_of (lookup k t.object.in_flight)),
)
step-IsConserved t (requeues clock) v h p =
    rw (requeue_expired-eq clock t.object v) (omega (arith, h p, requeued-count p clock t.object))

run_laws :
    (t : Trace) (cs : List Call)
    → IsFreshRun t cs
    → IsValid t.object
    → IsConserved t
    → IsValid (run t cs).object × IsConserved (run t cs)
unfolding run
run_laws t [] f v h = (v, h)
run_laws t (c ∷ cs) f v h =
    run_laws (step t c) cs f.1 (step-IsValid t c f.0 v) (step-IsConserved t c v h)

start_laws : (timeout : ℕ) → IsValid (start timeout).object × IsConserved (start timeout)
unfolding start init
start_laws timeout = (init-IsValid timeout, λ p. omega arith)

-- No message is lost and none is made up. After any sequence of calls from a new queue, where each
-- publish has a fresh id, the messages that were published are, with the same multiplicities,
-- those that wait, those that are in flight and those that were acknowledged.
pub conservation :
    (timeout : ℕ) (cs : List Call)
    → IsFreshRun (start timeout) cs
    → IsConserved (run (start timeout) cs)
conservation timeout cs f =
    (run_laws (start timeout) cs f (start_laws timeout).0 (start_laws timeout).1).1

-- After any sequence of calls with fresh ids `requeue_expired` raises no KeyError, no id is there
-- twice, and each delivery stands under the id of its message.
run-IsValid :
    (timeout : ℕ) (cs : List Call) (clock : ℕ → ℕ)
    → IsFreshRun (start timeout) cs
    → IsValid (run (start timeout) cs).object
      × (requeue_expired clock (run (start timeout) cs).object ≢ none)
run-IsValid timeout cs clock f =
    let v = (run_laws (start timeout) cs f (start_laws timeout).0 (start_laws timeout).1).0 in
    (v, λ e. cc (requeue_expired-eq clock (run (start timeout) cs).object v))
