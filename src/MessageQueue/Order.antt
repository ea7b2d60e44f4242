-- ===== src/MessageQueue/Order.antt =====
-- The order in which the queue of 03-simple-message-queue.py hands messages out.
use the_grind.Prelude.{
  ℕ, String, ◌≡◌, refl, List, [], ◌∷◌, ◌++◌, append_assoc, inl, inr, Option-cases,
}
use the_grind.Dict.{delete}
use the_grind.MessageQueue.{Message, SimpleQueue, init, publish, hand_out, receive, ack}
use the_grind.MessageQueue.History.{
  Call, publishes, receives, acks, requeues, Trace, start, to_list, or_same, step, run,
}

abbrev HasNoRequeue : List Call → Type 0
HasNoRequeue [] = Unit
HasNoRequeue (requeues clock ∷ cs) = ⊥
HasNoRequeue (c ∷ cs) = HasNoRequeue cs

receive_order :
    (now : ℕ) (ms : List Message) (q : SimpleQueue)
    → q.queue ≡ ms
    → to_list (hand_out now ms q).1 ++ (hand_out now ms q).0.queue ≡ ms
unfolding hand_out
receive_order now [] q e = e
receive_order now (m ∷ rest) q e = refl

ack-queue : (k : String) (q : SimpleQueue) → (or_same q (ack k q)).queue ≡ q.queue
unfolding ack
ack-queue k q = elim (Option-cases (delete k q.in_flight)) [
  | inl e ↦ rw (e, ack)
  | inr (d, e) ↦ rw (e, ack)
]

run_order :
    (t : Trace) (cs : List Call)
    → HasNoRequeue cs
    → t.published ≡ t.received ++ t.object.queue
    → (run t cs).published ≡ (run t cs).received ++ (run t cs).object.queue
unfolding run step publish receive
run_order t [] f h = h
run_order t (publishes uuid body ∷ cs) f h =
    run_order (step t (publishes uuid body)) cs f (rw h (append_assoc t.received t.object.queue _))
run_order t (receives now ∷ cs) f h =
    run_order (step t (receives now)) cs f
      (rw (append_assoc, receive_order now t.object.queue t.object refl) h)
run_order t (acks k ∷ cs) f h = run_order (step t (acks k)) cs f (rw (ack-queue k t.object) h)
run_order t (requeues clock ∷ cs) f h = absurd f

-- Until the first `requeue_expired` the queue is first in, first out, and hands each message out
-- once: what was published is what was handed out, in that order, followed by what waits.
pub fifo_order :
    (timeout : ℕ) (cs : List Call)
    → HasNoRequeue cs
    → (run (start timeout) cs).published
      ≡ (run (start timeout) cs).received ++ (run (start timeout) cs).object.queue
unfolding start init
fifo_order timeout cs f = run_order (start timeout) cs f refl
