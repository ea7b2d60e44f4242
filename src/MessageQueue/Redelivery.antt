-- ===== src/MessageQueue/Redelivery.antt =====
-- What 03-simple-message-queue.py does with a message whose visibility timeout has run out: it is
-- handed out again.
use the_grind.Prelude.{
  ℕ, suc, ◌+◌, ◌<◌, String, ◌≡◌, refl, ap, sym, ◌∙◌, some, List, [], ◌∷◌, ◌++◌, length, reverse,
  arith, append_assoc, append-nil, count_if, count_if-append, count_if-reverse, map,
}
use the_grind.Dict.{lookup}
use the_grind.MessageQueue.{Message, Delivery, hand_out, receive}
use the_grind.MessageQueue.Requeue.{overdue, kept, count_if-overdue-kept}
use the_grind.MessageQueue.Methods.{
  has_id, IsValid, IsValid-HasDistinctKeys, count_key-flying, requeued, requeued-IsValid,
  requeue_expired-eq, lookup-kept_overdue,
}
use the_grind.MessageQueue.History.{Call, receives, requeues, Trace, step, run}
use the_grind.MessageQueue.Visibility.{lookup-count_key, out_of_time}

abbrev receive_all : List ℕ → List Call
receive_all nows = map receives nows

received_head :
    (t : Trace) (now : ℕ) (m : Message) (ms : List Message)
    → t.object.queue ≡ m ∷ ms
    → ((step t (receives now)).object.queue ≡ ms)
      × ((step t (receives now)).received ≡ t.received ++ m ∷ [])
unfolding step receive hand_out
received_head t now m ms q = (rw (q, hand_out) refl, rw (q, hand_out) refl)

-- As many calls of `receive` as there are messages empty the queue in its order.
drains :
    (ms : List Message) (nows : List ℕ) (t : Trace)
    → t.object.queue ≡ ms
    → length nows ≡ length ms
    → (run t (receive_all nows)).received ≡ t.received ++ ms
unfolding run
drains [] [] t q l = sym (append-nil t.received)
drains [] (n ∷ ns) t q l = absurd (omega (arith, l))
drains (m ∷ ms) [] t q l = absurd (omega (arith, l))
drains (m ∷ ms) (n ∷ ns) t q l =
    let (rest, got) = received_head t n m ms q in
    drains ms ns (step t (receives n)) rest (omega (arith, l))
    ∙ ap (λ (l : List Message). l ++ ms) got
    ∙ append_assoc t.received (m ∷ []) ms

module _ (t : Trace) (k : String) (x : Delivery) (clock : ℕ → ℕ) (v : IsValid t.object)
    (there : lookup k t.object.in_flight ≡ some x)
    (late : (i : ℕ) → x.handed_out_time + t.object.visibility_timeout < clock i) where
  back_in_queue : count_if (has_id k) (requeued clock t.object).queue ≡ 1
  unfolding requeued
  back_in_queue = omega (
    arith,
    count_if-append (has_id k) (reverse gone) t.object.queue,
    count_if-reverse (has_id k) gone,
    count_if-overdue-kept clock t.object.visibility_timeout (has_id k) 0 t.object.in_flight,
    count_key-flying k t.object.in_flight v.keyed,
    count_key-flying k (kept clock t.object.visibility_timeout 0 t.object.in_flight)
        (requeued-IsValid clock t.object v).keyed,
    v.unique k,
    lookup-count_key k x t.object.in_flight there,
    lookup-kept_overdue k x clock t.object.visibility_timeout
        (λ i. out_of_time t.object.visibility_timeout (clock i) x (late i)) 0 t.object.in_flight
        (IsValid-HasDistinctKeys t.object v k) there,
  )
    where
      gone : List Message
      gone = overdue clock t.object.visibility_timeout 0 t.object.in_flight

  -- A message whose time has run out without an `ack` is handed out once more: after the next
  -- `requeue_expired`, as many calls of `receive` as there are messages then.
  pub handed_out_again :
      (nows : List ℕ)
      → length nows ≡ length (step t (requeues clock)).object.queue
      → count_if (has_id k) (run t (requeues clock ∷ receive_all nows)).received
        ≡ suc (count_if (has_id k) t.received)
  unfolding run step
  handed_out_again nows enough =
      rw
        (
          drains (step t (requeues clock)).object.queue nows (step t (requeues clock)) refl enough,
          requeue_expired-eq clock t.object v,
        )
        (omega (
          arith,
          count_if-append (has_id k) t.received (requeued clock t.object).queue,
          back_in_queue,
        ))
