-- ===== src/MessageQueue/Demo/Counts.antt =====
-- How the calls of the program of 03-simple-message-queue.py change the number of messages that
-- wait.
use the_grind.Prelude.{
  ℕ, suc, ◌+◌, ◌≤◌, ◌≡◌, refl, true, some, List, [], ◌∷◌, ◌++◌, length, arith, String, reverse,
  length-append, length-reverse, count_if, count_if-all, count_if-append, count_if-reverse, str_eq,
  ap,
}
use the_grind.Dict.{count_key, insert, Dict, insert_absent, length-delete}
use the_grind.MessageQueue.{Message, Delivery, SimpleQueue, receive, hand_out, ack}
use the_grind.MessageQueue.Requeue.{overdue, kept, count_if-overdue-kept}
use the_grind.MessageQueue.Methods.{
  count_key-flying, receive-IsValid, ack-IsValid, requeued-IsValid, count_key-delete-le, has_id,
  flying, IsValid, head_absent, ack-eq-some, requeued,
}

-- How many messages wait, and how many are in flight.
abbrev pub queued : SimpleQueue → ℕ
queued q = length q.queue

abbrev pub held : SimpleQueue → ℕ
held q = length q.in_flight

-- How often an id stands in the object.
abbrev pub ids : String → SimpleQueue → ℕ
ids k q = count_if (has_id k) q.queue + count_key k q.in_flight

-- A call of a method other than `publish` makes no messages.
pub record Keeps (q q' : SimpleQueue) : Type 0 where
  pub valid : IsValid q'
  pub no_new : (k : String) → ids k q' ≤ ids k q
  pub total : queued q' + held q' ≤ queued q + held q

pub handed_out :
    (now : ℕ) (m : Message) (rest : List Message) (q : SimpleQueue)
    → q.queue ≡ m ∷ rest
    → IsValid q
    → Keeps q (receive now q).0 × (queued q ≡ suc (queued (receive now q).0))
unfolding receive hand_out
handed_out now m rest q e v =
    let d : Delivery = record { message = m; handed_out_time = now } in
    let more : insert m.id d q.in_flight ≡ q.in_flight ++ (m.id, d) ∷ [] =
      insert_absent m.id d q.in_flight (head_absent m rest q e v) in
    (
      record {
        valid = receive-IsValid now q v;
        no_new = λ k.
            rw (e, hand_out, more)
              (omega (
                arith,
                ap (count_if (has_id k)) e,
                count_if-append (λ e. str_eq e.0 k) q.in_flight ((m.id, d) ∷ []),
              ));
        total =
            rw (e, hand_out, more)
              (omega (arith, ap length e, length-append q.in_flight ((m.id, d) ∷ [])));
      },
      rw (e, hand_out) refl,
    )

pub acked :
    (k : String) (q q' : SimpleQueue)
    → IsValid q
    → ack k q ≡ some q'
    → Keeps q q' × (queued q' ≡ queued q)
acked k q q' v e =
    let (d, left, same) = ack-eq-some k q q' e in
    (
      record {
        valid = ack-IsValid k q q' v e;
        no_new = λ j. rw same (omega (arith, count_key-delete-le j k q.in_flight d left));
        total = rw same (omega (arith, length-delete k q.in_flight d left));
      },
      rw same refl,
    )

pub put_back : (clock : ℕ → ℕ) (q : SimpleQueue) → IsValid q → Keeps q (requeued clock q)
unfolding requeued
put_back clock q v = record {
  valid = requeued-IsValid clock q v;
  no_new = λ k. omega (
    arith,
    count_if-append (has_id k) (reverse gone) q.queue,
    count_if-reverse (has_id k) gone,
    count_if-overdue-kept clock q.visibility_timeout (has_id k) 0 q.in_flight,
    count_key-flying k q.in_flight v.keyed,
    count_key-flying k (kept clock q.visibility_timeout 0 q.in_flight)
        (requeued-IsValid clock q v).keyed,
  );
  total = omega (
    arith,
    length-append (reverse gone) q.queue,
    length-reverse gone,
    count_if-overdue-kept clock q.visibility_timeout (λ m. true) 0 q.in_flight,
    count_if-all gone,
    length-flying q.in_flight,
    length-flying (kept clock q.visibility_timeout 0 q.in_flight),
  );
}
  where
    gone : List Message
    gone = overdue clock q.visibility_timeout 0 q.in_flight

    length-flying : (d : Dict Delivery) → count_if (λ m. true) (flying d) ≡ length d
    length-flying [] = refl
    length-flying (e ∷ d) = omega (arith, length-flying d)
