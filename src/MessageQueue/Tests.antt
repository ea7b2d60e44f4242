-- ===== src/MessageQueue/Tests.antt =====
-- Runs of the queue on concrete inputs.
use the_grind.Prelude.{
  ℕ, ◌+◌, ◌++◌, String, ◌≡◌, refl, some, List, [], ◌∷◌, Bool, true, count_if, arith, eq_iff, ◌==◌,
  ◌≤◌, ◌⊎◌,
}
use the_grind.Dict.{lookup, insert}
use the_grind.MessageQueue.{Message, Delivery, SimpleQueue, init, publish, requeue_expired}
use the_grind.MessageQueue.Requeue.{overdue, kept, requeue_expired_lem}
use the_grind.MessageQueue.Methods.{has_id, IsValid, flying, IsValid-HasDistinctKeys}
use the_grind.MessageQueue.History.{
  Trace, step, Call, publishes, receives, acks, requeues, start, run, IsFreshRun,
}
use the_grind.MessageQueue.Order.{fifo_order}
use the_grind.MessageQueue.Conservation.{conservation}
use the_grind.MessageQueue.Visibility.{stays_hidden}
use the_grind.MessageQueue.Redelivery.{handed_out_again}
use the_grind.MessageQueue.Contract.{AllPromised, empty_office, office, run-AllPromised}
use the_grind.MessageQueue.Demo.{Demo, ready, DemoStep, DemoReach}
use the_grind.MessageQueue.Demo.Bound.{HasDistinctIds}
use the_grind.MessageQueue.Demo.Calls.{calls_of, got_of, threads_call_in_turn}
use the_grind.MessageQueue.Demo.Ends.{IsOver, all_threads_end}
use the_grind.MessageQueue.Threads.{
  Step, Reach, here, next, initial, attempt, waiting, no_lost_wakeup,
}

abbrev message : String → String → Message
message id body = record { id = id; body = body }

abbrev every : Message → Bool
every m = true

abbrev flat : ℕ → ℕ → ℕ
flat t i = t

-- Two messages, the first handed out and acknowledged, the second handed out and overdue.
abbrev script : List Call
script =
    publishes "a" "message 1"
    ∷ publishes "b" "message 2"
    ∷ receives 10
    ∷ acks "a"
    ∷ receives 11
    ∷ requeues (flat 20)
    ∷ acks "b"
    ∷ []

script_fresh : IsFreshRun (start 3) script
unfolding run start lookup insert
script_fresh = omega arith

conservation_example :
    2
    ≡ count_if every (run (start 3) script).object.queue
      + count_if every (flying (run (start 3) script).object.in_flight)
      + count_if every (run (start 3) script).acked
unfolding run start lookup insert
conservation_example = conservation 3 script script_fresh every

run-AllPromised_example : AllPromised script empty_office (office (run (start 3) script))
run-AllPromised_example = run-AllPromised 3 script script_fresh

abbrev calm : List Call
calm = publishes "a" "message 1" ∷ receives 10 ∷ publishes "b" "message 2" ∷ acks "a" ∷ []

fifo_order_example :
    (run (start 3) calm).published
    ≡ (run (start 3) calm).received ++ (run (start 3) calm).object.queue
fifo_order_example = fifo_order 3 calm tt

-- Two deliveries, handed out at 10 and 11; both are overdue at 20.
abbrev busy : SimpleQueue
busy = record {
  queue = message "c" "3" ∷ [];
  in_flight =
      ("a", record { message = message "a" "1"; handed_out_time = 10 })
      ∷ ("b", record { message = message "b" "2"; handed_out_time = 11 })
      ∷ [];
  visibility_timeout = 3;
}

busy-IsValid : IsValid busy
busy-IsValid = record {
  keyed = (refl, (refl, tt));
  unique = λ k. ground (
    arith,
    eq_iff "a" k,
    eq_iff "b" k,
    eq_iff "c" k,
    eq_iff "a" "b",
    eq_iff "a" "c",
    eq_iff "b" "c",
  );
}

requeue_expired_lem_example :
    requeue_expired (flat 20) busy
    ≡ some (record busy {
      queue = message "b" "2" ∷ message "a" "1" ∷ message "c" "3" ∷ [];
      in_flight = [];
    })
unfolding overdue kept
requeue_expired_lem_example =
    requeue_expired_lem (flat 20) busy (IsValid-HasDistinctKeys busy busy-IsValid)

asleep : Reach (initial 3) (attempt waiting 0 10 (initial 3))
asleep = next here (Step.calls_receive 0 10 refl)

no_lost_wakeup_example : (attempt waiting 0 10 (initial 3)).object.queue ≡ []
unfolding attempt init
no_lost_wakeup_example = no_lost_wakeup 3 asleep 0 refl

-- A queue on which somebody works, seen from no calls before.
abbrev at_work : Trace
at_work = record { object = busy; published = []; received = []; acked = [] }

abbrev delivery_b : Delivery
delivery_b = record { message = message "b" "2"; handed_out_time = 11 }

-- Message "a" is requeued at 14, and "b" is not yet.
abbrev while_b_works : List Call
while_b_works = receives 12 ∷ requeues (flat 14) ∷ publishes "d" "4" ∷ receives 14 ∷ acks "a" ∷ []

stays_hidden_example :
    (lookup "b" (run at_work while_b_works).object.in_flight ≡ some delivery_b)
    × (count_if (has_id "b") (run at_work while_b_works).received ≡ 0)
unfolding lookup step insert
stays_hidden_example =
    stays_hidden at_work while_b_works "b" delivery_b busy-IsValid
      (tt, (tt, ((refl, refl), (tt, (tt, tt))))) refl
      (tt, ((λ i. omega arith), (tt, (tt, (refl, tt)))))

handed_out_again_example :
    count_if
      (has_id "b")
      (run at_work (requeues (flat 20) ∷ receives 21 ∷ receives 22 ∷ receives 23 ∷ [])).received
    ≡ 1
unfolding lookup step
handed_out_again_example =
    handed_out_again at_work "b" delivery_b (flat 20) busy-IsValid refl (λ i. omega arith)
      (21 ∷ 22 ∷ 23 ∷ []) refl

-- The producer has published its first message, and a good consumer and a bad one have called
-- `receive`.
abbrev two_messages : List Message
two_messages = message "a" "message 1" ∷ message "b" "message 2" ∷ []

abbrev second_is_bad : ℕ → Bool
second_is_bad i = i == 1

two_messages-HasDistinctIds : HasDistinctIds two_messages
two_messages-HasDistinctIds k = ground (arith, eq_iff "a" k, eq_iff "b" k, eq_iff "a" "b")

begun : (d : Demo) × DemoReach 2 second_is_bad (ready 3 two_messages 1) 3 d
unfolding ready attempt publish init
begun = (
  _,
  DemoReach.next
      (DemoReach.next
        (DemoReach.next DemoReach.here
          (DemoStep.produces (message "a" "message 1") (message "b" "message 2" ∷ []) refl))
        (DemoStep.consumes (Step.calls_receive 0 10 refl) refl))
      (DemoStep.consumes (Step.calls_receive 1 11 refl) refl),
)

all_threads_end_example :
    (IsOver 2 begun.0 ⊎ ((e : Demo) × DemoStep 2 second_is_bad begun.0 e)) × (3 ≤ 31)
all_threads_end_example =
    all_threads_end 2 second_is_bad 3 1 3 two_messages two_messages-HasDistinctIds begun.1

threads_call_in_turn_example :
    let calls = calls_of begun.1 in
    ((run (start 3) calls).object ≡ begun.0.system.object)
    × IsFreshRun (start 3) calls
    × ((run (start 3) calls).received ≡ got_of begun.1)
    × AllPromised calls empty_office (office (run (start 3) calls))
threads_call_in_turn_example =
    threads_call_in_turn 2 second_is_bad 3 1 3 two_messages two_messages-HasDistinctIds begun.1
