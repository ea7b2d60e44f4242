-- ===== src/MessageQueue.antt =====
-- python-deep-dive/03-simple-message-queue.py: the queue with acknowledgements, a method at a
-- time. Each method runs under the lock of its object, so it is one function from state to state;
-- what the threads that wait do between the methods is in MessageQueue/Threads.antt. Times are
-- numbers of clock ticks, and a reading of the clock and a fresh message id are arguments.
pub mod Requeue
pub mod Methods
pub mod History
pub mod Log
pub mod Conservation
pub mod Order
pub mod Visibility
pub mod Redelivery
pub mod Contract
pub mod Threads
pub mod Demo
mod Tests
use mathlib.Core.Option
use the_grind.Prelude.{
  ℕ, suc, ◌+◌, String, Option, none, some, List, [], ◌∷◌, ◌++◌, Bool, true, false, ltb,
  if◌then◌else◌,
}
use the_grind.Dict.{Dict, insert, delete, delete_all}

pub record Message : Type 0 where
  pub id : String
  pub body : String

-- tuple[Message, float]
pub record Delivery : Type 0 where
  pub message : Message
  pub handed_out_time : ℕ

pub record SimpleQueue : Type 0 where
  pub queue : List Message
  pub in_flight : Dict Delivery
  pub visibility_timeout : ℕ

pub init : ℕ → SimpleQueue
init visibility_timeout = record {
  queue = [];
  in_flight = [];
  visibility_timeout = visibility_timeout;
}

-- `uuid` is the text of the `uuid.uuid4()` of the call.
pub publish : String → String → SimpleQueue → SimpleQueue × String
publish uuid body q = (record q { queue = q.queue ++ record { id = uuid; body = body } ∷ [] }, uuid)

hand_out : ℕ → List Message → SimpleQueue → SimpleQueue × Option Message
hand_out now [] q = (q, none)
hand_out now (m ∷ rest) q = (
  record q {
    queue = rest;
    in_flight = insert m.id (record { message = m; handed_out_time = now }) q.in_flight;
  },
  some m,
)

-- `receive` once `wait_for` has returned: with a message there the oldest is handed out, and
-- with none (the wait timed out) the result is None.
pub receive : ℕ → SimpleQueue → SimpleQueue × Option Message
unfolding hand_out
receive now q = hand_out now q.queue q

-- `none` is KeyError.
pub ack : String → SimpleQueue → Option SimpleQueue
unfolding delete
ack message_id q = Option.map (λ d. record q { in_flight = d }) (delete message_id q.in_flight)

-- `time.time() - handed_out_time > visibility_timeout`
abbrev pub is_overdue : ℕ → ℕ → Delivery → Bool
is_overdue visibility_timeout now d = ltb (d.handed_out_time + visibility_timeout) now

-- The `for` loop of `requeue_expired`. The clock is read once for each entry: `clock i` is the
-- reading of round `i`.
pub scan : (ℕ → ℕ) → ℕ → ℕ → Dict Delivery → List Message → List String → List Message × List String
scan clock timeout i [] queue to_delete = (queue, to_delete)
scan clock timeout i ((k, d) ∷ rest) queue to_delete =
    let overdue = is_overdue timeout (clock i) d in
    scan clock timeout (suc i) rest (if overdue then d.message ∷ queue else queue)
      (if overdue then to_delete ++ k ∷ [] else to_delete)

-- `none` is the KeyError of a `del` in the second loop.
pub requeue_expired : (ℕ → ℕ) → SimpleQueue → Option SimpleQueue
unfolding scan delete_all
requeue_expired clock q =
    let (queue, to_delete) = scan clock q.visibility_timeout 0 q.in_flight q.queue [] in
    Option.map (λ d. record q { queue = queue; in_flight = d }) (delete_all to_delete q.in_flight)
