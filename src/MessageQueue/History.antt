-- ===== src/MessageQueue/History.antt =====
-- Any sequence of calls of the methods of `SimpleQueue`, with logs of what was published, handed
-- out and acknowledged. The threads of the program make such sequences: each call holds the lock.
use the_grind.Prelude.{ℕ, String, Option, none, some, List, [], ◌∷◌, ◌++◌, inl, inr, Option-cases}
use the_grind.Dict.{lookup}
use the_grind.MessageQueue.{
  Message, Delivery, SimpleQueue, init, publish, receive, ack, requeue_expired,
}
use the_grind.MessageQueue.Methods.{
  IsValid, IsFresh, publish-IsValid, receive-IsValid, ack-IsValid, requeued-IsValid,
  requeue_expired-eq,
}

pub data Call : Type 0 where
  publishes : (uuid body : String) → Call
  receives : (now : ℕ) → Call
  acks : (message_id : String) → Call
  requeues : (clock : ℕ → ℕ) → Call

pub record Trace : Type 0 where
  pub object : SimpleQueue
  pub published : List Message
  pub received : List Message
  pub acked : List Message

unfoldable pub start : ℕ → Trace
unfolding init
start timeout = record { object = init timeout; published = []; received = []; acked = [] }

abbrev pub to_list : Option Message → List Message
to_list none = []
to_list (some m) = m ∷ []

abbrev pub message_of : Option Delivery → List Message
message_of none = []
message_of (some d) = d.message ∷ []

-- A call that raises KeyError leaves the object as it was.
abbrev pub or_same : SimpleQueue → Option SimpleQueue → SimpleQueue
or_same q none = q
or_same q (some q') = q'

unfoldable pub step : Trace → Call → Trace
unfolding publish receive ack requeue_expired
step t (publishes uuid body) = record t {
  object = (publish uuid body t.object).0;
  published = t.published ++ record { id = uuid; body = body } ∷ [];
}
step t (receives now) = record t {
  object = (receive now t.object).0;
  received = t.received ++ to_list (receive now t.object).1;
}
step t (acks message_id) = record t {
  object = or_same t.object (ack message_id t.object);
  acked = t.acked ++ message_of (lookup message_id t.object.in_flight);
}
step t (requeues clock) = record t { object = or_same t.object (requeue_expired clock t.object) }

unfoldable pub run : Trace → List Call → Trace
unfolding step
run t [] = t
run t (c ∷ cs) = run (step t c) cs

-- `uuid4` gives each published message an id that no message of the object has.
abbrev pub IsFreshCall : Trace → Call → Type 0
IsFreshCall t (publishes uuid body) = IsFresh uuid t.object
IsFreshCall t (receives now) = Unit
IsFreshCall t (acks k) = Unit
IsFreshCall t (requeues clock) = Unit

abbrev pub IsFreshRun : Trace → List Call → Type 0
IsFreshRun t [] = Unit
IsFreshRun t (c ∷ cs) = IsFreshCall t c × IsFreshRun (step t c) cs

pub step-IsValid :
    (t : Trace) (c : Call) → IsFreshCall t c → IsValid t.object → IsValid (step t c).object
unfolding step
step-IsValid t (publishes uuid body) f v = publish-IsValid uuid body t.object f v
step-IsValid t (receives now) f v = receive-IsValid now t.object v
step-IsValid t (acks k) f v = elim (Option-cases (ack k t.object)) [
  | inl e ↦ rw e v
  | inr (q', e) ↦ rw e (ack-IsValid k t.object q' v e)
]
step-IsValid t (requeues clock) f v =
    rw (requeue_expired-eq clock t.object v) (requeued-IsValid clock t.object v)

abbrev pub delivery : Message → ℕ → Delivery
delivery m now = record { message = m; handed_out_time = now }
