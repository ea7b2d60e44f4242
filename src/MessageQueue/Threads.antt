-- ===== src/MessageQueue/Threads.antt =====
-- The producers, consumers and the monitor of 03-simple-message-queue.py as threads that
-- interleave at the lock of the queue. `Condition.wait_for(predicate, timeout)` tests its
-- predicate under the lock, gives the lock up while it sleeps, and tests again when it was
-- notified or its time ran out.
use the_grind.Prelude.{ℕ, String, ◌≡◌, ◌≢◌, refl, none, some, List, [], ◌∷◌, arith, update}
use the_grind.MessageQueue.{
  Message, SimpleQueue, init, publish, hand_out, receive, ack, requeue_expired,
}

-- Where a thread stands.
pub data Pc : Type 0 where
  idle : Pc  -- about to call `receive`
  waiting : Pc  -- asleep in `wait_for`, not notified
  notified : Pc  -- notified, and not back at the lock yet
  timed_out : Pc  -- its wait ran out, and it is not back at the lock yet
  working : Message → Pc  -- got a message that it has not acknowledged
  ended : Pc  -- `receive` has returned None, or a bad consumer its work: the function returns
  crashed : Pc  -- KeyError from `ack`

pub record System : Type 0 where
  pub object : SimpleQueue
  pub pc : ℕ → Pc

-- `condition.notify_all()`
abbrev pub notify_all : (ℕ → Pc) → ℕ → Pc
notify_all pc i = elim (pc i) [ waiting ↦ notified | other ↦ other ]

-- `wait_for` has the lock and tests `len(self.queue) > 0`: thread `i` gets a message, or stands
-- at `otherwise`.
unfoldable pub take_or : Pc → ℕ → ℕ → List Message → System → System
take_or otherwise i now [] s = record s { pc = update s.pc i otherwise }
take_or otherwise i now (m ∷ rest) s = record {
  object = (receive now s.object).0;
  pc = update s.pc i (working m);
}

unfoldable pub attempt : Pc → ℕ → ℕ → System → System
unfolding take_or
attempt otherwise i now s = take_or otherwise i now s.object.queue s

-- A good consumer's `q.ack(message.id)`.
unfoldable pub finish : ℕ → Message → System → System
finish i m s = elim (ack m.id s.object) [
  | none ↦ record s { pc = update s.pc i crashed }
  | some q ↦ record { object = q; pc = update s.pc i idle }
]

pub data Step (s : System) : System → Type 0 where
  publishes :
      (uuid body : String)
      → Step s (record { object = (publish uuid body s.object).0; pc = notify_all s.pc })
  calls_receive : (i now : ℕ) → s.pc i ≡ idle → Step s (attempt waiting i now s)
  times_out : (i : ℕ) → s.pc i ≡ waiting → Step s (record s { pc = update s.pc i timed_out })
  -- notified: with nothing there it waits for the rest of its time
  resumes : (i now : ℕ) → s.pc i ≡ notified → Step s (attempt waiting i now s)
  -- notified, and with no time left: with nothing there `receive` returns None
  resumes_late : (i now : ℕ) → s.pc i ≡ notified → Step s (attempt ended i now s)
  -- timed out: the predicate is tested once more
  resumes_timed_out : (i now : ℕ) → s.pc i ≡ timed_out → Step s (attempt ended i now s)
  acknowledges : (i : ℕ) (m : Message) → s.pc i ≡ working m → Step s (finish i m s)
  forgets :
      (i : ℕ) (m : Message) → s.pc i ≡ working m → Step s (record s { pc = update s.pc i ended })
  requeues :
      (clock : ℕ → ℕ) (q : SimpleQueue)
      → requeue_expired clock s.object ≡ some q
      → Step s (record { object = q; pc = notify_all s.pc })

pub data Reach (s : System) : System → Type 0 where
  here : Reach s s
  next : {t u : System} → Reach s t → Step t u → Reach s u

-- Only with an empty queue does a thread sleep that nobody has notified.
abbrev IsAwake : System → Type 0
IsAwake s = (j : ℕ) → s.pc j ≡ waiting → s.object.queue ≡ []

notify_all-ne-waiting : (pc : ℕ → Pc) (j : ℕ) → notify_all pc j ≢ waiting
notify_all-ne-waiting pc j = ground arith

take_or-IsAwake :
    (otherwise : Pc) (i now : ℕ) (ms : List Message) (s : System)
    → s.object.queue ≡ ms
    → IsAwake s
    → IsAwake (take_or otherwise i now ms s)
unfolding take_or receive hand_out
take_or-IsAwake otherwise i now [] s e h j w = e
take_or-IsAwake otherwise i now (m ∷ rest) s e h j w = cc (e, h j (ground arith))

finish-IsAwake : (i : ℕ) (m : Message) (s : System) → IsAwake s → IsAwake (finish i m s)
unfolding finish ack
finish-IsAwake i m s h j w = ground (arith, h j)

Step-IsAwake : {s t : System} → Step s t → IsAwake s → IsAwake t
unfolding attempt
Step-IsAwake {s} (publishes uuid body) h = λ j w. absurd (notify_all-ne-waiting s.pc j w)
Step-IsAwake {s} (calls_receive i now e) h = take_or-IsAwake waiting i now s.object.queue s refl h
Step-IsAwake {s} (times_out i e) h = λ j w. ground (arith, h j)
Step-IsAwake {s} (resumes i now e) h = take_or-IsAwake waiting i now s.object.queue s refl h
Step-IsAwake {s} (resumes_late i now e) h = take_or-IsAwake ended i now s.object.queue s refl h
Step-IsAwake {s} (resumes_timed_out i now e) h = take_or-IsAwake ended i now s.object.queue s refl h
Step-IsAwake {s} (acknowledges i m e) h = finish-IsAwake i m s h
Step-IsAwake {s} (forgets i m e) h = λ j w. ground (arith, h j)
Step-IsAwake {s} (requeues clock q e) h = λ j w. absurd (notify_all-ne-waiting s.pc j w)

abbrev pub initial : ℕ → System
initial timeout = record { object = init timeout; pc = λ _. idle }

-- No wakeup is lost: in every state that the threads can reach from a new queue, in any order, a
-- thread that sleeps in `receive` with no notification pending sees an empty queue.
pub no_lost_wakeup :
    (timeout : ℕ) {s : System}
    → Reach (initial timeout) s
    → (j : ℕ) → s.pc j ≡ waiting
    → s.object.queue ≡ []
no_lost_wakeup timeout here = λ j w. unfold init in refl
no_lost_wakeup timeout (next r st) = Step-IsAwake st (no_lost_wakeup timeout r)
