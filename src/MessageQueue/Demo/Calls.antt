-- ===== src/MessageQueue/Demo/Calls.antt =====
-- The threads of 03-simple-message-queue.py as one sequence of calls: each method holds the lock.
use the_grind.Prelude.{
  ℕ, zero, suc, ◌≡◌, refl, subst, Bool, true, Option, List, [], ◌∷◌, ◌++◌, arith, inl, inr,
  Option-cases, eq_refl,
}
use the_grind.MessageQueue.{Message, SimpleQueue, hand_out, receive, ack}
use the_grind.MessageQueue.Methods.{IsFresh}
use the_grind.MessageQueue.Log.{IsLogged, no_call, published, received, acked, put_back}
use the_grind.MessageQueue.History.{Call, receives, acks, start, to_list, or_same, run, IsFreshRun}
use the_grind.MessageQueue.Contract.{AllPromised, empty_office, office, run-AllPromised}
use the_grind.MessageQueue.Threads.{
  System, Step, publishes, calls_receive, times_out, resumes, resumes_late, resumes_timed_out,
  acknowledges, forgets, requeues, Pc, waiting, working, ended, take_or, attempt, finish,
}
use the_grind.MessageQueue.Demo.{
  Demo, ready, is_consumer, DemoStep, produces, monitors, consumes, DemoReach, here, next,
}
use the_grind.MessageQueue.Demo.Bound.{HasDistinctIds, DemoReach-Going}

-- The call that a step makes, by the thread that takes it: a good consumer acknowledges the message
-- that it works on.
abbrev calls_of_step : {s t : System} → Step s t → List Call
calls_of_step (publishes uuid body) = Call.publishes uuid body ∷ []
calls_of_step (calls_receive i now e) = receives now ∷ []
calls_of_step (times_out i e) = []
calls_of_step (resumes i now e) = receives now ∷ []
calls_of_step (resumes_late i now e) = receives now ∷ []
calls_of_step (resumes_timed_out i now e) = receives now ∷ []
calls_of_step (acknowledges i m e) = acks m.id ∷ []
calls_of_step (forgets i m e) = []
calls_of_step (requeues clock q e) = Call.requeues clock ∷ []

abbrev message_at : Pc → List Message
message_at (working m) = m ∷ []
message_at _ = []

-- The message that a consumer works on after a step that gives it one.
abbrev got_in_step : {s t : System} → Step s t → List Message
got_in_step (publishes uuid body) = []
got_in_step {s} (calls_receive i now e) = message_at ((attempt waiting i now s).pc i)
got_in_step (times_out i e) = []
got_in_step {s} (resumes i now e) = message_at ((attempt waiting i now s).pc i)
got_in_step {s} (resumes_late i now e) = message_at ((attempt ended i now s).pc i)
got_in_step {s} (resumes_timed_out i now e) = message_at ((attempt ended i now s).pc i)
got_in_step (acknowledges i m e) = []
got_in_step (forgets i m e) = []
got_in_step (requeues clock q e) = []

module _ {n : ℕ} {is_bad : ℕ → Bool} where
  abbrev calls_in : {d e : Demo} → DemoStep n is_bad d e → List Call
  calls_in (produces m rest e) = Call.publishes m.id m.body ∷ []
  calls_in (monitors clock q rest e done) = Call.requeues clock ∷ []
  calls_in (consumes st c) = calls_of_step st

  abbrev got_in : {d e : Demo} → DemoStep n is_bad d e → List Message
  got_in (produces m rest e) = []
  got_in (monitors clock q rest e done) = []
  got_in (consumes st c) = got_in_step st

  -- The calls of a run, and the messages that its consumers got, in order.
  pub calls_of : {start d : Demo} {k : ℕ} → DemoReach n is_bad start k d → List Call
  calls_of here = []
  calls_of (next r st) = calls_of r ++ calls_in st

  pub got_of : {start d : Demo} {k : ℕ} → DemoReach n is_bad start k d → List Message
  got_of here = []
  got_of (next r st) = got_of r ++ got_in st

-- What a consumer's step makes of the object.
take_or-object :
    (otherwise : Pc) (i now : ℕ) (ms : List Message) (s : System)
    → s.object.queue ≡ ms
    → (take_or otherwise i now ms s).object ≡ (receive now s.object).0
unfolding take_or receive hand_out
take_or-object otherwise i now [] s e = rw (e, hand_out) refl
take_or-object otherwise i now (m ∷ rest) s e = refl

-- It works on the message that `receive` returns.
message_at-take_or :
    (otherwise : Pc) (i now : ℕ) (ms : List Message) (s : System)
    → s.object.queue ≡ ms
    → message_at otherwise ≡ []
    → message_at ((take_or otherwise i now ms s).pc i) ≡ to_list (receive now s.object).1
unfolding take_or receive hand_out
message_at-take_or otherwise i now [] s e none = rw (e, hand_out) (ground (arith, none))
message_at-take_or otherwise i now (m ∷ rest) s e none = rw (e, hand_out) (ground arith)

finish-object :
    (i : ℕ) (m : Message) (s : System)
    → (finish i m s).object ≡ or_same s.object (ack m.id s.object)
unfolding finish
finish-object i m s = elim (Option-cases (ack m.id s.object)) [
  | inl gone ↦ rw (gone, finish) refl
  | inr (q, there) ↦ rw (there, finish) refl
]

module _ (timeout n : ℕ) (is_bad : ℕ → Bool) (calls : List Call) (got : List Message) where
  attempted :
      (otherwise : Pc) (i now : ℕ) (s : System)
      → message_at otherwise ≡ []
      → IsLogged timeout s.object calls got
      → IsLogged timeout
          (attempt otherwise i now s).object
          (calls ++ receives now ∷ [])
          (got ++ message_at ((attempt otherwise i now s).pc i))
  unfolding attempt
  attempted otherwise i now s none logged =
      rw
        (
          take_or-object otherwise i now s.object.queue s refl,
          message_at-take_or otherwise i now s.object.queue s refl none,
        )
        (received timeout s.object calls got logged now)

  consumed :
      {s t : System} (st : Step s t)
      → is_consumer n is_bad st ≡ true
      → IsLogged timeout s.object calls got
      → IsLogged timeout t.object (calls ++ calls_of_step st) (got ++ got_in_step st)
  consumed (publishes uuid body) c logged = absurd (ground arith)
  consumed (requeues clock q e) c logged = absurd (ground arith)
  consumed {s} (calls_receive i now e) c logged = attempted waiting i now s refl logged
  consumed {s} (times_out i e) c logged = no_call timeout s.object calls got logged
  consumed {s} (resumes i now e) c logged = attempted waiting i now s refl logged
  consumed {s} (resumes_late i now e) c logged = attempted ended i now s refl logged
  consumed {s} (resumes_timed_out i now e) c logged = attempted ended i now s refl logged
  consumed {s} (acknowledges i m e) c logged =
      rw (finish-object i m s) (acked timeout s.object calls got logged m.id)
  consumed {s} (forgets i m e) c logged = no_call timeout s.object calls got logged

  stepped :
      {d e : Demo} (st : DemoStep n is_bad d e)
      → ((m : Message) (rest : List Message)
          → d.to_publish ≡ m ∷ rest
          → IsFresh m.id d.system.object)
      → IsLogged timeout d.system.object calls got
      → IsLogged timeout e.system.object (calls ++ calls_in st) (got ++ got_in st)
  stepped {d} (produces m rest e) fresh logged =
      published timeout d.system.object calls got logged m (fresh m rest e)
  stepped {d} (monitors clock q rest e done) fresh logged =
      subst
        (λ (o : Option SimpleQueue).
          IsLogged timeout (or_same d.system.object o) (calls ++ Call.requeues clock ∷ [])
            (got ++ []))
        done (put_back timeout d.system.object calls got logged clock)
  stepped (consumes st c) fresh logged = consumed st c logged

module _ (timeout n : ℕ) (is_bad : ℕ → Bool) (R : ℕ) (ms : List Message)
    (distinct : HasDistinctIds ms) where
  reached :
      (k : ℕ) {d : Demo} (r : DemoReach n is_bad (ready timeout ms R) k d)
      → IsLogged timeout d.system.object (calls_of r) (got_of r)
  unfolding calls_of got_of
  reached zero here = record {
    fresh = tt;
    same = unfold run start ready in refl;
    told = unfold run start ready in refl;
  }
  reached (suc k) (next {d} r st) =
      let going = DemoReach-Going n is_bad timeout R k ms distinct r in
      stepped timeout n is_bad (calls_of r) (got_of r) st
        (λ m rest e. ground (arith, going.fresh m.id, e, eq_refl m.id)) (reached k r)

-- The calls that the threads of a run of the program make, in the order of its steps, leave the
-- object as it is, with fresh ids, return exactly the messages that the consumers then work on, in
-- the order in which they get them, and do what the two bags promise. A consumer's ack is of the
-- message that it works on; the ids of the messages to publish differ.
pub threads_call_in_turn :
    (n : ℕ) (is_bad : ℕ → Bool) (timeout R k : ℕ) (ms : List Message) {d : Demo}
    → HasDistinctIds ms
    → (r : DemoReach n is_bad (ready timeout ms R) k d)
    → ((run (start timeout) (calls_of r)).object ≡ d.system.object)
      × IsFreshRun (start timeout) (calls_of r)
      × ((run (start timeout) (calls_of r)).received ≡ got_of r)
      × AllPromised (calls_of r) empty_office (office (run (start timeout) (calls_of r)))
threads_call_in_turn n is_bad timeout R k ms distinct r =
    let logged = reached timeout n is_bad R ms distinct k r in
    (logged.same, logged.fresh, logged.told, run-AllPromised timeout (calls_of r) logged.fresh)
