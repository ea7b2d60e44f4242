-- ===== src/MessageQueue/Log.antt =====
-- What a sequence of calls of the methods of 03-simple-message-queue.py comes to, call by call.
use the_grind.Prelude.{sym, append-nil, ℕ, String, ◌≡◌, refl, ap, ◌∙◌, List, [], ◌∷◌, ◌++◌}
use the_grind.MessageQueue.{Message, SimpleQueue, publish, receive, ack, requeue_expired}
use the_grind.MessageQueue.Methods.{IsFresh}
use the_grind.MessageQueue.History.{
  Call, receives, acks, Trace, start, to_list, or_same, step, run, IsFreshCall, IsFreshRun,
}

-- One more call at the end.
run-snoc : (t : Trace) (cs : List Call) (c : Call) → run t (cs ++ c ∷ []) ≡ step (run t cs) c
unfolding run
run-snoc t [] c = refl
run-snoc t (d ∷ cs) c = run-snoc (step t d) cs c

IsFreshRun-snoc :
    (t : Trace) (cs : List Call) (c : Call)
    → IsFreshRun t cs
    → IsFreshCall (run t cs) c
    → IsFreshRun t (cs ++ c ∷ [])
unfolding run
IsFreshRun-snoc t [] c h f = (f, tt)
IsFreshRun-snoc t (d ∷ cs) c (now, later) f = (now, IsFreshRun-snoc (step t d) cs c later f)

-- The calls have fresh ids, leave the object, and return the messages that were got.
pub record IsLogged (timeout : ℕ) (q : SimpleQueue) (calls : List Call) (got : List Message)
    : Type 0 where
  pub fresh : IsFreshRun (start timeout) calls
  pub same : (run (start timeout) calls).object ≡ q
  pub told : (run (start timeout) calls).received ≡ got

module _ (timeout : ℕ) (q : SimpleQueue) (calls : List Call) (got : List Message)
    (logged : IsLogged timeout q calls got) where
  abbrev t : Trace
  t = run (start timeout) calls

  extend :
      (q' : SimpleQueue) (c : Call) (more : List Message)
      → IsFreshCall t c
      → (step t c).object ≡ q'
      → (step t c).received ≡ t.received ++ more
      → IsLogged timeout q' (calls ++ c ∷ []) (got ++ more)
  extend q' c more f e g = record {
    fresh = IsFreshRun-snoc (start timeout) calls c logged.fresh f;
    same = ap (λ (t : Trace). t.object) (run-snoc (start timeout) calls c) ∙ e;
    told =
        ap (λ (t : Trace). t.received) (run-snoc (start timeout) calls c)
        ∙ g
        ∙ ap (λ (l : List Message). l ++ more) logged.told;
  }

  pub no_call : IsLogged timeout q (calls ++ []) (got ++ [])
  no_call = rw (append-nil calls, append-nil got) logged

  pub published :
      (m : Message)
      → IsFresh m.id q
      → IsLogged timeout
          (publish m.id m.body q).0
          (calls ++ Call.publishes m.id m.body ∷ [])
          (got ++ [])
  unfolding step
  published m f =
      extend _ (Call.publishes m.id m.body) [] (rw logged.same f)
        (ap (λ (o : SimpleQueue). (publish m.id m.body o).0) logged.same)
        (sym (append-nil t.received))

  pub received :
      (now : ℕ)
      → IsLogged timeout
          (receive now q).0
          (calls ++ receives now ∷ [])
          (got ++ to_list (receive now q).1)
  unfolding step
  received now =
      extend _ (receives now) _ tt (ap (λ (o : SimpleQueue). (receive now o).0) logged.same)
        (ap (λ (o : SimpleQueue). t.received ++ to_list (receive now o).1) logged.same)

  pub acked :
      (k : String) → IsLogged timeout (or_same q (ack k q)) (calls ++ acks k ∷ []) (got ++ [])
  unfolding step
  acked k =
      extend _ (acks k) [] tt (ap (λ (o : SimpleQueue). or_same o (ack k o)) logged.same)
        (sym (append-nil t.received))

  pub put_back :
      (clock : ℕ → ℕ)
      → IsLogged timeout
          (or_same q (requeue_expired clock q))
          (calls ++ Call.requeues clock ∷ [])
          (got ++ [])
  unfolding step
  put_back clock =
      extend _ (Call.requeues clock) [] tt
        (ap (λ (o : SimpleQueue). or_same o (requeue_expired clock o)) logged.same)
        (sym (append-nil t.received))
