-- ===== src/MessageQueue/Visibility.antt =====
-- The visibility timeout of 03-simple-message-queue.py: a message in flight is hidden until its
-- time runs out.
use the_grind.Prelude.{
  ℕ, suc, ◌+◌, ◌≤◌, ◌<◌, String, ◌≡◌, refl, ap, sym, ◌∙◌, some, List, [], ◌∷◌, ◌++◌, true, false,
  arith, append-nil, count_if, count_if-append, inl, inr, Option-cases, str_eq,
}
use the_grind.Dict.{Dict, count_key, lookup, lookup-insert, lookup-delete_ne}
use the_grind.MessageQueue.{Message, Delivery, SimpleQueue, hand_out, receive, ack, is_overdue}
use the_grind.MessageQueue.Requeue.{kept}
use the_grind.MessageQueue.Methods.{has_id, IsValid, requeued, requeue_expired-eq, ack-eq-some}
use the_grind.MessageQueue.History.{
  Call, publishes, receives, acks, requeues, Trace, step, run, to_list, or_same, delivery,
  IsFreshRun, step-IsValid,
}

pub lookup-count_key :
    (k : String) (x : Delivery) (d : Dict Delivery) → lookup k d ≡ some x → 0 < count_key k d
unfolding lookup
lookup-count_key k x [] e = absurd (ground arith)
lookup-count_key k x ((j, w) ∷ d) e = ground (arith, lookup-count_key k x d)

lookup-kept :
    (k : String) (x : Delivery) (clock : ℕ → ℕ) (timeout : ℕ)
    → ((i : ℕ) → is_overdue timeout (clock i) x ≡ false)
    → (i : ℕ) (d : Dict Delivery) → lookup k d ≡ some x
    → lookup k (kept clock timeout i d) ≡ some x
unfolding lookup kept
lookup-kept k x clock timeout early i [] e = e
lookup-kept k x clock timeout early i ((j, w) ∷ d) e =
    ground (arith, early i, lookup-kept k x clock timeout early (suc i) d)

in_time :
    (timeout now : ℕ) (d : Delivery)
    → now ≤ d.handed_out_time + timeout
    → is_overdue timeout now d ≡ false
in_time timeout now d h = ground arith

pub out_of_time :
    (timeout now : ℕ) (d : Delivery)
    → d.handed_out_time + timeout < now
    → is_overdue timeout now d ≡ true
out_of_time timeout now d h = ground arith

-- A call that neither acknowledges the message nor looks for expired ones after its time.
abbrev Spares : String → Delivery → ℕ → Call → Type 0
Spares k x timeout (publishes uuid body) = Unit
Spares k x timeout (receives now) = Unit
Spares k x timeout (acks j) = str_eq j k ≡ false
Spares k x timeout (requeues clock) = (i : ℕ) → clock i ≤ x.handed_out_time + timeout

abbrev AllSpare : String → Delivery → ℕ → List Call → Type 0
AllSpare k x timeout [] = Unit
AllSpare k x timeout (c ∷ cs) = Spares k x timeout c × AllSpare k x timeout cs

-- The message stays in flight, and is not handed out.
record Hidden (k : String) (x : Delivery) (timeout received : ℕ) (t : Trace) : Type 0 where
  in_flight : lookup k t.object.in_flight ≡ some x
  limit : t.object.visibility_timeout ≡ timeout
  pub once : count_if (has_id k) t.received ≡ received

acked_in_flight :
    (k : String) (x : Delivery) (q : SimpleQueue) (j : String)
    → str_eq j k ≡ false
    → lookup k q.in_flight ≡ some x
    → lookup k (or_same q (ack j q)).in_flight ≡ some x
acked_in_flight k x q j other e = elim (Option-cases (ack j q)) [
  | inl none_there ↦ rw none_there e
  | inr (q', done) ↦
      let (d, left, same) = ack-eq-some j q q' done in
      rw (done, same) (lookup-delete_ne j k q.in_flight d other left ∙ e)
]

acked_limit :
    (q : SimpleQueue) (j : String) → (or_same q (ack j q)).visibility_timeout ≡ q.visibility_timeout
acked_limit q j = elim (Option-cases (ack j q)) [
  | inl none_there ↦ rw none_there refl
  | inr (q', done) ↦ let (d, left, same) = ack-eq-some j q q' done in rw (done, same) refl
]

module _ (k : String) (x : Delivery) (timeout received : ℕ) where
  receive_hides :
      (t : Trace) (now : ℕ) (ms : List Message)
      → t.object.queue ≡ ms
      → IsValid t.object
      → Hidden k x timeout received t
      → Hidden k x timeout received (record t {
        object = (hand_out now ms t.object).0;
        received = t.received ++ to_list (hand_out now ms t.object).1;
      })
  unfolding hand_out
  receive_hides t now [] e v h = record {
    in_flight = h.in_flight;
    limit = h.limit;
    once = rw (append-nil t.received) h.once;
  }
  receive_hides t now (m ∷ rest) e v h =
      let other : str_eq m.id k ≡ false = ground (
        arith,
        v.unique k,
        ap (count_if (has_id k)) e,
        lookup-count_key k x t.object.in_flight,
        h.in_flight,
      ) in
      record {
        in_flight =
            rw (lookup-insert m.id k (delivery m now) t.object.in_flight, other) h.in_flight;
        limit = h.limit;
        once = ground (arith, h.once, count_if-append (has_id k) t.received (m ∷ []), other);
      }

  step_hides :
      (t : Trace) (c : Call)
      → IsValid t.object
      → Spares k x timeout c
      → Hidden k x timeout received t
      → Hidden k x timeout received (step t c)
  unfolding step receive requeued
  step_hides t (publishes uuid body) v spares h = record {
    in_flight = h.in_flight;
    limit = h.limit;
    once = h.once;
  }
  step_hides t (receives now) v spares h = receive_hides t now t.object.queue refl v h
  step_hides t (acks j) v spares h = record {
    in_flight = acked_in_flight k x t.object j spares h.in_flight;
    limit = acked_limit t.object j ∙ h.limit;
    once = h.once;
  }
  step_hides t (requeues clock) v spares h = rw (requeue_expired-eq clock t.object v) (record {
    in_flight =
        lookup-kept k x clock t.object.visibility_timeout
          (λ i. in_time t.object.visibility_timeout (clock i) x (rw (sym h.limit) at spares i)) 0
          t.object.in_flight h.in_flight;
    limit = h.limit;
    once = h.once;
  })

  runs_hide :
      (t : Trace) (cs : List Call)
      → IsFreshRun t cs
      → IsValid t.object
      → AllSpare k x timeout cs
      → Hidden k x timeout received t
      → Hidden k x timeout received (run t cs)
  unfolding run
  runs_hide t [] f v spares h = h
  runs_hide t (c ∷ cs) f v spares h =
      runs_hide (step t c) cs f.1 (step-IsValid t c f.0 v) spares.1 (step_hides t c v spares.0 h)

-- A message in flight is handed out to nobody else and stays in flight through any calls, with
-- fresh ids, among which nobody acknowledges it and no `requeue_expired` reads a time later than
-- its visibility timeout.
pub stays_hidden :
    (t : Trace) (cs : List Call) (k : String) (x : Delivery)
    → IsValid t.object
    → IsFreshRun t cs
    → lookup k t.object.in_flight ≡ some x
    → AllSpare k x t.object.visibility_timeout cs
    → (lookup k (run t cs).object.in_flight ≡ some x)
      × (count_if (has_id k) (run t cs).received ≡ count_if (has_id k) t.received)
stays_hidden t cs k x v f e spares =
    let h =
      runs_hide k x t.object.visibility_timeout (count_if (has_id k) t.received) t cs f v spares
        (record { in_flight = e; limit = refl; once = refl }) in
    (h.in_flight, h.once)
