-- ===== src/MessageQueue/Demo/Bound.antt =====
-- What the threads of 03-simple-message-queue.py have still to do, and that each step lowers it.
use the_grind.Prelude.{
  eq_refl, sum_below-const, Option-cases, inl, inr, ℕ, zero, suc, ◌+◌, ◌*◌, ◌≤◌, ◌<◌, ◌≡◌, refl,
  Bool, true, List, [], ◌∷◌, length, arith, update, sum_below, sum_below-le_add, sum_below-update,
  String, length-append, count_if, count_if-append, ap,
}
use the_grind.MessageQueue.{init, publish, Message, SimpleQueue, ack}
use the_grind.MessageQueue.Methods.{
  publish-IsValid, init-IsValid, requeue_expired-eq, has_id, IsValid, requeued,
}
use the_grind.MessageQueue.Threads.{
  take_or, attempt, finish, Step, publishes, calls_receive, times_out, resumes, resumes_late,
  resumes_timed_out, acknowledges, forgets, requeues, Pc, idle, waiting, notified, timed_out,
  working, ended, crashed, System, notify_all,
}
use the_grind.MessageQueue.Demo.{
  DemoReach, here, next, ready, Demo, DemoStep, is_consumer, produces, monitors, consumes,
}
use the_grind.MessageQueue.Demo.Counts.{queued, held, ids, Keeps, handed_out, acked, put_back}

abbrev pub to_do : Pc → ℕ
to_do idle = 3
to_do waiting = 2
to_do notified = 3
to_do timed_out = 1
to_do (working m) = 4
to_do ended = 0
to_do crashed = 0

pub woken : (n : ℕ) (pc : ℕ → Pc) → sum_below to_do n (notify_all pc) ≤ sum_below to_do n pc + n
woken n pc = sum_below-le_add to_do n pc (notify_all pc) (λ i. ground arith)

-- A consumer's step keeps the object well formed, and leaves it less to do: four steps for each
-- message that waits.
record Moves (n : ℕ) (s t : System) : Type 0 where
  keeps : Keeps s.object t.object
  less : 4 * queued t.object + sum_below to_do n t.pc < 4 * queued s.object + sum_below to_do n s.pc

unchanged : (q : SimpleQueue) → IsValid q → Keeps q q
unchanged q v = record { valid = v; no_new = λ k. omega arith; total = omega arith }

moved :
    (n i : ℕ) (p : Pc) (s : System)
    → i < n
    → IsValid s.object
    → to_do p < to_do (s.pc i)
    → Moves n s (record s { pc = update s.pc i p })
moved n i p s lt v less = record {
  keeps = unchanged s.object v;
  less = omega (arith, sum_below-update to_do n i s.pc p lt);
}

takes :
    (n i now : ℕ) (otherwise : Pc) (ms : List Message) (s : System)
    → s.object.queue ≡ ms
    → i < n
    → IsValid s.object
    → to_do otherwise < to_do (s.pc i)
    → Moves n s (take_or otherwise i now ms s)
unfolding take_or
takes n i now otherwise [] s e lt v less = moved n i otherwise s lt v less
takes n i now otherwise (m ∷ rest) s e lt v less =
    let (keeps, one_less) = handed_out now m rest s.object e v in
    record {
      keeps = keeps;
      less = omega (arith, one_less, sum_below-update to_do n i s.pc (working m) lt);
    }

finishes :
    (n i : ℕ) (m : Message) (s : System)
    → i < n
    → IsValid s.object
    → s.pc i ≡ working m
    → Moves n s (finish i m s)
unfolding finish
finishes n i m s lt v e = elim (Option-cases (ack m.id s.object)) [
  | inl gone ↦ rw (gone, finish) (moved n i crashed s lt v (rw e (omega arith)))
  | inr (q, left) ↦
      let (keeps, same) = acked m.id s.object q v left in
      rw (left, finish)
        (record {
          keeps = keeps;
          less = omega (arith, same, ap to_do e, sum_below-update to_do n i s.pc idle lt);
        })
]

consumer_progress :
    (n : ℕ) (is_bad : ℕ → Bool) {s t : System} (st : Step s t)
    → is_consumer n is_bad st ≡ true
    → IsValid s.object
    → Moves n s t
unfolding attempt
consumer_progress n is_bad {s} (publishes uuid body) c v = absurd (ground arith)
consumer_progress n is_bad {s} (requeues clock q e) c v = absurd (ground arith)
consumer_progress n is_bad {s} (calls_receive i now e) c v =
    takes n i now waiting s.object.queue s refl (ground arith) v (rw e (omega arith))
consumer_progress n is_bad {s} (times_out i e) c v =
    moved n i timed_out s (ground arith) v (rw e (omega arith))
consumer_progress n is_bad {s} (resumes i now e) c v =
    takes n i now waiting s.object.queue s refl (ground arith) v (rw e (omega arith))
consumer_progress n is_bad {s} (resumes_late i now e) c v =
    takes n i now ended s.object.queue s refl (ground arith) v (rw e (omega arith))
consumer_progress n is_bad {s} (resumes_timed_out i now e) c v =
    takes n i now ended s.object.queue s refl (ground arith) v (rw e (omega arith))
consumer_progress n is_bad {s} (acknowledges i m e) c v = finishes n i m s (ground arith) v e
consumer_progress n is_bad {s} (forgets i m e) c v =
    moved n i ended s (ground arith) v (rw e (omega arith))

-- `T` messages and `R` rounds of the monitor at the start.
abbrev pub budget : ℕ → ℕ → ℕ → ℕ
budget n T R = 4 * (T + T * R) + suc n * (T + R) + 3 * n

pub record Going (n T R k : ℕ) (d : Demo) : Type 0 where
  pub valid : IsValid d.system.object
  pub fresh : (j : String) → count_if (has_id j) d.to_publish + ids j d.system.object ≤ 1
  pub total : length d.to_publish + queued d.system.object + held d.system.object ≤ T
  pub bound :
      k
        + 4 * (length d.to_publish + queued d.system.object + T * d.rounds)
        + suc n * (length d.to_publish + d.rounds)
        + sum_below to_do n d.system.pc
      ≤ budget n T R

module _ (n : ℕ) (is_bad : ℕ → Bool) (T R k : ℕ) where
  consumed :
      (d : Demo) {t : System}
      → Moves n d.system t
      → Going n T R k d
      → Going n T R (suc k) (record d { system = t })
  consumed d moves going = record {
    valid = moves.keeps.valid;
    fresh = λ j. omega (arith, going.fresh j, moves.keeps.no_new j);
    total = omega (arith, going.total, moves.keeps.total);
    bound = omega (arith, going.bound, moves.less);
  }

  produced :
      (d : Demo) (m : Message) (rest : List Message)
      → d.to_publish ≡ m ∷ rest
      → Going n T R k d
      → Going n T R (suc k) (record d {
        system = record {
          object = (publish m.id m.body d.system.object).0;
          pc = notify_all d.system.pc;
        };
        to_publish = rest;
      })
  unfolding publish
  produced d m rest e going = record {
    valid =
        publish-IsValid m.id m.body d.system.object
          (ground (arith, going.fresh m.id, e, eq_refl m.id)) going.valid;
    fresh = λ j.
        ground (arith, going.fresh j, e, count_if-append (has_id j) d.system.object.queue (m ∷ []));
    total = omega (arith, going.total, ap length e, length-append d.system.object.queue (m ∷ []));
    bound = omega (
      arith,
      going.bound,
      ap length e,
      ap (λ (l : List Message). suc n * (length l + d.rounds)) e,
      length-append d.system.object.queue (m ∷ []),
      woken n d.system.pc,
    );
  }

  monitored :
      (d : Demo) (clock : ℕ → ℕ) (rest : ℕ)
      → d.rounds ≡ suc rest
      → Going n T R k d
      → Going n T R (suc k) (record d {
        system = record { object = requeued clock d.system.object; pc = notify_all d.system.pc };
        rounds = rest;
      })
  monitored d clock rest e going =
      let keeps = put_back clock d.system.object going.valid in
      record {
        valid = keeps.valid;
        fresh = λ j. omega (arith, going.fresh j, keeps.no_new j);
        total = omega (arith, going.total, keeps.total);
        bound = omega (
          arith,
          going.bound,
          going.total,
          keeps.total,
          ap (λ (r : ℕ). T * r) e,
          ap (λ (r : ℕ). suc n * (length d.to_publish + r)) e,
          woken n d.system.pc,
        );
      }

  step-Going : {d e : Demo} → DemoStep n is_bad d e → Going n T R k d → Going n T R (suc k) e
  step-Going {d} (produces m rest e) going = produced d m rest e going
  step-Going {d} (monitors clock q rest e done) going =
      let same : q ≡ requeued clock d.system.object =
        ground (arith, done, requeue_expired-eq clock d.system.object going.valid) in
      rw same (monitored d clock rest e going)
  step-Going {d} (consumes st c) going =
      consumed d (consumer_progress n is_bad st c going.valid) going

-- The ids that `uuid4` gives to the messages differ.
abbrev pub HasDistinctIds : List Message → Type 0
HasDistinctIds ms = (k : String) → count_if (has_id k) ms ≤ 1

pub DemoReach-Going :
    (n : ℕ) (is_bad : ℕ → Bool) (timeout R k : ℕ) (ms : List Message) {d : Demo}
    → HasDistinctIds ms
    → DemoReach n is_bad (ready timeout ms R) k d
    → Going n (length ms) R k d
unfolding ready
DemoReach-Going n is_bad timeout R zero ms distinct here = record {
  valid = init-IsValid timeout;
  fresh = unfold init in (λ j. omega (arith, distinct j));
  total = unfold init in (omega arith);
  bound = unfold init in (omega (arith, sum_below-const to_do n 3 (λ i. idle) (λ i lt. refl)));
}
DemoReach-Going n is_bad timeout R (suc k) ms distinct (next r st) =
    step-Going n is_bad (length ms) R k st (DemoReach-Going n is_bad timeout R k ms distinct r)
