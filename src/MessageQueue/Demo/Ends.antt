-- ===== src/MessageQueue/Demo/Ends.antt =====
-- The program of 03-simple-message-queue.py comes to its end.
use the_grind.Prelude.{
  ℕ, zero, suc, ◌≤◌, ◌<◌, ◌≡◌, refl, ◌⊎◌, inl, inr, Bool, List, [], ◌∷◌, length, arith, all_or,
  Bool-cases,
}
use the_grind.MessageQueue.{Message}
use the_grind.MessageQueue.Methods.{requeued, requeue_expired-eq}
use the_grind.MessageQueue.Threads.{
  Pc, idle, waiting, notified, timed_out, working, ended, crashed, calls_receive, times_out,
  resumes, resumes_timed_out, acknowledges, forgets,
}
use the_grind.MessageQueue.Demo.{Demo, ready, DemoStep, produces, monitors, consumes, DemoReach}
use the_grind.MessageQueue.Demo.Bound.{Going, budget, HasDistinctIds, DemoReach-Going}

-- `join` has returned for every thread; a consumer's function has returned, or a KeyError has
-- ended it.
abbrev pub IsOver : ℕ → Demo → Type 0
IsOver n d =
    (d.to_publish ≡ [])
    × (d.rounds ≡ 0)
    × ((i : ℕ) → i < n → (d.system.pc i ≡ ended) ⊎ (d.system.pc i ≡ crashed))

module _ (n : ℕ) (is_bad : ℕ → Bool) (d : Demo) where
  abbrev CanStep : Type 0
  CanStep = (e : Demo) × DemoStep n is_bad d e

  consumer_goes_on :
      (i : ℕ) (p : Pc)
      → i < n
      → d.system.pc i ≡ p
      → ((d.system.pc i ≡ ended) ⊎ (d.system.pc i ≡ crashed)) ⊎ CanStep
  consumer_goes_on i idle lt e = inr (_, consumes (calls_receive i 0 e) (ground arith))
  consumer_goes_on i waiting lt e = inr (_, consumes (times_out i e) (ground arith))
  consumer_goes_on i notified lt e = inr (_, consumes (resumes i 0 e) (ground arith))
  consumer_goes_on i timed_out lt e = inr (_, consumes (resumes_timed_out i 0 e) (ground arith))
  consumer_goes_on i (working m) lt e = elim (Bool-cases (is_bad i)) [
    | inl bad ↦ inr (_, consumes (forgets i m e) (ground arith))
    | inr good ↦ inr (_, consumes (acknowledges i m e) (ground arith))
  ]
  consumer_goes_on i ended lt e = inl (inl e)
  consumer_goes_on i crashed lt e = inl (inr e)

  goes_on :
      (T R k : ℕ) (ms : List Message) (rounds : ℕ)
      → d.to_publish ≡ ms
      → d.rounds ≡ rounds
      → Going n T R k d
      → IsOver n d ⊎ CanStep
  goes_on T R k (m ∷ rest) rounds e f going = inr (_, produces m rest e)
  goes_on T R k [] (suc rest) e f going = inr (
    _,
    monitors (λ i. 0) (requeued (λ i. 0) d.system.object) rest f
        (requeue_expired-eq (λ i. 0) d.system.object going.valid),
  )
  goes_on T R k [] zero e f going =
      elim (all_or n (λ i lt. consumer_goes_on i (d.system.pc i) lt refl)) [
        | inl all ↦ inl (e, f, all)
        | inr step ↦ inr step
      ]

-- With messages of distinct ids to publish, any consumers, good or bad, and any rounds of the
-- monitor: in every state of the program either the producer and the monitor have done their work
-- and every consumer has ended, or some thread can take a step; and a run has at most `budget`
-- steps. So the program comes to its end, in any order of its steps.
pub all_threads_end :
    (n : ℕ) (is_bad : ℕ → Bool) (timeout R k : ℕ) (ms : List Message) {d : Demo}
    → HasDistinctIds ms
    → DemoReach n is_bad (ready timeout ms R) k d
    → (IsOver n d ⊎ ((e : Demo) × DemoStep n is_bad d e)) × (k ≤ budget n (length ms) R)
all_threads_end n is_bad timeout R k ms {d} distinct r =
    let going = DemoReach-Going n is_bad timeout R k ms distinct r in
    (
      goes_on n is_bad d (length ms) R k d.to_publish d.rounds refl refl going,
      omega (arith, going.bound),
    )
