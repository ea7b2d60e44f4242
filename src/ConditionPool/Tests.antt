-- ===== src/ConditionPool/Tests.antt =====
-- One connection and three threads.
use the_grind.Prelude.{
  ℕ, ◌<◌, ◌≤◌, ◌*◌, ◌≡◌, ◌≢◌, ◌⊎◌, true, false, refl, [], ◌∷◌, arith, update, count_if,
}
use the_grind.ConditionPool.{
  Pc, outside, waiting, notified, timed_out, has_conn, failed, System, init, look, return_conn,
  give_up, Step, Reach, pop,
}
use the_grind.ConditionPool
use the_grind.ConditionPool.Places.{is, has_alone}
use the_grind.ConditionPool.Wakeups.{Patient, patient_wakeup, lost_wakeup}
use the_grind.ConditionPool.Wakeups
use the_grind.ConditionPool.Demo
use the_grind.ConditionPool.Demo.{Demo, DemoStep, begins, goes_on, DemoReach, ready}
use the_grind.ConditionPool.Demo.Completes.{demo_completes}
use the_grind.ConditionPool.BusyWait
use the_grind.ConditionPool.BusyWait.{crowd_can_crash}

-- Thread 0 has the connection, and threads 1 and 2 sleep.
abbrev crowded : System
crowded = look 2 (look 1 (look 0 (init 1)))

crowded_reached : Reach 3 1 crowded
unfolding look init
crowded_reached =
    ConditionPool.next
      (ConditionPool.next
        (ConditionPool.next ConditionPool.here (Step.borrows 0 (omega arith) refl))
        (Step.borrows 1 (omega arith) refl))
      (Step.borrows 2 (omega arith) refl)

has_alone_example : (◌≡◌ {A = ℕ} 0 0) × (count_if (is 0) crowded.pool ≡ 0)
unfolding look init
has_alone_example = has_alone 3 1 crowded_reached 0 0 0 (omega arith) (omega arith) refl refl

-- Thread 0 has returned the connection: it is free, and thread 1 is notified.
abbrev freed : System
freed = return_conn 0 0 crowded

freed_patient : Patient 3 1 freed
unfolding look init
freed_patient =
    Wakeups.next
      (Wakeups.next
        (Wakeups.next (Wakeups.next Wakeups.here (Step.borrows 0 (omega arith) refl) refl)
          (Step.borrows 1 (omega arith) refl) refl)
        (Step.borrows 2 (omega arith) refl) refl)
      (Step.returns 0 0 (omega arith) refl) refl

-- The wait of thread 1 has run out.
abbrev late : System
late = record crowded { pc = update crowded.pc 1 timed_out }

late_reached : Reach 3 1 late
unfolding look init
late_reached = ConditionPool.next crowded_reached (Step.times_out 1 (omega arith) refl)

lost_wakeup_example :
    let t = give_up 1 (return_conn 0 0 late) in
    (t.pool ≡ 0 ∷ [])
    × (t.pc 1 ≡ failed)
    × (t.pc 2 ≡ waiting)
    × ((m : ℕ) → (t.pc m ≡ late.pc m) ⊎ (t.pc m ≢ notified))
unfolding look init
lost_wakeup_example = lost_wakeup late 0 1 2 0 (2 ∷ []) refl refl refl refl

-- Two workers and one connection: thread 1 sleeps until thread 0 has returned it.
abbrev finished : Demo
finished = record {
  system = return_conn 1 0 (look 1 (return_conn 0 0 (look 1 (look 0 (init 1)))));
  started = update (update (λ i. false) 0 true) 1 true;
}

finished_reached : DemoReach 2 1 5 finished
unfolding ready look init return_conn
finished_reached =
    Demo.next
      (Demo.next
        (Demo.next
          (Demo.next (Demo.next Demo.here (begins 0 (omega arith) refl))
            (begins 1 (omega arith) refl))
          (goes_on (Step.returns 0 0 (omega arith) refl) refl refl))
        (goes_on (Step.resumes 1 (omega arith) refl) refl refl))
      (goes_on (Step.returns 1 0 (omega arith) refl) refl refl)

demo_completes_example :
    (((i : ℕ) → i < 2 → (finished.started i ≡ true) × (finished.system.pc i ≡ outside))
      ⊎ ((e : Demo) × DemoStep 2 finished e))
    × (5 ≤ 4 * 2)
demo_completes_example = demo_completes 2 1 5 finished_reached (omega arith)

crowd_can_crash_example :
    (s : BusyWait.System) × BusyWait.Reach 3 1 s
    × (s.pc 0 ≡ BusyWait.borrowed 0)
    × (s.pc 1 ≡ BusyWait.index_error)
crowd_can_crash_example = crowd_can_crash 1
