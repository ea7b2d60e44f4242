-- ===== src/Counters/Tests.antt =====
-- Two threads with one round each.
use the_grind.Prelude.{
  ℕ, zero, suc, ◌*◌, ◌≤◌, ◌<◌, ◌≡◌, ◌⊎◌, refl, true, false, ◌+◌, [], ◌∷◌, none, update, arith,
}
use the_grind.Counters.{rounds}
use the_grind.Counters.Unsafe
use the_grind.Counters.Unsafe.{reading, writing, lost_updates}
use the_grind.Counters.Bounds.{unsafe_between}
use the_grind.Counters.Locked
use the_grind.Counters.Locked.{locked_exact}
use the_grind.Counters.Isolated
use the_grind.Counters.Isolated.{isolated_exact}

-- Two threads with two rounds each, of which two updates are lost.
abbrev lost : Unsafe.System
lost = (lost_updates 1).0

lost_done : (i : ℕ) → i < 2 → lost.done i ≡ 2
lost_done zero lt = (lost_updates 1).3
lost_done (suc zero) lt = (lost_updates 1).4
lost_done (suc (suc i)) lt = absurd (omega arith)

unsafe_between_example : (2 ≤ lost.counter) × (lost.counter ≤ 2 * 2)
unsafe_between_example = unsafe_between 2 2 (omega arith) (omega arith) (lost_updates 1).1 lost_done

lost_updates_example :
    (s : Unsafe.System) × Unsafe.Reach 2 rounds Unsafe.init s
    × (s.counter ≡ 2)
    × (s.done 0 ≡ rounds)
    × (s.done 1 ≡ rounds)
lost_updates_example = lost_updates 999999

abbrev counted : ℕ → Locked.System → Locked.System
counted i s = record {
  counter = s.counter + 1;
  lock = none;
  done = update s.done i (s.done i + 1);
  pc =
      update
        (update (update (update s.pc i Locked.locked) i (Locked.has_read s.counter)) i Locked.wrote)
        i Locked.idle;
}

counted_reached :
    (k i : ℕ) (s : Locked.System)
    → Locked.Reach 2 1 k s
    → i < 2
    → s.done i < 1
    → s.pc i ≡ Locked.idle
    → s.lock ≡ none
    → Locked.Reach 2 1 (suc (suc (suc (suc k)))) (counted i s)
counted_reached k i s r lt left e free =
    Locked.next
      (Locked.next
        (Locked.next (Locked.next r (Locked.acquires i lt left e free))
          (Locked.reads i lt (ground arith)))
        (Locked.writes i s.counter lt (ground arith)))
      (Locked.releases i lt (ground arith))

abbrev both : Locked.System
both = counted 1 (counted 0 Locked.init)

both_reached : Locked.Reach 2 1 8 both
unfolding Locked.init
both_reached =
    counted_reached 4 1 (counted 0 Locked.init)
      (counted_reached 0 0 Locked.init Locked.here (omega arith) (omega arith) refl refl)
      (omega arith) (omega arith) refl refl

locked_exact_example :
    (((t : Locked.System) × Locked.Step 2 1 both t) ⊎ ((both.counter ≡ 2 * 1) × (8 ≡ 4 * (2 * 1))))
    × (8 ≤ 4 * (2 * 1))
locked_exact_example = locked_exact 2 1 8 both_reached

abbrev all_stored : Isolated.System
all_stored = record {
  results = 1 ∷ 1 ∷ [];
  done = update (update (λ i. 0) 0 1) 1 1;
  local_counter = update (update (λ i. 0) 0 1) 1 1;
  stored = update (update (λ i. false) 1 true) 0 true;
}

all_stored_reached : Isolated.Reach 2 1 all_stored
unfolding Isolated.init Isolated.set_elem
all_stored_reached =
    Isolated.next
      (Isolated.next
        (Isolated.next (Isolated.next Isolated.here (Isolated.adds 0 (omega arith) (omega arith)))
          (Isolated.adds 1 (omega arith) (omega arith)))
        (Isolated.stores 1 (0 ∷ 1 ∷ []) (omega arith) refl refl refl))
      (Isolated.stores 0 (1 ∷ 1 ∷ []) (omega arith) refl refl refl)

isolated_exact_example : Isolated.sum all_stored.results ≡ 2 * 1
isolated_exact_example = isolated_exact 2 1 all_stored_reached (λ i lt. ground arith)
