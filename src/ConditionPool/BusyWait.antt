-- ===== src/ConditionPool/BusyWait.antt =====
-- `borrow_busy_wait` of 02-condition-variables.py, which has no lock: other threads run between
-- the test of the loop and the `pop`.
use the_grind.Prelude.{
  ℕ, suc, ◌<◌, ◌≡◌, ◌≢◌, refl, inl, inr, none, some, List, [], update, arith, Option-cases,
}
use the_grind.ConditionPool.{pop, conns}
use the_grind.ConditionPool.Places.{pop-eq-none}

pub data Pc : Type 0 where
  spinning : Pc  -- before the test `len(pool_list) == 0`
  tested : Pc  -- the test has failed
  borrowed : ℕ → Pc
  index_error : Pc  -- `pop` from the empty list

pub record System : Type 0 where
  pub pool_list : List ℕ
  pub pc : ℕ → Pc

unfoldable pub init : ℕ → System
init size = record { pool_list = conns size; pc = λ i. spinning }

-- `pool_list.pop()` by thread `i`
pub take : ℕ → System → System
take i s = elim (pop s.pool_list) [
  | none ↦ record s { pc = update s.pc i index_error }
  | some (conn, rest) ↦ record { pool_list = rest; pc = update s.pc i (borrowed conn) }
]

pub data Step (n : ℕ) (s : System) : System → Type 0 where
  spins : (i : ℕ) → i < n → s.pc i ≡ spinning → s.pool_list ≡ [] → Step n s s
  tests :
      (i : ℕ)
      → i < n
      → s.pc i ≡ spinning
      → s.pool_list ≢ []
      → Step n s (record s { pc = update s.pc i tested })
  pops : (i : ℕ) → i < n → s.pc i ≡ tested → Step n s (take i s)

pub data Reach (n size : ℕ) : System → Type 0 where
  here : Reach n size (init size)
  next : {s t : System} → Reach n size s → Step n s t → Reach n size t

-- One thread alone finds a connection wherever it has seen one.
record Alone (s : System) : Type 0 where
  seen : s.pc 0 ≡ tested → s.pool_list ≢ []
  safe : s.pc 0 ≢ index_error

Step-Alone : {s t : System} → Step 1 s t → Alone s → Alone t
unfolding take
Step-Alone {s} (spins i lt e empty) alone = alone
Step-Alone {s} (tests i lt e there) alone = record {
  seen = λ at. there;
  safe = λ at. ground (arith, alone.safe);
}
Step-Alone {s} (pops i lt e) alone = elim (Option-cases (pop s.pool_list)) [
  | inl gone ↦ absurd (ground (arith, alone.seen, pop-eq-none s.pool_list gone))
  | inr ((conn, rest), there) ↦
      rw (there, take) (record { seen = λ at. absurd (ground arith); safe = λ at. ground arith })
]

Reach-Alone : (size : ℕ) {s : System} → Reach 1 size s → Alone s
unfolding init
Reach-Alone size here = record { seen = λ e. absurd (ground arith); safe = λ e. ground arith }
Reach-Alone size (next r st) = Step-Alone st (Reach-Alone size r)

-- One thread alone never meets an IndexError.
alone_never_crashes : (size : ℕ) {s : System} → Reach 1 size s → s.pc 0 ≢ index_error
alone_never_crashes size r = (Reach-Alone size r).safe

-- With any two threads or more and one connection it can: both see the connection, one takes it,
-- and the other's `pop` raises IndexError.
pub crowd_can_crash :
    (n : ℕ)
    → (s : System) × Reach (suc (suc n)) 1 s × (s.pc 0 ≡ borrowed 0) × (s.pc 1 ≡ index_error)
unfolding init take conns pop
crowd_can_crash n = (
  _,
  next
      (next
        (next (next here (tests 0 (omega arith) refl (λ e. ground arith)))
          (tests 1 (omega arith) refl (λ e. ground arith)))
        (pops 0 (omega arith) refl))
      (pops 1 (omega arith) refl),
  refl,
  refl,
)
