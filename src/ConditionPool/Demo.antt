-- ===== src/ConditionPool/Demo.antt =====
-- The demo of 02-condition-variables.py: each of `n` threads runs `worker` once, which borrows a
-- connection, works and returns it, and then ends.
pub mod Completes
use the_grind.Prelude.{
  ℕ, zero, suc, ◌+◌, ◌*◌, ◌≤◌, ◌<◌, ◌≡◌, ◌≢◌, refl, ◌⊎◌, inl, inr, Bool, true, false, List, [], ◌∷◌,
  length, update, arith, count_if-le-length, Bool-cases, Option-cases, sum_below, sum_below-update,
  sum_below-zero, sum_below-const,
}
use native.Mathlib.Decide.{dec_lt}
use the_grind.ConditionPool.{
  Pc, outside, waiting, notified, timed_out, has_conn, failed, System, pop, init, look, notify,
  return_conn, Step, Reach, borrows, resumes, returns, times_out, gives_up,
}
use the_grind.ConditionPool.Wakeups.{Patient, is_timeout, Inv, Patient-Inv, patient_wakeup, asleep}
use the_grind.ConditionPool.Wakeups
use the_grind.ConditionPool.Places.{is, has, each_conn_in_one_place}
use the_grind.ConditionPool

pub record Demo : Type 0 where
  pub system : System
  pub started : ℕ → Bool

-- The threads before `t.start()`.
unfoldable pub ready : ℕ → Demo
ready size = record { system = init size; started = λ i. false }

abbrev is_borrow : {n : ℕ} {s t : System} → Step n s t → Bool
is_borrow (borrows i lt e) = true
is_borrow (resumes i lt e) = false
is_borrow (returns i conn lt e) = false
is_borrow (times_out i lt e) = false
is_borrow (gives_up i lt e) = false

-- A thread borrows once, when it starts.
pub data DemoStep (n : ℕ) (d : Demo) : Demo → Type 0 where
  begins :
      (i : ℕ)
      → i < n
      → d.started i ≡ false
      → DemoStep n d (record { system = look i d.system; started = update d.started i true })
  goes_on :
      {t : System}
      → (st : Step n d.system t) → is_borrow st ≡ false
      → is_timeout st ≡ false
      → DemoStep n d (record d { system = t })

-- The states after some steps in which no wait runs out.
pub data DemoReach (n size : ℕ) : ℕ → Demo → Type 0 where
  here : DemoReach n size 0 (ready size)
  next : {k : ℕ} {d e : Demo} → DemoReach n size k d → DemoStep n d e → DemoReach n size (suc k) e
