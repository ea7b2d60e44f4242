-- ===== src/ConditionPool/Wakeups.antt =====
-- Who is woken in 02-condition-variables.py: no wakeup is lost while nobody times out, and one can
-- be lost to a waiter that has timed out.
use the_grind.Prelude.{
  ℕ, ◌≤◌, ◌<◌, ◌≡◌, ◌≢◌, refl, ap, ◌⊎◌, Bool, true, false, List, [], ◌∷◌, ◌++◌, length, update,
  arith, length-append, count_if, count_if-append, Option-cases, inl, inr, sum_below,
  sum_below-update, sum_below-pos,
}
use native.Mathlib.Decide.{dec_lt}
use the_grind.ConditionPool.{
  Pc, outside, waiting, notified, timed_out, has_conn, failed, System, pop, init, look, notify,
  return_conn, give_up, Step, borrows, resumes, returns, times_out, gives_up,
}
use the_grind.ConditionPool.Places.{is, pop-eq-none, pop-eq-some}

abbrev pub is_timeout : {n : ℕ} {s t : System} → Step n s t → Bool
is_timeout (times_out i lt e) = true
is_timeout (borrows i lt e) = false
is_timeout (resumes i lt e) = false
is_timeout (returns i conn lt e) = false
is_timeout (gives_up i lt e) = false

-- The states that the threads reach when no wait runs out, as with `borrow(timeout=None)`.
pub data Patient (n size : ℕ) : System → Type 0 where
  here : Patient n size (init size)
  next :
      {s t : System}
      → Patient n size s
      → (st : Step n s t) → is_timeout st ≡ false
      → Patient n size t

abbrev pub asleep : Pc → ℕ
asleep waiting = 1
asleep _ = 0

abbrev is_notified : Pc → ℕ
is_notified notified = 1
is_notified _ = 0

pub record Inv (n : ℕ) (s : System) : Type 0 where
  pub above : (j : ℕ) → n ≤ j → s.pc j ≡ outside
  pub quiet : (j : ℕ) → s.pc j ≢ timed_out
  pub listed : (j : ℕ) → count_if (is j) s.waiters ≡ asleep (s.pc j)
  pub enough : (s.waiters ≡ []) ⊎ (length s.pool ≤ sum_below is_notified n s.pc)

-- A thread at the test of `borrow` that is awake.
looks :
    (n : ℕ) (s : System) (i : ℕ)
    → Inv n s
    → i < n
    → (s.pc i ≡ outside) ⊎ (s.pc i ≡ notified)
    → Inv n (look i s)
unfolding look
looks n s i inv lt at = elim (Option-cases (pop s.pool)) [
  | inl e ↦
      rw (e, look)
        (record {
          above = λ j h. ground (arith, inv.above j);
          quiet = λ j. ground (arith, inv.quiet j);
          listed = λ j. ground (arith, inv.listed j, count_if-append (is j) s.waiters (i ∷ []), at);
          enough = inr (rw (pop-eq-none s.pool e) (omega arith));
        })
  | inr ((conn, rest), e) ↦
      rw (e, look)
        (record {
          above = λ j h. ground (arith, inv.above j);
          quiet = λ j. ground (arith, inv.quiet j);
          listed = λ j. ground (arith, inv.listed j, at);
          enough = ground (
            arith,
            inv.enough,
            at,
            ap length (pop-eq-some s.pool conn rest e),
            length-append rest (conn ∷ []),
            sum_below-update is_notified n i s.pc (has_conn conn) lt,
          );
        })
]

-- The wakeup of the first waiter, once thread `i` has given its connection back.
wakes :
    (n : ℕ) (s : System) (i conn : ℕ) (waiters : List ℕ)
    → Inv n s
    → i < n
    → s.pc i ≡ has_conn conn
    → s.waiters ≡ waiters
    → let r = notify waiters (update s.pc i outside) in
      Inv n (record { pool = s.pool ++ conn ∷ []; waiters = r.0; pc = r.1 })
unfolding notify
wakes n s i conn [] inv lt e same = record {
  above = λ j h. ground (arith, inv.above j);
  quiet = λ j. ground (arith, inv.quiet j);
  listed = λ j. ground (arith, rw same at (inv.listed j), e);
  enough = inl refl;
}
wakes n s i conn (k ∷ rest) inv lt e same = record {
  above = λ j h. ground (arith, inv.above j, inv.above k, asleep_k);
  quiet = λ j. ground (arith, inv.quiet j, asleep_k);
  listed = λ j. ground (arith, rw same at (inv.listed j), e, asleep_k);
  enough = inr (
      ground (
        arith,
        rw same at inv.enough,
        asleep_k,
        length-append s.pool (conn ∷ []),
        e,
        sum_below-update is_notified n i s.pc outside lt,
        sum_below-update is_notified n k (update s.pc i outside) notified k_in,
      ));
}
  where
    asleep_k : s.pc k ≡ waiting
    asleep_k = ground (arith, rw same at (inv.listed k))

    k_in : k < n
    k_in = elim (dec_lt k n) [ yes p ↦ p | no p ↦ absurd (ground (arith, inv.above k, asleep_k)) ]

Step-Inv : (n : ℕ) {s t : System} (st : Step n s t) → is_timeout st ≡ false → Inv n s → Inv n t
unfolding return_conn
Step-Inv n {s} (borrows i lt e) q inv = looks n s i inv lt (inl e)
Step-Inv n {s} (resumes i lt e) q inv = looks n s i inv lt (inr e)
Step-Inv n {s} (returns i conn lt e) q inv = wakes n s i conn s.waiters inv lt e refl
Step-Inv n (times_out i lt e) q inv = absurd (ground arith)
Step-Inv n (gives_up i lt e) q inv = absurd (inv.quiet i e)

pub Patient-Inv : (n size : ℕ) {s : System} → Patient n size s → Inv n s
unfolding init
Patient-Inv n size here = record {
  above = λ j h. refl;
  quiet = λ j e. cc;
  listed = λ j. refl;
  enough = inl refl;
}
Patient-Inv n size (next r st q) = Step-Inv n st q (Patient-Inv n size r)

-- While no wait runs out no wakeup is lost: whenever a thread sleeps and a connection is free, some
-- other thread has been notified and is on its way to take it.
pub patient_wakeup :
    (n size : ℕ) {s : System}
    → Patient n size s
    → (i : ℕ) → s.pc i ≡ waiting
    → 0 < length s.pool
    → (j : ℕ) × (j < n) × (s.pc j ≡ notified)
patient_wakeup n size {s} r i e free =
    let inv = Patient-Inv n size r in
    let (j, lt, p) =
      sum_below-pos is_notified n s.pc (ground (arith, inv.enough, inv.listed i, e)) in
    (j, lt, ground arith)

-- A wakeup is lost to a waiter whose time has run out: if that waiter `j` is the first in the
-- queue when thread `i` returns a connection, it then raises TimeoutError although the connection
-- is free, and thread `k` behind it goes on sleeping; nobody has been notified who was not before.
pub lost_wakeup :
    (s : System) (i j k conn : ℕ) (rest : List ℕ)
    → s.pc i ≡ has_conn conn
    → s.waiters ≡ j ∷ rest
    → s.pc j ≡ timed_out
    → s.pc k ≡ waiting
    → let t = give_up j (return_conn i conn s) in
      (t.pool ≡ s.pool ++ conn ∷ [])
      × (t.pc j ≡ failed)
      × (t.pc k ≡ waiting)
      × ((m : ℕ) → (t.pc m ≡ s.pc m) ⊎ (t.pc m ≢ notified))
unfolding give_up return_conn
lost_wakeup s i j k conn rest ei w ej ek =
    rw w (refl, ground arith, ground arith, λ m. ground arith)
