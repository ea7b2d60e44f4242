-- ===== src/ConditionPool.antt =====
-- python-deep-dive/02-condition-variables.py: `SimpleConnectionPool`, whose threads wait on a
-- `threading.Condition`. A connection "conn_i" is its number i, and a thread is a number. What a
-- thread does while it has the condition's lock is one step.
pub mod Places
pub mod Wakeups
pub mod Demo
pub mod BusyWait
mod Tests
use the_grind.Prelude.{
  ℕ, zero, suc, ◌+◌, ◌<◌, ◌≡◌, Bool, true, false, Option, none, some, List, [], ◌∷◌, ◌++◌, ◌==◌,
  if◌then◌else◌, update,
}

-- Where a thread stands.
pub data Pc : Type 0 where
  outside : Pc  -- in no method of the pool, with no connection
  waiting : Pc  -- asleep in `condition.wait`
  notified : Pc  -- notified in its wait, and not back at the lock yet
  timed_out : Pc  -- its wait ran out, and it is not back at the lock yet
  has_conn : ℕ → Pc  -- between `borrow` and `return_conn`
  failed : Pc  -- TimeoutError

-- `waiters` is the queue of the condition: a waiter stays in it until it is notified, or until
-- it has the lock again after its time ran out.
pub record System : Type 0 where
  pub pool : List ℕ
  pub waiters : List ℕ
  pub pc : ℕ → Pc

-- `self.pool.pop()`, which takes the last; `none` on the empty list
pub pop : List ℕ → Option (ℕ × List ℕ)
pop [] = none
pop (x ∷ xs) = elim (pop xs) [ none ↦ some (x, []) | some (y, ys) ↦ some (y, x ∷ ys) ]

-- `[f"conn_{i}" for i in range(size)]`
pub conns : ℕ → List ℕ
conns zero = []
conns (suc n) = conns n ++ n ∷ []

unfoldable pub init : ℕ → System
unfolding conns
init size = record { pool = conns size; waiters = []; pc = λ i. outside }

-- The test of the `while` of `borrow`, by thread `i` with the lock: it sleeps, or it takes a
-- connection.
pub look : ℕ → System → System
unfolding pop
look i s = elim (pop s.pool) [
  | none ↦ record s { waiters = s.waiters ++ i ∷ []; pc = update s.pc i waiting }
  | some (conn, rest) ↦ record s { pool = rest; pc = update s.pc i (has_conn conn) }
]

abbrev pub woken : Pc → Pc
woken waiting = notified
woken timed_out = timed_out
woken outside = outside
woken notified = notified
woken (has_conn conn) = has_conn conn
woken failed = failed

-- `condition.notify()`: the first waiter leaves the queue. It wakes up with success, unless its
-- time had run out.
pub notify : List ℕ → (ℕ → Pc) → List ℕ × (ℕ → Pc)
notify [] pc = ([], pc)
notify (j ∷ rest) pc = (rest, update pc j (woken (pc j)))

-- `return_conn(conn)` by thread `i`
pub return_conn : ℕ → ℕ → System → System
unfolding notify
return_conn i conn s =
    let (waiters, pc) = notify s.waiters (update s.pc i outside) in
    record { pool = s.pool ++ conn ∷ []; waiters = waiters; pc = pc }

-- `self._waiters.remove(waiter)`, where a missing waiter is ignored
unfoldable remove_waiter : ℕ → List ℕ → List ℕ
remove_waiter i [] = []
remove_waiter i (j ∷ rest) = if j == i then rest else j ∷ remove_waiter i rest

-- `if not notified: raise TimeoutError` by thread `i`, whose wait ran out
pub give_up : ℕ → System → System
unfolding remove_waiter
give_up i s = record s { waiters = remove_waiter i s.waiters; pc = update s.pc i failed }

pub data Step (n : ℕ) (s : System) : System → Type 0 where
  borrows : (i : ℕ) → i < n → s.pc i ≡ outside → Step n s (look i s)
  resumes : (i : ℕ) → i < n → s.pc i ≡ notified → Step n s (look i s)
  returns : (i conn : ℕ) → i < n → s.pc i ≡ has_conn conn → Step n s (return_conn i conn s)
  times_out :
      (i : ℕ) → i < n → s.pc i ≡ waiting → Step n s (record s { pc = update s.pc i timed_out })
  gives_up : (i : ℕ) → i < n → s.pc i ≡ timed_out → Step n s (give_up i s)

pub data Reach (n size : ℕ) : System → Type 0 where
  here : Reach n size (init size)
  next : {s t : System} → Reach n size s → Step n s t → Reach n size t
