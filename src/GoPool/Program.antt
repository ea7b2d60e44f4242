-- ===== src/GoPool/Program.antt =====
-- `main` of connection-pooling/pool.go: goroutines that run `worker` once each, the WaitGroup that
-- `main` waits for, and then `Close`, one connection at a time.
pub mod Simulation
pub mod Closing
pub mod Steps
pub mod Ends
use the_grind.Prelude.{ℕ, suc, ◌-◌, ◌<◌, ◌≡◌, Option, none, some, update}
use the_grind.GoPool.{
  Pool, Channel, close_conn, execute, Receiving, received, zero_value, receive, Getting, got,
  nil_dereference, get_conn, Releasing, released, panics, release_conn, shut,
}

-- Where a worker stands.
pub data Pc : Type 0 where
  before : Pc
  wanting : Pc  -- in `Get`
  holding : ℕ → Pc  -- before `Execute`
  used : ℕ → Pc  -- before `Release`
  finished : Pc  -- after the deferred `wg.Done()`
  failed : Pc  -- after an error of `Get`, and the deferred `wg.Done()`
  panicked : Pc  -- which ends the whole program

pub data Main : Type 0 where
  waiting : Main  -- in `wg.Wait()`
  draining : Main  -- in the loop of `Close`
  ended : Main

pub record System : Type 0 where
  pub pool : Pool
  pub pc : ℕ → Pc
  pub count : ℕ  -- of the WaitGroup
  pub main : Main

-- `conn.Execute(...)`
abbrev pub executed : ℕ → Option ℕ → Pc
executed conn none = panicked
executed conn (some result) = used conn

-- After `wg.Add(numWorkers)`
abbrev pub start : ℕ → Pool → System
start n p = record { pool = p; pc = λ _. before; count = n; main = waiting }

pub data Step (n : ℕ) (s : System) : System → Type 0 where
  starts : (i : ℕ) → i < n → s.pc i ≡ before → Step n s (record s { pc = update s.pc i wanting })
  gets :
      (i conn : ℕ) (p : Pool)
      → i < n
      → s.pc i ≡ wanting
      → get_conn s.pool ≡ got conn p
      → Step n s (record s { pool = p; pc = update s.pc i (holding conn) })
  gets_nil :
      (i : ℕ)
      → i < n
      → s.pc i ≡ wanting
      → get_conn s.pool ≡ nil_dereference
      → Step n s (record s { pc = update s.pc i panicked })
  -- the time is over, also when a connection has come at that very moment: `select` takes either
  times_out :
      (i : ℕ)
      → i < n
      → s.pc i ≡ wanting
      → Step n s (record s { pc = update s.pc i failed; count = s.count - 1 })
  executes :
      (i conn : ℕ)
      → i < n
      → s.pc i ≡ holding conn
      → Step n s (record s { pc = update s.pc i (executed conn (execute conn s.pool.heap)) })
  releases :
      (i conn : ℕ) (p : Pool)
      → i < n
      → s.pc i ≡ used conn
      → release_conn conn s.pool ≡ released p
      → Step n s (record s { pool = p; pc = update s.pc i finished; count = s.count - 1 })
  releases_late :
      (i conn : ℕ)
      → i < n
      → s.pc i ≡ used conn
      → release_conn conn s.pool ≡ panics
      → Step n s (record s { pc = update s.pc i panicked })
  -- `wg.Wait()` returns, and `close(p.conns)`
  closes :
      (c : Channel)
      → s.main ≡ waiting
      → s.count ≡ 0
      → shut s.pool.conns ≡ some c
      → Step n s (record s { pool = record s.pool { conns = c }; main = draining })
  -- a round of `for conn := range p.conns`
  drains :
      (conn : ℕ) (c : Channel)
      → s.main ≡ draining
      → receive s.pool.conns ≡ received conn c
      → Step n s
          (record s { pool = record s.pool { conns = c; heap = close_conn conn s.pool.heap } })
  ends :
      s.main ≡ draining → receive s.pool.conns ≡ zero_value → Step n s (record s { main = ended })

pub data Reach (n : ℕ) (q : Pool) : ℕ → System → Type 0 where
  here : Reach n q 0 (start n q)
  next : {k : ℕ} {s t : System} → Reach n q k s → Step n s t → Reach n q (suc k) t
