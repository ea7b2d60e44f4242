-- ===== src/ConnectionPool/Threads.antt =====
-- Workers of connection-pooling/pool.py that share one pool, in any interleaving, and the main
-- thread that closes it: `close` takes one connection at a time, also while workers still run.
use the_grind.Prelude.{ℕ, ◌<◌, ◌≡◌, ◌≢◌, Option, none, some, [], update}
use the_grind.ConnectionPool.{Pool, close_connection, execute, get_conn, release_conn}

-- Where a worker stands.
pub data Pc : Type 0 where
  outside : Pc  -- before `get_conn`, or done
  wanting : Pc  -- in `get_conn`
  holding : ℕ → Pc  -- got the connection, before `execute`
  used : ℕ → Pc  -- after `execute`, before `release_conn`
  timed_out : Pc  -- TimeoutError
  crashed : ℕ → Pc  -- RuntimeError from `execute`: the connection is not returned

pub data Main : Type 0 where
  open_for_use : Main
  draining : Main  -- in `close`, before the test `not self._pool.empty()`
  seen_some : Main  -- before `get_nowait`
  closed : Main
  queue_empty : Main  -- queue.Empty from `get_nowait`

pub record System : Type 0 where
  pub pool : Pool
  pub pc : ℕ → Pc
  pub main : Main

-- `conn.execute(...)` by worker `i`
abbrev pub executed : ℕ → Option ℕ → Pc
executed conn none = crashed conn
executed conn (some result) = used conn

pub data Step (n : ℕ) (s : System) : System → Type 0 where
  asks : (i : ℕ) → i < n → s.pc i ≡ outside → Step n s (record s { pc = update s.pc i wanting })
  gets :
      (i conn : ℕ) (p : Pool)
      → i < n
      → s.pc i ≡ wanting
      → get_conn s.pool ≡ some (conn, p)
      → Step n s (record s { pool = p; pc = update s.pc i (holding conn) })
  gives_up :
      (i : ℕ)
      → i < n
      → s.pc i ≡ wanting
      → get_conn s.pool ≡ none
      → Step n s (record s { pc = update s.pc i timed_out })
  executes :
      (i conn : ℕ)
      → i < n
      → s.pc i ≡ holding conn
      → Step n s (record s { pc = update s.pc i (executed conn (execute conn s.pool.world)) })
  releases :
      (i conn : ℕ) (p : Pool)
      → i < n
      → s.pc i ≡ used conn
      → release_conn conn s.pool ≡ some p
      → Step n s (record s { pool = p; pc = update s.pc i outside })
  begins_close : s.main ≡ open_for_use → Step n s (record s { main = draining })
  sees_some : s.main ≡ draining → s.pool.queue.items ≢ [] → Step n s (record s { main = seen_some })
  -- `conn = self._pool.get_nowait(); conn.close()`
  drains :
      (conn : ℕ) (p : Pool)
      → s.main ≡ seen_some
      → get_conn s.pool ≡ some (conn, p)
      → Step n s
          (record s { pool = record p { world = close_connection conn p.world }; main = draining })
  -- a worker has taken the last connection since the test
  finds_none :
      s.main ≡ seen_some → get_conn s.pool ≡ none → Step n s (record s { main = queue_empty })
  ends_close : s.main ≡ draining → s.pool.queue.items ≡ [] → Step n s (record s { main = closed })

pub data Reach (n : ℕ) (start : System) : System → Type 0 where
  here : Reach n start start
  next : {s t : System} → Reach n start s → Step n s t → Reach n start t

abbrev pub start : Pool → System
start p = record { pool = p; pc = λ _. outside; main = open_for_use }
