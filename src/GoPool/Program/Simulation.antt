-- ===== src/GoPool/Program/Simulation.antt =====
-- Goroutines of connection-pooling/pool.go read as threads of connection-pooling/pool.py: their
-- places, and what a run keeps.
use the_grind.Prelude.{
  ℕ, suc, ◌+◌, ◌*◌, ◌≤◌, ◌≡◌, ◌≢◌, true, false, some, List, [], ◌∷◌, length, ltb, inl, inr,
  Bool-cases, arith, update, sum_below, length-append, fun_ext,
}
use the_grind.ConnectionPool
use the_grind.ConnectionPool.Threads
use the_grind.GoPool.{
  Pool, Channel, received, zero_value, receive, got, nil_dereference, get_conn, released, panics,
  release_conn, send,
}
use the_grind.GoPool.Made.{python}
use the_grind.GoPool.Program.{
  Pc, before, wanting, holding, used, finished, failed, panicked, Main, waiting, draining, ended,
  System,
}

-- The same places in pool.py. A goroutine that has failed reads as a thread that waits on.
abbrev pub python_pc : Pc → Threads.Pc
python_pc before = Threads.outside
python_pc wanting = Threads.wanting
python_pc (holding conn) = Threads.holding conn
python_pc (used conn) = Threads.used conn
python_pc finished = Threads.outside
python_pc failed = Threads.wanting
python_pc panicked = Threads.timed_out

abbrev pub python_main : Main → Threads.Main
python_main waiting = Threads.open_for_use
python_main draining = Threads.draining
python_main ended = Threads.closed

abbrev pub python_system : System → Threads.System
python_system s = record {
  pool = python s.pool;
  pc = λ i. python_pc (s.pc i);
  main = python_main s.main;
}

abbrev pub active : Pc → ℕ
active before = 1
active wanting = 1
active (holding conn) = 1
active (used conn) = 1
active _ = 0

pub active_le : (p : Pc) → active p ≤ 1
active_le p = ground arith

abbrev pub held : Pc → ℕ
held (holding conn) = 1
held (used conn) = 1
held _ = 0

-- What a goroutine still does.
abbrev pub to_do : Pc → ℕ
to_do before = 4
to_do wanting = 3
to_do (holding conn) = 2
to_do (used conn) = 1
to_do _ = 0

abbrev pub to_close : ℕ → ℕ → Main → ℕ
to_close size items waiting = size + 2
to_close size items draining = items + 1
to_close size items ended = 0

-- What holds at each position of `main`.
abbrev pub MainInv : ℕ → ℕ → ℕ → Channel → Main → Type 0
MainInv size lent count c waiting = (c.is_shut ≡ false) × (length c.buffer + lent ≡ size)
MainInv size lent count c draining = (c.is_shut ≡ true) × (count ≡ 0)
MainInv size lent count c ended = (c.is_shut ≡ true) × (count ≡ 0) × (c.buffer ≡ [])

pub record Going (n size k : ℕ) (q : Pool) (s : System) : Type 0 where
  pub reach : Threads.Reach n (Threads.start (python q)) (python_system s)
  pub counted : s.count ≡ sum_below active n s.pc
  pub calm : (i : ℕ) → s.pc i ≢ panicked
  pub above : (i : ℕ) → n ≤ i → s.pc i ≡ before
  pub main : MainInv size (sum_below held n s.pc) s.count s.pool.conns s.main
  pub bound :
      k + sum_below to_do n s.pc + to_close size (length s.pool.conns.buffer) s.main
      ≤ 4 * n + size + 2

-- A change of one goroutine's place is one of its thread's.
pub update_pc :
    (pc : ℕ → Pc) (i : ℕ) (p : Pc)
    → ◌≡◌ {A = ℕ → Threads.Pc}
        (λ j. python_pc (update pc i p j))
        (update (λ j. python_pc (pc j)) i (python_pc p))
update_pc pc i p = fun_ext (λ j. ground arith)

-- What the calls of pool.go do to an open channel, pool.py's do too.
pub got_lem :
    (conn : ℕ) (pool p : Pool) (items : List ℕ)
    → pool.conns.buffer ≡ items
    → get_conn pool ≡ got conn p
    → (ConnectionPool.get_conn (python pool) ≡ some (conn, python p))
      × (p.conns.is_shut ≡ pool.conns.is_shut)
      × (length pool.conns.buffer ≡ suc (length p.conns.buffer))
unfolding get_conn receive ConnectionPool.get_conn ConnectionPool.get
got_lem conn pool p [] none_left e = ground arith
got_lem conn pool p (x ∷ rest) there e = ground arith

pub not_nil :
    (pool : Pool) (items : List ℕ)
    → pool.conns.buffer ≡ items
    → pool.conns.is_shut ≡ false
    → get_conn pool ≢ nil_dereference
unfolding get_conn receive
not_nil pool [] none_left still e = ground arith
not_nil pool (x ∷ rest) there still e = ground arith

pub released_lem :
    (conn : ℕ) (pool p : Pool)
    → pool.conns.is_shut ≡ false
    → release_conn conn pool ≡ released p
    → (ConnectionPool.release_conn conn (python pool) ≡ some (python p))
      × (p.conns.is_shut ≡ false)
      × (length p.conns.buffer ≡ length pool.conns.buffer + 1)
unfolding release_conn send ConnectionPool.release_conn ConnectionPool.put
released_lem conn pool p still e =
    elim (Bool-cases (ltb (length pool.conns.buffer) pool.conns.capacity)) [
      | inl room ↦ ground (arith, length-append pool.conns.buffer (conn ∷ []))
      | inr none_left ↦ ground arith
    ]

pub not_late :
    (conn : ℕ) (pool : Pool) → pool.conns.is_shut ≡ false → release_conn conn pool ≢ panics
unfolding release_conn send
not_late conn pool still e = ground arith

pub length-receive :
    (conn : ℕ) (c c' : Channel)
    → receive c ≡ received conn c'
    → length c.buffer ≡ suc (length c'.buffer)
unfolding receive
length-receive conn c c' g = ground arith

pub receive-zero_value : (c : Channel) → receive c ≡ zero_value → c.buffer ≡ []
unfolding receive
receive-zero_value c g = ground arith
