-- ===== src/Counters.antt =====
-- python-deep-dive/01-threads-and-locks.py: threads that count up one counter, without and with a
-- lock, and threads with a counter of their own. A thread is a number.
pub mod Unsafe
pub mod Bounds
pub mod Locked
pub mod Isolated
mod Tests
use the_grind.Prelude.{ℕ}

-- `range(1_000_000)`
abbrev pub rounds : ℕ
rounds = 1000000
