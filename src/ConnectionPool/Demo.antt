-- ===== src/ConnectionPool/Demo.antt =====
-- The program of connection-pooling/pool.py: each of `n` threads runs `worker` once, and the main
-- thread joins them all and closes the pool.
pub mod Progress
pub mod Completes
use the_grind.Prelude.{
  ℕ, zero, suc, ◌+◌, ◌*◌, ◌≤◌, ◌<◌, ◌≡◌, ◌≢◌, refl, ap, ◌⊎◌, inl, inr, pos, Bool, true, false,
  Option, none, some, List, [], ◌∷◌, ◌++◌, length, ◌==◌, update, arith, Bool-cases, Option-cases,
  length-append, sum_below, sum_below-update, sum_below-zero, sum_below-const, le-sum_below,
  sum_below-pos,
}
use native.Mathlib.Decide.{dec_lt}
use the_grind.ConnectionPool.{
  World, Pool, create, created, execute, get_conn, release_conn, close_connection,
}
use the_grind.ConnectionPool.Create.{is_fresh, length-fresh_ids}
use the_grind.ConnectionPool.Threads.{
  Pc, outside, wanting, holding, used, timed_out, crashed, Main, open_for_use, draining, seen_some,
  closed, queue_empty, System, executed, Step, asks, gets, gives_up, executes, releases,
  begins_close, sees_some, drains, finds_none, ends_close, Reach, start,
}
use the_grind.ConnectionPool.Places.{
  has, has_any, has_none, in_queue, Inv, Step-Inv, created_Filled, Reach-Inv,
}
use the_grind.ConnectionPool.Sharing.{
  no_sharing, release_never_blocks, lent_stays_open, closed_at_the_end, close_can_raise,
}
use the_grind.ConnectionPool.Threads

pub record Demo : Type 0 where
  pub system : System
  pub started : ℕ → Bool

abbrev pub ready : Pool → Demo
ready q = record { system = start q; started = λ i. false }

-- `join` has returned for every thread.
abbrev pub AllDone : ℕ → Demo → Type 0
AllDone n d = (i : ℕ) → i < n → (d.started i ≡ true) × (d.system.pc i ≡ outside)

-- A step that a thread takes inside `get_conn`, `execute` or `release_conn`, without a timeout, or
-- one of the main thread inside `close`.
abbrev pub is_inside : {n : ℕ} {s t : System} → Step n s t → Bool
is_inside (asks i lt e) = false
is_inside (gets i conn p lt e g) = true
is_inside (gives_up i lt e g) = false
is_inside (executes i conn lt e) = true
is_inside (releases i conn p lt e g) = true
is_inside (begins_close e) = false
is_inside (sees_some e g) = true
is_inside (drains conn p e g) = true
is_inside (finds_none e g) = true
is_inside (ends_close e g) = true

pub data DemoStep (n : ℕ) (d : Demo) : Demo → Type 0 where
  begins :
      (i : ℕ)
      → i < n
      → d.started i ≡ false
      → d.system.pc i ≡ outside
      → DemoStep n d (record {
        system = record d.system { pc = update d.system.pc i wanting };
        started = update d.started i true;
      })
  joins :
      d.system.main ≡ open_for_use
      → AllDone n d
      → DemoStep n d (record d { system = record d.system { main = draining } })
  goes_on :
      {t : System}
      → (st : Step n d.system t) → is_inside st ≡ true
      → DemoStep n d (record d { system = t })

pub data DemoReach (n : ℕ) (q : Pool) : ℕ → Demo → Type 0 where
  here : DemoReach n q 0 (ready q)
  next : {k : ℕ} {d e : Demo} → DemoReach n q k d → DemoStep n d e → DemoReach n q (suc k) e
