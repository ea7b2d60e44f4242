-- ===== src/MessageQueue/Demo.antt =====
-- The program of 03-simple-message-queue.py: a producer with its messages, `n` consumers of which
-- some are bad, and the monitor with its rounds.
pub mod Counts
pub mod Bound
pub mod Ends
pub mod Calls
use the_grind.Prelude.{ℕ, suc, ◌≡◌, Bool, true, false, not, ◌&&◌, ltb, some, List, [], ◌∷◌}
use the_grind.MessageQueue.{Message, SimpleQueue, publish, requeue_expired}
use the_grind.MessageQueue.Threads.{
  System, Step, publishes, calls_receive, times_out, resumes, resumes_late, resumes_timed_out,
  acknowledges, forgets, requeues, initial, notify_all,
}

pub record Demo : Type 0 where
  pub system : System
  pub to_publish : List Message  -- with the ids that `uuid4` will give
  pub rounds : ℕ  -- that the monitor has left

-- `q` and the threads before `t.start()`
unfoldable pub ready : ℕ → List Message → ℕ → Demo
ready visibility_timeout to_publish rounds = record {
  system = initial visibility_timeout;
  to_publish = to_publish;
  rounds = rounds;
}

-- A step that consumer `i < n` takes: a good one acknowledges its message, and a bad one does not.
abbrev pub is_consumer : ℕ → (ℕ → Bool) → {s t : System} → Step s t → Bool
is_consumer n is_bad (publishes uuid body) = false
is_consumer n is_bad (calls_receive i now e) = ltb i n
is_consumer n is_bad (times_out i e) = ltb i n
is_consumer n is_bad (resumes i now e) = ltb i n
is_consumer n is_bad (resumes_late i now e) = ltb i n
is_consumer n is_bad (resumes_timed_out i now e) = ltb i n
is_consumer n is_bad (acknowledges i m e) = ltb i n && not (is_bad i)
is_consumer n is_bad (forgets i m e) = ltb i n && is_bad i
is_consumer n is_bad (requeues clock q e) = false

pub data DemoStep (n : ℕ) (is_bad : ℕ → Bool) (d : Demo) : Demo → Type 0 where
  produces :
      (m : Message) (rest : List Message)
      → d.to_publish ≡ m ∷ rest
      → DemoStep n is_bad d (record d {
        system = record {
          object = (publish m.id m.body d.system.object).0;
          pc = notify_all d.system.pc;
        };
        to_publish = rest;
      })
  monitors :
      (clock : ℕ → ℕ) (q : SimpleQueue) (rest : ℕ)
      → d.rounds ≡ suc rest
      → requeue_expired clock d.system.object ≡ some q
      → DemoStep n is_bad d
          (record d { system = record { object = q; pc = notify_all d.system.pc }; rounds = rest })
  consumes :
      {t : System}
      → (st : Step d.system t) → is_consumer n is_bad st ≡ true
      → DemoStep n is_bad d (record d { system = t })

pub data DemoReach (n : ℕ) (is_bad : ℕ → Bool) (start : Demo) : ℕ → Demo → Type 0 where
  here : DemoReach n is_bad start 0 start
  next :
      {k : ℕ} {d e : Demo}
      → DemoReach n is_bad start k d
      → DemoStep n is_bad d e
      → DemoReach n is_bad start (suc k) e
