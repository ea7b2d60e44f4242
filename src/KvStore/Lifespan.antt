-- ===== src/KvStore/Lifespan.antt =====
-- `lifespan` of kv-store/app/main.py: the pools are made at startup, used by the requests and the
-- cleanup task, and closed at shutdown. A startup that raises never serves.
use the_grind.Prelude.{
  ℕ, ◌+◌, ◌%◌, ◌<◌, ◌≡◌, refl, Bool, true, false, List, [], ◌∷◌, arith, inl, inr,
}
use the_grind.KvStore.Pools.{
  Pool, Pools, Result, ok, raised, no_pools, init_pools, close_pools, get_primary_pool,
  get_replica_pool,
}
use the_grind.KvStore.Pools.RoundRobin.{
  serving, pool_at, get_replica_pool-serving, get_replica_pool-FirstHealthy,
}

pub data Phase : Type 0 where
  imported : Phase  -- before `init_pools`
  running : Phase  -- at the `yield`, with the cleanup task
  failed : Phase  -- `init_pools` raised
  stopped : Phase  -- after `close_pools`

pub record Server : Type 0 where
  pub phase : Phase
  pub pools : Pools

abbrev phase_after : Result (Unit {0}) → Phase
phase_after (ok u) = running
phase_after (raised e) = failed

-- `await init_pools()` and `asyncio.create_task(cleanup_loop())`
unfoldable pub startup : (ℕ → Bool) → Server → Server
unfolding init_pools
startup connects s = record {
  phase = phase_after (init_pools connects s.pools).1;
  pools = (init_pools connects s.pools).0;
}

-- The task is cancelled and awaited, and then come `close_pools()`.
pub shutdown : Server → Server
unfolding close_pools
shutdown s = record { phase = stopped; pools = (close_pools s.pools).0 }

pub data Step (s : Server) : Server → Type 0 where
  starts : (connects : ℕ → Bool) → s.phase ≡ imported → Step s (startup connects s)
  -- a GET that is not `consistent` moves the round robin on; nothing else changes the pools
  reads :
      (healthy : ℕ → Bool)
      → s.phase ≡ running
      → Step s (record s { pools = (get_replica_pool healthy s.pools).0 })
  stops : s.phase ≡ running → Step s (shutdown s)

pub data Reach : Server → Type 0 where
  boot : Reach (record { phase = imported; pools = no_pools })
  next : {s t : Server} → Reach s → Step s t → Reach t

abbrev primary : Pool
primary = pool_at 5432 5 20

abbrev replicas : List Pool
replicas = pool_at 5433 2 10 ∷ pool_at 5434 2 10 ∷ []

-- What holds in each phase.
abbrev Inv : Phase → Pools → Type 0
Inv imported p = p ≡ no_pools
Inv running p = (i : ℕ) × (i < 2) × (p ≡ serving primary replicas i)
Inv failed p = Unit
Inv stopped p = p ≡ no_pools

startup-Inv :
    (connects : ℕ → Bool) (p : Pools)
    → p ≡ no_pools
    → Inv (phase_after (init_pools connects p).1) (init_pools connects p).0
unfolding init_pools
startup-Inv connects p e = rw e (go (connects 5432) (connects 5433) (connects 5434) refl refl refl)
  where
    go :
        (a b c : Bool)
        → connects 5432 ≡ a
        → connects 5433 ≡ b
        → connects 5434 ≡ c
        → Inv (phase_after (init_pools connects no_pools).1) (init_pools connects no_pools).0
    go false b c ea eb ec = rw ea tt
    go true false c ea eb ec = rw (ea, eb) tt
    go true true false ea eb ec = rw (ea, eb, ec) tt
    go true true true ea eb ec = rw (ea, eb, ec) (0, omega arith, refl)

reads-Inv :
    (healthy : ℕ → Bool) (p : Pools) → Inv running p → Inv running (get_replica_pool healthy p).0
reads-Inv healthy p (i, lt, e) =
    rw (e, get_replica_pool-serving healthy primary replicas i (omega arith))
      ((i + 1) % 2, omega arith, refl)

Reach-Inv : {s : Server} → Reach s → Inv s.phase s.pools
unfolding startup shutdown
Reach-Inv boot = refl
Reach-Inv (next {s} r (starts connects e)) = startup-Inv connects s.pools (rw e at (Reach-Inv r))
Reach-Inv (next {s} r (reads healthy e)) = rw e (reads-Inv healthy s.pools (rw e at (Reach-Inv r)))
Reach-Inv (next r (stops e)) = refl

-- While the application runs, no request meets the AssertionError of `get_primary_pool` and
-- `get_replica_pool` always returns a pool, whatever requests and replica failures came before.
pub pools_while_running :
    {s : Server}
    → Reach s
    → s.phase ≡ running
    → (healthy : ℕ → Bool)
    → (get_primary_pool s.pools ≡ ok primary)
      × ((pool : Pool) × ((get_replica_pool healthy s.pools).1 ≡ ok pool))
unfolding get_primary_pool
pools_while_running {s} r e healthy =
    let (i, lt, same) = rw e at (Reach-Inv r) in rw same (refl, chosen i)
  where
    chosen :
        (i : ℕ)
        → (pool : Pool) × ((get_replica_pool healthy (serving primary replicas i)).1 ≡ ok pool)
    chosen i =
        elim (get_replica_pool-FirstHealthy healthy primary replicas i (omega arith)
          (omega arith)).1 [ inl f ↦ (f.pool, f.result) | inr g ↦ (primary, g.result) ]

-- After a shutdown no pool is left open in the module's state.
no_pools_when_stopped : {s : Server} → Reach s → s.phase ≡ stopped → s.pools ≡ no_pools
no_pools_when_stopped r e = rw e at (Reach-Inv r)
