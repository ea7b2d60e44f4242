-- ===== src/KvStore/Pools.antt =====
-- kv-store/app/db.py: the module-level pools and the round robin over the replicas. Whether a
-- connection attempt or a health check (`SELECT 1`) succeeds is an argument.
pub mod RoundRobin
use the_grind.Prelude.{
  ℕ, zero, suc, ◌+◌, ◌%◌, Bool, true, false, Option, none, some, List, [], ◌∷◌, ◌++◌, length,
  get_elem?, if◌then◌else◌,
}

pub data Error : Type 0 where
  assertion_error type_error stop_iteration index_error connect_error : Error

pub data Result {ℓ} (A : Type ℓ) : Type ℓ where
  ok : A → Result A
  raised : Error → Result A

-- An asyncpg pool, by what it was created with.
pub record Pool : Type 0 where
  pub port : ℕ
  pub min_size : ℕ
  pub max_size : ℕ

-- `itertools.cycle(range(size))`, with the index that comes next
pub record Cycle : Type 0 where
  pub size : ℕ
  pub next_index : ℕ

pub record Pools : Type 0 where
  pub primary_pool : Option Pool
  pub replica_pools : List Pool
  pub replica_rr : Option Cycle

abbrev primary_port : ℕ
primary_port = 5432

abbrev pub replica_ports : List ℕ
replica_ports = 5433 ∷ 5434 ∷ []

-- The module as it is imported.
abbrev pub no_pools : Pools
no_pools = record { primary_pool = none; replica_pools = []; replica_rr = none }

-- The `for` loop of `init_pools`; it stops at the first replica that cannot be reached.
add_replicas : (ℕ → Bool) → List ℕ → Pools → Pools × Result (Unit {0})
add_replicas connects [] p = (p, ok tt)
add_replicas connects (port ∷ ports) p =
    if connects port
    then add_replicas connects ports (record p {
      replica_pools = p.replica_pools ++ record { port = port; min_size = 2; max_size = 10 } ∷ [];
    })
    else (p, raised connect_error)

start_cycle : Pools × Result (Unit {0}) → Pools × Result (Unit {0})
start_cycle (p, raised e) = (p, raised e)
start_cycle (p, ok u) = (
  record p { replica_rr = some (record { size = length p.replica_pools; next_index = 0 }) },
  ok u,
)

unfoldable pub init_pools : (ℕ → Bool) → Pools → Pools × Result (Unit {0})
unfolding add_replicas start_cycle
init_pools connects p =
    if connects primary_port
    then start_cycle (
        add_replicas connects replica_ports (record p {
          primary_pool = some (record { port = primary_port; min_size = 5; max_size = 20 });
        }))
    else (p, raised connect_error)

abbrev option_to_list {ℓ} : {A : Type ℓ} → Option A → List A
option_to_list none = []
option_to_list (some a) = a ∷ []

-- The new state, and the pools that were closed, in order.
unfoldable pub close_pools : Pools → Pools × List Pool
close_pools p = (no_pools, option_to_list p.primary_pool ++ p.replica_pools)

unfoldable pub get_primary_pool : Pools → Result Pool
get_primary_pool p = elim p.primary_pool [ none ↦ raised assertion_error | some pool ↦ ok pool ]

-- `next(cycle)`; `none` is StopIteration.
pub next : Cycle → Option (ℕ × Cycle)
next c = elim c.size [
  | zero ↦ none
  | suc n ↦ some (c.next_index, record c { next_index = (c.next_index + 1) % c.size })
]

-- The `for` loop of `get_replica_pool` with `rounds` rounds left. The warning after a failed check
-- reads `REPLICA_PORTS[idx]`.
pub try_replicas : (ℕ → Bool) → Pools → ℕ → ℕ → ℕ → Result Pool
unfolding get_primary_pool
try_replicas healthy p start i zero = get_primary_pool p
try_replicas healthy p start i (suc rounds) =
    let idx = (start + i) % length p.replica_pools in
    let rest = try_replicas healthy p start (i + 1) rounds in
    elim (get_elem? p.replica_pools idx) [
      | none ↦ raised index_error
      | some pool ↦
          if healthy idx
          then ok pool
          else (elim (get_elem? replica_ports idx) [ none ↦ raised index_error | some port ↦ rest ])
    ]

from_cycle : (ℕ → Bool) → Pools → Option Cycle → Pools × Result Pool
unfolding next try_replicas
from_cycle healthy p none = (p, raised type_error)
from_cycle healthy p (some c) = elim (next c) [
  | none ↦ (p, raised stop_iteration)
  | some (start, c') ↦
      (record p { replica_rr = some c' }, try_replicas healthy p start 0 (length p.replica_pools))
]

unfoldable pub get_replica_pool : (ℕ → Bool) → Pools → Pools × Result Pool
unfolding from_cycle get_primary_pool
get_replica_pool healthy p = elim p.replica_pools [
  | [] ↦ (p, get_primary_pool p)
  | pool ∷ pools ↦ from_cycle healthy p p.replica_rr
]
