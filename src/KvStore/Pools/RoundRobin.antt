-- ===== src/KvStore/Pools/RoundRobin.antt =====
-- Which pool `get_replica_pool` of kv-store/app/db.py returns.
use the_grind.Prelude.{
  ℕ, zero, suc, ◌+◌, ◌%◌, ◌≤◌, ◌<◌, ◌≡◌, refl, ◌⊎◌, inl, inr, Bool, true, false, Option, none, some,
  List, [], ◌∷◌, length, get_elem?, arith, Bool-cases, Option-cases, ◌∙◌, ap, sym,
}
use native.Mathlib.Nat.{mod-lt, le_trans, mod-eq_of_lt, mod-add-mod}
use native.Mathlib.Decide.{dec_lt}
use the_grind.KvStore.Pools.{
  Pool, Pools, Result, ok, no_pools, init_pools, close_pools, next, try_replicas, from_cycle, Cycle,
  get_replica_pool, replica_ports,
}

-- The pools while the application serves: `i` is the replica whose turn it is.
abbrev pub serving : Pool → List Pool → ℕ → Pools
serving primary pools i = record {
  primary_pool = some primary;
  replica_pools = pools;
  replica_rr = some (record { size = length pools; next_index = i });
}

abbrev pub pool_at : ℕ → ℕ → ℕ → Pool
pool_at port low high = record { port = port; min_size = low; max_size = high }

-- From the state at import `init_pools` makes the three pools with the first replica's turn, if all
-- three servers can be reached; `close_pools` then closes exactly those, in the order of their
-- creation, and restores the state at import.
pub init-close :
    (connects : ℕ → Bool)
    → connects 5432 ≡ true
    → connects 5433 ≡ true
    → connects 5434 ≡ true
    → let replicas = pool_at 5433 2 10 ∷ pool_at 5434 2 10 ∷ [] in
      (init_pools connects no_pools ≡ (serving (pool_at 5432 5 20) replicas 0, ok tt))
      × (close_pools (init_pools connects no_pools).0 ≡ (no_pools, pool_at 5432 5 20 ∷ replicas))
unfolding init_pools close_pools
init-close connects a b c = rw (a, b, c) (refl, refl)

get_elem?_of_lt {ℓ} :
    {A : Type ℓ} (xs : List A) (i : ℕ) → i < length xs → (x : A) × (get_elem? xs i ≡ some x)
get_elem?_of_lt [] i h = absurd (omega arith)
get_elem?_of_lt (x ∷ xs) zero h = (x, refl)
get_elem?_of_lt (x ∷ xs) (suc i) h = get_elem?_of_lt xs i (omega arith)

module _ (healthy : ℕ → Bool) (primary : Pool) (pools : List Pool) (i : ℕ) where
  abbrev turn : ℕ → ℕ
  turn j = (i + j) % length pools

  -- `k` is the first round from `from` on with a healthy replica.
  pub record FirstHealthy (from rounds : ℕ) (r : Result Pool) : Type 0 where
    pub k : ℕ
    pub pool : Pool
    in_range : (from ≤ k) × (k < from + rounds)
    pub before : (j : ℕ) → from ≤ j → j < k → healthy (turn j) ≡ false
    pub up : healthy (turn k) ≡ true
    pub found : get_elem? pools (turn k) ≡ some pool
    pub result : r ≡ ok pool

  pub record NoneHealthy (from rounds : ℕ) (r : Result Pool) : Type 0 where
    pub down : (j : ℕ) → from ≤ j → j < from + rounds → healthy (turn j) ≡ false
    pub result : r ≡ ok primary

  abbrev pub attempt : ℕ → ℕ → Result Pool
  attempt from rounds = try_replicas healthy (serving primary pools i) i from rounds

  abbrev Outcome : ℕ → ℕ → Type 0
  Outcome from rounds =
      FirstHealthy from rounds (attempt from rounds) ⊎ NoneHealthy from rounds (attempt from rounds)

  later_round :
      (from rounds : ℕ)
      → healthy (turn from) ≡ false
      → attempt from (suc rounds) ≡ attempt (from + 1) rounds
      → Outcome (from + 1) rounds
      → Outcome from (suc rounds)
  later_round from rounds down same (inl f) = inl (record {
    k = f.k;
    pool = f.pool;
    in_range = omega (arith, f.in_range);
    before = λ j lo hi. elim (dec_lt from j) [
      | yes p ↦ f.before j (omega arith) hi
      | no p ↦ let e : j ≡ from = omega arith in rw e down
    ];
    up = f.up;
    found = f.found;
    result = same ∙ f.result;
  })
  later_round from rounds down same (inr g) = inr (record {
    down = λ j lo hi. elim (dec_lt from j) [
      | yes p ↦ g.down j (omega arith) (omega arith)
      | no p ↦ let e : j ≡ from = omega arith in rw e down
    ];
    result = same ∙ g.result;
  })

  try_replicas_lem :
      (from rounds : ℕ)
      → 0 < length pools
      → length pools ≤ length replica_ports
      → Outcome from rounds
  unfolding try_replicas
  try_replicas_lem from zero some_replica few =
      inr (record { down = λ j lo hi. absurd (omega arith); result = refl })
  try_replicas_lem from (suc rounds) some_replica few =
      let (pool, e) = get_elem?_of_lt pools (turn from) (mod-lt (i + from) some_replica) in
      let (port, e') =
        get_elem?_of_lt replica_ports (turn from) (le_trans (mod-lt (i + from) some_replica) few) in
      elim (Bool-cases (healthy (turn from))) [
        | inl up ↦ inl (record {
          k = from;
          pool = pool;
          in_range = omega arith;
          before = λ j lo hi. absurd (omega arith);
          up = up;
          found = e;
          result = rw (e, up);
        })
        | inr down ↦
            later_round from rounds down (rw (e, down, e'))
              (try_replicas_lem (from + 1) rounds some_replica few)
      ]

  pub get_replica_pool-serving :
      0 < length pools
      → get_replica_pool healthy (serving primary pools i)
        ≡ (serving primary pools ((i + 1) % length pools), attempt 0 (length pools))
  unfolding get_replica_pool next
  get_replica_pool-serving h = nonempty pools h
    where
      nonempty :
          (ps : List Pool)
          → 0 < length ps
          → get_replica_pool healthy (serving primary ps i) ≡ (
            serving primary ps ((i + 1) % length ps),
            try_replicas healthy (serving primary ps i) i 0 (length ps),
          )
      nonempty [] h = absurd (omega arith)
      nonempty (p ∷ ps) h = refl

  -- With at least one replica pool and no more of them than `REPLICA_PORTS` has ports,
  -- `get_replica_pool` moves the turn on by one and raises nothing: it returns the first replica,
  -- in cyclic order from the one whose turn it was, that passes its health check, or the primary
  -- pool if every one of them fails.
  pub get_replica_pool-FirstHealthy :
      0 < length pools
      → length pools ≤ length replica_ports
      → let r = get_replica_pool healthy (serving primary pools i) in
        (r.0 ≡ serving primary pools ((i + 1) % length pools))
        × (FirstHealthy 0 (length pools) r.1 ⊎ NoneHealthy 0 (length pools) r.1)
  get_replica_pool-FirstHealthy some_replica few =
      rw (get_replica_pool-serving some_replica)
        (refl, try_replicas_lem 0 (length pools) some_replica few)

-- The pools after `k` calls of `get_replica_pool`; `health j` is the state of the replicas in call
-- `j`.
pub after_calls : (ℕ → ℕ → Bool) → ℕ → Pools → Pools
after_calls health zero p = p
after_calls health (suc k) p = (get_replica_pool (health k) (after_calls health k p)).0

module _ (health : ℕ → ℕ → Bool) (primary : Pool) (pools : List Pool) (i : ℕ) where
  after_calls-serving :
      0 < length pools
      → i < length pools
      → (k : ℕ)
      → after_calls health k (serving primary pools i)
        ≡ serving primary pools ((i + k) % length pools)
  unfolding after_calls
  after_calls-serving h lt zero =
      ap (serving primary pools)
        (sym (mod-eq_of_lt (omega arith)) ∙ ap (λ (t : ℕ). t % length pools) (omega arith))
  after_calls-serving h lt (suc k) =
      rw
        (
          after_calls,
          after_calls-serving h lt k,
          get_replica_pool-serving (health k) primary pools ((i + k) % length pools) h,
        )
        (ap (serving primary pools)
          (mod-add-mod (i + k) (length pools) 1 ∙ ap (λ (t : ℕ). t % length pools) (omega arith)))

  -- With at least one replica pool and no more of them than `REPLICA_PORTS` has ports, whatever the
  -- health checks of the first `k` calls gave: call `k` raises nothing, returns the first replica
  -- that passes its check, in cyclic order from replica (i + k) % n of the n replicas, or the
  -- primary pool if every one of them fails, and leaves the turn with replica (i + k + 1) % n. So
  -- reads are spread evenly, also after failures.
  pub calls-FirstHealthy :
      0 < length pools
      → length pools ≤ length replica_ports
      → i < length pools
      → (k : ℕ)
      → let r = get_replica_pool (health k) (after_calls health k (serving primary pools i)) in
        let n = length pools in
        (r.0 ≡ serving primary pools ((i + k + 1) % n))
        × (FirstHealthy (health k) primary pools ((i + k) % n) 0 n r.1
            ⊎ NoneHealthy (health k) primary pools ((i + k) % n) 0 n r.1)
  calls-FirstHealthy some_replica few lt k =
      let (moved, outcome) =
        get_replica_pool-FirstHealthy (health k) primary pools ((i + k) % length pools) some_replica
          few in
      rw (after_calls-serving some_replica lt k)
        (moved ∙ ap (serving primary pools) (mod-add-mod (i + k) (length pools) 1), outcome)

primary_pool-from_cycle :
    (healthy : ℕ → Bool) (p : Pools) (o : Option Cycle)
    → (from_cycle healthy p o).0.primary_pool ≡ p.primary_pool
unfolding from_cycle
primary_pool-from_cycle healthy p none = refl
primary_pool-from_cycle healthy p (some c) = elim (Option-cases (next c)) [
  | inl e ↦ rw (e, from_cycle) refl
  | inr ((start, c'), e) ↦ rw (e, from_cycle) refl
]

-- A read leaves the primary's pool alone.
pub primary_pool-get_replica_pool :
    (healthy : ℕ → Bool) (p : Pools) → (get_replica_pool healthy p).0.primary_pool ≡ p.primary_pool
unfolding get_replica_pool
primary_pool-get_replica_pool healthy p = cases p.replica_pools refl
  where
    cases :
        (l : List Pool)
        → p.replica_pools ≡ l
        → (get_replica_pool healthy p).0.primary_pool ≡ p.primary_pool
    cases [] e = rw (e, get_replica_pool) refl
    cases (x ∷ l) e = rw (e, get_replica_pool) (primary_pool-from_cycle healthy p p.replica_rr)
