-- ===== src/ConnectionPool/Sharing.antt =====
-- What the workers of connection-pooling/pool.py and `close` do to each other.
use the_grind.Prelude.{
  ℕ, suc, ◌+◌, ◌<◌, ◌≡◌, ◌≢◌, refl, ap, pos, true, false, some, [], ◌∷◌, ◌++◌, length, ltb, ◌==◌,
  arith, count_if, le-sum_below, add-le-sum_below, sum_below-zero, lt→ltb,
}
use native.Mathlib.Decide.{ℕ_discrete}
use the_grind.ConnectionPool.{
  World, Pool, connect, create, created, execute, get_conn, release_conn,
}
use the_grind.ConnectionPool.Create.{is_fresh, fresh_ids}
use the_grind.ConnectionPool.Threads.{
  holding, queue_empty, System, asks, gets, begins_close, sees_some, finds_none, Reach, here, next,
  start,
}
use the_grind.ConnectionPool.Places.{has, has_any, has_none, has-has_any, created_Filled, Reach-Inv}

-- The pool of a constructor call with a positive size, shared by `n` workers.
module _ (k n : ℕ) (w : World) (q : Pool) (made : create connect (pos (suc k)) w ≡ created q) where
  -- In every reachable state a connection is with one worker at most.
  pub no_sharing :
      {s : System}
      → Reach n (start q) s
      → (conn i j : ℕ) → i < n
      → j < n
      → has conn (s.pc i) ≡ 1
      → has conn (s.pc j) ≡ 1
      → i ≡ j
  no_sharing {s} r conn i j hi hj a b = elim (ℕ_discrete i j) [
    | yes same ↦ same
    | no other ↦ absurd (
        ground (
          arith,
          (Reach-Inv k n w q made r).place conn,
          add-le-sum_below (has conn) n i j s.pc hi hj other,
        ))
  ]

  -- The queue has room for a connection that a worker has.
  pub release_never_blocks :
      {s : System}
      → Reach n (start q) s
      → (i conn : ℕ) → i < n
      → has_any (s.pc i) ≡ 1
      → (p : Pool) × (release_conn conn s.pool ≡ some p)
  unfolding release_conn
  release_never_blocks {s} r i conn lt e =
      let inv = Reach-Inv k n w q made r in
      let fits : ltb (length s.pool.queue.items) s.pool.queue.maxsize ≡ true =
        lt→ltb _ _ (omega (arith, e, inv.room, inv.bound, le-sum_below has_any n i s.pc lt)) in
      (
        record s.pool { queue = record s.pool.queue { items = s.pool.queue.items ++ conn ∷ [] } },
        rw (fits, release_conn),
      )

  -- A connection that a worker has is open.
  pub lent_stays_open :
      {s : System}
      → Reach n (start q) s
      → (i conn : ℕ) → i < n
      → has conn (s.pc i) ≡ 1
      → (s.pool.world.closed conn ≡ false) × (execute conn s.pool.world ≡ some conn)
  unfolding execute
  lent_stays_open {s} r i conn lt e =
      let is_open : s.pool.world.closed conn ≡ false =
        ground
          (arith, (Reach-Inv k n w q made r).place conn, le-sum_below (has conn) n i s.pc lt) in
      (is_open, rw is_open)

  -- A connection that a worker has is open, also while the pool is being closed and after that, so
  -- that `execute` raises no RuntimeError, and `release_conn` returns at once: the queue has room.
  pub worker_never_fails :
      {s : System}
      → Reach n (start q) s
      → (i conn : ℕ) → i < n
      → has conn (s.pc i) ≡ 1
      → (s.pool.world.closed conn ≡ false)
        × (execute conn s.pool.world ≡ some conn)
        × ((p : Pool) × (release_conn conn s.pool ≡ some p))
  worker_never_fails {s} r i conn lt e =
      let (is_open, ran) = lent_stays_open r i conn lt e in
      (is_open, ran, release_never_blocks r i conn lt (has-has_any conn (s.pc i) e))

  -- Once no worker has a connection and the queue is empty, every connection of the pool is closed.
  pub closed_at_the_end :
      {s : System}
      → Reach n (start q) s
      → s.pool.queue.items ≡ []
      → ((i : ℕ) → has_any (s.pc i) ≡ 0)
      → (conn : ℕ) → is_fresh w.counter (suc k) conn ≡ true
      → s.pool.world.closed conn ≡ true
  closed_at_the_end {s} r none_left idle conn mine = ground (
    arith,
    (Reach-Inv k n w q made r).place conn,
    ap (count_if (λ (x : ℕ). x == conn)) none_left,
    sum_below-zero (has conn) n s.pc (λ i. has_none conn (s.pc i) (idle i)),
  )

-- `close` can raise queue.Empty. With a pool of one connection and any workers: `close` sees the
-- connection in the queue, a worker takes it, and `get_nowait` finds nothing.
pub close_can_raise :
    (n : ℕ) (w : World) (q : Pool)
    → 0 < n
    → create connect (pos 1) w ≡ created q
    → (t : System) × Reach n (start q) t
      × (t.main ≡ queue_empty)
      × (t.pc 0 ≡ holding (w.counter + 1))
unfolding get_conn fresh_ids
close_can_raise n w q lt made =
    let one : q.queue.items ≡ (w.counter + 1) ∷ [] = (created_Filled 0 w q made).items in
    let p : Pool = record q { queue = record q.queue { items = [] } } in
    let got : get_conn q ≡ some (w.counter + 1, p) = ground (arith, one) in
    let there : q.queue.items ≢ [] = λ e. ground (arith, one) in
    (
      _,
      next
          (next
            (next (next (next here (asks 0 lt refl)) (begins_close refl)) (sees_some refl there))
            (gets 0 (w.counter + 1) p lt refl got))
          (finds_none refl refl),
      refl,
      refl,
    )
