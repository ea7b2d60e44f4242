-- ===== src/GoPool/Closed.antt =====
-- A pool of connection-pooling/pool.go that is closed, or that was never given a connection.
use the_grind.Prelude.{
  ℕ, zero, suc, ◌<◌, ◌≡◌, refl, ◌⊎◌, inl, inr, ℤ, pos, negsuc, true, none, some, [], ◌∷◌, ◌++◌, ltb,
  le_ℤ, arith, Bool-cases, lt→ltb,
}
use the_grind.ConnectionPool
use the_grind.ConnectionPool.Create.{create_error}
use the_grind.GoPool.{
  Heap, Pool, made, out_of_range, new_pool, waits, nil_dereference, get_conn, blocks, panics,
  release_conn, close, shut, fill, send, receive,
}
use the_grind.GoPool.Made.{python}

-- What `Close` leaves.
close_lem :
    (p end : Pool)
    → close p ≡ some end
    → (end.conns.buffer ≡ []) × (end.conns.is_shut ≡ true) × (end.conns.capacity ≡ p.conns.capacity)
unfolding close shut
close_lem p end e = elim (Bool-cases p.conns.is_shut) [
  | inl closed ↦ absurd (ground (arith, e, closed))
  | inr still ↦ ground (arith, e, still)
]

-- After `Close`, in a pool with room for a connection, `Get`, `Release` and a second `Close`
-- panic; pool.py, left with the same queue by its `close`, waits in `get_conn` and takes a
-- connection back in `release_conn`.
pub closed_pool_panics :
    (p end : Pool) (conn : ℕ)
    → 0 < p.conns.capacity
    → close p ≡ some end
    → (get_conn end ≡ nil_dereference)
      × (release_conn conn end ≡ panics)
      × (close end ≡ none)
      × (ConnectionPool.get_conn (python end) ≡ none)
      × ((q : ConnectionPool.Pool) × (ConnectionPool.release_conn conn (python end) ≡ some q))
unfolding close shut get_conn receive release_conn send ConnectionPool.get_conn ConnectionPool.get
    ConnectionPool.release_conn ConnectionPool.put
closed_pool_panics p end conn room e =
    let (none_left, closed, same) = close_lem p end e in
    let fits : ltb 0 end.conns.capacity ≡ true = lt→ltb _ _ (omega (arith, room, same)) in
    (
      rw (none_left, closed) refl,
      rw closed refl,
      rw closed refl,
      rw none_left refl,
      (
        record (python end) {
          queue = record (python end).queue { items = end.conns.buffer ++ conn ∷ [] };
        },
        rw (none_left, fits) refl,
      ),
    )

-- A size that is not positive: pool.py raises ValueError, while here a negative one panics, and 0
-- gives a pool from which every `Get` waits until its time is over and in which every `Release`
-- blocks.
small_sizes :
    (size : ℤ) (h : Heap) (w : ConnectionPool.World)
    → le_ℤ size (pos 0) ≡ true
    → (ConnectionPool.create ConnectionPool.connect size w ≡ ConnectionPool.value_error)
      × ((new_pool size h ≡ out_of_range)
          ⊎ ((p : Pool) × (new_pool size h ≡ made p)
              × (get_conn p ≡ waits)
              × ((conn : ℕ) → release_conn conn p ≡ blocks)))
unfolding new_pool fill get_conn receive release_conn send
small_sizes (pos zero) h w e = (create_error (pos zero) w e, inr (_, refl, refl, λ conn. refl))
small_sizes (pos (suc k)) h w e = absurd (ground (arith, e))
small_sizes (negsuc k) h w e = (create_error (negsuc k) w e, inl refl)
