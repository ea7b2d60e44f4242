-- ===== src/GoPool/Made.antt =====
-- `NewPool` of connection-pooling/pool.go and the constructor of connection-pooling/pool.py.
use the_grind.Prelude.{
  ℕ, zero, suc, ◌≡◌, refl, ap, sym, ◌∙◌, pos, false, Option, none, some, [], subst, length, ltb,
  inl, inr, Bool-cases, Option-cases, arith,
}
use the_grind.ConnectionPool
use the_grind.ConnectionPool.Create
use the_grind.ConnectionPool.Create.{prefill_lem, create-prefill}
use the_grind.GoPool.{Heap, Pool, made, creation, new_conn, send, fill, new_pool}

-- A pool that is not closed, read as one of pool.py.
abbrev pub python_world : Heap → ConnectionPool.World
python_world h = record { counter = h.conn_counter; closed = h.closed }

abbrev pub python : Pool → ConnectionPool.Pool
python p = record {
  pool_size = p.pool_size;
  queue = record { maxsize = p.conns.capacity; items = p.conns.buffer };
  world = python_world p.heap;
}

-- Both constructors.
abbrev python_filling : Option Pool → ConnectionPool.Filling
python_filling none = ConnectionPool.put_blocks
python_filling (some p) = ConnectionPool.filled (python p)

filled :
    (n : ℕ) (p : Pool)
    → p.conns.is_shut ≡ false
    → ConnectionPool.prefill ConnectionPool.connect n (python p) ≡ python_filling (fill n p)
unfolding ConnectionPool.prefill ConnectionPool.connect ConnectionPool.put fill new_conn send
filled zero p still = refl
filled (suc n) p still = elim (Bool-cases (ltb (length p.conns.buffer) p.conns.capacity)) [
  | inl room ↦ rw (room, still, fill, ConnectionPool.prefill) (filled n _ refl)
  | inr none_left ↦ rw (none_left, still, fill, ConnectionPool.prefill) refl
]

stays_open :
    (n : ℕ) (p q : Pool) → p.conns.is_shut ≡ false → fill n p ≡ some q → q.conns.is_shut ≡ false
unfolding fill send
stays_open zero p q still e = ground arith
stays_open (suc n) p q still e = elim (Bool-cases (ltb (length p.conns.buffer) p.conns.capacity)) [
  | inl room ↦ stays_open n _ q refl (rw (room, still, fill) at e)
  | inr none_left ↦ absurd (ground (arith, rw (none_left, still, fill) at e))
]

abbrev empty_pool : ℕ → Heap → Pool
empty_pool size h = record {
  conns = record { capacity = size; buffer = []; is_shut = false };
  pool_size = size;
  heap = h;
}

-- `NewPool` of a positive size gives a pool, and the constructor of pool.py the same one.
pub makes :
    (k : ℕ) (h : Heap)
    → (p : Pool) × (new_pool (pos (suc k)) h ≡ made p)
      × (ConnectionPool.create ConnectionPool.connect (pos (suc k)) (python_world h)
          ≡ ConnectionPool.created (python p))
      × (p.conns.is_shut ≡ false)
unfolding new_pool
makes k h = elim (Option-cases (fill (suc k) (empty_pool (suc k) h))) [
  | inl never ↦ absurd (cc (python_filled, same, ap python_filling never))
  | inr (p, e) ↦
      let it : python p ≡ q = cc (python_filled, same, ap python_filling e) in
      (
        p,
        ap creation e,
        create-prefill k (python_world h) (python p)
            (python_filled ∙ ap ConnectionPool.filled (sym it)),
        stays_open (suc k) (empty_pool (suc k) h) p refl e,
      )
]
  where
    q : ConnectionPool.Pool
    q =
        (prefill_lem (suc k) (ConnectionPool.Create.empty_pool (suc k) (python_world h))
          (omega arith)).0

    python_filled :
        ConnectionPool.prefill ConnectionPool.connect
          (suc k)
          (ConnectionPool.Create.empty_pool (suc k) (python_world h))
        ≡ ConnectionPool.filled q
    python_filled =
        (prefill_lem (suc k) (ConnectionPool.Create.empty_pool (suc k) (python_world h))
          (omega arith)).1

    same :
        ConnectionPool.prefill ConnectionPool.connect
          (suc k)
          (ConnectionPool.Create.empty_pool (suc k) (python_world h))
        ≡ python_filling (fill (suc k) (empty_pool (suc k) h))
    same = filled (suc k) (empty_pool (suc k) h) refl

made-inj : {p q : Pool} → made p ≡ made q → p ≡ q
made-inj e = ground (arith, e)

-- The pool that `NewPool` makes, when its size is positive.
pub new_lem :
    (m : ℕ) (h : Heap) (q : Pool)
    → new_pool (pos (suc m)) h ≡ made q
    → (ConnectionPool.create ConnectionPool.connect (pos (suc m)) (python_world h)
        ≡ ConnectionPool.created (python q))
      × (q.conns.is_shut ≡ false)
new_lem m h q e =
    let (p, go, py, still) = makes m h in
    let it : p ≡ q = made-inj (sym go ∙ e) in
    subst
      (λ (p : Pool).
        (ConnectionPool.create ConnectionPool.connect (pos (suc m)) (python_world h)
          ≡ ConnectionPool.created (python p))
        × (p.conns.is_shut ≡ false))
      it (py, still)
