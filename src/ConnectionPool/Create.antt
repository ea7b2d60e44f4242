-- ===== src/ConnectionPool/Create.antt =====
-- What `ConnectionPool.__init__` and `ConnectionPool.close` of connection-pooling/pool.py do.
use the_grind.Prelude.{
  ℕ, zero, suc, ◌+◌, ◌≤◌, ◌≡◌, refl, ap, sym, ◌∙◌, ℤ, pos, Bool, true, false, ◌&&◌, ◌||◌, List, [],
  ◌∷◌, ◌++◌, length, ltb, leb, ◌==◌, le_ℤ, if◌then◌else◌, arith, append_assoc, length-append,
  count_if, append-nil,
}
use the_grind.ConnectionPool.{
  World, Pool, connect, prefill, filled, create, created, value_error, close, close_items,
  close_connection,
}

-- The ids of the next `n` connections.
unfoldable pub fresh_ids : ℕ → ℕ → List ℕ
fresh_ids c zero = []
fresh_ids c (suc n) = (c + 1) ∷ fresh_ids (c + 1) n

abbrev pub is_fresh : ℕ → ℕ → ℕ → Bool
is_fresh c n id = ltb c id && leb id (c + n)

pub count_fresh_ids :
    (id c n : ℕ) → count_if (λ x. x == id) (fresh_ids c n) ≡ (if is_fresh c n id then 1 else 0)
unfolding fresh_ids
count_fresh_ids id c zero = ground arith
count_fresh_ids id c (suc n) = ground (arith, count_fresh_ids id (c + 1) n)

pub length-fresh_ids : (c n : ℕ) → length (fresh_ids c n) ≡ n
unfolding fresh_ids
length-fresh_ids c zero = refl
length-fresh_ids c (suc n) = ap suc (length-fresh_ids (c + 1) n)

-- A pool `q` that was made from `p` by opening `n` connections.
pub record Filled (n : ℕ) (p q : Pool) : Type 0 where
  pub size : q.pool_size ≡ p.pool_size
  pub maxsize : q.queue.maxsize ≡ p.queue.maxsize
  pub items : q.queue.items ≡ p.queue.items ++ fresh_ids p.world.counter n
  pub counter : q.world.counter ≡ p.world.counter + n
  pub closed :
      (id : ℕ)
      → q.world.closed id ≡ (if is_fresh p.world.counter n id then false else p.world.closed id)

pub prefill_lem :
    (n : ℕ) (p : Pool)
    → length p.queue.items + n ≤ p.queue.maxsize
    → (q : Pool) × (prefill connect n p ≡ filled q) × Filled n p q
unfolding prefill fresh_ids connect
prefill_lem zero p room = (
  p,
  refl,
  record {
    size = refl;
    maxsize = refl;
    items = sym (append-nil p.queue.items);
    counter = omega arith;
    closed = λ id. ground arith;
  },
)
prefill_lem (suc n) p room =
    let p' : Pool = record p {
      queue = record p.queue { items = p.queue.items ++ (p.world.counter + 1) ∷ [] };
      world = (connect p.world).0;
    } in
    let fits : ltb (length p.queue.items) p.queue.maxsize ≡ true = ground arith in
    let (q, e, f) =
      prefill_lem n p' (omega (arith, length-append p.queue.items ((p.world.counter + 1) ∷ []))) in
    (
      q,
      rw (prefill, fits) e,
      record {
        size = f.size;
        maxsize = f.maxsize;
        items = f.items ∙ append_assoc p.queue.items ((p.world.counter + 1) ∷ []) _;
        counter = omega (arith, f.counter);
        closed = λ id. ground (arith, f.closed id);
      },
    )

abbrev pub empty_pool : ℕ → World → Pool
empty_pool n w = record { pool_size = n; queue = record { maxsize = n; items = [] }; world = w }

-- The constructor with a positive size is the loop that fills the queue.
pub create-prefill :
    (n : ℕ) (w : World) (q : Pool)
    → prefill connect (suc n) (empty_pool (suc n) w) ≡ filled q
    → create connect (pos (suc n)) w ≡ created q
unfolding create
create-prefill n w q e = let positive : leb (suc n) 0 ≡ false = ground arith in rw (e, positive)

-- A positive size makes a pool with exactly that many new connections, all open and all in
-- the queue, and no `put` of the constructor blocks; the other connections are as before.
pub create_lem :
    (n : ℕ) (w : World)
    → (q : Pool) × (create connect (pos (suc n)) w ≡ created q)
      × Filled (suc n) (empty_pool (suc n) w) q
create_lem n w =
    let (q, e, f) = prefill_lem (suc n) (empty_pool (suc n) w) (omega arith) in
    (q, create-prefill n w q e, f)

-- A size that is zero or negative is ValueError, and no connection is opened.
pub create_error :
    (size : ℤ) (w : World) → le_ℤ size (pos 0) ≡ true → create connect size w ≡ value_error
unfolding create
create_error size w e = rw e

close_items_lem :
    (items : List ℕ) (w : World) (id : ℕ)
    → (close_items items w).closed id ≡ (w.closed id || ltb 0 (count_if (λ x. x == id) items))
unfolding close_items
close_items_lem [] w id = ground arith
close_items_lem (c ∷ rest) w id = ground (arith, close_items_lem rest (close_connection c w) id)

-- `close` empties the queue and closes exactly the connections that are in it: one that a
-- caller has borrowed stays open.
close_lem :
    (p : Pool) (id : ℕ)
    → ((close p).queue.items ≡ [])
      × ((close p).world.closed id
          ≡ (p.world.closed id || ltb 0 (count_if (λ x. x == id) p.queue.items)))
unfolding close
close_lem p id = (refl, close_items_lem p.queue.items p.world id)
