-- ===== src/ConnectionPool/Factory.antt =====
-- The constructor of connection-pooling/pool.py with any `connect_fn`.
use the_grind.Prelude.{
  ℕ, zero, suc, ◌+◌, ◌≤◌, ◌≡◌, refl, ap, sym, ◌∙◌, pos, true, false, Option, none, some, List, [],
  ◌∷◌, ◌++◌, length, ltb, leb, arith, append_assoc, length-append, append-nil, Option-cases, inl,
  inr, lt→ltb,
}
use mathlib.Core.Option
use the_grind.ConnectionPool.{
  World, Pool, Factory, Filling, filled, factory_raised, prefill, Creation, created, connect_error,
  creation, create, put,
}

-- `n` calls of the factory, up to the first that raises: the world after them, and what they gave.
pub opened : Factory → ℕ → World → World × Option (List ℕ)
opened connect_fn zero w = (w, some [])
opened connect_fn (suc n) w =
    let (next, conn) = connect_fn w in
    let (end, rest) = opened connect_fn n next in
    elim conn [ none ↦ (next, none) | some c ↦ (end, Option.map (◌∷◌ c) rest) ]

abbrev pool_of : ℕ → List ℕ → World → Pool
pool_of size items w = record {
  pool_size = size;
  queue = record { maxsize = size; items = items };
  world = w;
}

abbrev filling : ℕ → List ℕ → World × Option (List ℕ) → Filling
filling size items (w, none) = factory_raised w
filling size items (w, some more) = filled (pool_of size (items ++ more) w)

-- What the constructor does with what the factory gives.
abbrev pub outcome : ℕ → World × Option (List ℕ) → Creation
outcome size (w, none) = connect_error w
outcome size (w, some conns) = created (pool_of size conns w)

filling_later :
    (size : ℕ) (items : List ℕ) (c : ℕ) (r : World × Option (List ℕ))
    → filling size (items ++ c ∷ []) r ≡ filling size items (r.0, Option.map (◌∷◌ c) r.1)
filling_later size items c (w, none) = refl
filling_later size items c (w, some more) =
    ap (λ l. filled (pool_of size l w)) (append_assoc items (c ∷ []) more)

prefill-opened :
    (connect_fn : Factory) (size n : ℕ) (items : List ℕ) (w : World)
    → length items + n ≤ size
    → prefill connect_fn n (pool_of size items w) ≡ filling size items (opened connect_fn n w)
unfolding prefill opened put
prefill-opened connect_fn size zero items w room =
    ap (λ l. filled (pool_of size l w)) (sym (append-nil items))
prefill-opened connect_fn size (suc n) items w room = elim (Option-cases (connect_fn w).1) [
  | inl e ↦ rw (prefill, opened, e) refl
  | inr (c, e) ↦
      let fits : ltb (length items) size ≡ true = lt→ltb _ _ (omega (arith, room)) in
      rw (prefill, opened, e, fits)
        (prefill-opened connect_fn size n (items ++ c ∷ []) (connect_fn w).0
            (omega (arith, room, length-append items (c ∷ [])))
          ∙ filling_later size items c (opened connect_fn n (connect_fn w).0))
]

-- With a positive size and any factory the constructor never blocks. It calls the factory
-- `pool_size` times, up to the first call that raises: if none does, the queue holds the
-- connections in the order of the calls, and otherwise the exception leaves the constructor, with
-- all that was opened before it left as it is.
pub create-opened :
    (connect_fn : Factory) (n : ℕ) (w : World)
    → create connect_fn (pos (suc n)) w ≡ outcome (suc n) (opened connect_fn (suc n) w)
unfolding create
create-opened connect_fn n w =
    let positive : leb (suc n) 0 ≡ false = ground arith in
    rw (positive, create, prefill-opened connect_fn (suc n) (suc n) [] w (omega arith))
      (same (opened connect_fn (suc n) w))
  where
    same : (r : World × Option (List ℕ)) → creation (filling (suc n) [] r) ≡ outcome (suc n) r
    same (w, none) = refl
    same (w, some conns) = refl
