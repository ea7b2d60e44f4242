-- ===== src/ConnectionPool.antt =====
-- connection-pooling/pool.py: fake connections, and a pool of them in a bounded queue. The standard
-- library's `queue.Queue` is modelled by what the pool calls of it.
pub mod Create
pub mod Factory
pub mod Threads
pub mod Places
pub mod Sharing
pub mod Demo
mod Tests
use the_grind.Prelude.{
  ℕ, zero, suc, ◌+◌, ℤ, pos, negsuc, Bool, true, false, Option, none, some, List, [], ◌∷◌, ◌++◌,
  length, ltb, le_ℤ, if◌then◌else◌, update,
}
use mathlib.Core.Option

-- The class-level counter of `FakeConnection`, and the flag `closed` of the object with each id.
pub record World : Type 0 where
  pub counter : ℕ
  pub closed : ℕ → Bool

-- A `connect_fn`: a connection, which is its id, or an exception.
abbrev pub Factory : Type 0
Factory = World → World × Option ℕ

-- `FakeConnection()`, the default
unfoldable pub connect : Factory
connect w = (
  record { counter = w.counter + 1; closed = update w.closed (w.counter + 1) false },
  some (w.counter + 1),
)

-- `execute`; `none` is RuntimeError, and the result names the connection.
unfoldable pub execute : ℕ → World → Option ℕ
execute conn w = if w.closed conn then none else some conn

-- `conn.close()`
unfoldable pub close_connection : ℕ → World → World
close_connection conn w = record w { closed = update w.closed conn true }

pub record Queue : Type 0 where
  pub maxsize : ℕ
  pub items : List ℕ

-- `put`; `none`: the queue is full and the caller blocks
unfoldable pub put : ℕ → Queue → Option Queue
put conn q =
    if ltb (length q.items) q.maxsize
    then some (record q { items = q.items ++ conn ∷ [] })
    else none

-- `get`; `none`: the queue is empty and the caller blocks, or gets `queue.Empty` after its time
unfoldable pub get : Queue → Option (ℕ × Queue)
get q = elim q.items [ [] ↦ none | conn ∷ rest ↦ some (conn, record q { items = rest }) ]

pub record Pool : Type 0 where
  pub pool_size : ℕ
  pub queue : Queue
  pub world : World

pub data Filling : Type 0 where
  filled : Pool → Filling
  put_blocks : Filling  -- for ever
  factory_raised : World → Filling

-- The loop that fills the queue, with `n` rounds left.
unfoldable pub prefill : Factory → ℕ → Pool → Filling
unfolding put
prefill connect_fn zero p = filled p
prefill connect_fn (suc n) p =
    let (w, opened) = connect_fn p.world in
    elim opened [
      | none ↦ factory_raised w
      | some conn ↦ elim (put conn p.queue) [
        | none ↦ put_blocks
        | some q ↦ prefill connect_fn n (record p { queue = q; world = w })
      ]
    ]

pub data Creation : Type 0 where
  created : Pool → Creation
  value_error : Creation
  hangs : Creation
  connect_error : World → Creation  -- what `connect_fn` raised; nobody closes what it has opened

abbrev pub creation : Filling → Creation
creation (filled p) = created p
creation put_blocks = hangs
creation (factory_raised w) = connect_error w

abbrev size_of : ℤ → ℕ
size_of (pos n) = n
size_of (negsuc n) = 0

-- `ConnectionPool(pool_size, connect_fn)`
pub create : Factory → ℤ → World → Creation
unfolding prefill
create connect_fn pool_size w =
    if le_ℤ pool_size (pos 0)
    then value_error
    else creation (
        prefill connect_fn (size_of pool_size) (record {
          pool_size = size_of pool_size;
          queue = record { maxsize = size_of pool_size; items = [] };
          world = w;
        }))

-- `get_conn`; `none`: nothing there, and TimeoutError if that stays so for `timeout` seconds
unfoldable pub get_conn : Pool → Option (ℕ × Pool)
unfolding get
get_conn p = Option.map (λ r. (r.0, record p { queue = r.1 })) (get p.queue)

-- `release_conn`; `none`: the queue is full and the caller blocks
unfoldable pub release_conn : ℕ → Pool → Option Pool
unfolding put
release_conn conn p = Option.map (λ q. record p { queue = q }) (put conn p.queue)

unfoldable pub close_items : List ℕ → World → World
unfolding close_connection
close_items [] w = w
close_items (conn ∷ rest) w = close_items rest (close_connection conn w)

-- `close`, when no other thread takes from the queue or puts into it meanwhile
unfoldable pub close : Pool → Pool
unfolding close_items
close p = record p {
  queue = record p.queue { items = [] };
  world = close_items p.queue.items p.world;
}
