-- ===== src/GoPool.antt =====
-- connection-pooling/pool.go: connections, the buffered channel that holds them, and the methods
-- of `Pool`. A connection is the `ID` of its `Conn`.
pub mod Made
pub mod Agreement
pub mod Closed
pub mod Program
mod Tests
use the_grind.Prelude.{
  ℕ, zero, suc, ◌+◌, ℤ, pos, negsuc, Bool, true, false, Option, none, some, List, [], ◌∷◌, ◌++◌,
  length, ltb, if◌then◌else◌, update,
}
use mathlib.Core.Option

-- The global `connCounter`, and the field `Closed` of the `Conn` with each ID.
pub record Heap : Type 0 where
  pub conn_counter : ℕ
  pub closed : ℕ → Bool

pub new_conn : Heap → Heap × ℕ
new_conn h = (
  record { conn_counter = h.conn_counter + 1; closed = update h.closed (h.conn_counter + 1) false },
  h.conn_counter + 1,
)

-- `Execute`; `none` is its panic, and the result names the connection.
pub execute : ℕ → Heap → Option ℕ
execute conn h = if h.closed conn then none else some conn

-- `conn.Close()`
pub close_conn : ℕ → Heap → Heap
close_conn conn h = record h { closed = update h.closed conn true }

-- `chan *Conn`
pub record Channel : Type 0 where
  pub capacity : ℕ
  pub buffer : List ℕ
  pub is_shut : Bool  -- after `close(p.conns)`

pub data Sending : Type 0 where
  sent : Channel → Sending
  full : Sending  -- the sender blocks
  send_on_closed : Sending  -- panic

-- `p.conns <- conn`
pub send : ℕ → Channel → Sending
send conn c =
    if c.is_shut
    then send_on_closed
    else if ltb (length c.buffer) c.capacity
    then sent (record c { buffer = c.buffer ++ conn ∷ [] })
    else full

pub data Receiving : Type 0 where
  received : ℕ → Channel → Receiving
  zero_value : Receiving  -- of a closed channel with nothing left: nil, and `range` ends
  nothing : Receiving  -- the receiver blocks

-- `<-p.conns`
pub receive : Channel → Receiving
receive c = elim c.buffer [
  | [] ↦ if c.is_shut then zero_value else nothing
  | conn ∷ rest ↦ received conn (record c { buffer = rest })
]

pub record Pool : Type 0 where
  pub conns : Channel
  pub pool_size : ℕ
  pub heap : Heap

-- The loop of `NewPool`, with `n` rounds left; `none`: a send blocks for ever or panics
pub fill : ℕ → Pool → Option Pool
unfolding new_conn send
fill zero p = some p
fill (suc n) p =
    let (h, conn) = new_conn p.heap in
    elim (send conn p.conns) [
      | sent c ↦ fill n (record p { conns = c; heap = h })
      | full ↦ none
      | send_on_closed ↦ none
    ]

pub data Creation : Type 0 where
  made : Pool → Creation
  out_of_range : Creation  -- `make` panics
  stuck : Creation

abbrev creation : Option Pool → Creation
creation none = stuck
creation (some p) = made p

-- `NewPool(size)`
pub new_pool : ℤ → Heap → Creation
unfolding fill
new_pool (pos size) h = creation (
    fill size (record {
      conns = record { capacity = size; buffer = []; is_shut = false };
      pool_size = size;
      heap = h;
    }))
new_pool (negsuc n) h = out_of_range

pub data Getting : Type 0 where
  got : ℕ → Pool → Getting
  waits : Getting  -- until a connection comes, or the time is over: an error
  nil_dereference : Getting  -- `conn.ID` of nil panics

abbrev getting : Pool → Receiving → Getting
getting p (received conn c) = got conn (record p { conns = c })
getting p zero_value = nil_dereference
getting p nothing = waits

-- `Get`
pub get_conn : Pool → Getting
unfolding receive
get_conn p = getting p (receive p.conns)

pub data Releasing : Type 0 where
  released : Pool → Releasing
  blocks : Releasing
  panics : Releasing

abbrev releasing : Pool → Sending → Releasing
releasing p (sent c) = released (record p { conns = c })
releasing p full = blocks
releasing p send_on_closed = panics

-- `Release`
pub release_conn : ℕ → Pool → Releasing
unfolding send
release_conn conn p = releasing p (send conn p.conns)

-- `for conn := range p.conns` of a closed channel
close_all : List ℕ → Heap → Heap
unfolding close_conn
close_all [] h = h
close_all (conn ∷ rest) h = close_all rest (close_conn conn h)

-- `close(p.conns)`; `none`: closing a closed channel panics
pub shut : Channel → Option Channel
shut c = if c.is_shut then none else some (record c { is_shut = true })

-- `Close`, when no other goroutine receives meanwhile
pub close : Pool → Option Pool
unfolding shut close_all
close p =
    Option.map
      (λ c. record p { conns = record c { buffer = [] }; heap = close_all p.conns.buffer p.heap })
      (shut p.conns)
