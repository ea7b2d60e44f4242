-- ===== src/EventLoop/Selectors.antt =====
-- `run_selectors_server` of 04a-select-vs-epoll.py. A selector is the list of its keys: each socket
-- with the `data` it was registered with.
use the_grind.Prelude.{ℕ, ◌+◌, ◌-◌, Option, none, some, List, [], ◌∷◌, ◌++◌, ◌==◌, if◌then◌else◌}
use mathlib.Core.Option
use the_grind.EventLoop.{
  Codec, Ready, Round, Fate, answered, gone, uncaught, converse, Run, ok, died, for_each,
  while_time,
}

-- The `data` of a key: "server", or the address of the client.
pub data Tag : Type 0 where
  server_tag : Tag
  address : ℕ → Tag

abbrev pub Keys : Type 0
Keys = List (ℕ × Tag)

pub record Server : Type 0 where
  pub keys : Keys
  pub total_select_calls : ℕ
  pub registered_count : ℕ
  pub echoes : List (ℕ × List ℕ)
  pub closed : List ℕ

unfoldable pub init : ℕ → Server
init server = record {
  keys = (server, server_tag) ∷ [];
  total_select_calls = 0;
  registered_count = 1;
  echoes = [];
  closed = [];
}

-- The `data` that a socket is registered with.
unfoldable pub tag_of : ℕ → Keys → Option Tag
tag_of sock [] = none
tag_of sock ((x, t) ∷ ks) = if x == sock then some t else tag_of sock ks

-- `sel.unregister(sock)`; `none` is KeyError
unfoldable pub unregister : ℕ → Keys → Option Keys
unregister sock [] = none
unregister sock ((x, t) ∷ ks) =
    if x == sock then some ks else Option.map (◌∷◌ (x, t)) (unregister sock ks)

-- `sel.register(client, EVENT_READ, data=addr)`; `none` is KeyError: the socket is registered
unfoldable register : ℕ → Tag → Keys → Option Keys
unfolding tag_of
register sock t ks = elim (tag_of sock ks) [ none ↦ some (ks ++ (sock, t) ∷ []) | some old ↦ none ]

unfoldable pub drop_socket : ℕ → Server → Run Server
unfolding unregister
drop_socket sock s = elim (unregister sock s.keys) [
  | none ↦ died s
  | some left ↦ ok (record s {
    keys = left;
    registered_count = s.registered_count - 1;
    closed = s.closed ++ sock ∷ [];
  })
]

unfoldable pub settle : ℕ → Fate → Server → Run Server
unfolding drop_socket
settle sock (answered answer) s = ok (record s { echoes = s.echoes ++ (sock, answer) ∷ [] })
settle sock gone s = drop_socket sock s
settle sock uncaught s = died s

unfoldable pub welcome : Option (ℕ × ℕ) → Server → Run Server
unfolding register
welcome none s = died s
welcome (some (client, addr)) s = elim (register client (address addr) s.keys) [
  | none ↦ died s
  | some ks ↦ ok (record s { keys = ks; registered_count = s.registered_count + 1 })
]

-- The body of the inner loop, which goes by the `data` of the socket's key. A selector returns only
-- keys that it has.
unfoldable pub handle : Codec → Ready → Server → Run Server
unfolding converse settle welcome tag_of
handle codec r s = elim (tag_of r.sock s.keys) [
  | none ↦ died s
  | some server_tag ↦ welcome r.accepted s
  | some (address addr) ↦ settle r.sock (converse codec r.received) s
]

unfoldable pub turn : Codec → Round → Server → Run Server
unfolding handle for_each
turn codec r s =
    for_each (handle codec) r.ready (record s { total_select_calls = s.total_select_calls + 1 })

-- `sel.close()` and `server.close()`
abbrev pub cleanup : ℕ → Run Server → Run Server
cleanup server (ok s) = ok (record s { keys = []; closed = s.closed ++ server ∷ [] })
cleanup server (died s) = died s

unfoldable pub run_selectors_server : Codec → ℕ → ℕ → ℕ → List Round → Run Server
unfolding turn while_time init
run_selectors_server codec server start duration rounds =
    cleanup server (while_time (turn codec) start duration rounds (init server))
