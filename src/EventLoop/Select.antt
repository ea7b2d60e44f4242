-- ===== src/EventLoop/Select.antt =====
-- `run_select_server` of 04a-select-vs-epoll.py.
use the_grind.Prelude.{ℕ, ◌+◌, Option, none, some, List, [], ◌∷◌, ◌++◌, length, ◌==◌, if◌then◌else◌}
use mathlib.Core.Option
use the_grind.EventLoop.{
  Codec, Ready, Round, Fate, answered, gone, uncaught, converse, Run, ok, died, for_each,
  while_time,
}

pub record Server : Type 0 where
  pub all_sockets : List ℕ
  pub total_select_calls : ℕ
  pub total_sockets_checked : ℕ
  pub echoes : List (ℕ × List ℕ)  -- the answers that were sent, with their sockets
  pub closed : List ℕ  -- the sockets that were closed, in order

unfoldable pub init : ℕ → Server
init server = record {
  all_sockets = server ∷ [];
  total_select_calls = 0;
  total_sockets_checked = 0;
  echoes = [];
  closed = [];
}

-- `all_sockets.remove(sock)`; `none` is ValueError
unfoldable pub remove : ℕ → List ℕ → Option (List ℕ)
remove sock [] = none
remove sock (x ∷ xs) = if x == sock then some xs else Option.map (◌∷◌ x) (remove sock xs)

-- `all_sockets.remove(sock)` and `sock.close()`
unfoldable pub drop_socket : ℕ → Server → Run Server
unfolding remove
drop_socket sock s = elim (remove sock s.all_sockets) [
  | none ↦ died s
  | some left ↦ ok (record s { all_sockets = left; closed = s.closed ++ sock ∷ [] })
]

unfoldable pub settle : ℕ → Fate → Server → Run Server
unfolding drop_socket
settle sock (answered answer) s = ok (record s { echoes = s.echoes ++ (sock, answer) ∷ [] })
settle sock gone s = drop_socket sock s
settle sock uncaught s = died s

unfoldable pub welcome : Option (ℕ × ℕ) → Server → Run Server
welcome none s = died s
welcome (some (client, addr)) s = ok (record s { all_sockets = s.all_sockets ++ client ∷ [] })

-- The body of the inner loop.
unfoldable pub handle : Codec → ℕ → Ready → Server → Run Server
unfolding converse settle welcome
handle codec server r s =
    if r.sock == server then welcome r.accepted s else settle r.sock (converse codec r.received) s

-- The body of the outer loop.
unfoldable pub turn : Codec → ℕ → Round → Server → Run Server
unfolding handle for_each
turn codec server r s = for_each (handle codec server) r.ready (record s {
  total_select_calls = s.total_select_calls + 1;
  total_sockets_checked = s.total_sockets_checked + length s.all_sockets;
})

-- `for sock in all_sockets: sock.close()`
abbrev pub cleanup : Run Server → Run Server
cleanup (ok s) = ok (record s { closed = s.closed ++ s.all_sockets })
cleanup (died s) = died s

unfoldable pub run_select_server : Codec → ℕ → ℕ → ℕ → List Round → Run Server
unfolding turn while_time init
run_select_server codec server start duration rounds =
    cleanup (while_time (turn codec server) start duration rounds (init server))
