-- ===== src/EventLoop/Echoes.antt =====
-- The echoes that the `select` server of 04a-select-vs-epoll.py sends to the test clients.
use the_grind.Prelude.{
  ℕ, ◌+◌, ◌≡◌, refl, sym, ◌⊎◌, inl, inr, Option, none, some, List, [], ◌∷◌, ◌==◌, ltb, All,
  All-append, Bool-cases, Option-cases,
}
use the_grind.EventLoop.{
  Codec, Ready, Round, Receiving, got, recv_reset, recv_error, Sending, sent_all, send_reset,
  send_error, Fate, fate_of_sending, answered, gone, uncaught, converse, echo, Run, ok, died,
  for_each, while_time,
}
use the_grind.EventLoop.Select
use the_grind.EventLoop.Clients.{
  greeting, message, IsPlain, converse-greeting, encode-injective, is_ascii-echo,
  echo-greeting-injective,
}

-- What the clients do to the server's sockets: a message is that of the socket's client, all of it
-- in one `recv`, and then the client closes the socket. `client_of` names the client of a socket.
abbrev pub FromClients : Codec → List ℕ → (ℕ → ℕ) → ℕ → Receiving → Type 0
FromClients codec server_label client_of sock (got bytes sending) =
    (bytes ≡ message codec server_label (client_of sock)) ⊎ (bytes ≡ [])
FromClients codec server_label client_of sock recv_reset = Unit
FromClients codec server_label client_of sock recv_error = Unit

abbrev pub RoundsFromClients : Codec → List ℕ → (ℕ → ℕ) → List Round → Type 0
RoundsFromClients codec server_label client_of = All (λ (r : Round).
    All (λ (x : Ready). FromClients codec server_label client_of x.sock x.received) r.ready)

module _ (codec : Codec) (server_label : List ℕ) (client_of : ℕ → ℕ) where
  -- An echo that went to a socket is that of its client's greeting, and of no other client's.
  abbrev OwnEcho : ℕ × List ℕ → Type 0
  OwnEcho (sock, answer) =
      (answer ≡ codec.encode (echo (greeting (client_of sock) server_label)))
      × ((other : ℕ)
          → answer ≡ codec.encode (echo (greeting other server_label))
          → other ≡ client_of sock)

  abbrev Own : Run Select.Server → Type 0
  Own (ok s) = All OwnEcho s.echoes
  Own (died s) = All OwnEcho s.echoes

  OwnFate : ℕ → Fate → Type 0
  OwnFate sock (answered answer) = OwnEcho (sock, answer)
  OwnFate sock gone = Unit
  OwnFate sock uncaught = Unit

  module _ (plain : IsPlain codec server_label) where
    echo_is_own :
        (sock : ℕ) → OwnEcho (sock, codec.encode (echo (greeting (client_of sock) server_label)))
    echo_is_own sock = (
      refl,
      λ other e. echo-greeting-injective server_label other (client_of sock) (
          encode-injective codec server_label plain _ _
            (is_ascii-echo codec server_label plain other)
            (is_ascii-echo codec server_label plain (client_of sock)) (sym e)),
    )

    converse-OwnFate :
        (sock : ℕ) (received : Receiving)
        → FromClients codec server_label client_of sock received
        → OwnFate sock (converse codec received)
    unfolding converse OwnFate
    converse-OwnFate sock (got bytes sending) (inl e) =
        rw (e, converse-greeting codec server_label plain (client_of sock) sending) (sent sending)
      where
        sent :
            (sending : Sending)
            → OwnFate sock (
                fate_of_sending
                  (codec.encode (echo (greeting (client_of sock) server_label)))
                  sending)
        sent sent_all = echo_is_own sock
        sent send_reset = tt
        sent send_error = tt
    converse-OwnFate sock (got bytes sending) (inr e) = rw e tt
    converse-OwnFate sock recv_reset h = tt
    converse-OwnFate sock recv_error h = tt

    settle-Own :
        (sock : ℕ) (f : Fate) (s : Select.Server)
        → OwnFate sock f
        → All OwnEcho s.echoes
        → Own (Select.settle sock f s)
    unfolding Select.settle Select.drop_socket OwnFate
    settle-Own sock (answered answer) s h own =
        All-append OwnEcho s.echoes ((sock, answer) ∷ []) own (h, tt)
    settle-Own sock gone s h own = elim (Option-cases (Select.remove sock s.all_sockets)) [
      | inl e ↦ rw (e, Own, Select.settle, Select.drop_socket) own
      | inr (left, e) ↦ rw (e, Own, Select.settle, Select.drop_socket) own
    ]
    settle-Own sock uncaught s h own = own

    welcome-Own :
        (o : Option (ℕ × ℕ)) (s : Select.Server) → All OwnEcho s.echoes → Own (Select.welcome o s)
    unfolding Select.welcome
    welcome-Own none s own = own
    welcome-Own (some (client, addr)) s own = own

    handle-Own :
        (server : ℕ) (r : Ready) (s : Select.Server)
        → FromClients codec server_label client_of r.sock r.received
        → All OwnEcho s.echoes
        → Own (Select.handle codec server r s)
    unfolding Select.handle
    handle-Own server r s h own = elim (Bool-cases (r.sock == server)) [
      | inl e ↦ rw e (welcome-Own r.accepted s own)
      | inr e ↦ rw e (
          settle-Own r.sock (converse codec r.received) s (converse-OwnFate r.sock r.received h)
            own)
    ]

    Own-on :
        (f : Select.Server → Run Select.Server)
        → ((t : Select.Server) → All OwnEcho t.echoes → Own (f t))
        → (x : Run Select.Server) → Own x
        → Own (elim x [ ok t ↦ f t | died t ↦ died t ])
    Own-on f rec (ok t) own = rec t own
    Own-on f rec (died t) own = own

    for_each-Own :
        (server : ℕ) (rs : List Ready) (s : Select.Server)
        → All (λ (x : Ready). FromClients codec server_label client_of x.sock x.received) rs
        → All OwnEcho s.echoes
        → Own (for_each (Select.handle codec server) rs s)
    unfolding for_each
    for_each-Own server [] s h own = own
    for_each-Own server (r ∷ rs) s (here, rest) own =
        Own-on (for_each (Select.handle codec server) rs) (λ t. for_each-Own server rs t rest)
          (Select.handle codec server r s) (handle-Own server r s here own)

    loop-Own :
        (server start duration : ℕ) (rounds : List Round) (s : Select.Server)
        → RoundsFromClients codec server_label client_of rounds
        → All OwnEcho s.echoes
        → Own (while_time (Select.turn codec server) start duration rounds s)
    unfolding while_time Select.turn
    loop-Own server start duration [] s h own = own
    loop-Own server start duration (r ∷ rs) s (here, rest) own =
        elim (Bool-cases (ltb r.now (start + duration))) [
          | inl e ↦ rw e (
              Own-on (while_time (Select.turn codec server) start duration rs)
                (λ t. loop-Own server start duration rs t rest) (Select.turn codec server r s)
                (for_each-Own server r.ready _ here own))
          | inr e ↦ rw e own
        ]

    -- In any run of the `select` server whose sockets get what the test clients send, each message
    -- in one `recv`, every echo that the server sends to a socket is the echo of the greeting of
    -- that socket's client, whole and with one newline, and not that of any other client's, also
    -- if an exception ends the server. The label is ASCII with a visible last character, and
    -- `decode` gives back an ASCII text that `encode` took.
    echoes_are-Own :
        (server start duration : ℕ) (rounds : List Round)
        → RoundsFromClients codec server_label client_of rounds
        → Own (Select.run_select_server codec server start duration rounds)
    unfolding Select.run_select_server Select.init
    echoes_are-Own server start duration rounds h =
        cleaned (while_time (Select.turn codec server) start duration rounds (Select.init server))
          (loop-Own server start duration rounds (Select.init server) h tt)
      where
        cleaned : (x : Run Select.Server) → Own x → Own (Select.cleanup x)
        cleaned (ok s) own = own
        cleaned (died s) own = own
