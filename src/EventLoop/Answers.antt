-- ===== src/EventLoop/Answers.antt =====
-- Which messages the `select` server of 04a-select-vs-epoll.py answers: all that it reads in time.
use the_grind.Prelude.{
  ℕ, ◌+◌, ◌≡◌, refl, ap, sym, ◌∙◌, inl, inr, Bool, true, false, Option, none, some, List, [], ◌∷◌,
  ◌++◌, ◌==◌, ltb, All, if◌then◌else◌, Bool-cases, Option-cases, append-nil, append_assoc, arith,
}
use the_grind.EventLoop.{
  Codec, Ready, Round, Receiving, got, recv_reset, recv_error, Sending, sent_all, send_reset,
  send_error, fate_of_sending, converse, echo, Run, ok, died, for_each, while_time,
}
use the_grind.EventLoop.Select
use the_grind.EventLoop.Clients.{greeting, IsPlain, converse-greeting}
use the_grind.EventLoop.Echoes.{FromClients, RoundsFromClients}

-- A message has come and its answer can be sent.
abbrev pub is_heard : Receiving → Bool
is_heard (got [] sending) = false
is_heard (got (b ∷ bs) sent_all) = true
is_heard (got (b ∷ bs) send_reset) = false
is_heard (got (b ∷ bs) send_error) = false
is_heard recv_reset = false
is_heard recv_error = false

module _ (codec : Codec) (server_label : List ℕ) (client_of : ℕ → ℕ) where
  abbrev pub own_echo : ℕ → List ℕ
  own_echo sock = codec.encode (echo (greeting (client_of sock) server_label))

  -- The answers to the messages of one turn, and to those of all turns in time.
  unfoldable pub answers : ℕ → List Ready → List (ℕ × List ℕ)
  answers server [] = []
  answers server (r ∷ rs) =
      if r.sock == server
      then answers server rs
      else if is_heard r.received
      then (r.sock, own_echo r.sock) ∷ answers server rs
      else answers server rs

  unfoldable pub answers_in_time : ℕ → ℕ → ℕ → List Round → List (ℕ × List ℕ)
  answers_in_time server start duration [] = []
  answers_in_time server start duration (r ∷ rs) =
      let later = answers_in_time server start duration rs in
      if ltb r.now (start + duration) then answers server r.ready ++ later else []

  -- A run that went on has added these echoes.
  abbrev Adds : Select.Server → List (ℕ × List ℕ) → Run Select.Server → Type 0
  Adds s added (ok t) = t.echoes ≡ s.echoes ++ added
  Adds s added (died t) = Unit

  abbrev answer : Ready → List (ℕ × List ℕ)
  answer r = if is_heard r.received then (r.sock, own_echo r.sock) ∷ [] else []

  module _ (plain : IsPlain codec server_label) where
    drop-Adds : (sock : ℕ) (s : Select.Server) → Adds s [] (Select.drop_socket sock s)
    unfolding Select.drop_socket
    drop-Adds sock s = elim (Option-cases (Select.remove sock s.all_sockets)) [
      | inl e ↦ rw (e, Adds, Select.drop_socket) tt
      | inr (left, e) ↦ rw (e, Adds, Select.drop_socket) (sym (append-nil s.echoes))
    ]

    heard-Adds :
        (sock b : ℕ) (bs : List ℕ) (sending : Sending) (s : Select.Server)
        → Adds s
            (if is_heard (got (b ∷ bs) sending) then (sock, own_echo sock) ∷ [] else [])
            (Select.settle sock (fate_of_sending (own_echo sock) sending) s)
    unfolding Select.settle
    heard-Adds sock b bs sent_all s = refl
    heard-Adds sock b bs send_reset s = drop-Adds sock s
    heard-Adds sock b bs send_error s = tt

    settle-Adds :
        (sock : ℕ) (received : Receiving) (s : Select.Server)
        → FromClients codec server_label client_of sock received
        → Adds s
            (if is_heard received then (sock, own_echo sock) ∷ [] else [])
            (Select.settle sock (converse codec received) s)
    settle-Adds sock (got [] sending) s h = unfold converse Select.settle in (drop-Adds sock s)
    settle-Adds sock (got (b ∷ bs) sending) s (inr e) = absurd (ground arith)
    settle-Adds sock (got (b ∷ bs) sending) s (inl e) =
        let fate : converse codec (got (b ∷ bs) sending) ≡ fate_of_sending (own_echo sock) sending =
          ap (λ (l : List ℕ). converse codec (got l sending)) e
          ∙ converse-greeting codec server_label plain (client_of sock) sending in
        rw fate (heard-Adds sock b bs sending s)
    settle-Adds sock recv_reset s h = unfold converse Select.settle in (drop-Adds sock s)
    settle-Adds sock recv_error s h = unfold converse Select.settle in tt

    welcome-Adds : (o : Option (ℕ × ℕ)) (s : Select.Server) → Adds s [] (Select.welcome o s)
    unfolding Select.welcome
    welcome-Adds none s = tt
    welcome-Adds (some (client, addr)) s = sym (append-nil s.echoes)

    handle-Adds :
        (server : ℕ) (r : Ready) (s : Select.Server)
        → FromClients codec server_label client_of r.sock r.received
        → Adds s (answers server (r ∷ [])) (Select.handle codec server r s)
    unfolding Select.handle answers
    handle-Adds server r s h = elim (Bool-cases (r.sock == server)) [
      | inl e ↦ rw e (welcome-Adds r.accepted s)
      | inr e ↦ rw e (settle-Adds r.sock r.received s h)
    ]

    -- Two stretches of a run, one after the other.
    Adds-on :
        (f : Select.Server → Run Select.Server) (s : Select.Server) (here later : List (ℕ × List ℕ))
        → ((t : Select.Server) → Adds t later (f t))
        → (x : Run Select.Server) → Adds s here x
        → Adds s (here ++ later) (elim x [ ok t ↦ f t | died t ↦ died t ])
    Adds-on f s here later rec (ok t) h = both (f t) (rec t)
      where
        both : (y : Run Select.Server) → Adds t later y → Adds s (here ++ later) y
        both (ok u) e =
            e ∙ ap (λ (l : List (ℕ × List ℕ)). l ++ later) h ∙ append_assoc s.echoes here later
        both (died u) e = tt
    Adds-on f s here later rec (died t) h = tt

    answers-cons :
        (server : ℕ) (r : Ready) (rs : List Ready)
        → answers server (r ∷ rs) ≡ answers server (r ∷ []) ++ answers server rs
    unfolding answers
    answers-cons server r rs = elim (Bool-cases (r.sock == server)) [
      | inl e ↦ rw e refl
      | inr e ↦ elim (Bool-cases (is_heard r.received)) [
        | inl h ↦ rw (e, h) refl
        | inr h ↦ rw (e, h) refl
      ]
    ]

    for_each-Adds :
        (server : ℕ) (rs : List Ready) (s : Select.Server)
        → All (λ (x : Ready). FromClients codec server_label client_of x.sock x.received) rs
        → Adds s (answers server rs) (for_each (Select.handle codec server) rs s)
    unfolding for_each
    for_each-Adds server [] s h = unfold answers in (sym (append-nil s.echoes))
    for_each-Adds server (r ∷ rs) s (here, rest) = rw (answers-cons server r rs) (
        Adds-on (for_each (Select.handle codec server) rs) s (answers server (r ∷ []))
          (answers server rs) (λ t. for_each-Adds server rs t rest) (Select.handle codec server r s)
          (handle-Adds server r s here))

    loop-Adds :
        (server start duration : ℕ) (rounds : List Round) (s : Select.Server)
        → RoundsFromClients codec server_label client_of rounds
        → Adds s
            (answers_in_time server start duration rounds)
            (while_time (Select.turn codec server) start duration rounds s)
    unfolding while_time Select.turn answers_in_time
    loop-Adds server start duration [] s h = sym (append-nil s.echoes)
    loop-Adds server start duration (r ∷ rs) s (here, rest) =
        elim (Bool-cases (ltb r.now (start + duration))) [
          | inl e ↦ rw e (
              Adds-on (while_time (Select.turn codec server) start duration rs) s
                (answers server r.ready) (answers_in_time server start duration rs)
                (λ t. loop-Adds server start duration rs t rest) (Select.turn codec server r s)
                (for_each-Adds server r.ready _ here))
          | inr e ↦ rw e (sym (append-nil s.echoes))
        ]

    -- In a run of the `select` server to its end whose sockets get what the test clients send,
    -- each message in one `recv`, the echoes sent are exactly one for each message that is read in
    -- time and whose answer can be sent, in the order of reading: the echo of the greeting of the
    -- socket's client. The label is ASCII with a visible last character, and `decode` gives
    -- back an ASCII text that `encode` took.
    pub echoes-eq-answers_in_time :
        (server start duration : ℕ) (rounds : List Round) (end : Select.Server)
        → RoundsFromClients codec server_label client_of rounds
        → Select.run_select_server codec server start duration rounds ≡ ok end
        → end.echoes ≡ answers_in_time server start duration rounds
    unfolding Select.run_select_server Select.init
    echoes-eq-answers_in_time server start duration rounds end h e =
        cleaned (while_time (Select.turn codec server) start duration rounds (Select.init server)) e
          (loop-Adds server start duration rounds (Select.init server) h)
      where
        cleaned :
            (x : Run Select.Server)
            → Select.cleanup x ≡ ok end
            → Adds (Select.init server) (answers_in_time server start duration rounds) x
            → end.echoes ≡ answers_in_time server start duration rounds
        cleaned (ok t) e h =
            let it : record t { closed = t.closed ++ t.all_sockets } ≡ end = cc in
            sym (ap (λ (u : Select.Server). u.echoes) it) ∙ h
        cleaned (died t) e h = absurd (ground arith)
