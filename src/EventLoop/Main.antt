-- ===== src/EventLoop/Main.antt =====
-- `main` of 04a-select-vs-epoll.py: each server with its five test clients, the one after the
-- other.
pub mod Served
use the_grind.Prelude.{
  ℕ, zero, suc, ◌+◌, ◌<◌, ◌≡◌, refl, ap, sym, ◌∙◌, Bool, true, Option, some, false, List, [], ◌∷◌,
  ◌++◌, ◌==◌, All, if◌then◌else◌, Bool-cases, inl, inr, count_if, arith, ltb, All-append, length,
  ◌≤◌, min,
}
use mathlib.Core.Option
use mathlib.Core.Path.{ap₂}
use the_grind.Text.{codes}
use the_grind.EventLoop.{Codec, Ready, Round, echo, Run, ok, died, while_time}
use the_grind.EventLoop.Select
use the_grind.EventLoop.Selectors
use the_grind.EventLoop.Clients.{
  greeting, message, Visit, visited, refused, client_task, run_test_clients, IsPlain,
}
use the_grind.EventLoop.Echoes.{RoundsFromClients}
use the_grind.EventLoop.Simulation.{SameRun}
use the_grind.EventLoop.Agreement.{RoundsOffered, servers_agree}
use the_grind.EventLoop.Answers.{
  is_heard, answers, answers_in_time, own_echo, echoes-eq-answers_in_time,
}

-- The bytes that are sent to a socket.
unfoldable bytes_to : ℕ → List (ℕ × List ℕ) → List ℕ
bytes_to sock [] = []
bytes_to sock ((c, answer) ∷ echoes) =
    let rest = bytes_to sock echoes in if c == sock then answer ++ rest else rest

unfoldable take : ℕ → List ℕ → List ℕ
take zero bs = []
take (suc n) [] = []
take (suc n) (b ∷ bs) = b ∷ take n bs

-- `sock.recv(1024)`, when so many bytes have arrived, or all that are sent; `none`:
-- ConnectionResetError. No bytes: the connection is closed.
unfoldable response_of : List (ℕ × List ℕ) → ℕ → Option ℕ → Option (List ℕ)
unfolding bytes_to take
response_of echoes sock arrived = Option.map (λ n. take (min 1024 n) (bytes_to sock echoes)) arrived

-- What the operating system makes of one test: the listening socket, the time, what each turn of
-- the server reports, whether each client's `connect` succeeds, the server's socket for each
-- client, and how many bytes have arrived when a client's `recv` returns, unless it raises
-- ConnectionResetError.
pub record Test : Type 0 where
  pub server : ℕ
  pub start : ℕ
  pub rounds : List Round
  pub connects : ℕ → Bool
  pub sock_of : ℕ → ℕ
  pub arrived : ℕ → Option ℕ

-- Test 1, with port 9001
unfoldable select_test : Codec → Test → List Visit
unfolding Select.run_select_server run_test_clients response_of
select_test codec t = elim (Select.run_select_server codec t.server t.start 4 t.rounds) [
  | ok end ↦
      run_test_clients codec (codes "SELECT") t.connects
        (λ i. response_of end.echoes (t.sock_of i) (t.arrived i)) 5
  | died end ↦
      run_test_clients codec (codes "SELECT") t.connects
        (λ i. response_of end.echoes (t.sock_of i) (t.arrived i)) 5
]

-- Test 2, with port 9002
unfoldable selectors_test : Codec → Test → List Visit
unfolding Selectors.run_selectors_server run_test_clients response_of
selectors_test codec t = elim (Selectors.run_selectors_server codec t.server t.start 4 t.rounds) [
  | ok end ↦
      run_test_clients codec (codes "SELECTOR") t.connects
        (λ i. response_of end.echoes (t.sock_of i) (t.arrived i)) 5
  | died end ↦
      run_test_clients codec (codes "SELECTOR") t.connects
        (λ i. response_of end.echoes (t.sock_of i) (t.arrived i)) 5
]

pub main : Codec → Test → Test → List Visit × List Visit
unfolding select_test selectors_test
main codec first second = (select_test codec first, selectors_test codec second)

-- How a client's visit goes when it is answered.
abbrev pub served : Codec → List ℕ → (ℕ → Bool) → ℕ → List Visit
served codec server_label connects zero = []
served codec server_label connects (suc n) =
    served codec server_label connects n
    ++ (if connects n
        then visited (message codec server_label n) (codec.encode (echo (greeting n server_label)))
        else refused)
      ∷ []

abbrev pub sent_to : ℕ → ℕ × List ℕ → Bool
sent_to sock (c, answer) = c == sock

module _ (codec : Codec) (server_label : List ℕ) (client_of : ℕ → ℕ) where
  -- The server's messages are its clients', and each client that connects is heard in time, and its
  -- answer, of 1024 bytes at most, has arrived when its `recv` returns, and nothing else has.
  pub record IsHeard (t : Test) : Type 0 where
    pub from_clients : RoundsFromClients codec server_label client_of t.rounds
    pub owner : (i : ℕ) → client_of (t.sock_of i) ≡ i
    pub heard :
        (i : ℕ)
        → i < 5
        → t.connects i ≡ true
        → 0
          < count_if
              (sent_to (t.sock_of i))
              (answers_in_time codec server_label client_of t.server t.start 4 t.rounds)
    pub whole :
        (i : ℕ)
        → i < 5
        → t.connects i ≡ true
        → (t.arrived i ≡ some (length (codec.encode (echo (greeting i server_label)))))
          × (length (codec.encode (echo (greeting i server_label))) ≤ 1024)
