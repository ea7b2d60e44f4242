-- ===== src/EventLoop.antt =====
-- python-deep-dive/04a-select-vs-epoll.py: two echo servers, one over `select` and one over
-- `selectors`. What the operating system does (which sockets are ready, what `accept`, `recv` and
-- `sendall` give) is the input; the states, the echoes and the closed sockets are the output.
pub mod Select
pub mod Selectors
pub mod Sockets
pub mod Simulation
pub mod Agreement
pub mod Cleanup
pub mod Clients
pub mod Echoes
pub mod Answers
pub mod Main
mod Tests
use the_grind.Prelude.{
  ℕ, ◌+◌, Bool, true, false, Option, none, some, List, [], ◌∷◌, ◌++◌, reverse, ◌==◌, ltb,
  if◌then◌else◌,
}
use mathlib.Core.Option

-- `bytes.decode` (`none` is UnicodeDecodeError), `str.encode`, and the white space of `str.strip`
pub record Codec : Type 0 where
  pub decode : List ℕ → Option (List ℕ)
  pub encode : List ℕ → List ℕ
  pub is_space : ℕ → Bool

pub data Sending : Type 0 where
  sent_all : Sending
  send_reset : Sending  -- ConnectionResetError or BrokenPipeError
  send_error : Sending  -- any other exception

pub data Receiving : Type 0 where
  got : List ℕ → Sending → Receiving  -- the bytes, and what `sendall` of the answer gives
  recv_reset : Receiving
  recv_error : Receiving

-- A ready socket, what `accept` gives if it is the server's (a socket with its address, or an
-- exception), and what `recv` gives otherwise.
pub record Ready : Type 0 where
  pub sock : ℕ
  pub accepted : Option (ℕ × ℕ)
  pub received : Receiving

-- A turn of the `while` loop: the time of its test, and what the selection returns.
pub record Round : Type 0 where
  pub now : ℕ
  pub ready : List Ready

-- What comes of the `try` block for an existing client.
pub data Fate : Type 0 where
  answered : List ℕ → Fate
  gone : Fate  -- disconnected, or reset: the socket is dropped
  uncaught : Fate  -- the exception leaves the server's function

skip_spaces : (ℕ → Bool) → List ℕ → List ℕ
skip_spaces is_space [] = []
skip_spaces is_space (c ∷ cs) = if is_space c then skip_spaces is_space cs else c ∷ cs

pub strip : (ℕ → Bool) → List ℕ → List ℕ
unfolding skip_spaces
strip is_space text = reverse (skip_spaces is_space (reverse (skip_spaces is_space text)))

-- "echo: " and the newline
pub echo : List ℕ → List ℕ
echo msg = 101 ∷ 99 ∷ 104 ∷ 111 ∷ 58 ∷ 32 ∷ (msg ++ 10 ∷ [])

abbrev pub fate_of_sending : List ℕ → Sending → Fate
fate_of_sending answer sent_all = answered answer
fate_of_sending answer send_reset = gone
fate_of_sending answer send_error = uncaught

abbrev fate_of_text : Codec → Option (List ℕ) → Sending → Fate
unfolding strip echo
fate_of_text codec none sending = uncaught
fate_of_text codec (some text) sending =
    fate_of_sending (codec.encode (echo (strip codec.is_space text))) sending

-- The `try` block of both servers.
pub converse : Codec → Receiving → Fate
unfolding fate_of_text
converse codec (got [] sending) = gone
converse codec (got (b ∷ bs) sending) = fate_of_text codec (codec.decode (b ∷ bs)) sending
converse codec recv_reset = gone
converse codec recv_error = uncaught

-- The run of a server's loop; `died`: an exception has left the function, with no cleanup.
pub data Run {ℓ} (S : Type ℓ) : Type ℓ where
  ok : S → Run S
  died : S → Run S

-- `for ... in readable`
pub for_each {ℓ} : {S : Type ℓ} → (Ready → S → Run S) → List Ready → S → Run S
for_each body [] s = ok s
for_each body (r ∷ rs) s = elim (body r s) [ ok t ↦ for_each body rs t | died t ↦ died t ]

-- `while time.time() - start < duration`, for the given rounds
pub while_time {ℓ} : {S : Type ℓ} → (Round → S → Run S) → ℕ → ℕ → List Round → S → Run S
while_time body start duration [] s = ok s
while_time body start duration (r ∷ rs) s =
    let go_on : Run _ = elim (body r s) [
      | ok t ↦ while_time body start duration rs t
      | died t ↦ died t
    ] in
    if ltb r.now (start + duration) then go_on else ok s
