-- ===== src/EventLoop/Clients.antt =====
-- `run_test_clients` of 04a-select-vs-epoll.py, and the answers that the clients get from the
-- `select` server.
use the_grind.Prelude.{
  ℕ, zero, suc, ◌≡◌, ◌≢◌, refl, ap, sym, ◌∙◌, Bool, true, false, Option, none, some, List, [], ◌∷◌,
  ◌++◌, reverse, if◌then◌else◌, arith, append_assoc,
}
use mathlib.Core.List.{
  append_cancel_left, append_cancel_right, reverse-append, reverse-cons, reverse-reverse,
}
use the_grind.Text.{codes, decimal, decimal-injective, is_ascii, is_ascii-append, is_ascii-decimal}
use the_grind.EventLoop.{Codec, got, Sending, fate_of_sending, converse, skip_spaces, strip, echo}

-- f"Hello from client {client_id} to {server_label}"
unfoldable pub greeting : ℕ → List ℕ → List ℕ
greeting client_id server_label =
    codes "Hello from client " ++ (decimal client_id ++ (codes " to " ++ server_label))

-- f"{msg}\n".encode()
abbrev pub message : Codec → List ℕ → ℕ → List ℕ
message codec server_label client_id = codec.encode (greeting client_id server_label ++ 10 ∷ [])

pub data Visit : Type 0 where
  visited : List ℕ → List ℕ → Visit  -- what it sent, and the response
  refused : Visit  -- ConnectionRefusedError
  reset : List ℕ → Visit  -- what it sent, and then ConnectionResetError, which nothing catches

abbrev after_recv : List ℕ → Option (List ℕ) → Visit
after_recv sent none = reset sent
after_recv sent (some response) = visited sent response

-- `client_task(client_id)`: whether `connect` succeeds, and what `recv` gives (`none`:
-- ConnectionResetError), are arguments.
unfoldable pub client_task : Codec → List ℕ → ℕ → Bool → Option (List ℕ) → Visit
unfolding greeting
client_task codec server_label client_id connects response =
    if connects then after_recv (message codec server_label client_id) response else refused

-- The visits of the clients 0, …, num_clients - 1, whose threads are all joined.
unfoldable pub run_test_clients :
    Codec → List ℕ → (ℕ → Bool) → (ℕ → Option (List ℕ)) → ℕ → List Visit
unfolding client_task
run_test_clients codec server_label connects response zero = []
run_test_clients codec server_label connects response (suc n) =
    run_test_clients codec server_label connects response n
    ++ client_task codec server_label n (connects n) (response n) ∷ []

-- `decode` gives back an ASCII text that `encode` took, and the label is one. Its last character is
-- not white space, and neither is an `H`, but a newline is.
pub record IsPlain (codec : Codec) (server_label : List ℕ) : Type 0 where
  pub decode-encode :
      (text : List ℕ) → is_ascii text ≡ true → codec.decode (codec.encode text) ≡ some text
  pub decode_nothing : codec.decode [] ≡ some []
  pub newline : codec.is_space 10 ≡ true
  pub capital : codec.is_space 72 ≡ false
  pub label : is_ascii server_label ≡ true
  pub front : List ℕ
  pub last : ℕ
  pub ends : server_label ≡ front ++ last ∷ []
  pub visible : codec.is_space last ≡ false

-- A text whose last character is visible loses nothing but the newline behind it.
trim_newline :
    (is_space : ℕ → Bool) (front : List ℕ) (last newline : ℕ)
    → is_space newline ≡ true
    → is_space last ≡ false
    → reverse (skip_spaces is_space (reverse ((front ++ last ∷ []) ++ newline ∷ [])))
      ≡ front ++ last ∷ []
unfolding skip_spaces
trim_newline is_space front last newline white visible =
    rw
      (
        reverse-append (front ++ last ∷ []) (newline ∷ []),
        reverse-append front (last ∷ []),
        white,
        visible,
      )
      (reverse-cons last (reverse front)
        ∙ ap (λ (l : List ℕ). l ++ last ∷ []) (reverse-reverse front))

module _ (codec : Codec) (server_label : List ℕ) (plain : IsPlain codec server_label) where
  open plain use {
    decode-encode, decode_nothing, newline, capital, label, front, last, ends, visible,
  }

  pub encode-injective :
      (x y : List ℕ)
      → is_ascii x ≡ true
      → is_ascii y ≡ true
      → codec.encode x ≡ codec.encode y
      → x ≡ y
  encode-injective x y a b e =
      let same : some x ≡ some y =
        sym (decode-encode x a) ∙ ap codec.decode e ∙ decode-encode y b in
      cc

  is_ascii-greeting : (i : ℕ) → is_ascii (greeting i server_label) ≡ true
  unfolding greeting is_ascii
  is_ascii-greeting i =
      is_ascii-append (codes "Hello from client ") (decimal i ++ (codes " to " ++ server_label))
        refl
        (is_ascii-append (decimal i) (codes " to " ++ server_label) (is_ascii-decimal i)
          (is_ascii-append (codes " to ") server_label refl label))

  is_ascii-line : (i : ℕ) → is_ascii (greeting i server_label ++ 10 ∷ []) ≡ true
  is_ascii-line i =
      is_ascii-append (greeting i server_label) (10 ∷ []) (is_ascii-greeting i)
        (unfold is_ascii in refl)

  pub is_ascii-echo : (i : ℕ) → is_ascii (echo (greeting i server_label)) ≡ true
  unfolding echo is_ascii
  is_ascii-echo i = is_ascii-line i

  greeting_ends :
      (i : ℕ)
      → greeting i server_label
        ≡ (codes "Hello from client " ++ (decimal i ++ (codes " to " ++ front))) ++ last ∷ []
  unfolding greeting
  greeting_ends i = rw ends (
      sym (
        append_assoc (codes "Hello from client ") (decimal i ++ (codes " to " ++ front)) (last ∷ [])
        ∙ ap (λ (l : List ℕ). codes "Hello from client " ++ l)
            (append_assoc (decimal i) (codes " to " ++ front) (last ∷ []))))

  skip_spaces-greeting :
      (i : ℕ)
      → skip_spaces codec.is_space (greeting i server_label ++ 10 ∷ [])
        ≡ greeting i server_label ++ 10 ∷ []
  unfolding skip_spaces greeting
  skip_spaces-greeting i = rw capital refl

  -- The server's `strip` takes the newline off, and nothing else.
  strip-greeting :
      (i : ℕ) → strip codec.is_space (greeting i server_label ++ 10 ∷ []) ≡ greeting i server_label
  unfolding strip
  strip-greeting i =
      ap (λ (l : List ℕ). reverse (skip_spaces codec.is_space (reverse l))) (skip_spaces-greeting i)
      ∙ (rw (greeting_ends i) (
          trim_newline codec.is_space
            (codes "Hello from client " ++ (decimal i ++ (codes " to " ++ front))) last 10 newline
            visible))

  greeting_not_empty : (i : ℕ) → some [] ≢ some (greeting i server_label ++ 10 ∷ [])
  unfolding greeting
  greeting_not_empty i e = ground arith

  -- The server's answer to the bytes of a greeting.
  pub converse-greeting :
      (i : ℕ) (sending : Sending)
      → converse codec (got (codec.encode (greeting i server_label ++ 10 ∷ [])) sending)
        ≡ fate_of_sending (codec.encode (echo (greeting i server_label))) sending
  unfolding converse
  converse-greeting i sending =
      by_bytes (codec.encode (greeting i server_label ++ 10 ∷ []))
        (decode-encode (greeting i server_label ++ 10 ∷ []) (is_ascii-line i))
    where
      by_bytes :
          (bytes : List ℕ)
          → codec.decode bytes ≡ some (greeting i server_label ++ 10 ∷ [])
          → converse codec (got bytes sending)
            ≡ fate_of_sending (codec.encode (echo (greeting i server_label))) sending
      by_bytes [] e = absurd (greeting_not_empty i (sym decode_nothing ∙ e))
      by_bytes (b ∷ bs) e = rw (e, strip-greeting i) refl

-- The echo of a greeting tells which client sent it.
pub echo-greeting-injective :
    (server_label : List ℕ) (i j : ℕ)
    → echo (greeting i server_label) ≡ echo (greeting j server_label)
    → i ≡ j
unfolding echo greeting
echo-greeting-injective server_label i j e =
    let msgs = append_cancel_left (codes "echo: ") _ _ e in
    let greetings = append_cancel_right _ _ (10 ∷ []) msgs in
    let numbers = append_cancel_left (codes "Hello from client ") _ _ greetings in
    decimal-injective i j (append_cancel_right _ _ (codes " to " ++ server_label) numbers)
