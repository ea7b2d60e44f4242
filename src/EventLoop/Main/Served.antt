-- ===== src/EventLoop/Main/Served.antt =====
-- How the test clients fare in `main` of 04a-select-vs-epoll.py.
use the_grind.Prelude.{
  ℕ, zero, suc, ◌+◌, ◌<◌, ◌≡◌, refl, ap, sym, ◌∙◌, Bool, true, Option, some, List, [], ◌∷◌, ◌++◌,
  ◌==◌, All, Bool-cases, inl, inr, count_if, arith, ltb, All-append, length, ◌≤◌, min,
}
use mathlib.Core.Path.{ap₂}
use the_grind.Text.{codes}
use the_grind.EventLoop.{Codec, Ready, Round, echo, Run, ok, died, while_time}
use the_grind.EventLoop.Select
use the_grind.EventLoop.Selectors
use the_grind.EventLoop.Clients.{greeting, Visit, client_task, run_test_clients, IsPlain}
use the_grind.EventLoop.Simulation.{SameRun}
use the_grind.EventLoop.Agreement.{RoundsOffered, servers_agree}
use the_grind.EventLoop.Answers.{
  is_heard, answers, answers_in_time, own_echo, echoes-eq-answers_in_time,
}
use the_grind.EventLoop.Main.{
  bytes_to, take, response_of, Test, select_test, selectors_test, main, served, sent_to, IsHeard,
}

take-append : (xs ys : List ℕ) → take (length xs) (xs ++ ys) ≡ xs
unfolding take
take-append [] ys = refl
take-append (x ∷ xs) ys = ap (◌∷◌ x) (take-append xs ys)

module _ (codec : Codec) (server_label : List ℕ) (client_of : ℕ → ℕ) where
  abbrev IsOwn : ℕ × List ℕ → Type 0
  IsOwn (sock, answer) = answer ≡ own_echo codec server_label client_of sock

  -- What is sent to a socket begins with its client's echo.
  own-bytes_to :
      (echoes : List (ℕ × List ℕ)) (sock : ℕ)
      → All IsOwn echoes
      → 0 < count_if (sent_to sock) echoes
      → (rest : List ℕ) × (bytes_to sock echoes
          ≡ own_echo codec server_label client_of sock ++ rest)
  unfolding bytes_to
  own-bytes_to [] sock own some_sent = absurd (omega arith)
  own-bytes_to ((c, answer) ∷ echoes) sock (own, rest) some_sent = elim (Bool-cases (c == sock)) [
    | inl e ↦
        let same : c ≡ sock = ground arith in
        let mine : answer ≡ own_echo codec server_label client_of sock =
          own ∙ ap (own_echo codec server_label client_of) same in
        rw e (bytes_to sock echoes, ap (λ (l : List ℕ). l ++ bytes_to sock echoes) mine)
    | inr e ↦
        let later : 0 < count_if (sent_to sock) echoes = ground arith in
        rw e (own-bytes_to echoes sock rest later)
  ]

  response_of-own :
      (echoes : List (ℕ × List ℕ)) (sock : ℕ) (arrived : Option ℕ)
      → All IsOwn echoes
      → 0 < count_if (sent_to sock) echoes
      → arrived ≡ some (length (own_echo codec server_label client_of sock))
      → length (own_echo codec server_label client_of sock) ≤ 1024
      → response_of echoes sock arrived ≡ some (own_echo codec server_label client_of sock)
  unfolding response_of
  response_of-own echoes sock arrived own some_sent whole fits =
      let (rest, first) = own-bytes_to echoes sock own some_sent in
      let all : min 1024 (length (own_echo codec server_label client_of sock))
          ≡ length (own_echo codec server_label client_of sock) =
        omega (arith, fits) in
      rw (whole, response_of, all, first)
        (ap some (take-append (own_echo codec server_label client_of sock) rest))

  answers-IsOwn :
      (server : ℕ) (rs : List Ready) → All IsOwn (answers codec server_label client_of server rs)
  unfolding answers
  answers-IsOwn server [] = tt
  answers-IsOwn server (r ∷ rs) = elim (Bool-cases (r.sock == server)) [
    | inl e ↦ rw e (answers-IsOwn server rs)
    | inr e ↦ elim (Bool-cases (is_heard r.received)) [
      | inl h ↦ rw (e, h) (refl, answers-IsOwn server rs)
      | inr h ↦ rw (e, h) (answers-IsOwn server rs)
    ]
  ]

  answers_in_time-IsOwn :
      (server start duration : ℕ) (rounds : List Round)
      → All IsOwn (answers_in_time codec server_label client_of server start duration rounds)
  unfolding answers_in_time
  answers_in_time-IsOwn server start duration [] = tt
  answers_in_time-IsOwn server start duration (r ∷ rs) =
      elim (Bool-cases (ltb r.now (start + duration))) [
        | inl e ↦ rw e (
            All-append IsOwn (answers codec server_label client_of server r.ready)
              (answers_in_time codec server_label client_of server start duration rs)
              (answers-IsOwn server r.ready) (answers_in_time-IsOwn server start duration rs))
        | inr e ↦ rw e tt
      ]

  -- Clients with the right responses are served.
  run_test_clients-served :
      (connects : ℕ → Bool) (response : ℕ → Option (List ℕ)) (n : ℕ)
      → ((i : ℕ)
          → i < n
          → connects i ≡ true
          → response i ≡ some (codec.encode (echo (greeting i server_label))))
      → run_test_clients codec server_label connects response n
        ≡ served codec server_label connects n
  unfolding run_test_clients client_task
  run_test_clients-served connects response zero right = refl
  run_test_clients-served connects response (suc n) right =
      ap₂ ◌++◌ (run_test_clients-served connects response n (λ i lt. right i (omega arith))) (
        ap (λ (v : Visit). v ∷ [])
          (elim (Bool-cases (connects n)) [
            | inl e ↦ rw (e, right n (omega arith) e) refl
            | inr e ↦ rw e refl
          ]))

  -- Clients that get the first of the answers to their sockets are served, if each is heard.
  heard-served :
      (t : Test) (echoes : List (ℕ × List ℕ))
      → IsHeard codec server_label client_of t
      → echoes ≡ answers_in_time codec server_label client_of t.server t.start 4 t.rounds
      → run_test_clients codec server_label t.connects
          (λ i. response_of echoes (t.sock_of i) (t.arrived i))
          5
        ≡ served codec server_label t.connects 5
  heard-served t echoes h e =
      run_test_clients-served t.connects (λ i. response_of echoes (t.sock_of i) (t.arrived i)) 5
        (λ i lt on.
          let mine : own_echo codec server_label client_of (t.sock_of i)
              ≡ codec.encode (echo (greeting i server_label)) =
            ap (λ (c : ℕ). codec.encode (echo (greeting c server_label))) (h.owner i) in
          let (whole, fits) = h.whole i lt on in
          rw e (
            response_of-own
              (answers_in_time codec server_label client_of t.server t.start 4 t.rounds)
              (t.sock_of i) (t.arrived i) (answers_in_time-IsOwn t.server t.start 4 t.rounds)
              (h.heard i lt on) (whole ∙ ap (λ (l : List ℕ). some (length l)) (sym mine))
              (omega (arith, fits, ap length mine))
            ∙ ap some mine))

-- The echoes of a `selectors` server that comes to its end are those of the `select` server on the
-- same reports.
select_echoes :
    (codec : Codec) (server start duration : ℕ) (rounds : List Round) (end : Selectors.Server)
    → RoundsOffered codec server rounds (Select.init server)
    → Selectors.run_selectors_server codec server start duration rounds ≡ ok end
    → (a : Select.Server) × (Select.run_select_server codec server start duration rounds ≡ ok a)
      × (end.echoes ≡ a.echoes)
unfolding Select.run_select_server Selectors.run_selectors_server
select_echoes codec server start duration rounds end offered e =
    same (while_time (Select.turn codec server) start duration rounds (Select.init server))
      (while_time (Selectors.turn codec) start duration rounds (Selectors.init server)) e
      (servers_agree codec server start duration rounds offered)
  where
    same :
        (x : Run Select.Server) (y : Run Selectors.Server)
        → Selectors.cleanup server y ≡ ok end
        → SameRun server x y
        → (a : Select.Server) × (Select.cleanup x ≡ ok a) × (end.echoes ≡ a.echoes)
    same (ok t) (ok u) e agree =
        let it : record u { keys = []; closed = u.closed ++ server ∷ [] } ≡ end = cc in
        (_, refl, sym (ap (λ (s : Selectors.Server). s.echoes) it) ∙ sym agree.echoes)
    same (ok t) (died u) e agree = absurd agree
    same (died t) (ok u) e agree = absurd agree
    same (died t) (died u) e agree = absurd (ground arith)

-- In `main` every client that gets a connection is served: it gets back the echo of its own
-- greeting in both tests, if both servers come to their end without an exception, each such
-- client's message is read in time, in one `recv`, its answer can be sent, has 1024 bytes at most
-- and has arrived when the client's `recv` returns. The others report the refusal. The second
-- server's reports are of watched sockets and new connections; `decode` gives back an ASCII text
-- that `encode` took, and white space is no part of the labels' ends.
pub main-served :
    (codec : Codec) (client_of : ℕ → ℕ) (first second : Test) (end : Select.Server)
    (end' : Selectors.Server)
    → IsPlain codec (codes "SELECT")
    → IsPlain codec (codes "SELECTOR")
    → IsHeard codec (codes "SELECT") client_of first
    → IsHeard codec (codes "SELECTOR") client_of second
    → Select.run_select_server codec first.server first.start 4 first.rounds ≡ ok end
    → Selectors.run_selectors_server codec second.server second.start 4 second.rounds ≡ ok end'
    → RoundsOffered codec second.server second.rounds (Select.init second.server)
    → main codec first second ≡ (
      served codec (codes "SELECT") first.connects 5,
      served codec (codes "SELECTOR") second.connects 5,
    )
unfolding main select_test selectors_test
main-served codec client_of first second end end' plain plain' heard heard' e e' offered =
    let (a, ea, echoes) =
      select_echoes codec second.server second.start 4 second.rounds end' offered e' in
    let told =
      echoes-eq-answers_in_time codec (codes "SELECT") client_of plain first.server first.start 4
        first.rounds end heard.from_clients e in
    let told' =
      echoes-eq-answers_in_time codec (codes "SELECTOR") client_of plain' second.server second.start
        4 second.rounds a heard'.from_clients ea in
    rw (e, e', main, select_test, selectors_test)
      (ap₂ (λ (u v : List Visit). (u, v))
        (heard-served codec (codes "SELECT") client_of first end.echoes heard told)
        (heard-served codec (codes "SELECTOR") client_of second end'.echoes heard'
          (echoes ∙ told')))
