-- ===== src/EventLoop/Tests.antt =====
-- A server 9 that gets one client 4, an echo, and a second client 5 that leaves.
use the_grind.Prelude.{
  ℕ, zero, suc, ltb, true, count_if, ◌+◌, ◌<◌, ◌≡◌, refl, none, some, List, [], ◌∷◌, ◌==◌, ◌||◌,
  ◌-◌, inl, inr, arith, length, length-append, ◌≤◌,
}
use the_grind.EventLoop.{
  echo, Codec, Ready, Round, got, recv_reset, Sending, sent_all, send_error, strip, ok, while_time,
}
use the_grind.EventLoop.Select
use the_grind.EventLoop.Selectors
use the_grind.EventLoop.Agreement.{RoundsOffered, servers_agree}
use the_grind.EventLoop.Simulation.{SameRun}
use the_grind.Text.{codes, decimal, is_ascii}
use the_grind.EventLoop.Clients.{greeting, message, IsPlain}
use the_grind.EventLoop.Echoes.{RoundsFromClients}
use the_grind.EventLoop.Answers.{answers, answers_in_time}
use the_grind.EventLoop.Main.{Test, IsHeard, sent_to, main, served}
use the_grind.EventLoop.Main.Served.{main-served}
use the_grind.EventLoop.Cleanup.{cleanup_leaves_clients}

abbrev ascii : Codec
ascii = record { decode = λ bytes. some bytes; encode = λ text. text; is_space = λ c. c == 32 }

abbrev arrives : ℕ → Ready
arrives c = record { sock = 9; accepted = some (c, 1); received = recv_reset }

abbrev says : ℕ → List ℕ → Sending → Ready
says c bytes sending = record { sock = c; accepted = none; received = got bytes sending }

abbrev reports : List Round
reports =
    record { now = 1; ready = arrives 4 ∷ [] }
    ∷ record { now = 2; ready = says 4 (32 ∷ 104 ∷ 105 ∷ 32 ∷ []) sent_all ∷ arrives 5 ∷ [] }
    ∷ record { now = 3; ready = says 5 [] sent_all ∷ [] }
    ∷ record { now = 8; ready = says 4 (1 ∷ []) send_error ∷ [] }
    ∷ []

strip_both_sides : strip (λ c. c == 32) (32 ∷ 104 ∷ 32 ∷ 105 ∷ 32 ∷ 32 ∷ []) ≡ 104 ∷ 32 ∷ 105 ∷ []
unfolding strip
strip_both_sides = refl

abbrev end_of_select : Select.Server
end_of_select = record {
  all_sockets = 9 ∷ 4 ∷ [];
  total_select_calls = 3;
  total_sockets_checked = 6;
  echoes = (4, 101 ∷ 99 ∷ 104 ∷ 111 ∷ 58 ∷ 32 ∷ 104 ∷ 105 ∷ 10 ∷ []) ∷ [];
  closed = 5 ∷ 9 ∷ 4 ∷ [];
}

abbrev end_of_selectors : Selectors.Server
end_of_selectors = record {
  keys = [];
  total_select_calls = 3;
  registered_count = 2;
  echoes = (4, 101 ∷ 99 ∷ 104 ∷ 111 ∷ 58 ∷ 32 ∷ 104 ∷ 105 ∷ 10 ∷ []) ∷ [];
  closed = 5 ∷ 9 ∷ [];
}

select_run : Select.run_select_server ascii 9 0 5 reports ≡ ok end_of_select
unfolding Select.run_select_server
select_run = refl

selectors_run : Selectors.run_selectors_server ascii 9 0 5 reports ≡ ok end_of_selectors
unfolding Selectors.run_selectors_server
selectors_run = refl

now_ready : 0 < 1
now_ready = omega arith

reports_offered : RoundsOffered ascii 9 reports (Select.init 9)
unfolding Select.turn Select.handle Select.init
reports_offered = (
  ((now_ready, refl), tt),
  (
    ((now_ready, tt), ((now_ready, refl), tt)),
    (((now_ready, tt), tt), (((now_ready, tt), tt), tt)),
  ),
)

servers_agree_example :
    SameRun 9
      (while_time (Select.turn ascii 9) 0 5 reports (Select.init 9))
      (while_time (Selectors.turn ascii) 0 5 reports (Selectors.init 9))
servers_agree_example = servers_agree ascii 9 0 5 reports reports_offered

cleanup_leaves_clients_example : 1 ≡ 0 + 1
cleanup_leaves_clients_example =
    cleanup_leaves_clients ascii 9 0 5 reports 4 end_of_select end_of_selectors reports_offered
      select_run selectors_run (ground arith)

-- ASCII's space and newline are white space.
abbrev with_newlines : Codec
with_newlines = record {
  decode = λ bytes. some bytes;
  encode = λ text. text;
  is_space = λ c. (c == 32) || (c == 10);
}

select-IsPlain : IsPlain with_newlines (codes "SELECT")
select-IsPlain = record {
  decode-encode = λ text ascii. refl;
  label = unfold is_ascii in refl;
  decode_nothing = refl;
  newline = refl;
  capital = refl;
  front = codes "SELEC";
  last = 84;
  ends = refl;
  visible = refl;
}

selector-IsPlain : IsPlain with_newlines (codes "SELECTOR")
selector-IsPlain = record {
  decode-encode = λ text ascii. refl;
  label = unfold is_ascii in refl;
  decode_nothing = refl;
  newline = refl;
  capital = refl;
  front = codes "SELECTO";
  last = 82;
  ends = refl;
  visible = refl;
}

abbrev greets : List ℕ → ℕ → ℕ → Ready
greets server_label c client_id = says c (message with_newlines server_label client_id) sent_all

-- The clients 0 and 1 on the sockets 4 and 5.
abbrev two_clients : List ℕ → List Round
two_clients server_label =
    record { now = 1; ready = arrives 4 ∷ [] }
    ∷ record { now = 2; ready = arrives 5 ∷ greets server_label 4 0 ∷ [] }
    ∷ record { now = 3; ready = greets server_label 5 1 ∷ says 4 [] sent_all ∷ [] }
    ∷ []

abbrev socket_client : ℕ → ℕ
socket_client sock = sock - 4

from_two : (l : List ℕ) → RoundsFromClients with_newlines l socket_client (two_clients l)
from_two l = ((tt, tt), ((tt, (inl refl, tt)), ((inl refl, (inr refl, tt)), tt)))

-- The clients 2, 3 and 4 are refused.
abbrev test_of : List ℕ → Test
test_of l = record {
  server = 9;
  start = 0;
  rounds = two_clients l;
  connects = λ i. ltb i 2;
  sock_of = λ i. i + 4;
  arrived = λ i. some (length (echo (greeting i l)));
}

test-IsHeard : (l : List ℕ) → length l ≤ 100 → IsHeard with_newlines l socket_client (test_of l)
unfolding answers_in_time answers greeting echo decimal
test-IsHeard l few = record {
  from_clients = from_two l;
  owner = λ i. omega arith;
  heard = by_client;
  whole = by_bytes;
}
  where
    by_client :
        (i : ℕ)
        → i < 5
        → ltb i 2 ≡ true
        → 0
          < count_if
              (sent_to (i + 4))
              (answers_in_time with_newlines l socket_client 9 0 4 (two_clients l))
    by_client zero lt on = omega arith
    by_client (suc zero) lt on = omega arith
    by_client (suc (suc i)) lt on = absurd (ground arith)

    by_bytes :
        (i : ℕ)
        → i < 5
        → ltb i 2 ≡ true
        → (some (length (echo (greeting i l))) ≡ some (length (echo (greeting i l))))
          × (length (echo (greeting i l)) ≤ 1024)
    by_bytes zero lt on = (refl, ground (arith, few, length-append l (10 ∷ [])))
    by_bytes (suc zero) lt on = (refl, ground (arith, few, length-append l (10 ∷ [])))
    by_bytes (suc (suc i)) lt on = absurd (ground arith)

first_ran :
    (end : Select.Server) × (Select.run_select_server with_newlines 9 0 4
        (two_clients (codes "SELECT"))
      ≡ ok end)
unfolding Select.run_select_server greeting decimal
first_ran = (_, refl)

second_ran :
    (end : Selectors.Server) × (Selectors.run_selectors_server with_newlines 9 0 4
        (two_clients (codes "SELECTOR"))
      ≡ ok end)
unfolding Selectors.run_selectors_server greeting decimal
second_ran = (_, refl)

second_offered : RoundsOffered with_newlines 9 (two_clients (codes "SELECTOR")) (Select.init 9)
unfolding Select.turn Select.handle Select.init greeting decimal
second_offered = (
  ((now_ready, refl), tt),
  (((now_ready, refl), ((now_ready, tt), tt)), (((now_ready, tt), ((now_ready, tt), tt)), tt)),
)

main-served_example : main with_newlines (test_of (codes "SELECT")) (test_of (codes "SELECTOR")) ≡ (
  served with_newlines (codes "SELECT") (λ i. ltb i 2) 5,
  served with_newlines (codes "SELECTOR") (λ i. ltb i 2) 5,
)
main-served_example =
    main-served with_newlines socket_client (test_of (codes "SELECT")) (test_of (codes "SELECTOR"))
      first_ran.0 second_ran.0 select-IsPlain selector-IsPlain
      (test-IsHeard (codes "SELECT") (omega arith)) (test-IsHeard (codes "SELECTOR") (omega arith))
      first_ran.1 second_ran.1 second_offered
