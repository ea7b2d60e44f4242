-- ===== src/EventLoop/Cleanup.antt =====
-- What the two servers of 04a-select-vs-epoll.py close when their time is over.
use the_grind.Prelude.{
  ℕ, ◌+◌, ◌<◌, ◌≤◌, ◌≡◌, ap, sym, subst, Option, none, some, List, [], ◌∷◌, ◌++◌, ◌==◌, ltb,
  count_if, arith, Bool-cases, Option-cases, inl, inr, count_if-append,
}
use the_grind.EventLoop.{
  Codec, Ready, Round, Fate, answered, gone, uncaught, converse, Run, ok, died, for_each,
  while_time,
}
use the_grind.EventLoop.Select
use the_grind.EventLoop.Selectors
use the_grind.EventLoop.Sockets.{is}
use the_grind.EventLoop.Agreement.{RoundsOffered, servers_agree}
use the_grind.EventLoop.Simulation.{SameRun}

-- How often a socket is watched or was closed.
abbrev known : ℕ → Select.Server → ℕ
known c s = count_if (is c) s.all_sockets + count_if (is c) s.closed

abbrev Grows : ℕ → ℕ → Run Select.Server → Type 0
Grows c n (ok t) = n ≤ known c t
Grows c n (died t) = Unit

count-remove :
    (c sock : ℕ) (xs left : List ℕ)
    → Select.remove sock xs ≡ some left
    → count_if (is c) xs ≡ count_if (is c) (sock ∷ left)
unfolding Select.remove
count-remove c sock [] left e = absurd (ground arith)
count-remove c sock (x ∷ xs) left e = elim (Option-cases (Select.remove sock xs)) [
  | inl missing ↦ ground arith
  | inr (r, there) ↦ ground (arith, count-remove c sock xs r there)
]

module _ (c : ℕ) where
  drop-Grows : (sock : ℕ) (s : Select.Server) → Grows c (known c s) (Select.drop_socket sock s)
  unfolding Select.drop_socket
  drop-Grows sock s = elim (Option-cases (Select.remove sock s.all_sockets)) [
    | inl e ↦ rw (e, Grows, Select.drop_socket) tt
    | inr (left, e) ↦
        rw (e, Grows, Select.drop_socket)
          (omega (
            arith,
            count-remove c sock s.all_sockets left e,
            count_if-append (is c) s.closed (sock ∷ []),
            count_if-append (is c) (sock ∷ []) left,
          ))
  ]

  settle-Grows :
      (sock : ℕ) (f : Fate) (s : Select.Server) → Grows c (known c s) (Select.settle sock f s)
  unfolding Select.settle
  settle-Grows sock (answered answer) s = omega arith
  settle-Grows sock gone s = drop-Grows sock s
  settle-Grows sock uncaught s = tt

  welcome-Grows :
      (o : Option (ℕ × ℕ)) (s : Select.Server) → Grows c (known c s) (Select.welcome o s)
  unfolding Select.welcome
  welcome-Grows none s = tt
  welcome-Grows (some (client, addr)) s =
      omega (arith, count_if-append (is c) s.all_sockets (client ∷ []))

  handle-Grows :
      (codec : Codec) (server : ℕ) (r : Ready) (s : Select.Server)
      → Grows c (known c s) (Select.handle codec server r s)
  unfolding Select.handle
  handle-Grows codec server r s = elim (Bool-cases (r.sock == server)) [
    | inl e ↦ rw e (welcome-Grows r.accepted s)
    | inr e ↦ rw e (settle-Grows r.sock (converse codec r.received) s)
  ]

  Grows-on :
      (f : Select.Server → Run Select.Server) (n : ℕ)
      → ((t : Select.Server) → Grows c (known c t) (f t))
      → (x : Run Select.Server) → Grows c n x
      → Grows c n (elim x [ ok t ↦ f t | died t ↦ died t ])
  Grows-on f n rec (ok t) h = more (f t) (rec t)
    where
      more : (y : Run Select.Server) → Grows c (known c t) y → Grows c n y
      more (ok u) l = omega arith
      more (died u) l = tt
  Grows-on f n rec (died t) h = tt

  for_each-Grows :
      (codec : Codec) (server : ℕ) (rs : List Ready) (s : Select.Server)
      → Grows c (known c s) (for_each (Select.handle codec server) rs s)
  unfolding for_each
  for_each-Grows codec server [] s = omega arith
  for_each-Grows codec server (r ∷ rs) s =
      Grows-on (for_each (Select.handle codec server) rs) (known c s)
        (for_each-Grows codec server rs) (Select.handle codec server r s)
        (handle-Grows codec server r s)

  loop-Grows :
      (codec : Codec) (server start duration : ℕ) (rounds : List Round) (s : Select.Server)
      → Grows c (known c s) (while_time (Select.turn codec server) start duration rounds s)
  unfolding while_time Select.turn
  loop-Grows codec server start duration [] s = omega arith
  loop-Grows codec server start duration (r ∷ rs) s =
      elim (Bool-cases (ltb r.now (start + duration))) [
        | inl e ↦ rw e (
            Grows-on (while_time (Select.turn codec server) start duration rs) (known c s)
              (loop-Grows codec server start duration rs) (Select.turn codec server r s)
              (for_each-Grows codec server r.ready _))
        | inr e ↦ rw e (omega arith)
      ]

  -- In the `select` server, if the loop goes on from any state to its end without an exception,
  -- every socket that was watched in that state is among the closed ones after the cleanup: no
  -- connection is left open.
  select_closes_all :
      (codec : Codec) (server start duration : ℕ) (rounds : List Round) (s end : Select.Server)
      → Select.cleanup (while_time (Select.turn codec server) start duration rounds s) ≡ ok end
      → 0 < count_if (is c) s.all_sockets
      → 0 < count_if (is c) end.closed
  select_closes_all codec server start duration rounds s end e watched =
      closes (while_time (Select.turn codec server) start duration rounds s) e
        (loop-Grows codec server start duration rounds s)
    where
      closes :
          (x : Run Select.Server)
          → Select.cleanup x ≡ ok end
          → Grows c (known c s) x
          → 0 < count_if (is c) end.closed
      closes (ok t) e h =
          let it : record t { closed = t.closed ++ t.all_sockets } ≡ end = cc in
          let all : t.closed ++ t.all_sockets ≡ end.closed =
            ap (λ (u : Select.Server). u.closed) it in
          subst (λ (l : List ℕ). 0 < count_if (is c) l) all
            (omega (arith, count_if-append (is c) t.closed t.all_sockets))
      closes (died t) e h = absurd (ground arith)

-- When both servers have run to their end on the same reports of the operating system, the
-- `select` server has closed each client as often as the `selectors` server, and once more for
-- each time it still watched the client: the cleanup of the `selectors` server closes no client.
pub cleanup_leaves_clients :
    (codec : Codec) (server start duration : ℕ) (rounds : List Round) (c : ℕ) (a : Select.Server)
    (b : Selectors.Server)
    → RoundsOffered codec server rounds (Select.init server)
    → Select.run_select_server codec server start duration rounds ≡ ok a
    → Selectors.run_selectors_server codec server start duration rounds ≡ ok b
    → ¬ (c ≡ server)
    → count_if (is c) a.closed ≡ count_if (is c) b.closed + count_if (is c) a.all_sockets
unfolding Select.run_select_server Selectors.run_selectors_server
cleanup_leaves_clients codec server start duration rounds c a b offered ea eb client =
    leaves (while_time (Select.turn codec server) start duration rounds (Select.init server))
      (while_time (Selectors.turn codec) start duration rounds (Selectors.init server)) ea eb
      (servers_agree codec server start duration rounds offered)
  where
    leaves :
        (x : Run Select.Server) (y : Run Selectors.Server)
        → Select.cleanup x ≡ ok a
        → Selectors.cleanup server y ≡ ok b
        → SameRun server x y
        → count_if (is c) a.closed ≡ count_if (is c) b.closed + count_if (is c) a.all_sockets
    leaves (ok t) (ok u) et eu same =
        let it : record t { closed = t.closed ++ t.all_sockets } ≡ a = cc in
        let iu : record u { keys = []; closed = u.closed ++ server ∷ [] } ≡ b = cc in
        rw
          (
            sym (ap (λ (s : Select.Server). s.closed) it),
            sym (ap (λ (s : Select.Server). s.all_sockets) it),
            sym (ap (λ (s : Selectors.Server). s.closed) iu),
            sym same.closed,
            count_if-append (is c) t.closed t.all_sockets,
            count_if-append (is c) t.closed (server ∷ []),
          )
          (ground arith)
    leaves (ok t) (died u) et eu same = absurd same
    leaves (died t) (ok u) et eu same = absurd same
    leaves (died t) (died u) et eu same = absurd (ground arith)
