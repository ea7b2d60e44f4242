-- ===== src/EventLoop/Simulation.antt =====
-- The states of the two servers of 04a-select-vs-epoll.py, and what one socket does to both.
use the_grind.Prelude.{
  ℕ, ◌<◌, ◌≡◌, refl, ap, sym, ◌∙◌, false, Option, none, some, List, [], ◌∷◌, ◌++◌, length, ◌==◌,
  map-append, count_if, All-append, arith, Option-cases, inl, inr, length-append,
}
use mathlib.Core.Option
use the_grind.EventLoop.{Fate, answered, gone, uncaught, Run, ok, died}
use the_grind.EventLoop.Select
use the_grind.EventLoop.Selectors
use the_grind.EventLoop.Selectors.{Tag, server_tag, address, Keys}
use the_grind.EventLoop.Sockets.{
  is, socks, is_server_tag, IsTagged, remove-socks, IsTagged-unregister, length-unregister,
  tag_of_unseen,
}

-- The two states watch the same sockets and have done the same.
pub record Same (server : ℕ) (a : Select.Server) (b : Selectors.Server) : Type 0 where
  pub watched : a.all_sockets ≡ socks b.keys
  pub count : b.registered_count ≡ length a.all_sockets
  pub calls : a.total_select_calls ≡ b.total_select_calls
  pub echoes : a.echoes ≡ b.echoes
  pub closed : a.closed ≡ b.closed
  pub tags : IsTagged server b.keys

abbrev pub SameRun : ℕ → Run Select.Server → Run Selectors.Server → Type 0
SameRun server (ok a) (ok b) = Same server a b
SameRun server (died a) (died b) = Same server a b
SameRun server _ _ = ⊥

module _ (server : ℕ) (a : Select.Server) (b : Selectors.Server) (same : Same server a b) where
  removed :
      (sock : ℕ)
      → Select.remove sock a.all_sockets ≡ Option.map socks (Selectors.unregister sock b.keys)
  removed sock = ap (Select.remove sock) same.watched ∙ remove-socks sock b.keys

  drops : (sock : ℕ) → SameRun server (Select.drop_socket sock a) (Selectors.drop_socket sock b)
  unfolding Select.drop_socket Selectors.drop_socket
  drops sock = elim (Option-cases (Selectors.unregister sock b.keys)) [
    | inl e ↦
        let r : Select.remove sock a.all_sockets ≡ none = rw e at (removed sock) in
        rw (r, e, Select.drop_socket, Selectors.drop_socket) same
    | inr (left, e) ↦
        let r : Select.remove sock a.all_sockets ≡ some (socks left) = rw e at (removed sock) in
        rw (r, e, Select.drop_socket, Selectors.drop_socket)
          (record {
            watched = refl;
            count =
                omega
                  (arith, same.count, ap length same.watched, length-unregister sock b.keys left e);
            calls = same.calls;
            echoes = same.echoes;
            closed = ap (λ (l : List ℕ). l ++ sock ∷ []) same.closed;
            tags = IsTagged-unregister server sock b.keys left same.tags e;
          })
  ]

  pub settles :
      (sock : ℕ) (f : Fate) → SameRun server (Select.settle sock f a) (Selectors.settle sock f b)
  unfolding Select.settle Selectors.settle
  settles sock (answered answer) = record {
    watched = same.watched;
    count = same.count;
    calls = same.calls;
    echoes = ap (λ (l : List (ℕ × List ℕ)). l ++ (sock, answer) ∷ []) same.echoes;
    closed = same.closed;
    tags = same.tags;
  }
  settles sock gone = drops sock
  settles sock uncaught = same

-- A socket that `accept` gives is not one that is watched.
abbrev pub IsUnseen : Option (ℕ × ℕ) → List ℕ → Type 0
IsUnseen none xs = Unit
IsUnseen (some (client, addr)) xs = count_if (is client) xs ≡ 0

module _ (server : ℕ) (a : Select.Server) (b : Selectors.Server) (same : Same server a b) where
  pub welcomes :
      (o : Option (ℕ × ℕ))
      → 0 < count_if (is server) a.all_sockets
      → IsUnseen o a.all_sockets
      → SameRun server (Select.welcome o a) (Selectors.welcome o b)
  unfolding Select.welcome Selectors.welcome
  welcomes none there new = same
  welcomes (some (client, addr)) there new =
      let fresh : Selectors.tag_of client b.keys ≡ none =
        tag_of_unseen client b.keys (ap (count_if (is client)) (sym same.watched) ∙ new) in
      rw (fresh, Selectors.welcome)
        (record {
          watched =
              ap (λ (l : List ℕ). l ++ client ∷ []) same.watched
              ∙ sym (map-append _ b.keys ((client, address addr) ∷ []));
          count = omega (arith, same.count, length-append a.all_sockets (client ∷ []));
          calls = same.calls;
          echoes = same.echoes;
          closed = same.closed;
          tags =
              All-append (λ k. is_server_tag k.1 ≡ (k.0 == server)) b.keys
                ((client, address addr) ∷ []) same.tags (other, tt);
        })
    where
      other : false ≡ (client == server)
      other = ground arith
