-- ===== src/EventLoop/Agreement.antt =====
-- The two servers of 04a-select-vs-epoll.py do the same job: a simulation between their states.
use the_grind.Prelude.{
  ℕ, ◌+◌, ◌<◌, ◌≡◌, refl, ap, sym, subst, some, List, [], ◌∷◌, length, ◌==◌, ltb, count_if, arith,
  Bool-cases, inl, inr,
}
use the_grind.EventLoop.{Codec, Ready, Round, converse, Run, ok, died, for_each, while_time}
use the_grind.EventLoop.Select
use the_grind.EventLoop.Selectors
use the_grind.EventLoop.Selectors.{Tag, server_tag, address, Keys}
use the_grind.EventLoop.Sockets.{is, is_server_tag, tag_of_seen}
use the_grind.EventLoop.Simulation.{Same, SameRun, settles, IsUnseen, welcomes}

-- What the operating system may report: a ready socket is a watched one, and `accept` gives a new
-- one.
abbrev IsOffered : Ready → Select.Server → Type 0
IsOffered r a = (0 < count_if (is r.sock) a.all_sockets) × IsUnseen r.accepted a.all_sockets

abbrev pub After : (Select.Server → Type 0) → Run Select.Server → Type 0
After P (ok t) = P t
After P (died t) = Unit

-- What both servers do after the same step they do alike, if they go on alike from the same state.
continues :
    (server : ℕ) (f : Select.Server → Run Select.Server)
    (g : Selectors.Server → Run Selectors.Server) (P : Select.Server → Type 0)
    → ((a : Select.Server) (b : Selectors.Server)
        → Same server a b
        → P a
        → SameRun server (f a) (g b))
    → (x : Run Select.Server) (y : Run Selectors.Server) → SameRun server x y
    → After P x
    → SameRun server
        (elim x [ ok t ↦ f t | died t ↦ died t ])
        (elim y [ ok t ↦ g t | died t ↦ died t ])
continues server f g P rec (ok a) (ok b) h l = rec a b h l
continues server f g P rec (ok a) (died b) h l = absurd h
continues server f g P rec (died a) (ok b) h l = absurd h
continues server f g P rec (died a) (died b) h l = h

module _ (codec : Codec) (server : ℕ) where
  tagged_handles :
      (r : Ready) (a : Select.Server) (b : Selectors.Server) (t : Tag)
      → Same server a b
      → IsOffered r a
      → Selectors.tag_of r.sock b.keys ≡ some t
      → is_server_tag t ≡ (r.sock == server)
      → SameRun server (Select.handle codec server r a) (Selectors.handle codec r b)
  unfolding Select.handle Selectors.handle
  tagged_handles r a b server_tag same (seen, new) found says =
      let it : r.sock ≡ server = ground arith in
      rw (sym says, found, Select.handle, Selectors.handle)
        (welcomes server a b same r.accepted
          (subst (λ (x : ℕ). 0 < count_if (is x) a.all_sockets) it seen) new)
  tagged_handles r a b (address addr) same (seen, new) found says =
      rw (sym says, found, Select.handle, Selectors.handle)
        (settles server a b same r.sock (converse codec r.received))

  handles :
      (r : Ready) (a : Select.Server) (b : Selectors.Server)
      → Same server a b
      → IsOffered r a
      → SameRun server (Select.handle codec server r a) (Selectors.handle codec r b)
  handles r a b same (seen, new) =
      let (t, found, says) =
        tag_of_seen server r.sock b.keys same.tags
          (subst (λ (l : List ℕ). 0 < count_if (is r.sock) l) same.watched seen) in
      tagged_handles r a b t same (seen, new) found says

  -- The reports of one selection, each at the state in which it is handled.
  abbrev AllOffered : List Ready → Select.Server → Type 0
  AllOffered [] a = Unit
  AllOffered (r ∷ rs) a = IsOffered r a × After (AllOffered rs) (Select.handle codec server r a)

  abbrev tick : Select.Server → Select.Server
  tick a = record a {
    total_select_calls = a.total_select_calls + 1;
    total_sockets_checked = a.total_sockets_checked + length a.all_sockets;
  }

  abbrev pub RoundsOffered : List Round → Select.Server → Type 0
  RoundsOffered [] a = Unit
  RoundsOffered (r ∷ rs) a =
      AllOffered r.ready (tick a) × After (RoundsOffered rs) (Select.turn codec server r a)

  eaches :
      (rs : List Ready) (a : Select.Server) (b : Selectors.Server)
      → Same server a b
      → AllOffered rs a
      → SameRun server
          (for_each (Select.handle codec server) rs a)
          (for_each (Selectors.handle codec) rs b)
  unfolding for_each
  eaches [] a b same offered = same
  eaches (r ∷ rs) a b same (first, later) =
      continues server (for_each (Select.handle codec server) rs)
        (for_each (Selectors.handle codec) rs) (AllOffered rs) (eaches rs)
        (Select.handle codec server r a) (Selectors.handle codec r b) (handles r a b same first)
        later

  ticks :
      (a : Select.Server) (b : Selectors.Server)
      → Same server a b
      → Same server (tick a) (record b { total_select_calls = b.total_select_calls + 1 })
  ticks a b same = record {
    watched = same.watched;
    count = same.count;
    calls = ap (λ (n : ℕ). n + 1) same.calls;
    echoes = same.echoes;
    closed = same.closed;
    tags = same.tags;
  }

  turns :
      (r : Round) (a : Select.Server) (b : Selectors.Server)
      → Same server a b
      → AllOffered r.ready (tick a)
      → SameRun server (Select.turn codec server r a) (Selectors.turn codec r b)
  unfolding Select.turn Selectors.turn
  turns r a b same offered =
      eaches r.ready (tick a) (record b { total_select_calls = b.total_select_calls + 1 })
        (ticks a b same) offered

  loops :
      (start duration : ℕ) (rounds : List Round) (a : Select.Server) (b : Selectors.Server)
      → Same server a b
      → RoundsOffered rounds a
      → SameRun server
          (while_time (Select.turn codec server) start duration rounds a)
          (while_time (Selectors.turn codec) start duration rounds b)
  unfolding while_time
  loops start duration [] a b same offered = same
  loops start duration (r ∷ rs) a b same (now, later) =
      elim (Bool-cases (ltb r.now (start + duration))) [
        | inl e ↦ rw e (
            continues server (while_time (Select.turn codec server) start duration rs)
              (while_time (Selectors.turn codec) start duration rs) (RoundsOffered rs)
              (loops start duration rs) (Select.turn codec server r a) (Selectors.turn codec r b)
              (turns r a b same now) later)
        | inr e ↦ rw e same
      ]

  -- On the same reports of the operating system the loops of the two servers end alike, both by
  -- their test or both by the same exception: they watch the same sockets, have sent the same
  -- echoes to the same sockets and closed the same sockets in the same order, after as many
  -- selections, and `registered_count` is the number of watched sockets.
  pub servers_agree :
      (start duration : ℕ) (rounds : List Round)
      → RoundsOffered rounds (Select.init server)
      → SameRun server
          (while_time (Select.turn codec server) start duration rounds (Select.init server))
          (while_time (Selectors.turn codec) start duration rounds (Selectors.init server))
  unfolding Select.init Selectors.init
  servers_agree start duration rounds offered =
      loops start duration rounds (Select.init server) (Selectors.init server) begin offered
    where
      begin : Same server (Select.init server) (Selectors.init server)
      begin = record {
        watched = refl;
        count = refl;
        calls = refl;
        echoes = refl;
        closed = refl;
        tags = (ground arith, tt);
      }
