-- ===== src/EventLoop/Sockets.antt =====
-- The sockets that the two servers of 04a-select-vs-epoll.py watch: the list of the one, and the
-- keys of the other.
use the_grind.Prelude.{
  ℕ, suc, ◌<◌, ◌≡◌, refl, Bool, true, false, Option, none, some, List, [], ◌∷◌, length, ◌==◌, map,
  count_if, All, arith, Bool-cases, Option-cases, inl, inr,
}
use mathlib.Core.Option
use the_grind.EventLoop.Select
use the_grind.EventLoop.Selectors
use the_grind.EventLoop.Selectors.{Tag, server_tag, address, Keys}

abbrev pub is : ℕ → ℕ → Bool
is c x = x == c

abbrev pub socks : Keys → List ℕ
socks = map (λ k. k.0)

abbrev pub is_server_tag : Tag → Bool
is_server_tag server_tag = true
is_server_tag (address addr) = false

-- Only the server's socket is registered as "server".
abbrev pub IsTagged : ℕ → Keys → Type 0
IsTagged server = All (λ k. is_server_tag k.1 ≡ (k.0 == server))

pub remove-socks :
    (sock : ℕ) (ks : Keys)
    → Select.remove sock (socks ks) ≡ Option.map socks (Selectors.unregister sock ks)
unfolding Select.remove Selectors.unregister
remove-socks sock [] = refl
remove-socks sock ((x, t) ∷ ks) = elim (Bool-cases (x == sock)) [
  | inl e ↦ rw e refl
  | inr e ↦ rw (e, remove-socks sock ks) (two_maps (Selectors.unregister sock ks))
]
  where
    two_maps :
        (o : Option Keys)
        → Option.map (◌∷◌ x) (Option.map socks o) ≡ Option.map socks (Option.map (◌∷◌ (x, t)) o)
    two_maps none = refl
    two_maps (some l) = refl

pub IsTagged-unregister :
    (server sock : ℕ) (ks left : Keys)
    → IsTagged server ks
    → Selectors.unregister sock ks ≡ some left
    → IsTagged server left
unfolding Selectors.unregister
IsTagged-unregister server sock [] left h e = absurd (ground arith)
IsTagged-unregister server sock ((x, t) ∷ ks) left h e =
    elim (Option-cases (Selectors.unregister sock ks)) [
      | inl missing ↦ ground (arith, h.1)
      | inr (r, there) ↦ ground (arith, h.0, h.1, IsTagged-unregister server sock ks r h.1 there)
    ]

pub length-unregister :
    (sock : ℕ) (ks left : Keys)
    → Selectors.unregister sock ks ≡ some left
    → length (socks ks) ≡ suc (length (socks left))
unfolding Selectors.unregister
length-unregister sock [] left e = absurd (ground arith)
length-unregister sock ((x, t) ∷ ks) left e = elim (Option-cases (Selectors.unregister sock ks)) [
  | inl missing ↦ ground arith
  | inr (r, there) ↦ ground (arith, length-unregister sock ks r there)
]

pub tag_of_unseen :
    (sock : ℕ) (ks : Keys) → count_if (is sock) (socks ks) ≡ 0 → Selectors.tag_of sock ks ≡ none
unfolding Selectors.tag_of
tag_of_unseen sock [] h = refl
tag_of_unseen sock ((x, t) ∷ ks) h = ground (arith, tag_of_unseen sock ks)

-- The tag of a registered socket says whether it is the server's.
pub tag_of_seen :
    (server sock : ℕ) (ks : Keys)
    → IsTagged server ks
    → 0 < count_if (is sock) (socks ks)
    → (t : Tag) × (Selectors.tag_of sock ks ≡ some t) × (is_server_tag t ≡ (sock == server))
unfolding Selectors.tag_of
tag_of_seen server sock [] h seen = absurd (omega arith)
tag_of_seen server sock ((x, t) ∷ ks) h seen = elim (Bool-cases (x == sock)) [
  | inl e ↦ (t, rw e, ground (arith, h.0))
  | inr e ↦
      let (t', found, says) = tag_of_seen server sock ks h.1 (ground arith) in
      (t', rw e found, says)
]
