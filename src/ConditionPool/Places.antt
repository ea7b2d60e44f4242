-- ===== src/ConditionPool/Places.antt =====
-- Where the connections of 02-condition-variables.py are, in every interleaving with or without
-- timeouts.
use the_grind.Prelude.{
  ℕ, zero, suc, ◌+◌, ◌<◌, ◌≡◌, refl, ap, Bool, none, some, List, [], ◌∷◌, ◌++◌, ltb, ◌==◌,
  if◌then◌else◌, update, arith, count_if, count_if-append, Option-cases, inl, inr, sum_below,
  sum_below-update, le-sum_below, add-le-sum_below, sum_below-zero, sum_below-update_same,
}
use native.Mathlib.Decide.{ℕ_discrete}
use the_grind.ConditionPool.{
  Pc, outside, waiting, timed_out, has_conn, failed, System, pop, conns, init, look, woken, notify,
  return_conn, give_up, Step, borrows, resumes, returns, times_out, gives_up, Reach, here, next,
}

abbrev pub is : ℕ → ℕ → Bool
is c x = x == c

pub pop-eq-none : (xs : List ℕ) → pop xs ≡ none → xs ≡ []
unfolding pop
pop-eq-none [] e = refl
pop-eq-none (x ∷ xs) e = elim (Option-cases (pop xs)) [
  | inl gone ↦ absurd (ground arith)
  | inr (r, more) ↦ absurd (ground arith)
]

-- `pop` takes the last item.
pub pop-eq-some : (xs : List ℕ) (y : ℕ) (ys : List ℕ) → pop xs ≡ some (y, ys) → xs ≡ ys ++ y ∷ []
unfolding pop
pop-eq-some [] y ys e = absurd (ground arith)
pop-eq-some (x ∷ xs) y ys e = elim (Option-cases (pop xs)) [
  | inl gone ↦ ground (arith, pop-eq-none xs)
  | inr (r, more) ↦ ground (arith, pop-eq-some xs r.0 r.1 more)
]

unfoldable pub has : ℕ → Pc → ℕ
has c (has_conn conn) = if conn == c then 1 else 0
has c _ = 0

count_conns : (c n : ℕ) → count_if (is c) (conns n) ≡ (if ltb c n then 1 else 0)
unfolding conns
count_conns c zero = ground arith
count_conns c (suc n) = ground (arith, count_if-append (is c) (conns n) (n ∷ []), count_conns c n)

-- Each connection is in the pool or with one thread.
abbrev pub Inv : ℕ → ℕ → System → Type 0
Inv n size s =
    (c : ℕ) → count_if (is c) s.pool + sum_below (has c) n s.pc ≡ (if ltb c size then 1 else 0)

module _ (n size : ℕ) (s : System) (inv : Inv n size s) where
  looks : (i : ℕ) → i < n → ((c : ℕ) → has c (s.pc i) ≡ 0) → Inv n size (look i s)
  unfolding look has
  looks i lt none_yet c = elim (Option-cases (pop s.pool)) [
    | inl e ↦
        rw (e, look)
          (omega (arith, inv c, none_yet c, sum_below-update (has c) n i s.pc waiting lt))
    | inr ((conn, rest), e) ↦
        rw (e, look)
          (omega (
            arith,
            inv c,
            none_yet c,
            ap (count_if (is c)) (pop-eq-some s.pool conn rest e),
            count_if-append (is c) rest (conn ∷ []),
            sum_below-update (has c) n i s.pc (has_conn conn) lt,
          ))
  ]

  -- A thread that moves without taking or giving a connection.
  moves :
      (i : ℕ) (p : Pc)
      → i < n
      → ((c : ℕ) → has c p ≡ has c (s.pc i))
      → Inv n size (record s { pc = update s.pc i p })
  moves i p lt same c = omega (arith, inv c, same c, sum_below-update (has c) n i s.pc p lt)

has-woken : (c : ℕ) (p : Pc) → has c (woken p) ≡ has c p
unfolding has
has-woken c p = ground arith

-- Waking a thread moves no connection, whether or not it is one of the first `n`.
sum-notify :
    (c n : ℕ) (waiters : List ℕ) (pc : ℕ → Pc)
    → sum_below (has c) n (notify waiters pc).1 ≡ sum_below (has c) n pc
unfolding notify
sum-notify c n [] pc = refl
sum-notify c n (j ∷ rest) pc =
    sum_below-update_same (has c) n j pc (woken (pc j)) (has-woken c (pc j))

return_conn-Inv :
    (n size : ℕ) (s : System) (i conn : ℕ)
    → Inv n size s
    → i < n
    → s.pc i ≡ has_conn conn
    → Inv n size (return_conn i conn s)
unfolding return_conn has
return_conn-Inv n size s i conn inv lt e c = ground (
  arith,
  inv c,
  e,
  count_if-append (is c) s.pool (conn ∷ []),
  sum-notify c n s.waiters (update s.pc i outside),
  sum_below-update (has c) n i s.pc outside lt,
)

Step-Inv : (n size : ℕ) {s t : System} → Step n s t → Inv n size s → Inv n size t
unfolding give_up has
Step-Inv n size {s} (borrows i lt e) inv = looks n size s inv i lt (λ c. rw e)
Step-Inv n size {s} (resumes i lt e) inv = looks n size s inv i lt (λ c. rw e)
Step-Inv n size {s} (returns i conn lt e) inv = return_conn-Inv n size s i conn inv lt e
Step-Inv n size {s} (times_out i lt e) inv = moves n size s inv i timed_out lt (λ c. rw e)
Step-Inv n size {s} (gives_up i lt e) inv = moves n size s inv i failed lt (λ c. rw e)

-- In every reachable state each connection of the pool is in exactly one place: once in the
-- list, or with one thread.
pub each_conn_in_one_place : (n size : ℕ) {s : System} → Reach n size s → Inv n size s
unfolding init has
each_conn_in_one_place n size here =
    λ c. omega (arith, count_conns c size, sum_below-zero (has c) n (λ i. outside) (λ i. refl))
each_conn_in_one_place n size (next r st) = Step-Inv n size st (each_conn_in_one_place n size r)

-- No two threads have the same connection, and one that a thread has is not in the list.
pub has_alone :
    (n size : ℕ) {s : System}
    → Reach n size s
    → (c i j : ℕ) → i < n
    → j < n
    → s.pc i ≡ has_conn c
    → s.pc j ≡ has_conn c
    → (i ≡ j) × (count_if (is c) s.pool ≡ 0)
unfolding has
has_alone n size {s} r c i j hi hj ei ej = (
  elim (ℕ_discrete i j) [
    | yes same ↦ same
    | no other ↦ absurd (
        ground (
          arith,
          each_conn_in_one_place n size r c,
          add-le-sum_below (has c) n i j s.pc hi hj other,
        ))
  ],
  ground (arith, each_conn_in_one_place n size r c, le-sum_below (has c) n i s.pc hi),
)
