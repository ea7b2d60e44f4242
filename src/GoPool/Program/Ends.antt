-- ===== src/GoPool/Program/Ends.antt =====
-- The program of connection-pooling/pool.go comes to its end.
use the_grind.Prelude.{
  ℕ, suc, ◌+◌, ◌*◌, ◌≤◌, ◌<◌, ◌≡◌, ◌≢◌, refl, ap, ◌⊎◌, inl, inr, pos, Bool, true, false, some, List,
  [], ◌∷◌, length, ltb, ◌++◌, arith, Bool-cases, all_or, sum_below-const,
}
use native.Mathlib.Decide.{dec_lt}
use the_grind.ConnectionPool
use the_grind.ConnectionPool.Create.{is_fresh}
use the_grind.ConnectionPool.Places.{has_any}
use the_grind.ConnectionPool.Sharing.{release_never_blocks, closed_at_the_end}
use the_grind.GoPool.{
  Heap, Channel, Pool, made, new_pool, received, zero_value, receive, getting, get_conn, released,
  release_conn, shut, send,
}
use the_grind.GoPool.Made.{python, python_world, new_lem}
use the_grind.GoPool.Program.{
  Pc, before, wanting, holding, used, finished, failed, panicked, Main, waiting, draining, ended,
  System, Step, starts, gets, times_out, executes, releases, closes, drains, ends, Reach,
}
use the_grind.GoPool.Program.Simulation.{python_pc, active, held, Going}
use the_grind.GoPool.Program.Steps.{main_waits, Reach-Going}

-- A step that is not the end of a wait in `Get`.
abbrev pub is_prompt : {n : ℕ} {s t : System} → Step n s t → Bool
is_prompt (times_out i lt e) = false
is_prompt _ = true

abbrev CanStep : ℕ → System → Type 0
CanStep n s = (t : System) × (st : Step n s t) × (is_prompt st ≡ true)

abbrev IsDone : Pc → Type 0
IsDone p = (p ≡ finished) ⊎ (p ≡ failed)

abbrev AllDone : ℕ → System → Type 0
AllDone n s = (i : ℕ) → i < n → IsDone (s.pc i)

-- The workers are done, `Close` has returned, and every connection that `NewPool` has opened is
-- closed.
abbrev pub IsOver : ℕ → ℕ → ℕ → System → Type 0
IsOver size n counter s =
    AllDone n s
    × (s.main ≡ ended)
    × ((conn : ℕ) → is_fresh counter size conn ≡ true → s.pool.heap.closed conn ≡ true)

-- A receive from a channel with something in it.
receives :
    (c : Channel) (items : List ℕ)
    → c.buffer ≡ items
    → 0 < length items
    → (conn : ℕ) × (c' : Channel) × (receive c ≡ received conn c')
unfolding receive
receives c [] e some_there = absurd (omega (arith, some_there))
receives c (conn ∷ rest) e some_there = (conn, record c { buffer = rest }, rw e refl)

receives_none : (c : Channel) → c.buffer ≡ [] → c.is_shut ≡ true → receive c ≡ zero_value
unfolding receive
receives_none c e is_shut = rw (e, is_shut) refl

shuts : (c : Channel) → c.is_shut ≡ false → (c' : Channel) × (shut c ≡ some c')
unfolding shut
shuts c still = (record c { is_shut = true }, rw still refl)

-- With room in the channel of pool.py there is room in this one.
releases_too :
    (conn : ℕ) (pool : Pool) (p : ConnectionPool.Pool)
    → pool.conns.is_shut ≡ false
    → ConnectionPool.release_conn conn (python pool) ≡ some p
    → (p : Pool) × (release_conn conn pool ≡ released p)
unfolding release_conn send ConnectionPool.release_conn ConnectionPool.put
releases_too conn pool p still e =
    elim (Bool-cases (ltb (length pool.conns.buffer) pool.conns.capacity)) [
      | inl room ↦ (
        record pool { conns = record pool.conns { buffer = pool.conns.buffer ++ conn ∷ [] } },
        rw (still, room) refl,
      )
      | inr none_left ↦ absurd (ground (arith, none_left, e))
    ]

module _ (m n k : ℕ) (w : ConnectionPool.World) (q : Pool)
    (made : ConnectionPool.create ConnectionPool.connect (pos (suc m)) w
      ≡ ConnectionPool.created (python q))
    {s : System} (going : Going n (suc m) k q s) where
  open going use {reach, counted, calm, above, main, bound}

  abbrev IsEmptyHanded : ℕ → Type 0
  IsEmptyHanded i = (held (s.pc i) ≡ 0) × (s.pc i ≢ before)

  goes_on : (i : ℕ) (p : Pc) → i < n → s.pc i ≡ p → IsEmptyHanded i ⊎ CanStep n s
  goes_on i before lt e = inr (_, starts i lt e, refl)
  goes_on i (holding conn) lt e = inr (_, executes i conn lt e, refl)
  goes_on i (used conn) lt e =
      let (p, room) = release_never_blocks m n w (python q) made reach i conn lt (rw e refl) in
      let (p', it) =
        releases_too conn s.pool p (main_waits m n k w q made going i lt (rw e refl)).1 room in
      inr (_, releases i conn p' lt e it, refl)
  goes_on i wanting lt e = inl (rw e refl, λ z. ground (arith, e, z))
  goes_on i finished lt e = inl (rw e refl, λ z. ground (arith, e, z))
  goes_on i failed lt e = inl (rw e refl, λ z. ground (arith, e, z))
  goes_on i panicked lt e = absurd (calm i e)

  -- While nobody has a connection there is one for a worker that wants it.
  gets_one :
      ((i : ℕ) → i < n → IsEmptyHanded i)
      → (i : ℕ) (p : Pc) → i < n
      → s.pc i ≡ p
      → IsDone (s.pc i) ⊎ CanStep n s
  gets_one empty_handed i finished lt e = inl (inl e)
  gets_one empty_handed i failed lt e = inl (inr e)
  gets_one empty_handed i wanting lt e =
      let (conn, c, g) = receives s.pool.conns s.pool.conns.buffer refl (
        omega (
          arith,
          (main_waits m n k w q made going i lt (rw e refl)).2,
          sum_below-const held n 0 s.pc (λ j h. (empty_handed j h).0),
        )) in
      inr (
        _,
        gets i conn (record s.pool { conns = c }) lt e (unfold get_conn in ap (getting s.pool) g),
        refl,
      )
  gets_one empty_handed i before lt e = absurd ((empty_handed i lt).1 e)
  gets_one empty_handed i (holding conn) lt e = absurd (ground (arith, (empty_handed i lt).0, e))
  gets_one empty_handed i (used conn) lt e = absurd (ground (arith, (empty_handed i lt).0, e))
  gets_one empty_handed i panicked lt e = absurd (calm i e)

  all_done : AllDone n s ⊎ CanStep n s
  all_done = elim (all_or n (λ i lt. goes_on i (s.pc i) lt refl)) [
    | inr step ↦ inr step
    | inl empty_handed ↦ all_or n (λ i lt. gets_one empty_handed i (s.pc i) lt refl)
  ]

  -- After the workers `main` goes on to its end.
  goes_home :
      AllDone n s
      → (x : Main) → s.main ≡ x
      → ((s.main ≡ ended) × (s.pool.conns.buffer ≡ [])) ⊎ CanStep n s
  goes_home over waiting e =
      let still : s.pool.conns.is_shut ≡ false = (rw e at main).0 in
      let none_running : s.count ≡ 0 =
        omega (arith, counted, sum_below-const active n 0 s.pc idle) in
      let (c, g) = shuts s.pool.conns still in inr (_, closes c e none_running g, refl)
    where
      idle : (i : ℕ) → i < n → active (s.pc i) ≡ 0
      idle i lt = elim (over i lt) [ inl a ↦ rw a refl | inr a ↦ rw a refl ]
  goes_home over draining e = drains_on s.pool.conns.buffer refl
    where
      drains_on :
          (l : List ℕ)
          → s.pool.conns.buffer ≡ l
          → ((s.main ≡ ended) × (s.pool.conns.buffer ≡ [])) ⊎ CanStep n s
      drains_on [] none_left =
          inr (_, ends e (receives_none s.pool.conns none_left (rw e at main).0), refl)
      drains_on (conn ∷ rest) there =
          let (conn', c, g) = receives s.pool.conns (conn ∷ rest) there (omega arith) in
          inr (_, drains conn' c e g, refl)
  goes_home over ended e = inl (e, (rw e at main).2)

  all_closed :
      AllDone n s
      → s.pool.conns.buffer ≡ []
      → (conn : ℕ) → is_fresh w.counter (suc m) conn ≡ true
      → s.pool.heap.closed conn ≡ true
  all_closed over none_left = closed_at_the_end m n w (python q) made reach none_left idle
    where
      idle : (i : ℕ) → has_any (python_pc (s.pc i)) ≡ 0
      idle i = elim (dec_lt i n) [
        | yes lt ↦ elim (over i lt) [ inl a ↦ rw a refl | inr a ↦ rw a refl ]
        | no far ↦ rw (above i (omega arith)) refl
      ]

  over_or_on : IsOver (suc m) n w.counter s ⊎ CanStep n s
  over_or_on = elim all_done [
    | inr step ↦ inr step
    | inl over ↦ elim (goes_home over s.main refl) [
      | inr step ↦ inr step
      | inl (end, none_left) ↦ inl (over, end, all_closed over none_left)
    ]
  ]

-- In every state that `main` and its workers reach with a pool of a positive size, no goroutine
-- has panicked, and either all the workers are done, `Close` has returned and every connection of
-- the pool is closed, or some step that is not the end of a wait can be taken; and the run had
-- four steps for each worker, one for each connection and two more, at most. So the program comes
-- to its end.
pub main_ends :
    (m n : ℕ) (h : Heap) (q : Pool)
    → new_pool (pos (suc m)) h ≡ made q
    → {k : ℕ} {s : System} → Reach n q k s
    → ((i : ℕ) → s.pc i ≢ panicked)
      × (IsOver (suc m) n h.conn_counter s
          ⊎ ((t : System) × (st : Step n s t) × (is_prompt st ≡ true)))
      × (k ≤ 4 * n + suc m + 2)
main_ends m n h q e {k = k} r =
    let (py, still) = new_lem m h q e in
    let going = Reach-Going m n (python_world h) q py still r in
    (going.calm, over_or_on m n k (python_world h) q py going, omega (arith, going.bound))
