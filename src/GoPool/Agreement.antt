-- ===== src/GoPool/Agreement.antt =====
-- The pools of connection-pooling/pool.go and connection-pooling/pool.py side by side.
use the_grind.Prelude.{
  ℕ, suc, ◌≡◌, refl, ap, sym, ◌∙◌, pos, true, false, Option, none, some, List, [], ◌∷◌, length, ltb,
  inl, inr, Bool-cases,
}
use the_grind.ConnectionPool
use the_grind.GoPool.{
  Heap, Pool, made, execute, close_conn, send, receive, new_pool, Getting, got, waits,
  nil_dereference, get_conn, Releasing, released, blocks, panics, release_conn, close_all, shut,
  close,
}
use the_grind.GoPool.Made.{python_world, python, makes}

pub data Call : Type 0 where
  gets : Call
  releases : ℕ → Call
  executes : ℕ → Call

-- What a caller sees.
pub data Answer : Type 0 where
  connection : ℕ → Answer
  none_there : Answer  -- it waits, and gets an error when its time is over
  returned : Answer
  no_room : Answer  -- it blocks
  result : ℕ → Answer
  failure : Answer  -- a panic, or an exception

abbrev go_gets : Pool → Getting → Pool × Answer
go_gets p (got conn q) = (q, connection conn)
go_gets p waits = (p, none_there)
go_gets p nil_dereference = (p, failure)

abbrev go_releases : Pool → Releasing → Pool × Answer
go_releases p (released q) = (q, returned)
go_releases p blocks = (p, no_room)
go_releases p panics = (p, failure)

abbrev executed : Option ℕ → Answer
executed none = failure
executed (some r) = result r

go_call : Call → Pool → Pool × Answer
unfolding get_conn release_conn execute
go_call gets p = go_gets p (get_conn p)
go_call (releases conn) p = go_releases p (release_conn conn p)
go_call (executes conn) p = (p, executed (execute conn p.heap))

abbrev python_gets :
    ConnectionPool.Pool → Option (ℕ × ConnectionPool.Pool) → ConnectionPool.Pool × Answer
python_gets p none = (p, none_there)
python_gets p (some (conn, q)) = (q, connection conn)

abbrev python_releases :
    ConnectionPool.Pool → Option ConnectionPool.Pool → ConnectionPool.Pool × Answer
python_releases p none = (p, no_room)
python_releases p (some q) = (q, returned)

python_call : Call → ConnectionPool.Pool → ConnectionPool.Pool × Answer
python_call gets p = python_gets p (ConnectionPool.get_conn p)
python_call (releases conn) p = python_releases p (ConnectionPool.release_conn conn p)
python_call (executes conn) p = (p, executed (ConnectionPool.execute conn p.world))

-- One call on both pools.
abbrev Agrees : Call → Pool → Type 0
Agrees c p =
    (python_call c (python p) ≡ (python (go_call c p).0, (go_call c p).1))
    × ((go_call c p).0.conns.is_shut ≡ false)

gets_agree :
    (p : Pool) (items : List ℕ) → p.conns.buffer ≡ items → p.conns.is_shut ≡ false → Agrees gets p
unfolding go_call python_call get_conn receive ConnectionPool.get_conn ConnectionPool.get
gets_agree p [] e open_still = rw (e, open_still) (refl, refl)
gets_agree p (conn ∷ rest) e open_still = rw e (refl, open_still)

releases_agree : (p : Pool) (conn : ℕ) → p.conns.is_shut ≡ false → Agrees (releases conn) p
unfolding go_call python_call release_conn send ConnectionPool.release_conn ConnectionPool.put
releases_agree p conn open_still =
    elim (Bool-cases (ltb (length p.conns.buffer) p.conns.capacity)) [
      | inl room ↦ rw (open_still, room) (refl, refl)
      | inr none_left ↦ rw (open_still, none_left) (refl, refl)
    ]

call-Agrees : (c : Call) (p : Pool) → p.conns.is_shut ≡ false → Agrees c p
call-Agrees gets p still = gets_agree p p.conns.buffer refl still
call-Agrees (releases conn) p still = releases_agree p conn still
call-Agrees (executes conn) p still =
    unfold go_call python_call execute ConnectionPool.execute in (refl, still)

-- Calls one after the other, with what each gives.
pub go_run : List Call → Pool → Pool × List Answer
unfolding go_call
go_run [] p = (p, [])
go_run (c ∷ cs) p =
    let (next, answer) = go_call c p in
    let (end, answers) = go_run cs next in (end, answer ∷ answers)

pub python_run : List Call → ConnectionPool.Pool → ConnectionPool.Pool × List Answer
unfolding python_call
python_run [] p = (p, [])
python_run (c ∷ cs) p =
    let (next, answer) = python_call c p in
    let (end, answers) = python_run cs next in (end, answer ∷ answers)

runs_agree :
    (cs : List Call) (p : Pool)
    → p.conns.is_shut ≡ false
    → (python_run cs (python p) ≡ (python (go_run cs p).0, (go_run cs p).1))
      × ((go_run cs p).0.conns.is_shut ≡ false)
unfolding go_run python_run
runs_agree [] p still = (refl, still)
runs_agree (c ∷ cs) p still =
    let (same, still_open) = call-Agrees c p still in
    let (later, end) = runs_agree cs (go_call c p).0 still_open in
    (
      ap
            (λ (r : ConnectionPool.Pool × Answer).
              ((python_run cs r.0).0, r.1 ∷ (python_run cs r.0).1))
            same
          ∙ ap (λ (r : ConnectionPool.Pool × List Answer). (r.0, (go_call c p).1 ∷ r.1)) later,
      end,
    )

closed_alike :
    (items : List ℕ) (h : Heap)
    → ConnectionPool.close_items items (python_world h) ≡ python_world (close_all items h)
unfolding ConnectionPool.close_items ConnectionPool.close_connection close_all close_conn
closed_alike [] h = refl
closed_alike (conn ∷ rest) h = closed_alike rest (close_conn conn h)

close_agrees :
    (p : Pool)
    → p.conns.is_shut ≡ false
    → (end : Pool) × (close p ≡ some end)
      × (end.conns.is_shut ≡ true)
      × (end.conns.buffer ≡ [])
      × (python end ≡ ConnectionPool.close (python p))
unfolding close shut ConnectionPool.close
close_agrees p still = (
  record p {
    conns = record p.conns { buffer = []; is_shut = true };
    heap = close_all p.conns.buffer p.heap;
  },
  rw still refl,
  refl,
  refl,
  ap
      (λ (w : ConnectionPool.World). record (python p) {
        queue = record (python p).queue { items = [] };
        world = w;
      })
      (sym (closed_alike p.conns.buffer p.heap)),
)

-- For a positive size `NewPool` and the constructor of pool.py make the same pool, and any `Get`,
-- `Release` and `Execute` on the one give what they give on the other. Closed after that, the two
-- pools have closed the same connections and hold none any more, and only the one of pool.go is
-- shut, which the other cannot be. A panic counts as an exception.
pub calls_agree :
    (k : ℕ) (h : Heap) (cs : List Call)
    → (p : Pool) × (new_pool (pos (suc k)) h ≡ made p)
      × (ConnectionPool.create ConnectionPool.connect (pos (suc k)) (python_world h)
          ≡ ConnectionPool.created (python p))
      × ((go_run cs p).1 ≡ (python_run cs (python p)).1)
      × ((end : Pool) × (close (go_run cs p).0 ≡ some end)
          × (end.conns.is_shut ≡ true)
          × (end.conns.buffer ≡ [])
          × (python end ≡ ConnectionPool.close (python_run cs (python p)).0))
calls_agree k h cs =
    let (p, go, py, still) = makes k h in
    let (same, still_open) = runs_agree cs p still in
    let (end, shuts, is_shut, emptied, alike) = close_agrees (go_run cs p).0 still_open in
    (
      p,
      go,
      py,
      sym (ap (λ (r : ConnectionPool.Pool × List Answer). r.1) same),
      (
        end,
        shuts,
        is_shut,
        emptied,
        alike ∙ ap (λ (r : ConnectionPool.Pool × List Answer). ConnectionPool.close r.0) (sym same),
      ),
    )
