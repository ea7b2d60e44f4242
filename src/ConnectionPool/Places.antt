-- ===== src/ConnectionPool/Places.antt =====
-- Where the connections of a pool of connection-pooling/pool.py are while workers share it.
use the_grind.Prelude.{
  ℕ, suc, ◌+◌, ◌≤◌, ◌<◌, ◌≡◌, refl, ap, pos, ◌&&◌, some, [], ◌∷◌, length, ◌==◌, if◌then◌else◌,
  update, arith, length-append, count_if, count_if-append, sum_below, sum_below-update,
  sum_below-zero, subst,
}
use the_grind.ConnectionPool.{
  World, Pool, connect, create, created, close_connection, execute, get_conn, release_conn,
}
use the_grind.ConnectionPool.Create.{
  is_fresh, count_fresh_ids, length-fresh_ids, Filled, empty_pool, create_lem,
}
use the_grind.ConnectionPool.Threads.{
  Pc, outside, wanting, holding, used, timed_out, crashed, Main, draining, seen_some, closed,
  queue_empty, System, executed, Step, asks, gets, gives_up, executes, releases, begins_close,
  sees_some, drains, finds_none, ends_close, Reach, here, next, start,
}

-- The connection that a worker has.
abbrev pub has : ℕ → Pc → ℕ
has id (holding conn) = if conn == id then 1 else 0
has id (used conn) = if conn == id then 1 else 0
has id (crashed conn) = if conn == id then 1 else 0
has id _ = 0

abbrev pub has_any : Pc → ℕ
has_any (holding conn) = 1
has_any (used conn) = 1
has_any (crashed conn) = 1
has_any _ = 0

pub has_none : (id : ℕ) (p : Pc) → has_any p ≡ 0 → has id p ≡ 0
has_none id p e = ground arith

pub has-has_any : (id : ℕ) (p : Pc) → has id p ≡ 1 → has_any p ≡ 1
has-has_any id p e = ground arith

abbrev pub in_queue : ℕ → System → ℕ
in_queue id s = count_if (λ x. x == id) s.pool.queue.items

-- Every connection of the pool is in one place: in the queue, with one worker, or closed.
pub record Inv (c size n : ℕ) (s : System) : Type 0 where
  pub bound : s.pool.queue.maxsize ≡ size
  pub room : length s.pool.queue.items + sum_below has_any n s.pc ≤ size
  pub place :
      (id : ℕ)
      → in_queue id s
          + sum_below (has id) n s.pc
          + (if is_fresh c size id && s.pool.world.closed id then 1 else 0)
        ≡ (if is_fresh c size id then 1 else 0)

module _ (c size n : ℕ) {s : System} (inv : Inv c size n s) where
  open inv use {bound, room, place}

  -- A worker that moves between two places where it has the same connection, or none.
  moves :
      (i : ℕ) (p : Pc)
      → i < n
      → has_any p ≡ has_any (s.pc i)
      → ((id : ℕ) → has id p ≡ has id (s.pc i))
      → Inv c size n (record s { pc = update s.pc i p })
  moves i p lt same each = record {
    bound = bound;
    room = omega (arith, sum_below-update has_any n i s.pc p lt);
    place = λ id. omega (arith, place id, each id, sum_below-update (has id) n i s.pc p lt);
  }

  main_moves : (m : Main) → Inv c size n (record s { main = m })
  main_moves m = record { bound = bound; room = room; place = place }

  takes :
      (i conn : ℕ) (p : Pool)
      → i < n
      → s.pc i ≡ wanting
      → get_conn s.pool ≡ some (conn, p)
      → Inv c size n (record s { pool = p; pc = update s.pc i (holding conn) })
  unfolding get_conn
  takes i conn p lt e g = record {
    bound = ground (arith, bound);
    room = ground (arith, room, sum_below-update has_any n i s.pc (holding conn) lt);
    place = λ id. ground (arith, place id, sum_below-update (has id) n i s.pc (holding conn) lt);
  }

  returns :
      (i conn : ℕ) (p : Pool)
      → i < n
      → s.pc i ≡ used conn
      → release_conn conn s.pool ≡ some p
      → Inv c size n (record s { pool = p; pc = update s.pc i outside })
  unfolding release_conn
  returns i conn p lt e g = record {
    bound = ground (arith, bound);
    room = ground (
      arith,
      room,
      length-append s.pool.queue.items (conn ∷ []),
      sum_below-update has_any n i s.pc outside lt,
    );
    place = λ id. ground (
      arith,
      place id,
      count_if-append (λ x. x == id) s.pool.queue.items (conn ∷ []),
      sum_below-update (has id) n i s.pc outside lt,
    );
  }

  drained :
      (conn : ℕ) (p : Pool)
      → get_conn s.pool ≡ some (conn, p)
      → Inv c size n
          (record s { pool = record p { world = close_connection conn p.world }; main = draining })
  unfolding get_conn close_connection
  drained conn p g = record {
    bound = ground (arith, bound);
    room = ground (arith, room);
    place = λ id. ground (arith, place id);
  }

pub Step-Inv : (c size n : ℕ) {s t : System} → Step n s t → Inv c size n s → Inv c size n t
Step-Inv c size n (asks i lt e) inv = moves c size n inv i wanting lt (rw e) (λ id. rw e)
Step-Inv c size n (gets i conn p lt e g) inv = takes c size n inv i conn p lt e g
Step-Inv c size n (gives_up i lt e g) inv = moves c size n inv i timed_out lt (rw e) (λ id. rw e)
Step-Inv c size n {s} (executes i conn lt e) inv =
    moves c size n inv i (executed conn (execute conn s.pool.world)) lt (rw e (ground arith))
      (λ id. rw e (ground arith))
Step-Inv c size n (releases i conn p lt e g) inv = returns c size n inv i conn p lt e g
Step-Inv c size n (begins_close e) inv = main_moves c size n inv draining
Step-Inv c size n (sees_some e g) inv = main_moves c size n inv seen_some
Step-Inv c size n (finds_none e g) inv = main_moves c size n inv queue_empty
Step-Inv c size n (drains conn p e g) inv = drained c size n inv conn p g
Step-Inv c size n (ends_close e g) inv = main_moves c size n inv closed

pub created_Filled :
    (k : ℕ) (w : World) (q : Pool)
    → create connect (pos (suc k)) w ≡ created q
    → Filled (suc k) (empty_pool (suc k) w) q
created_Filled k w q e =
    let (q', e', f) = create_lem k w in
    let same : q' ≡ q = cc (e, e') in subst (Filled (suc k) (empty_pool (suc k) w)) same f

start-Inv :
    (k n : ℕ) (w : World) (q : Pool)
    → create connect (pos (suc k)) w ≡ created q
    → Inv w.counter (suc k) n (start q)
start-Inv k n w q e =
    let f = created_Filled k w q e in
    record {
      bound = f.maxsize;
      room = omega (
        arith,
        ap length f.items,
        length-fresh_ids w.counter (suc k),
        sum_below-zero has_any n (λ _. outside) (λ i. refl),
      );
      place = λ id. ground (
        arith,
        ap (count_if (λ (x : ℕ). x == id)) f.items,
        count_fresh_ids id w.counter (suc k),
        sum_below-zero (has id) n (λ _. outside) (λ i. refl),
        f.closed id,
      );
    }

-- The pool of a constructor call with a positive size, shared by `n` workers.
module _ (k n : ℕ) (w : World) (q : Pool) (made : create connect (pos (suc k)) w ≡ created q) where
  pub Reach-Inv : {s : System} → Reach n (start q) s → Inv w.counter (suc k) n s
  Reach-Inv here = start-Inv k n w q made
  Reach-Inv (next r st) = Step-Inv w.counter (suc k) n st (Reach-Inv r)
