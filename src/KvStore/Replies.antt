-- ===== src/KvStore/Replies.antt =====
-- What a client of kv-store/app/main.py sees: the answers of GET after PUT and DELETE.
use the_grind.Prelude.{
  ℕ, suc, ◌+◌, ◌≤◌, String, ◌≡◌, ◌≢◌, ap, ◌⊎◌, inl, inr, true, false, Option, none, some, ℤ, pos,
  ltb, if◌then◌else◌, arith, str_eq, eq_iff, eq_refl,
}
use the_grind.KvStore.Models.{PutRequest, Response, value_response, not_found, Row}
use the_grind.KvStore.Engine.{Engine}
use the_grind.KvStore.Pools.{Pool, get_primary_pool}
use the_grind.KvStore.Handlers.{
  done, App, write, expire_at, is_alive, put_key, get_key, select_row, row_response,
}

-- What has expired or is deleted stays so.
is_alive_earlier :
    (now later : ℕ) (r : Row) → now ≤ later → is_alive later r ≡ true → is_alive now r ≡ true
unfolding is_alive
is_alive_earlier now later r h e = ground arith

module _ (E : Engine) where
  -- GET /keys/{key}?consistent=true
  abbrev pub get_consistent : String → ℕ → App E → Response
  get_consistent key now app = (get_key E key true (λ i. false) now done app).1

  pub get_consistent_lem :
      (key : String) (now : ℕ) (app : App E) (pool : Pool)
      → app.pools.primary_pool ≡ some pool
      → get_consistent key now app ≡ row_response key (select_row E key now (app.tables pool.port))
  unfolding get_key get_primary_pool
  get_consistent_lem key now app pool e = rw e

  abbrev pub alive_row : ℕ → Row → Option Row
  alive_row now r = if is_alive now r then some r else none

  pub select-upsert :
      (k j : String) (r : Row) (now : ℕ) (t : E.Table)
      → select_row E j now (E.upsert k r t)
        ≡ (if str_eq k j then alive_row now r else select_row E j now t)
  unfolding select_row
  select-upsert k j r now t = rw (select_row, E.find-upsert k j r t) (ground arith)

  pub tables_write : (port : ℕ) (t : E.Table) (app : App E) → (write E port t app).tables port ≡ t
  tables_write port t app = ground arith

  abbrev pub written_row : PutRequest → ℕ → Row
  written_row body now = record { value = body.value; expire_at = expire_at now body.ttl }

  put_key_done :
      (key : String) (body : PutRequest) (now : ℕ) (app : App E) (pool : Pool)
      → app.pools.primary_pool ≡ some pool
      → E.fits key (written_row body now) ≡ true
      → put_key E key body now done app ≡ (
        write E pool.port (E.upsert key (written_row body now) (app.tables pool.port)) app,
        value_response (record { key = key; value = body.value }),
      )
  unfolding put_key get_primary_pool
  put_key_done key body now app pool e f = rw (e, f)

  found_expiry :
      (key v : String) (now later ttl : ℕ)
      → row_response key
          (alive_row later (record { value = v; expire_at = expire_at now (some (pos (suc ttl))) }))
        ≡ (if ltb later (now + suc ttl)
            then value_response (record { key = key; value = v })
            else not_found)
  unfolding is_alive expire_at
  found_expiry key v now later ttl = ground arith

  found_forever :
      (key v : String) (now later : ℕ) (ttl : Option ℤ)
      → (ttl ≡ none) ⊎ (ttl ≡ some (pos 0))
      → row_response key (alive_row later (record { value = v; expire_at = expire_at now ttl }))
        ≡ value_response (record { key = key; value = v })
  unfolding is_alive expire_at
  found_forever key v now later ttl (inl e) = rw e (ground arith)
  found_forever key v now later ttl (inr e) = rw e (ground arith)

  -- The consistent GET of any key after a PUT that was done.
  get_after_put :
      (k j : String) (body : PutRequest) (now later : ℕ) (app : App E) (pool : Pool)
      → app.pools.primary_pool ≡ some pool
      → E.fits k (written_row body now) ≡ true
      → get_consistent j later (put_key E k body now done app).0
        ≡ row_response j (
            if str_eq k j
            then alive_row later (written_row body now)
            else select_row E j later (app.tables pool.port))
  get_after_put k j body now later app pool e f = rw (
    put_key_done k body now app pool e f,
    get_consistent_lem j later
        (write E pool.port (E.upsert k (written_row body now) (app.tables pool.port)) app) pool e,
    tables_write pool.port (E.upsert k (written_row body now) (app.tables pool.port)) app,
    select-upsert k j (written_row body now) later (app.tables pool.port),
  )

  module _ (key : String) (body : PutRequest) (now : ℕ) (app : App E) (pool : Pool)
      (up : app.pools.primary_pool ≡ some pool)
      (fits : E.fits key (written_row body now) ≡ true) where
    -- A PUT with a positive `ttl` answers with the key and the value, and a consistent GET at any
    -- time returns that value exactly while it is earlier than the PUT's time plus `ttl`, and 404
    -- after.
    put_expiry :
        (ttl : ℕ)
        → body.ttl ≡ some (pos (suc ttl))
        → (later : ℕ)
        → ((put_key E key body now done app).1
            ≡ value_response (record { key = key; value = body.value }))
          × (get_consistent key later (put_key E key body now done app).0 ≡ (
              if ltb later (now + suc ttl)
              then value_response (record { key = key; value = body.value })
              else not_found))
    put_expiry ttl e later = (
      ap (λ (x : App E × Response). x.1) (put_key_done key body now app pool up fits),
      rw (get_after_put key key body now later app pool up fits, eq_refl key, e)
          (found_expiry key body.value now later ttl),
    )

    -- A PUT with no `ttl` or with `ttl` 0 stores the value for good: every later consistent GET
    -- returns it.
    put_forever :
        (body.ttl ≡ none) ⊎ (body.ttl ≡ some (pos 0))
        → (later : ℕ)
        → get_consistent key later (put_key E key body now done app).0
          ≡ value_response (record { key = key; value = body.value })
    put_forever e later =
        rw (get_after_put key key body now later app pool up fits, eq_refl key)
          (found_forever key body.value now later body.ttl e)

    -- A PUT of one key changes no consistent GET of another.
    put_key_ne :
        (j : String) (later : ℕ)
        → key ≢ j
        → get_consistent j later (put_key E key body now done app).0 ≡ get_consistent j later app
    put_key_ne j later h =
        let other : str_eq key j ≡ false = ground (arith, eq_iff key j) in
        rw (
          get_after_put key j body now later app pool up fits,
          other,
          get_consistent_lem j later app pool up,
        )
