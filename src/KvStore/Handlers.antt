-- ===== src/KvStore/Handlers.antt =====
-- kv-store/app/main.py: the handlers of PUT, GET and DELETE and one round of the cleanup loop. The
-- time (`int(time.time())`), the health of the replicas and the fate of the statement are
-- arguments.
use the_grind.Prelude.{
  ℕ, String, Bool, true, false, ◌&&◌, ◌||◌, not, Option, none, some, List, ℤ, pos, negsuc, ◌+ℤ◌,
  lt_ℤ, le_ℤ, eq_ℤ, ltb, if◌then◌else◌, update,
}
use the_grind.KvStore.Models.{
  PutRequest, Response, value_response, success, server_error, not_found, Row,
}
use the_grind.KvStore.Status.{row_count, is_update_zero}
use the_grind.KvStore.Engine.{Engine}
use the_grind.KvStore.Pools.{Pool, Pools, Result, ok, raised, get_primary_pool, get_replica_pool}

-- What becomes of a statement: it is done, it raises and nothing was done (no connection, an error
-- of the server), or it was done and the answer got lost (the connection broke), which raises too.
pub data Fate : Type 0 where
  done not_run answer_lost : Fate

-- `(_now() + body.ttl) if body.ttl else 0`: None and 0 are both falsy.
unfoldable pub expire_at : ℕ → Option ℤ → ℤ
expire_at now none = pos 0
expire_at now (some ttl) = if eq_ℤ ttl (pos 0) then pos 0 else pos now +ℤ ttl

-- `expire_at > $2 OR expire_at = 0`
unfoldable pub is_alive : ℕ → Row → Bool
is_alive now r = lt_ℤ (pos now) r.expire_at || eq_ℤ r.expire_at (pos 0)

-- `expire_at != 0 AND expire_at <= $1`
unfoldable pub is_dead : ℕ → Row → Bool
is_dead now r = not (eq_ℤ r.expire_at (pos 0)) && le_ℤ r.expire_at (pos now)

-- `SET expire_at = -1`
unfoldable pub soft_delete : Row → Row
soft_delete r = record r { expire_at = negsuc 0 }

unfoldable pub alive_only : ℕ → Option Row → Option Row
unfolding is_alive
alive_only now none = none
alive_only now (some r) = if is_alive now r then some r else none

abbrev pub cleanup_batch_size : ℕ
cleanup_batch_size = 1000

-- What a round of the cleanup writes to the log.
pub data Report : Type 0 where
  deleted_rows : ℕ → Report
  quiet : Report
  cleanup_error : Report

-- What `SELECT key, value` gives of a row.
pub record Selected : Type 0 where
  pub key : String
  pub value : String

-- The row under a primary key, by its columns.
abbrev columns : String → Option Row → Option Selected
columns key none = none
columns key (some r) = some (record { key = key; value = r.value })

-- `if row is None: raise HTTPException(404)`, and `KVResponse(key=row["key"], value=row["value"])`
abbrev found_response : Option Selected → Response
found_response none = not_found
found_response (some row) = value_response (record { key = row.key; value = row.value })

abbrev pub row_response : String → Option Row → Response
row_response key found = found_response (columns key found)

-- `if result == "UPDATE 0": raise HTTPException(404)`
abbrev pub delete_answer : List ℕ → Response
delete_answer result = if is_update_zero result then not_found else success

-- `deleted = int(result.split()[-1])`, where a ValueError is caught as any exception is
abbrev pub report : Option ℕ → Report
report none = cleanup_error
report (some deleted) = if ltb 0 deleted then deleted_rows deleted else quiet

module _ (E : Engine) where
  -- The application's pools, and the table on the server behind each port.
  pub record App : Type 0 where
    pub pools : Pools
    pub tables : ℕ → E.Table

  abbrev pub write : ℕ → E.Table → App → App
  write port t app = record app { tables = update app.tables port t }

  abbrev upsert_on : Pool → String → Row → Fate → App → App × Bool
  upsert_on pool key row fate app =
      if E.fits key row
      then (elim fate [
        | done ↦ (write pool.port (E.upsert key row (app.tables pool.port)) app, true)
        | not_run ↦ (app, false)
        | answer_lost ↦ (write pool.port (E.upsert key row (app.tables pool.port)) app, false)
      ])
      else (app, false)

  abbrev pub answer : Response → App × Bool → App × Response
  answer response (app, true) = (app, response)
  answer response (app, false) = (app, server_error)

  unfoldable pub put_key : String → PutRequest → ℕ → Fate → App → App × Response
  unfolding get_primary_pool expire_at
  put_key key body now fate app = elim (get_primary_pool app.pools) [
    | raised e ↦ (app, server_error)
    | ok pool ↦ answer (value_response (record { key = key; value = body.value })) (
        upsert_on pool key (record { value = body.value; expire_at = expire_at now body.ttl }) fate
          app)
  ]

  -- `SELECT key, value FROM store WHERE key = $1 AND (expire_at > $2 OR expire_at = 0)`
  unfoldable pub select_row : String → ℕ → E.Table → Option Row
  unfolding alive_only
  select_row key now t = alive_only now (E.find? t key)

  abbrev read_from : String → ℕ → Fate → (ℕ → E.Table) → Result Pool → Response
  read_from key now fate tables (raised e) = server_error
  read_from key now done tables (ok pool) = row_response key (select_row key now (tables pool.port))
  read_from key now not_run tables (ok pool) = server_error
  read_from key now answer_lost tables (ok pool) = server_error

  -- `if consistent: ... else: ...` chooses the pool.
  unfoldable pub choose_pool : Bool → (ℕ → Bool) → Pools → Pools × Result Pool
  unfolding get_primary_pool get_replica_pool
  choose_pool true healthy p = (p, get_primary_pool p)
  choose_pool false healthy p = get_replica_pool healthy p

  unfoldable pub get_key : String → Bool → (ℕ → Bool) → ℕ → Fate → App → App × Response
  unfolding choose_pool select_row
  get_key key consistent healthy now fate app =
      let (pools, chosen) = choose_pool consistent healthy app.pools in
      (record app { pools = pools }, read_from key now fate app.tables chosen)

  unfoldable pub delete_key : String → ℕ → Fate → App → App × Response
  unfolding get_primary_pool is_alive soft_delete
  delete_key key now fate app = elim (get_primary_pool app.pools) [
    | raised e ↦ (app, server_error)
    | ok pool ↦
        let (t, n) = E.update_where key (is_alive now) soft_delete (app.tables pool.port) in
        elim fate [
          | done ↦ (write pool.port t app, delete_answer (E.status "UPDATE" n))
          | not_run ↦ (app, server_error)
          | answer_lost ↦ (write pool.port t app, server_error)
        ]
  ]

  -- One turn of `cleanup_loop` after its sleep: every exception is logged and dropped.
  unfoldable pub cleanup : ℕ → Fate → App → App × Report
  unfolding get_primary_pool is_dead
  cleanup now fate app = elim (get_primary_pool app.pools) [
    | raised e ↦ (app, cleanup_error)
    | ok pool ↦
        let (t, n) = E.delete_where (is_dead now) cleanup_batch_size (app.tables pool.port) in
        elim fate [
          | done ↦ (write pool.port t app, report (row_count (E.status "DELETE" n)))
          | not_run ↦ (app, cleanup_error)
          | answer_lost ↦ (write pool.port t app, cleanup_error)
        ]
  ]
