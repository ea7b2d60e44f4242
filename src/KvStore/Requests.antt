-- ===== src/KvStore/Requests.antt =====
-- What the store of kv-store/app/main.py promises its clients: a map from keys to values with
-- deadlines, and the requests and cleanup rounds of a run in the order of their statements.
use the_grind.Prelude.{
  ℕ, ◌≤◌, String, ◌≡◌, Bool, true, false, Option, none, some, List, [], ◌∷◌, ℤ, pos, ◌+ℤ◌, lt_ℤ,
  eq_ℤ, if◌then◌else◌, str_eq,
}
use the_grind.KvStore.Models.{
  PutRequest, Response, value_response, success, server_error, not_found,
}
use the_grind.KvStore.Engine.{Engine}
use the_grind.KvStore.Handlers.{
  Fate, done, not_run, answer_lost, App, put_key, get_key, delete_key, cleanup,
}

pub data Request : Type 0 where
  put : String → PutRequest → Request
  get : String → Bool → (ℕ → Bool) → Request  -- `consistent`, and the health of the replicas
  delete : String → Request
  clean : Request  -- a round of `cleanup_loop`

-- A request with the clock's reading and the fate of its statement.
pub record Event : Type 0 where
  pub request : Request
  pub now : ℕ
  pub fate : Fate

module _ (E : Engine) where
  -- The answer to the client; a cleanup has none.
  unfoldable pub serve : Request → ℕ → Fate → App E → App E × Option Response
  unfolding put_key get_key delete_key cleanup
  serve (put key body) now fate app =
      let (next, answer) = put_key E key body now fate app in (next, some answer)
  serve (get key consistent healthy) now fate app =
      let (next, answer) = get_key E key consistent healthy now fate app in (next, some answer)
  serve (delete key) now fate app =
      let (next, answer) = delete_key E key now fate app in (next, some answer)
  serve clean now fate app = ((cleanup E now fate app).0, none)

  unfoldable pub run : List Event → App E → List (Option Response)
  unfolding serve
  run [] app = []
  run (e ∷ events) app =
      let (next, answer) = serve e.request e.now e.fate app in answer ∷ run events next

-- A value with its deadline; `none`: it has none.
pub record Entry : Type 0 where
  pub value : String
  pub deadline : Option ℤ

abbrev pub Store : Type 0
Store = String → Option Entry

abbrev pub before : ℕ → Option ℤ → Bool
before now none = true
before now (some deadline) = lt_ℤ (pos now) deadline

-- The value that a client sees.
abbrev pub visible : ℕ → Option Entry → Option String
visible now none = none
visible now (some entry) = if before now entry.deadline then some entry.value else none

abbrev pub assign : Store → String → Option Entry → Store
assign store key entry j = if str_eq key j then entry else store j

abbrev pub deadline_of : ℕ → Option ℤ → Option ℤ
deadline_of now none = none
deadline_of now (some ttl) = if eq_ℤ ttl (pos 0) then none else some (pos now +ℤ ttl)

abbrev pub entry_of : PutRequest → ℕ → Entry
entry_of body now = record { value = body.value; deadline = deadline_of now body.ttl }

abbrev pub value_reply : String → Option String → Response
value_reply key none = not_found
value_reply key (some value) = value_response (record { key = key; value = value })

abbrev pub deletion_reply : Option String → Response
deletion_reply none = not_found
deletion_reply (some value) = success

-- What a statement that was done or lost its answer leaves, and what a client gets.
abbrev pub effect {ℓ} : {A : Type ℓ} → Fate → A → A → A
effect done after before = after
effect not_run after before = before
effect answer_lost after before = after

abbrev pub reply : Fate → Response → Response
reply done r = r
reply not_run r = server_error
reply answer_lost r = server_error

-- The promise for each request: the store after it and the answer, where `none` promises nothing.
-- A GET of a replica may be stale, and a cleanup changes nothing. `accepts`: the database takes
-- the values.
abbrev pub promise :
    (String → PutRequest → ℕ → Bool) → Request → ℕ → Fate → Store → Store × Option Response
promise accepts (put key body) now fate store =
    if accepts key body now
    then (
      effect fate (assign store key (some (entry_of body now))) store,
      some (reply fate (value_reply key (some body.value))),
    )
    else (store, some server_error)
promise accepts (get key true healthy) now fate store =
    (store, some (reply fate (value_reply key (visible now (store key)))))
promise accepts (get key false healthy) now fate store = (store, none)
promise accepts (delete key) now fate store = (
  effect fate (assign store key none) store,
  some (reply fate (deletion_reply (visible now (store key)))),
)
promise accepts clean now fate store = (store, none)

-- Each answer is the promised one, where one is promised.
abbrev pub Honours : Option Response → Option Response → Type 0
Honours answer none = Unit
Honours answer (some promised) = answer ≡ some promised

abbrev pub Fulfils :
    (String → PutRequest → ℕ → Bool) → List Event → Store → List (Option Response) → Type 0
Fulfils accepts [] store answers = answers ≡ []
Fulfils accepts (e ∷ events) store [] = ⊥
Fulfils accepts (e ∷ events) store (answer ∷ answers) =
    Honours answer (promise accepts e.request e.now e.fate store).1
    × Fulfils accepts events (promise accepts e.request e.now e.fate store).0 answers

-- No PUT has a `ttl` that counts back to the very epoch, which the table reads as "never expires".
abbrev pub HasTrueDeadline : Request → ℕ → Type 0
HasTrueDeadline (put key body) now =
    (ttl : ℤ)
    → body.ttl ≡ some ttl
    → eq_ℤ ttl (pos 0) ≡ false
    → eq_ℤ (pos now +ℤ ttl) (pos 0) ≡ false
HasTrueDeadline (get key consistent healthy) now = Unit
HasTrueDeadline (delete key) now = Unit
HasTrueDeadline clean now = Unit

-- The clock does not run backwards from one statement to the next.
abbrev pub Timely : ℕ → List Event → Type 0
Timely now [] = Unit
Timely now (e ∷ events) = (now ≤ e.now) × HasTrueDeadline e.request e.now × Timely e.now events
