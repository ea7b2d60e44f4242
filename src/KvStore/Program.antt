-- ===== src/KvStore/Program.antt =====
-- The application of kv-store/app from the startup of its `lifespan` to the shutdown:
-- `init_pools`, the requests and the rounds of the cleanup task in the order of their statements,
-- and `close_pools`.
use the_grind.Prelude.{
  ℕ, ◌+◌, ◌%◌, ◌<◌, String, ◌≡◌, refl, ◌∙◌, ap, Bool, true, false, Option, some, List, [], ◌∷◌, inl,
  inr, Bool-cases, arith,
}
use the_grind.KvStore.Models.{PutRequest, Response}
use the_grind.KvStore.Engine.{Engine}
use the_grind.KvStore.Pools.{
  Pool, Pools, Result, ok, raised, no_pools, init_pools, close_pools, get_replica_pool,
}
use the_grind.KvStore.Pools.RoundRobin.{serving, pool_at, init-close, get_replica_pool-serving}
use the_grind.KvStore.Handlers.{Fate, done, not_run, answer_lost, App, put_key, get_key}
use the_grind.KvStore.Requests.{
  Request, put, get, delete, clean, Event, serve, run, Fulfils, Timely, effect,
}
use the_grind.KvStore.Sees.{meaning}
use the_grind.KvStore.Answers.{accepts, put_key_lem, delete_key_lem}
use the_grind.KvStore.Cleanup.{cleanup_writes}
use the_grind.KvStore.Refinement.{run-Fulfils}

pub data Lifetime : Type 0 where
  -- `init_pools` raised, and left these pools open
  not_started : Pools → Lifetime
  -- the answers, the module's pools at the end, and those that were closed
  stopped : List (Option Response) → Pools → List Pool → Lifetime

module _ (E : Engine) where
  unfoldable pub app_after : List Event → App E → App E
  unfolding serve
  app_after [] app = app
  app_after (e ∷ events) app = app_after events (serve E e.request e.now e.fate app).0

  abbrev at_startup : Pools → (ℕ → E.Table) → App E
  at_startup pools tables = record { pools = pools; tables = tables }

  abbrev until_shutdown : List Event → App E → Lifetime
  until_shutdown events app =
      let (pools, closed) = close_pools (app_after events app).pools in
      stopped (run E events app) pools closed

  -- `yield`s if `init_pools` raised nothing.
  abbrev from_startup : List Event → (ℕ → E.Table) → Pools × Result (Unit {0}) → Lifetime
  from_startup events tables (pools, raised e) = not_started pools
  from_startup events tables (pools, ok u) = until_shutdown events (at_startup pools tables)

  pub lifetime : (ℕ → Bool) → (ℕ → E.Table) → List Event → Lifetime
  unfolding init_pools close_pools
  lifetime connects tables events = from_startup events tables (init_pools connects no_pools)

  module _ (primary : Pool) (a b : Pool) where
    abbrev replicas : List Pool
    replicas = a ∷ b ∷ []

    -- The three pools stay, and only the turn moves on.
    abbrev IsServing : App E → Type 0
    IsServing app = (i : ℕ) × (i < 2) × (app.pools ≡ serving primary replicas i)

    up :
        (i : ℕ) (app : App E)
        → app.pools ≡ serving primary replicas i
        → app.pools.primary_pool ≡ some primary
    up i app e = ap (λ (p : Pools). p.primary_pool) e

    effect_pools :
        (fate : Fate) (next app : App E)
        → next.pools ≡ app.pools
        → (effect fate next app).pools ≡ app.pools
    effect_pools done next app e = e
    effect_pools not_run next app e = refl
    effect_pools answer_lost next app e = e

    put_key_pools :
        (key : String) (body : PutRequest) (now : ℕ) (fate : Fate) (app : App E)
        → app.pools.primary_pool ≡ some primary
        → (put_key E key body now fate app).0.pools ≡ app.pools
    put_key_pools key body now fate app e =
        rw (put_key_lem E primary app now e key body fate)
          (elim (Bool-cases (accepts E key body now)) [
            | inl fits ↦ rw fits (effect_pools fate _ app refl)
            | inr unfit ↦ rw unfit refl
          ])

    serve-IsServing :
        (request : Request) (now : ℕ) (fate : Fate) (app : App E)
        → IsServing app
        → IsServing (serve E request now fate app).0
    unfolding serve get_key
    serve-IsServing (put key body) now fate app (i, lt, e) =
        (i, lt, put_key_pools key body now fate app (up i app e) ∙ e)
    serve-IsServing (get key true healthy) now fate app h = h
    serve-IsServing (get key false healthy) now fate app (i, lt, e) = (
      (i + 1) % 2,
      omega arith,
      ap (λ (p : Pools). (get_replica_pool healthy p).0) e
          ∙ ap (λ (r : Pools × Result Pool). r.0)
              (get_replica_pool-serving healthy primary replicas i (omega arith)),
    )
    serve-IsServing (delete key) now fate app (i, lt, e) = (
      i,
      lt,
      rw (delete_key_lem E primary app now (up i app e) key fate)
          (effect_pools fate _ app refl ∙ e),
    )
    serve-IsServing clean now fate app (i, lt, e) = (
      i,
      lt,
      (elim (cleanup_writes E now app primary (up i app e) fate) [
        | inl same ↦ rw same refl
        | inr wrote ↦ rw wrote refl
      ])
          ∙ e,
    )

    app_after-IsServing :
        (events : List Event) (app : App E) → IsServing app → IsServing (app_after events app)
    unfolding app_after
    app_after-IsServing [] app h = h
    app_after-IsServing (e ∷ events) app h =
        app_after-IsServing events (serve E e.request e.now e.fate app).0
          (serve-IsServing e.request e.now e.fate app h)

    closes_all :
        (app : App E) → IsServing app → close_pools app.pools ≡ (no_pools, primary ∷ replicas)
    unfolding close_pools
    closes_all app (i, lt, e) = rw e refl

  -- If all three servers can be reached at startup, then the application serves any requests and
  -- cleanup rounds at times that do not run backwards as a map from keys to values with deadlines
  -- would, whatever becomes of their statements (a GET of a replica is promised nothing, and no
  -- PUT has a `ttl` that counts back to the epoch), and at shutdown it closes exactly the three
  -- pools, once each, and has none left. The map starts as the table behind the primary's port
  -- reads.
  pub lifetime-Fulfils :
      (connects : ℕ → Bool) (tables : ℕ → E.Table) (now : ℕ) (events : List Event)
      → connects 5432 ≡ true
      → connects 5433 ≡ true
      → connects 5434 ≡ true
      → Timely now events
      → (answers : List (Option Response)) × (lifetime connects tables events
          ≡ stopped answers no_pools
              (pool_at 5432 5 20 ∷ pool_at 5433 2 10 ∷ pool_at 5434 2 10 ∷ []))
        × Fulfils (accepts E) events (λ key. meaning (E.find? (tables 5432) key)) answers
  unfolding lifetime
  lifetime-Fulfils connects tables now events c c' c'' timely =
      let primary = pool_at 5432 5 20 in
      let a = pool_at 5433 2 10 in
      let b = pool_at 5434 2 10 in
      let app = at_startup (serving primary (a ∷ b ∷ []) 0) tables in
      (
        run E events app,
        ap (from_startup events tables) (init-close connects c c' c'').0
            ∙ ap (λ (end : Pools × List Pool). stopped (run E events app) end.0 end.1)
                (closes_all primary a b (app_after events app)
                  (app_after-IsServing primary a b events app (0, omega arith, refl))),
        run-Fulfils E primary app now events refl timely,
      )
