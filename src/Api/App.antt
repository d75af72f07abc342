-- ===== src/Api/App.antt =====
-- The lifespan of the application in src/bidding/api/app.py: what is done with the pool, and in which
-- order. What the calls of the pool, of the migrations and of the server come to is given.
use transaction_safe_bidding.Prelude.{
  ◌≡◌, refl, sym, subst, Bool, true, false, not, ◌&&◌, ◌||◌, Option, none, some, List, [], ◌∷◌,
  ◌++◌, if◌then◌else◌,
}
use transaction_safe_bidding.Domain.Errors.{Result, ok, err}
use transaction_safe_bidding.Db.Strategies.{BidStrategy, strategy_from_name}
use transaction_safe_bidding.Db.Sequential.Refinement.{IsUsable}
use transaction_safe_bidding.Config.Settings.{SettingsFields, Settings, settings}
use transaction_safe_bidding.Config.Laws.{settings_iff}
use transaction_safe_bidding.Config.Reading.{strategy_from_name-IsUsable}
use transaction_safe_bidding.Api.Service.{BiddingService}

-- `database_pool.open`, `migrate`, the time at the `yield` with the service on `application.state`,
-- and `database_pool.close`.
pub data Event : Type 0 where
  opening migrating closing : Event
  serving : BiddingService → Event

-- How the first three end.
pub record Startup : Type 0 where
  pub open_pool : Result (Unit {0})
  pub migrate : Result (Unit {0})
  pub serve : Result (Unit {0})

abbrev pub Run : Type 0
Run = Result (Unit {0}) × List Event

abbrev pub before : Event → Run → Run
before event (result, events) = (result, event ∷ events)

-- The strategy is looked up after the migrations; the pool and the repository are no state of their
-- own.
unfoldable pub serve_with : Result BidStrategy → Result (Unit {0}) → Run
serve_with (err e) served = (err e, [])
serve_with (ok strategy) served = (served, serving (record { bid_strategy = strategy }) ∷ [])

unfoldable pub after_migrations : Settings → Result (Unit {0}) → Result (Unit {0}) → Run
unfolding serve_with
after_migrations s (err e) served = (err e, [])
after_migrations s (ok u) served =
    serve_with (strategy_from_name s.bid_strategy s.optimistic_max_attempts) served

-- The body of `try`.
unfoldable pub try_body : Settings → Startup → Run
unfolding after_migrations
try_body s startup = before migrating (after_migrations s startup.migrate startup.serve)

-- `finally`
unfoldable pub finally_close : Bool → Run → Run
finally_close owns_pool (result, events) =
    (result, events ++ (if owns_pool then closing ∷ [] else []))

unfoldable pub after_open : Settings → Startup → Result (Unit {0}) → Run
unfolding try_body finally_close
after_open s startup (err e) = (err e, [])
after_open s startup (ok u) = finally_close true (try_body s startup)

-- `lifespan`; the flag says that no pool was given to `create_app`.
unfoldable pub lifespan : Settings → Bool → Startup → Run
unfolding after_open try_body finally_close
lifespan s true startup = before opening (after_open s startup startup.open_pool)
lifespan s false startup = finally_close false (try_body s startup)

abbrev pub is_ok : Result (Unit {0}) → Bool
is_ok (ok u) = true
is_ok (err e) = false

abbrev pub first_service : List Event → Option BiddingService
first_service [] = none
first_service (serving service ∷ events) = some service
first_service (event ∷ events) = first_service events

abbrev pub is_closing : Event → Bool
is_closing closing = true
is_closing _ = false

abbrev pub any : (Event → Bool) → List Event → Bool
any p [] = false
any p (event ∷ events) = p event || any p events

-- The pool is there when the body of `try` begins.
abbrev pub has_pool : Bool → Startup → Bool
has_pool owns_pool startup = not owns_pool || is_ok startup.open_pool

-- The events of a run: with which service it serves, if it does, and whether it ends with the pool closed.
pub record Runs (strategy : BidStrategy) (owns_pool : Bool) (startup : Startup) (run : Run)
    : Type 0 where
  pub serves : first_service run.1 ≡ (
      if has_pool owns_pool startup && is_ok startup.migrate
      then some (record { bid_strategy = strategy })
      else none)
  pub closes : any is_closing run.1 ≡ (owns_pool && is_ok startup.open_pool)
  pub succeeds :
      is_ok run.0 ≡ (has_pool owns_pool startup && is_ok startup.migrate && is_ok startup.serve)

runs :
    (s : Settings) (strategy : BidStrategy) (owns_pool : Bool)
    (opened migrated served : Result (Unit {0}))
    → strategy_from_name s.bid_strategy s.optimistic_max_attempts ≡ ok strategy
    → Runs strategy owns_pool
        (record { open_pool = opened; migrate = migrated; serve = served })
        (lifespan s owns_pool (record { open_pool = opened; migrate = migrated; serve = served }))
unfolding lifespan after_open try_body after_migrations finally_close serve_with
runs s strategy true (err e) migrated served h = record {
  serves = refl;
  closes = refl;
  succeeds = refl;
}
runs s strategy true (ok u) (err e) served h = record {
  serves = refl;
  closes = refl;
  succeeds = refl;
}
runs s strategy false opened (err e) served h = record {
  serves = refl;
  closes = refl;
  succeeds = refl;
}
runs s strategy true (ok u) (ok v) served h =
    subst
      (λ r.
        Runs strategy true (record { open_pool = ok u; migrate = ok v; serve = served })
          (before opening (finally_close true (before migrating (serve_with r served)))))
      (sym h) (record { serves = refl; closes = refl; succeeds = refl })
runs s strategy false opened (ok v) served h =
    subst
      (λ r.
        Runs strategy false (record { open_pool = opened; migrate = ok v; serve = served })
          (finally_close false (before migrating (serve_with r served))))
      (sym h) (record { serves = refl; closes = refl; succeeds = refl })

-- With settings that the constructor returns, and whatever the pool, the migrations and the server come
-- to: the application serves exactly if the pool that it owns opens and the migrations succeed, and then
-- with the strategy that the settings name; it closes the pool exactly if it owns it and it was opened,
-- whatever fails afterwards; and it ends without an exception exactly if nothing fails.
pub lifespan-Runs :
    (f : SettingsFields) (s : Settings) (owns_pool : Bool) (startup : Startup)
    → settings f ≡ ok s
    → (strategy : BidStrategy) × (strategy_from_name s.bid_strategy s.optimistic_max_attempts
        ≡ ok strategy)
      × IsUsable strategy
      × Runs strategy owns_pool startup (lifespan s owns_pool startup)
lifespan-Runs f s owns_pool startup h =
    let (v, _) = (settings_iff f s).0 h in
    let (strategy, named, usable) =
      strategy_from_name-IsUsable s.bid_strategy s.optimistic_max_attempts v.strategy v.attempts in
    (
      strategy,
      named,
      usable,
      runs s strategy owns_pool startup.open_pool startup.migrate startup.serve named,
    )
