-- ===== src/Tests/Settings.antt =====
-- The theorems on the configuration, the pool and the lifespan at concrete inputs.
use transaction_safe_bidding.Prelude.{
  ◌≤◌, ◌<◌, ◌≡◌, refl, true, false, Option, none, some, arith, if◌then◌else◌, Text, text_eq,
}
use mathlib.Core.Logic.{◌↔◌}
use transaction_safe_bidding.Prelude.{codes, pos, decimal, decimal_on}
use transaction_safe_bidding.Domain.Errors.{ok, err, pool_timeout}
use transaction_safe_bidding.Db.Strategies.{BidStrategy, strategy_from_name}
use transaction_safe_bidding.Db.Sequential.Refinement.{IsUsable}
use transaction_safe_bidding.Db.Pool.{
  Connection, PoolOptions, create_pool, IsConfigured, create_pool-IsConfigured,
}
use transaction_safe_bidding.Config.Settings.{
  Float, finite, float_leb_zero, starts_with, has_protocol, is_strategy, Settings, settings,
}
use transaction_safe_bidding.Config.Environment.{Environment, from_env}
use transaction_safe_bidding.Config.Laws.{IsValid, fields_of, settings_iff}
use transaction_safe_bidding.Config.Reading.{Says, from_env-IsUsable, from_env-Says}
use transaction_safe_bidding.Api.App.{Startup, Runs, lifespan, lifespan-Runs}

abbrev five : Float
five = finite false 5 (pos 0)

-- `float` on the one text that is used here.
abbrev float : Text → Option Float
float text = if text_eq text (codes "5.0") then some five else none

abbrev sample : Settings
sample = record {
  database_url = codes "postgres://db";
  bid_strategy = codes "optimistic";
  pool_min_size = 2;
  pool_max_size = 12;
  pool_timeout_seconds = five;
  lock_timeout_ms = 750;
  statement_timeout_ms = 3_000;
  optimistic_max_attempts = 7;
}

abbrev environment : Environment
environment name =
    if text_eq name (codes "DATABASE_URL")
    then some (codes "postgres://db")
    else if text_eq name (codes "BID_STRATEGY")
    then some (codes "optimistic")
    else if text_eq name (codes "DB_POOL_MIN_SIZE")
    then some (codes "2")
    else if text_eq name (codes "DB_POOL_MAX_SIZE")
    then some (codes "12")
    else if text_eq name (codes "DB_POOL_TIMEOUT_SECONDS")
    then some (codes "5.0")
    else if text_eq name (codes "DB_LOCK_TIMEOUT_MS")
    then some (codes "750")
    else if text_eq name (codes "DB_STATEMENT_TIMEOUT_MS")
    then some (codes "3000")
    else if text_eq name (codes "OPTIMISTIC_MAX_ATTEMPTS")
    then some (codes "7")
    else none

sample-IsValid : IsValid sample
unfolding has_protocol starts_with is_strategy float_leb_zero
sample-IsValid = record {
  protocol = refl;
  strategy = refl;
  pool = (omega arith, omega arith);
  timeouts = (omega arith, omega arith, refl);
  attempts = omega arith;
}

environment-Says : Says float environment sample
unfolding decimal decimal_on
environment-Says = record {
  url = refl;
  strategy = refl;
  pool_min = (refl, omega arith);
  pool_max = (refl, omega arith);
  timeout = (codes "5.0", refl, refl);
  lock = (refl, omega arith);
  statement = (refl, omega arith);
  attempts = (refl, omega arith);
}

settings_iff_example :
    (settings (fields_of sample) ≡ ok sample)
    ↔ (IsValid sample × (fields_of sample ≡ fields_of sample))
settings_iff_example = settings_iff (fields_of sample) sample

sample_made : settings (fields_of sample) ≡ ok sample
sample_made = (settings_iff (fields_of sample) sample).1 (sample-IsValid, refl)

from_env-Says_example : from_env float environment ≡ ok sample
from_env-Says_example = from_env-Says float environment sample sample-IsValid environment-Says

sample_read : from_env float environment ≡ ok sample
sample_read = from_env-Says float environment sample sample-IsValid environment-Says

from_env-IsUsable_example :
    IsValid sample
    × (strategy : BidStrategy) × (strategy_from_name (codes "optimistic") 7 ≡ ok strategy)
    × IsUsable strategy
from_env-IsUsable_example = from_env-IsUsable float environment sample sample_read

-- A connection as the driver makes it.
abbrev connection : Connection
connection = record {
  isolation_level = none;
  parameters = λ name. codes "0";
  kept = λ name. codes "0";
  in_transaction = false;
}

abbrev pool : PoolOptions
pool = create_pool sample (codes "bidding-db")

create_pool-IsConfigured_example :
    (0 < pool.min_size)
    × (pool.min_size ≤ pool.max_size)
    × (float_leb_zero pool.timeout ≡ false)
    × (0 < 750)
    × (0 < 3_000)
    × IsConfigured sample (pool.configure connection)
    × ((pool.configure connection).kept (codes "work_mem") ≡ codes "0")
create_pool-IsConfigured_example =
    create_pool-IsConfigured (fields_of sample) sample (codes "bidding-db") (codes "work_mem")
      connection sample_made refl refl refl

-- The migrations fail.
abbrev startup : Startup
startup = record { open_pool = ok tt; migrate = err pool_timeout; serve = ok tt }

lifespan-Runs_example :
    (strategy : BidStrategy) × (strategy_from_name (codes "optimistic") 7 ≡ ok strategy)
    × IsUsable strategy
    × Runs strategy true startup (lifespan sample true startup)
lifespan-Runs_example = lifespan-Runs (fields_of sample) sample true startup sample_made
