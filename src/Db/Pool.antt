-- ===== src/Db/Pool.antt =====
-- src/bidding/db/pool.py: the options of the pool and what is done to each of its connections. The pool
-- and the server are not part of the program; a connection has the parameters of its session as the
-- statements left them, and those that a rollback would bring back.
use transaction_safe_bidding.Prelude.{
  ℕ, ◌≤◌, ◌<◌, ◌≡◌, refl, Bool, true, false, Option, some, ◌++◌, if◌then◌else◌, Text, text_eq,
}
use transaction_safe_bidding.Prelude.{codes, decimal}
use transaction_safe_bidding.Domain.Errors.{ok}
use transaction_safe_bidding.Config.Settings.{
  Float, float_leb_zero, Settings, SettingsFields, settings,
}
use transaction_safe_bidding.Config.Laws.{settings_iff}

pub data IsolationLevel : Type 0 where
  read_uncommitted read_committed repeatable_read serializable : IsolationLevel

abbrev pub Parameters : Type 0
Parameters = Text → Text

pub record Connection : Type 0 where
  pub isolation_level : Option IsolationLevel
  pub parameters : Parameters
  pub kept : Parameters
  pub in_transaction : Bool

-- `SELECT set_config(name, value, false)` where `autocommit` is off.
unfoldable pub set_config : Text → Text → Connection → Connection
set_config name value c = record c {
  parameters = λ other. if text_eq other name then value else c.parameters other;
  in_transaction = true;
}

unfoldable pub commit : Connection → Connection
commit c = record c { kept = c.parameters; in_transaction = false }

unfoldable pub milliseconds : ℕ → Text
milliseconds n = decimal n ++ codes "ms"

-- `connection_configurer(settings)`
unfoldable pub configure : Settings → Connection → Connection
unfolding commit set_config milliseconds
configure s c = commit (
    set_config (codes "statement_timeout") (milliseconds s.statement_timeout_ms) (
      set_config (codes "lock_timeout") (milliseconds s.lock_timeout_ms) (
        set_config (codes "TimeZone") (codes "UTC")
          (record c { isolation_level = some read_committed }))))

-- The arguments of `ConnectionPool`, the callback applied to the settings.
pub record PoolOptions : Type 0 where
  pub conninfo : Text
  pub min_size : ℕ
  pub max_size : ℕ
  pub timeout : Float
  pub autocommit : Bool
  pub configure : Connection → Connection
  pub name : Text
  pub open_now : Bool

-- `create_pool`
unfoldable pub create_pool : Settings → Text → PoolOptions
unfolding configure
create_pool s name = record {
  conninfo = s.database_url;
  min_size = s.pool_min_size;
  max_size = s.pool_max_size;
  timeout = s.pool_timeout_seconds;
  autocommit = false;
  configure = configure s;
  name = name;
  open_now = false;
}

-- What the strategies rely on: READ COMMITTED, instants in UTC, bounded waits, and no transaction open.
pub record IsConfigured (s : Settings) (c : Connection) : Type 0 where
  pub isolation : c.isolation_level ≡ some read_committed
  pub zone : c.kept (codes "TimeZone") ≡ codes "UTC"
  pub lock : c.kept (codes "lock_timeout") ≡ milliseconds s.lock_timeout_ms
  pub statement : c.kept (codes "statement_timeout") ≡ milliseconds s.statement_timeout_ms
  pub idle : c.in_transaction ≡ false

-- The pool of settings that the constructor returns: it has between one connection and the greatest
-- size, and gives them out within a timeout that is not zero or less. Every connection that it has
-- configured reads committed rows, has UTC and both timeouts, positive numbers of milliseconds, for good,
-- and has no open transaction; its other parameters are as before.
pub create_pool-IsConfigured :
    (f : SettingsFields) (s : Settings) (name other : Text) (c : Connection)
    → settings f ≡ ok s
    → text_eq other (codes "TimeZone") ≡ false
    → text_eq other (codes "lock_timeout") ≡ false
    → text_eq other (codes "statement_timeout") ≡ false
    → (0 < (create_pool s name).min_size)
      × ((create_pool s name).min_size ≤ (create_pool s name).max_size)
      × (float_leb_zero (create_pool s name).timeout ≡ false)
      × (0 < s.lock_timeout_ms)
      × (0 < s.statement_timeout_ms)
      × IsConfigured s ((create_pool s name).configure c)
      × (((create_pool s name).configure c).kept other ≡ c.parameters other)
unfolding create_pool configure set_config commit
create_pool-IsConfigured f s name other c h zone lock statement =
    let (v, _) = (settings_iff f s).0 h in
    (
      v.pool.0,
      v.pool.1,
      v.timeouts.2,
      v.timeouts.0,
      v.timeouts.1,
      record { isolation = refl; zone = refl; lock = refl; statement = refl; idle = refl },
      rw (statement, lock, zone) refl,
    )
