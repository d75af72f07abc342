-- ===== src/Config/Settings.antt =====
-- `Settings` of src/bidding/config.py and the checks of its constructor.
use transaction_safe_bidding.Prelude.{
  ℕ, Bool, true, false, not, ◌&&◌, ◌||◌, [], ◌∷◌, ltb, leb, ◌==◌, if◌then◌else◌, Text, text_eq,
}
use transaction_safe_bidding.Prelude.{codes, ℤ, pos, negsuc}
use transaction_safe_bidding.Domain.Errors.{value_error, Result, ok, err, ◌>>=◌, ◌>>◌, raise_if}
use transaction_safe_bidding.Db.Strategies.{name_unsafe, name_pessimistic, name_optimistic}

-- A `float`: not a number, an infinity with its sign (`true` is minus), or a sign, a significand and
-- an exponent.
pub data Float : Type 0 where
  nan : Float
  infinity : Bool → Float
  finite : Bool → ℕ → ℤ → Float

-- `value <= 0`, which is false for what is not a number.
unfoldable pub float_leb_zero : Float → Bool
float_leb_zero nan = false
float_leb_zero (infinity minus) = minus
float_leb_zero (finite minus significand exponent) = minus || significand == 0

-- `text.startswith(prefix)`
unfoldable pub starts_with : Text → Text → Bool
starts_with [] text = true
starts_with (c ∷ prefix) [] = false
starts_with (c ∷ prefix) (d ∷ text) = c == d && starts_with prefix text

-- The arguments of the constructor.
pub record SettingsFields : Type 0 where
  pub database_url : Text
  pub bid_strategy : Text
  pub pool_min_size : ℤ
  pub pool_max_size : ℤ
  pub pool_timeout_seconds : Float
  pub lock_timeout_ms : ℤ
  pub statement_timeout_ms : ℤ
  pub optimistic_max_attempts : ℤ

-- The checked settings, with counts that are no longer negative.
pub record Settings : Type 0 where
  pub database_url : Text
  pub bid_strategy : Text
  pub pool_min_size : ℕ
  pub pool_max_size : ℕ
  pub pool_timeout_seconds : Float
  pub lock_timeout_ms : ℕ
  pub statement_timeout_ms : ℕ
  pub optimistic_max_attempts : ℕ

-- `name in VALID_STRATEGIES`
unfoldable pub is_strategy : Text → Bool
is_strategy name =
    text_eq name name_unsafe || text_eq name name_pessimistic || text_eq name name_optimistic

unfoldable pub has_protocol : Text → Bool
unfolding starts_with
has_protocol url = starts_with (codes "postgresql://") url || starts_with (codes "postgres://") url

-- `value <= 0` raises.
unfoldable pub require_positive : ℤ → Result ℕ
require_positive (pos n) = if leb n 0 then err value_error else ok n
require_positive (negsuc n) = err value_error

-- `Settings.__post_init__`
unfoldable pub settings : SettingsFields → Result Settings
unfolding has_protocol is_strategy require_positive float_leb_zero
settings f = do
  raise_if (not (has_protocol f.database_url)) value_error
  raise_if (not (is_strategy f.bid_strategy)) value_error
  pool_min ← require_positive f.pool_min_size
  pool_max ← require_positive f.pool_max_size
  lock ← require_positive f.lock_timeout_ms
  statement ← require_positive f.statement_timeout_ms
  attempts ← require_positive f.optimistic_max_attempts
  raise_if (float_leb_zero f.pool_timeout_seconds) value_error
  raise_if (ltb pool_max pool_min) value_error
  ok (record {
    database_url = f.database_url;
    bid_strategy = f.bid_strategy;
    pool_min_size = pool_min;
    pool_max_size = pool_max;
    pool_timeout_seconds = f.pool_timeout_seconds;
    lock_timeout_ms = lock;
    statement_timeout_ms = statement;
    optimistic_max_attempts = attempts;
  })
