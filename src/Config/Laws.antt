-- ===== src/Config/Laws.antt =====
-- Which settings are accepted, and what follows for the strategy that they name.
use transaction_safe_bidding.Prelude.{
  ℕ, ◌≤◌, ◌<◌, ◌≡◌, refl, ap, ◌∙◌, subst, true, false, not, arith, ltb,
}
use mathlib.Core.Logic.{◌↔◌}
use transaction_safe_bidding.Prelude.{ℤ, pos, negsuc}
use transaction_safe_bidding.Domain.Errors.{
  value_error, ok, bind-ok, raise_if-ok, ok-bind, ok-raise_if, eq_of_ok-eq,
}
use transaction_safe_bidding.Config.Settings.{
  float_leb_zero, SettingsFields, Settings, is_strategy, has_protocol, require_positive, settings,
}

-- What the settings promise.
pub record IsValid (s : Settings) : Type 0 where
  pub protocol : has_protocol s.database_url ≡ true
  pub strategy : is_strategy s.bid_strategy ≡ true
  pub pool : (0 < s.pool_min_size) × (s.pool_min_size ≤ s.pool_max_size)
  pub timeouts :
      (0 < s.lock_timeout_ms)
      × (0 < s.statement_timeout_ms)
      × (float_leb_zero s.pool_timeout_seconds ≡ false)
  pub attempts : 0 < s.optimistic_max_attempts

-- The arguments that the settings were made of.
abbrev pub fields_of : Settings → SettingsFields
fields_of s = record {
  database_url = s.database_url;
  bid_strategy = s.bid_strategy;
  pool_min_size = pos s.pool_min_size;
  pool_max_size = pos s.pool_max_size;
  pool_timeout_seconds = s.pool_timeout_seconds;
  lock_timeout_ms = pos s.lock_timeout_ms;
  statement_timeout_ms = pos s.statement_timeout_ms;
  optimistic_max_attempts = pos s.optimistic_max_attempts;
}

require_positive_iff : (z : ℤ) (n : ℕ) → (require_positive z ≡ ok n) ↔ ((z ≡ pos n) × (0 < n))
unfolding require_positive
require_positive_iff (pos m) n = (λ h. ground arith, λ h. ground arith)
require_positive_iff (negsuc m) n = (λ h. absurd (cc), λ h. absurd (cc))

pub positive : (n : ℕ) → 0 < n → require_positive (pos n) ≡ ok n
positive n h = (require_positive_iff (pos n) n).1 (refl, h)

abbrev made : SettingsFields → ℕ → ℕ → ℕ → ℕ → ℕ → Settings
made f pool_min pool_max lock statement attempts = record {
  database_url = f.database_url;
  bid_strategy = f.bid_strategy;
  pool_min_size = pool_min;
  pool_max_size = pool_max;
  pool_timeout_seconds = f.pool_timeout_seconds;
  lock_timeout_ms = lock;
  statement_timeout_ms = statement;
  optimistic_max_attempts = attempts;
}

abbrev Checked : SettingsFields → Settings → Type 0
Checked f s = IsValid s × (f ≡ fields_of s)

settings-Checked : (f : SettingsFields) (s : Settings) → settings f ≡ ok s → Checked f s
unfolding settings
settings-Checked f s h =
    let (url, h1) = raise_if-ok (not (has_protocol f.database_url)) value_error _ s h in
    let (name, h2) = raise_if-ok (not (is_strategy f.bid_strategy)) value_error _ s h1 in
    let (pool_min, min_is, h3) = bind-ok (require_positive f.pool_min_size) _ s h2 in
    let (pool_max, max_is, h4) = bind-ok (require_positive f.pool_max_size) _ s h3 in
    let (lock, lock_is, h5) = bind-ok (require_positive f.lock_timeout_ms) _ s h4 in
    let (statement, statement_is, h6) = bind-ok (require_positive f.statement_timeout_ms) _ s h5 in
    let (attempts, attempts_is, h7) = bind-ok (require_positive f.optimistic_max_attempts) _ s h6 in
    let (timeout, h8) = raise_if-ok (float_leb_zero f.pool_timeout_seconds) value_error _ s h7 in
    let (order, h9) = raise_if-ok (ltb pool_max pool_min) value_error _ s h8 in
    let least = (require_positive_iff f.pool_min_size pool_min).0 min_is in
    let most = (require_positive_iff f.pool_max_size pool_max).0 max_is in
    let locks = (require_positive_iff f.lock_timeout_ms lock).0 lock_is in
    let statements = (require_positive_iff f.statement_timeout_ms statement).0 statement_is in
    let turns = (require_positive_iff f.optimistic_max_attempts attempts).0 attempts_is in
    let whole : f ≡ fields_of (made f pool_min pool_max lock statement attempts) =
      ap (λ (z : ℤ). record f { pool_min_size = z }) least.0
      ∙ ap (λ (z : ℤ). record f { pool_min_size = pos pool_min; pool_max_size = z }) most.0
      ∙ ap
          (λ (z : ℤ). record f {
            pool_min_size = pos pool_min;
            pool_max_size = pos pool_max;
            lock_timeout_ms = z;
          })
          locks.0
      ∙ ap
          (λ (z : ℤ). record f {
            pool_min_size = pos pool_min;
            pool_max_size = pos pool_max;
            lock_timeout_ms = pos lock;
            statement_timeout_ms = z;
          })
          statements.0
      ∙ ap
          (λ (z : ℤ). record (fields_of (made f pool_min pool_max lock statement attempts)) {
            optimistic_max_attempts = z;
          })
          turns.0 in
    let same : made f pool_min pool_max lock statement attempts ≡ s =
      eq_of_ok-eq (made f pool_min pool_max lock statement attempts) s h9 in
    subst (Checked f) same (
      record {
        protocol = ground (arith, url);
        strategy = ground (arith, name);
        pool = (least.1, ground (arith, order));
        timeouts = (locks.1, statements.1, timeout);
        attempts = turns.1;
      },
      whole,
    )

settings-fields_of : (s : Settings) → IsValid s → settings (fields_of s) ≡ ok s
unfolding settings
settings-fields_of s v =
    ok-raise_if (not (has_protocol s.database_url)) value_error _ (ap not v.protocol)
    ∙ ok-raise_if (not (is_strategy s.bid_strategy)) value_error _ (ap not v.strategy)
    ∙ ok-bind (require_positive (pos s.pool_min_size)) _ s.pool_min_size
        (positive s.pool_min_size v.pool.0)
    ∙ ok-bind (require_positive (pos s.pool_max_size)) _ s.pool_max_size
        (positive s.pool_max_size (omega (arith, v.pool)))
    ∙ ok-bind (require_positive (pos s.lock_timeout_ms)) _ s.lock_timeout_ms
        (positive s.lock_timeout_ms v.timeouts.0)
    ∙ ok-bind (require_positive (pos s.statement_timeout_ms)) _ s.statement_timeout_ms
        (positive s.statement_timeout_ms v.timeouts.1)
    ∙ ok-bind (require_positive (pos s.optimistic_max_attempts)) _ s.optimistic_max_attempts
        (positive s.optimistic_max_attempts v.attempts)
    ∙ ok-raise_if (float_leb_zero s.pool_timeout_seconds) value_error _ v.timeouts.2
    ∙ ok-raise_if (ltb s.pool_max_size s.pool_min_size) value_error _ (ground (arith, v.pool.1))

-- The constructor returns settings exactly if they are the arguments, with every count positive, the
-- least size of the pool at most the greatest, a timeout that is not zero or less, a URL of one of the
-- two protocols, and the name of a strategy.
pub settings_iff :
    (f : SettingsFields) (s : Settings) → (settings f ≡ ok s) ↔ (IsValid s × (f ≡ fields_of s))
settings_iff f s = (settings-Checked f s, λ h. ap settings h.1 ∙ settings-fields_of s h.0)
