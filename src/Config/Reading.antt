-- ===== src/Config/Reading.antt =====
-- What reading the environment gives: settings with a strategy, and the settings that were written.
use transaction_safe_bidding.Prelude.{
  ℕ, ◌≤◌, ◌<◌, ◌≡◌, refl, sym, ap, ◌∙◌, subst, inl, inr, true, false, Option, none, some, arith,
  Bool-cases, length, Text, text_eq, eq_of_text_eq,
}
use transaction_safe_bidding.Prelude.{codes, pos, int_of, decimal, max_digits}
use transaction_safe_bidding.Prelude.Decimal.RoundTrip.{int_of-decimal}
use transaction_safe_bidding.Domain.Errors.{value_error, ok, bind-ok, ok-bind, ok-raise_if}
use transaction_safe_bidding.Db.Strategies.{
  BidStrategy, unsafe, pessimistic, optimistic, optimistic_strategy, strategy_from_name,
  name_unsafe, name_pessimistic, name_optimistic,
}
use transaction_safe_bidding.Db.Sequential.Refinement.{IsUsable}
use transaction_safe_bidding.Config.Settings.{Float, float_leb_zero, Settings, is_strategy}
use transaction_safe_bidding.Config.Environment.{
  Environment, positive_int, positive_float, get_or, converted, lower, read_fields, from_env,
}
use transaction_safe_bidding.Config.Laws.{IsValid, fields_of, settings_iff, positive}

pub strategy_from_name-IsUsable :
    (name : Text) (n : ℕ)
    → is_strategy name ≡ true
    → 0 < n
    → (strategy : BidStrategy) × (strategy_from_name name n ≡ ok strategy) × IsUsable strategy
unfolding is_strategy strategy_from_name optimistic_strategy
strategy_from_name-IsUsable name n known enough = elim (Bool-cases (text_eq name name_unsafe)) [
  | inl is ↦ (unsafe, rw is refl, tt)
  | inr not_unsafe ↦ elim (Bool-cases (text_eq name name_pessimistic)) [
    | inl is ↦ (pessimistic, rw not_unsafe (rw is refl), tt)
    | inr not_pessimistic ↦
        (optimistic n, ground (arith, known, not_unsafe, not_pessimistic), enough)
  ]
]

-- Whatever the environment: settings that are read from it are valid, and name a strategy that the
-- application can build from them, with at least one attempt if it is the optimistic one.
pub from_env-IsUsable :
    (float : Text → Option Float) (environment : Environment) (s : Settings)
    → from_env float environment ≡ ok s
    → IsValid s
      × (strategy : BidStrategy) × (strategy_from_name s.bid_strategy s.optimistic_max_attempts
          ≡ ok strategy)
      × IsUsable strategy
unfolding from_env
from_env-IsUsable float environment s h =
    let (pool_min, _, h1) = bind-ok (positive_int environment (codes "DB_POOL_MIN_SIZE") 2) _ s h in
    let (pool_max, _, h2) =
      bind-ok (positive_int environment (codes "DB_POOL_MAX_SIZE") 20) _ s h1 in
    let (timeout, _, h3) =
      bind-ok (positive_float float environment (codes "DB_POOL_TIMEOUT_SECONDS") (codes "5.0")) _ s
        h2 in
    let (lock, _, h4) =
      bind-ok (positive_int environment (codes "DB_LOCK_TIMEOUT_MS") 2_000) _ s h3 in
    let (statement, _, h5) =
      bind-ok (positive_int environment (codes "DB_STATEMENT_TIMEOUT_MS") 5_000) _ s h4 in
    let (attempts, _, h6) =
      bind-ok (positive_int environment (codes "OPTIMISTIC_MAX_ATTEMPTS") 5) _ s h5 in
    let (valid, _) =
      (settings_iff (read_fields environment pool_min pool_max timeout lock statement attempts) s).0
        h6 in
    let (strategy, found, usable) =
      strategy_from_name-IsUsable s.bid_strategy s.optimistic_max_attempts valid.strategy
        valid.attempts in
    (valid, strategy, found, usable)

-- A variable of the environment holds the decimal text of a number.
abbrev Holds : Environment → Text → ℕ → Type 0
Holds environment name n = (environment name ≡ some (decimal n)) × (length (decimal n) ≤ max_digits)

get_or-some :
    (environment : Environment) (name default raw : Text)
    → environment name ≡ some raw
    → get_or environment name default ≡ raw
unfolding get_or
get_or-some environment name default raw h =
    ap (λ o. elim o [ none ↦ default | some text ↦ text ]) h

positive_int-Holds :
    (environment : Environment) (name : Text) (default n : ℕ)
    → 0 < n
    → Holds environment name n
    → positive_int environment name default ≡ ok n
unfolding positive_int converted
positive_int-Holds environment name default n enough h =
    let raw : get_or environment name (decimal default) ≡ decimal n =
      get_or-some environment name (decimal default) (decimal n) h.0 in
    ok-bind (converted (int_of (get_or environment name (decimal default)))) _ (pos n)
      (ap (λ t. converted (int_of t)) raw ∙ ap converted (int_of-decimal n h.1))
    ∙ positive n enough

-- The environment says these settings: each variable holds what `str` writes of the field.
pub record Says (float : Text → Option Float) (environment : Environment) (s : Settings)
    : Type 0 where
  pub url : environment (codes "DATABASE_URL") ≡ some s.database_url
  pub strategy : environment (codes "BID_STRATEGY") ≡ some s.bid_strategy
  pub pool_min : Holds environment (codes "DB_POOL_MIN_SIZE") s.pool_min_size
  pub pool_max : Holds environment (codes "DB_POOL_MAX_SIZE") s.pool_max_size
  pub timeout :
      (text : Text) × (environment (codes "DB_POOL_TIMEOUT_SECONDS") ≡ some text)
      × (float text ≡ some s.pool_timeout_seconds)
  pub lock : Holds environment (codes "DB_LOCK_TIMEOUT_MS") s.lock_timeout_ms
  pub statement : Holds environment (codes "DB_STATEMENT_TIMEOUT_MS") s.statement_timeout_ms
  pub attempts : Holds environment (codes "OPTIMISTIC_MAX_ATTEMPTS") s.optimistic_max_attempts

lower-strategy : (name : Text) → is_strategy name ≡ true → lower name ≡ name
unfolding is_strategy lower
lower-strategy name known = elim (Bool-cases (text_eq name name_unsafe)) [
  | inl is ↦ subst (λ t. lower t ≡ t) (sym (eq_of_text_eq name name_unsafe is)) refl
  | inr not_unsafe ↦ elim (Bool-cases (text_eq name name_pessimistic)) [
    | inl is ↦ subst (λ t. lower t ≡ t) (sym (eq_of_text_eq name name_pessimistic is)) refl
    | inr not_pessimistic ↦
        subst (λ t. lower t ≡ t)
          (sym (
            eq_of_text_eq name name_optimistic
              (ground (arith, known, not_unsafe, not_pessimistic))))
          refl
  ]
]

positive_float-said :
    (float : Text → Option Float) (environment : Environment) (name text default : Text)
    (value : Float)
    → environment name ≡ some text
    → float text ≡ some value
    → float_leb_zero value ≡ false
    → positive_float float environment name default ≡ ok value
unfolding positive_float converted
positive_float-said float environment name text default value h k above =
    ok-bind (converted (float (get_or environment name default))) _ value
      (ap (λ t. converted (float t)) (get_or-some environment name default text h) ∙ ap converted k)
    ∙ ok-raise_if (float_leb_zero value) value_error (ok value) above

-- Valid settings that are written to the environment, each count with no more digits than `int` takes
-- and the timeout in a text that `float` reads, are read back unchanged.
pub from_env-Says :
    (float : Text → Option Float) (environment : Environment) (s : Settings)
    → IsValid s
    → Says float environment s
    → from_env float environment ≡ ok s
unfolding from_env
from_env-Says float environment s v h =
    let (text, set, reads) = h.timeout in
    let count : (name : Text) (default n : ℕ)
        → 0 < n
        → Holds environment name n
        → positive_int environment name default ≡ ok n =
      positive_int-Holds environment in
    ok-bind (positive_int environment (codes "DB_POOL_MIN_SIZE") 2) _ _
      (count _ 2 s.pool_min_size v.pool.0 h.pool_min)
    ∙ ok-bind (positive_int environment (codes "DB_POOL_MAX_SIZE") 20) _ _
        (count _ 20 s.pool_max_size (omega (arith, v.pool)) h.pool_max)
    ∙ ok-bind (positive_float float environment (codes "DB_POOL_TIMEOUT_SECONDS") (codes "5.0")) _ _
        (positive_float-said float environment _ text _ s.pool_timeout_seconds set reads
          v.timeouts.2)
    ∙ ok-bind (positive_int environment (codes "DB_LOCK_TIMEOUT_MS") 2_000) _ _
        (count _ 2_000 s.lock_timeout_ms v.timeouts.0 h.lock)
    ∙ ok-bind (positive_int environment (codes "DB_STATEMENT_TIMEOUT_MS") 5_000) _ _
        (count _ 5_000 s.statement_timeout_ms v.timeouts.1 h.statement)
    ∙ ok-bind (positive_int environment (codes "OPTIMISTIC_MAX_ATTEMPTS") 5) _ _
        (count _ 5 s.optimistic_max_attempts v.attempts h.attempts)
    ∙ (settings_iff _ s).1 (
      v,
      ap
            (λ (t : Text). record (fields_of s) {
              database_url = t;
              bid_strategy =
                  lower (get_or environment (codes "BID_STRATEGY") (codes "pessimistic"));
            })
            (get_or-some environment _ _ s.database_url h.url)
          ∙ ap (λ (t : Text). record (fields_of s) { bid_strategy = lower t })
              (get_or-some environment _ _ s.bid_strategy h.strategy)
          ∙ ap (λ (t : Text). record (fields_of s) { bid_strategy = t })
              (lower-strategy s.bid_strategy v.strategy),
    )
