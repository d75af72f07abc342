-- ===== src/Domain/Errors.antt =====
-- The exceptions that the program raises or lets through, and results that may be one.
use transaction_safe_bidding.Prelude.{ℕ, ◌≡◌, refl, ap, Bool, true, false}

-- Python's built-in exceptions, the two classes of db/strategies.py, and those of `psycopg.errors`
-- and of the pool that a statement may raise.
pub data Exn : Type 0 where
  value_error type_error overflow_error assertion_error runtime_error : Exn
  strategy_busy : Exn
  optimistic_miss : ℕ → Exn
  unique_violation foreign_key_violation check_violation numeric_out_of_range : Exn
  lock_not_available query_canceled pool_timeout connection_lost : Exn

pub data Result {ℓ} (A : Type ℓ) : Type ℓ where
  ok : A → Result A
  err : Exn → Result A

infixl 5 ◌>>◌ ◌>>=◌
abbrev pub ◌>>=◌ {ℓ κ} : {A : Type ℓ} {B : Type κ} → Result A → (A → Result B) → Result B
err e >>= next = err e
ok a >>= next = next a

abbrev pub ◌>>◌ {ℓ} : {B : Type ℓ} → Result (Unit {0}) → Result B → Result B
first >> second = first >>= λ _. second

-- `if c: raise e`
abbrev pub raise_if : Bool → Exn → Result (Unit {0})
raise_if true e = err e
raise_if false e = ok tt

-- A result that is no error is a value.
pub ok_of_no_error {ℓ} :
    {A : Type ℓ} (r : Result A) → ((e : Exn) → ¬ (r ≡ err e)) → (a : A) × (r ≡ ok a)
ok_of_no_error (ok a) h = (a, refl)
ok_of_no_error (err e) h = absurd (h e refl)

-- What is known where a step and what follows it succeed.
pub bind-ok {ℓ κ} :
    {A : Type ℓ} {B : Type κ} (r : Result A) (next : A → Result B) (b : B)
    → (r >>= next) ≡ ok b
    → (a : A) × (r ≡ ok a) × (next a ≡ ok b)
bind-ok (ok a) next b h = (a, refl, h)
bind-ok (err e) next b h = absurd (cc)

pub raise_if-ok {ℓ} :
    {B : Type ℓ} (c : Bool) (e : Exn) (r : Result B) (b : B)
    → (raise_if c e >> r) ≡ ok b
    → (c ≡ false) × (r ≡ ok b)
raise_if-ok true e r b h = absurd (cc)
raise_if-ok false e r b h = (refl, h)

-- And the other way round.
pub ok-bind {ℓ κ} :
    {A : Type ℓ} {B : Type κ} (r : Result A) (next : A → Result B) (a : A)
    → r ≡ ok a
    → (r >>= next) ≡ next a
ok-bind (ok x) next a h = ap next (cc)
ok-bind (err e) next a h = absurd (cc)

pub ok-raise_if {ℓ} :
    {B : Type ℓ} (c : Bool) (e : Exn) (r : Result B) → c ≡ false → (raise_if c e >> r) ≡ r
ok-raise_if true e r h = absurd (cc)
ok-raise_if false e r h = refl

pub eq_of_ok-eq {ℓ} : {A : Type ℓ} (a b : A) → ok a ≡ ok b → a ≡ b
eq_of_ok-eq a b h = cc
