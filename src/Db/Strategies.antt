-- ===== src/Db/Strategies.antt =====
-- src/bidding/db/strategies.py: the three strategies and the choice among them.
pub mod Shared
pub mod Unsafe
pub mod Pessimistic
pub mod Optimistic
use transaction_safe_bidding.Prelude.{
  ℕ, zero, suc, ◌+◌, ◌-◌, ◌*◌, ◌≤◌, ◌<◌, ◌≡◌, refl, sym, ap, ◌∙◌, subst, ◌≢◌, ◌⊎◌, inl, inr, Bool,
  true, false, not, ◌&&◌, ◌||◌, Option, none, some, List, [], ◌∷◌, ◌++◌, arith, ltb, leb, ◌==◌,
  if◌then◌else◌, ltb→lt, leb→le, ==_iff, Bool-cases, Option-cases, length, length-append, keep_if,
  find_first, keep_if-append, Text, codes, is_space, strip, text_eq, text_eq_refl, eq_of_text_eq,
}
use transaction_safe_bidding.Domain.Errors.{value_error, Result, ok, err}
use transaction_safe_bidding.Domain.Models.{BidCommand}
use transaction_safe_bidding.Domain.Outcome.{BidOutcome}
use transaction_safe_bidding.Db.Program.{Prog}
use Unsafe
use Pessimistic
use Optimistic

-- The classes behind the protocol `BidStrategy`.
pub data BidStrategy : Type 0 where
  unsafe pessimistic : BidStrategy
  optimistic : ℕ → BidStrategy

-- `OptimisticBidStrategy.__init__`
unfoldable pub optimistic_strategy : ℕ → Result BidStrategy
optimistic_strategy max_attempts =
    if leb max_attempts 0 then err value_error else ok (optimistic max_attempts)

unfoldable pub place_bid : BidStrategy → BidCommand → Prog BidOutcome
place_bid unsafe command = Unsafe.place_bid command
place_bid pessimistic command = Pessimistic.place_bid command
place_bid (optimistic max_attempts) command = Optimistic.place_bid max_attempts command

-- `VALID_STRATEGIES` of src/bidding/config.py, in the order of the tests of `strategy_from_name`.
abbrev pub name_unsafe : Text
name_unsafe = codes "unsafe"

abbrev pub name_pessimistic : Text
name_pessimistic = codes "pessimistic"

abbrev pub name_optimistic : Text
name_optimistic = codes "optimistic"

-- `strategy_from_name`, whose pool all three share.
unfoldable pub strategy_from_name : Text → ℕ → Result BidStrategy
unfolding optimistic_strategy
strategy_from_name name optimistic_max_attempts =
    if text_eq name name_unsafe
    then ok unsafe
    else if text_eq name name_pessimistic
    then ok pessimistic
    else if text_eq name name_optimistic
    then optimistic_strategy optimistic_max_attempts
    else err value_error
