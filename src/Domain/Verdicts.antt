-- ===== src/Domain/Verdicts.antt =====
-- What the rules of src/bidding/domain/rules.py decide.
use transaction_safe_bidding.Prelude.{
  ℕ, ◌+◌, ◌≤◌, ◌<◌, ◌≡◌, inl, inr, true, none, some, arith, Option-cases,
}
use mathlib.Core.Logic.{◌↔◌}
use transaction_safe_bidding.Domain.Errors.{Exn, overflow_error, ok, err, ok_of_no_error}
use transaction_safe_bidding.Domain.Models.{
  int, aware, max_money_cents, auction_not_started, auction_closed, bid_too_low, AuctionSnapshot,
  BidEvaluation,
}
use transaction_safe_bidding.Domain.Rules.{evaluate_bid}

-- The least acceptable amount as a number, with no bound.
abbrev pub floor_of : AuctionSnapshot → ℕ
floor_of a = elim a.current_price_cents [
  | none ↦ a.starting_price_cents
  | some price ↦ price + a.minimum_increment_cents
]

-- An evaluation of an amount at an aware instant accepts exactly when the instant lies in the
-- half-open window of the auction and the amount is at least the floor. It reports the floor, and a
-- rejection reason exactly when it does not accept.
pub accepted_iff :
    (a : AuctionSnapshot) (amount now : ℕ) (e : BidEvaluation)
    → evaluate_bid a (int amount) (aware now) ≡ ok e
    → ((e.accepted ≡ true) ↔ ((a.starts_at ≤ now) × (now < a.ends_at) × (floor_of a ≤ amount)))
      × ((e.accepted ≡ true) ↔ (e.rejection_reason ≡ none))
      × (e.minimum_acceptable_cents ≡ floor_of a)
unfolding evaluate_bid
accepted_iff a amount now e h = elim (Option-cases a.current_price_cents) [
  | inl p ↦ (
    (λ acc. ground arith, λ r. ground arith),
    (λ acc. ground arith, λ r. ground arith),
    ground arith,
  )
  | inr (price, p) ↦ (
    (λ acc. ground arith, λ r. ground arith),
    (λ acc. ground arith, λ r. ground arith),
    ground arith,
  )
]

-- Whatever the state of the auction, and for every acceptable amount and aware instant, an
-- evaluation raises `OverflowError` as soon as the price plus the increment passes the greatest sum.
pub evaluate_overflows :
    (a : AuctionSnapshot) (amount now price : ℕ)
    → 0 < amount
    → amount ≤ max_money_cents
    → a.current_price_cents ≡ some price
    → max_money_cents < price + a.minimum_increment_cents
    → evaluate_bid a (int amount) (aware now) ≡ err overflow_error
unfolding evaluate_bid
evaluate_overflows a amount now price pos small e big = ground arith

-- Where an evaluation of an amount at an aware instant returns, the reason of a rejection says exactly
-- what is wrong, and the state comes before the amount: the
-- auction has not started, or it is over, or it is open and the amount is below the floor.
pub rejection_reason_iff :
    (a : AuctionSnapshot) (amount now : ℕ) (e : BidEvaluation)
    → evaluate_bid a (int amount) (aware now) ≡ ok e
    → ((e.rejection_reason ≡ some auction_not_started) ↔ (now < a.starts_at))
      × ((e.rejection_reason ≡ some auction_closed) ↔ ((a.starts_at ≤ now) × (a.ends_at ≤ now)))
      × ((e.rejection_reason ≡ some bid_too_low)
          ↔ ((a.starts_at ≤ now) × (now < a.ends_at) × (amount < floor_of a)))
unfolding evaluate_bid
rejection_reason_iff a amount now e h = elim (Option-cases a.current_price_cents) [
  | inl p ↦ (
    (λ r. ground arith, λ r. ground arith),
    (λ r. ground arith, λ r. ground arith),
    (λ r. ground arith, λ r. ground arith),
  )
  | inr (price, p) ↦ (
    (λ r. ground arith, λ r. ground arith),
    (λ r. ground arith, λ r. ground arith),
    (λ r. ground arith, λ r. ground arith),
  )
]

evaluate_no_error :
    (a : AuctionSnapshot) (amount now : ℕ)
    → 0 < amount
    → amount ≤ max_money_cents
    → floor_of a ≤ max_money_cents
    → (x : Exn) → ¬ (evaluate_bid a (int amount) (aware now) ≡ err x)
unfolding evaluate_bid
evaluate_no_error a amount now pos small room x h = elim (Option-cases a.current_price_cents) [
  | inl p ↦ ground arith
  | inr (price, p) ↦ ground arith
]

-- An evaluation returns for every amount in range, aware instant and floor in range.
pub evaluate_total :
    (a : AuctionSnapshot) (amount now : ℕ)
    → 0 < amount
    → amount ≤ max_money_cents
    → floor_of a ≤ max_money_cents
    → (e : BidEvaluation) × (evaluate_bid a (int amount) (aware now) ≡ ok e)
evaluate_total a amount now pos small room =
    ok_of_no_error (evaluate_bid a (int amount) (aware now))
      (evaluate_no_error a amount now pos small room)
