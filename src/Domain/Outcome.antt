-- ===== src/Domain/Outcome.antt =====
-- `AcceptedBid.__post_init__` and `BidOutcome` of src/bidding/domain/models.py.
use transaction_safe_bidding.Prelude.{
  ℕ, Bool, true, false, not, ◌&&◌, Option, none, some, leb, if◌then◌else◌, Text,
}
use transaction_safe_bidding.Domain.Errors.{
  value_error, type_error, Result, ok, err, ◌>>=◌, ◌>>◌, raise_if,
}
use transaction_safe_bidding.Domain.Models.{
  Uuid, Value, DateTime, require_money, require_aware, is_some, AcceptedBid, BidRejectionReason,
  BidOutcomeStatus,
}

-- `auction_version <= 0`; the column is an integer.
unfoldable pub require_positive : Value → Result ℕ
require_positive (Value.int n) = if leb n 0 then err value_error else ok n
require_positive (Value.minus n) = err value_error
require_positive (Value.boolean true) = ok 1
require_positive (Value.boolean false) = err value_error
require_positive Value.other = err type_error

unfoldable pub accepted_bid :
    Uuid → Uuid → Uuid → Text → Value → Value → DateTime → Result AcceptedBid
unfolding require_money require_positive require_aware
accepted_bid id request auction bidder amount version at = do
  cents ← require_money amount
  v ← require_positive version
  t ← require_aware at
  ok (record {
    id = id;
    request_id = request;
    auction_id = auction;
    bidder_id = bidder;
    amount_cents = cents;
    auction_version = v;
    accepted_at = t;
  })

pub record BidOutcome : Type 0 where
  pub status : BidOutcomeStatus
  pub bid : Option AcceptedBid
  pub rejection_reason : Option BidRejectionReason
  pub minimum_acceptable_cents : Option ℕ
  pub attempts : ℕ
  pub conflicts : ℕ

-- The test of lines 159 to 163: a bid only, or a reason and no bid.
unfoldable pub outcome_fits :
    BidOutcomeStatus → Option AcceptedBid → Option BidRejectionReason → Bool
outcome_fits BidOutcomeStatus.accepted bid reason = is_some bid && not (is_some reason)
outcome_fits BidOutcomeStatus.replayed bid reason = is_some bid && not (is_some reason)
outcome_fits BidOutcomeStatus.rejected bid reason = not (is_some bid) && is_some reason

-- `BidOutcome.__post_init__`; the counts are natural numbers, so that only `attempts` can be out of
-- range.
unfoldable pub bid_outcome :
    BidOutcomeStatus
    → Option AcceptedBid
    → Option BidRejectionReason
    → Option ℕ
    → ℕ
    → ℕ
    → Result BidOutcome
unfolding outcome_fits
bid_outcome status bid reason minimum attempts conflicts = do
  raise_if (leb attempts 0) value_error
  raise_if (not (outcome_fits status bid reason)) value_error
  ok (record {
    status = status;
    bid = bid;
    rejection_reason = reason;
    minimum_acceptable_cents = minimum;
    attempts = attempts;
    conflicts = conflicts;
  })

-- `BidOutcome.accepted(bid, attempts=..., conflicts=...)`
unfoldable pub accepted : AcceptedBid → ℕ → ℕ → Result BidOutcome
unfolding bid_outcome
accepted bid attempts conflicts =
    bid_outcome BidOutcomeStatus.accepted (some bid) none none attempts conflicts

unfoldable pub replayed : AcceptedBid → ℕ → ℕ → Result BidOutcome
unfolding bid_outcome
replayed bid attempts conflicts =
    bid_outcome BidOutcomeStatus.replayed (some bid) none none attempts conflicts

unfoldable pub rejected : BidRejectionReason → Option ℕ → ℕ → ℕ → Result BidOutcome
unfolding bid_outcome
rejected reason minimum attempts conflicts =
    bid_outcome BidOutcomeStatus.rejected none (some reason) minimum attempts conflicts
