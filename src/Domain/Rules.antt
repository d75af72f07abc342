-- ===== src/Domain/Rules.antt =====
-- src/bidding/domain/rules.py: the state of an auction at an instant, the least acceptable bid, the
-- verdict on a bid, and the transition that an accepted one makes.
use transaction_safe_bidding.Prelude.{
  ℕ, ◌+◌, true, false, not, Option, none, some, ltb, leb, if◌then◌else◌,
}
use transaction_safe_bidding.Domain.Errors.{
  value_error, overflow_error, Result, ok, err, ◌>>=◌, ◌>>◌, raise_if,
}
use transaction_safe_bidding.Domain.Models.{
  Uuid, Value, int, DateTime, aware, max_money_cents, require_money, require_aware, AuctionState,
  scheduled, open_now, closed, auction_not_started, auction_closed, bid_too_low, AuctionSnapshot,
  AuctionFields, auction_snapshot, BidEvaluation, bid_evaluation,
}

unfoldable pub derive_auction_state : AuctionSnapshot → DateTime → Result AuctionState
unfolding require_aware
derive_auction_state auction now = do
  t ← require_aware now
  if ltb t auction.starts_at
      then ok scheduled
      else if leb auction.ends_at t
      then ok closed
      else ok open_now

unfoldable pub minimum_from : ℕ → ℕ → Option ℕ → Result ℕ
minimum_from starting increment none = ok starting
minimum_from starting increment (some price) =
    let minimum = price + increment in
    if ltb max_money_cents minimum then err overflow_error else ok minimum

unfoldable pub minimum_acceptable_bid : AuctionSnapshot → Result ℕ
unfolding minimum_from
minimum_acceptable_bid auction =
    minimum_from auction.starting_price_cents auction.minimum_increment_cents
      auction.current_price_cents

-- Lines 50 to 75 of `evaluate_bid`: the verdict once the state and the minimum are known.
unfoldable pub verdict : AuctionState → ℕ → ℕ → Result BidEvaluation
unfolding bid_evaluation
verdict scheduled minimum amount = bid_evaluation false scheduled minimum (some auction_not_started)
verdict closed minimum amount = bid_evaluation false closed minimum (some auction_closed)
verdict open_now minimum amount =
    if ltb amount minimum
    then bid_evaluation false open_now minimum (some bid_too_low)
    else bid_evaluation true open_now minimum none

unfoldable pub evaluate_bid : AuctionSnapshot → Value → DateTime → Result BidEvaluation
unfolding require_money derive_auction_state minimum_acceptable_bid verdict
evaluate_bid auction amount_cents now = do
  amount ← require_money amount_cents
  state ← derive_auction_state auction now
  minimum ← minimum_acceptable_bid auction
  verdict state minimum amount

-- `dataclasses.replace` calls the constructor, which checks all fields again.
abbrev pub fields_of : AuctionSnapshot → AuctionFields
fields_of a = record {
  id = a.id;
  title = a.title;
  starting_price_cents = int a.starting_price_cents;
  current_price_cents = elim a.current_price_cents [ none ↦ none | some p ↦ some (int p) ];
  minimum_increment_cents = int a.minimum_increment_cents;
  winning_bid_id = a.winning_bid_id;
  version = int a.version;
  starts_at = aware a.starts_at;
  ends_at = aware a.ends_at;
  created_at = aware a.created_at;
}

unfoldable pub apply_accepted_bid :
    AuctionSnapshot → Uuid → Value → DateTime → Result AuctionSnapshot
apply_accepted_bid auction bid_id amount_cents now = do
  evaluation ← evaluate_bid auction amount_cents now
  raise_if (not evaluation.accepted) value_error
  auction_snapshot (record (fields_of auction) {
    current_price_cents = some amount_cents;
    winning_bid_id = some bid_id;
    version = int (auction.version + 1);
  })
