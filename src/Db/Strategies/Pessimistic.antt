-- ===== src/Db/Strategies/Pessimistic.antt =====
-- `PessimisticBidStrategy` of src/bidding/db/strategies.py: the row of the auction is locked before
-- the clock is read and the bid is validated.
use transaction_safe_bidding.Prelude.{ℕ, ◌+◌, true, not, Option, none, some, if◌then◌else◌}
use transaction_safe_bidding.Domain.Errors.{
  Exn, unique_violation, lock_not_available, query_canceled, strategy_busy,
}
use transaction_safe_bidding.Domain.Models.{
  AuctionSnapshot, BidCommand, BidEvaluation, auction_not_found, AcceptedBid,
}
use transaction_safe_bidding.Domain.Outcome.{BidOutcome, accepted, rejected}
use transaction_safe_bidding.Db.Statements.{new_uuid, update_next}
use transaction_safe_bidding.Db.Program.{
  Prog, raise, ◌>>=◌, ◌>>◌, lift, query, attempt, transaction,
}
use transaction_safe_bidding.Db.Strategies.Shared.{
  existing_bid, read_auction, database_time, replay_or_reject, resolve_duplicate_request,
  insert_new_bid, evaluate, refuse,
}

-- Lines 208 to 225, for an accepted evaluation.
unfoldable pub write : BidCommand → AuctionSnapshot → Prog BidOutcome
write command auction = do
  bid_id ← query new_uuid
  bid ← insert_new_bid command bid_id (auction.version + 1)
  query (update_next command.amount_cents bid_id command.auction_id)
  lift (accepted bid 1 0)

unfoldable pub decide : BidCommand → AuctionSnapshot → BidEvaluation → Prog BidOutcome
decide command auction evaluation =
    if not evaluation.accepted then lift (refuse evaluation 1 0) else write command auction

-- The request is looked up again under the lock.
unfoldable pub recheck : BidCommand → AuctionSnapshot → ℕ → Option AcceptedBid → Prog BidOutcome
recheck command auction now (some existing) = lift (replay_or_reject existing command)
recheck command auction now none = lift (evaluate auction command now) >>= decide command auction

unfoldable pub validate : BidCommand → Option AuctionSnapshot → Prog BidOutcome
validate command none = lift (rejected auction_not_found none 1 0)
validate command (some auction) = do
  now ← database_time
  existing ← existing_bid command.request_id
  recheck command auction now existing

unfoldable pub unless_existing : BidCommand → Option AcceptedBid → Prog BidOutcome
unless_existing command (some existing) = lift (replay_or_reject existing command)
unless_existing command none = read_auction command.auction_id true >>= validate command

unfoldable pub on_error : BidCommand → Exn → Prog BidOutcome
on_error command unique_violation = resolve_duplicate_request command
on_error command lock_not_available = raise strategy_busy
on_error command query_canceled = raise strategy_busy
on_error command e = raise e

unfoldable pub place_bid : BidCommand → Prog BidOutcome
place_bid command =
    attempt (transaction (existing_bid command.request_id >>= unless_existing command))
      (on_error command)
