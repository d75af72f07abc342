-- ===== src/Db/Strategies/Optimistic.antt =====
-- `OptimisticBidStrategy` of src/bidding/db/strategies.py: a guarded UPDATE, and bounded retries.
use transaction_safe_bidding.Prelude.{
  ℕ, zero, suc, ◌+◌, ◌-◌, ◌⊎◌, inl, inr, false, not, Option, none, some, leb, if◌then◌else◌,
}
use transaction_safe_bidding.Domain.Errors.{
  Exn, unique_violation, query_canceled, strategy_busy, optimistic_miss, Result, ok, err,
}
use transaction_safe_bidding.Domain.Models.{
  AuctionSnapshot, BidCommand, BidEvaluation, auction_not_found, conflict_retry_exhausted,
  AcceptedBid,
}
use transaction_safe_bidding.Domain.Outcome.{BidOutcome, bid_outcome, accepted, rejected}
use transaction_safe_bidding.Db.Statements.{new_uuid, update_if}
use transaction_safe_bidding.Db.Program.{Prog, ret, raise, ◌>>=◌, lift, query, attempt, transaction}
use transaction_safe_bidding.Db.Strategies.Shared.{
  existing_bid, read_auction, database_time, replay_or_reject, resolve_duplicate_request,
  insert_new_bid, evaluate, refuse,
}

-- Lines 327 to 333: no row was updated, or one.
unfoldable pub conclude : AuctionSnapshot → AcceptedBid → ℕ → Option ℕ → Prog BidOutcome
conclude auction bid attempts none = raise (optimistic_miss auction.version)
conclude auction bid attempts (some version) = lift (accepted bid attempts (attempts - 1))

-- Lines 290 to 333, for an accepted evaluation.
unfoldable pub write : BidCommand → ℕ → AuctionSnapshot → Prog BidOutcome
write command attempts auction = do
  bid_id ← query new_uuid
  bid ← insert_new_bid command bid_id (auction.version + 1)
  row ← query (update_if command.amount_cents bid_id command.auction_id auction.version)
  conclude auction bid attempts row

unfoldable pub decide : BidCommand → ℕ → AuctionSnapshot → BidEvaluation → Prog BidOutcome
decide command attempts auction evaluation =
    if not evaluation.accepted
    then lift (refuse evaluation attempts 0)
    else write command attempts auction

unfoldable pub validate : BidCommand → ℕ → Option AuctionSnapshot → Prog BidOutcome
validate command attempts none = lift (rejected auction_not_found none attempts 0)
validate command attempts (some auction) = do
  now ← database_time
  evaluation ← lift (evaluate auction command now)
  decide command attempts auction evaluation

-- Lines 262 to 270: the outcome with the counts of this attempt.
unfoldable pub counted : ℕ → Result BidOutcome → Result BidOutcome
counted attempts (err e) = err e
counted attempts (ok outcome) =
    bid_outcome outcome.status outcome.bid outcome.rejection_reason outcome.minimum_acceptable_cents
      attempts (attempts - 1)

unfoldable pub unless_existing : BidCommand → ℕ → Option AcceptedBid → Prog BidOutcome
unless_existing command attempts (some existing) =
    lift (counted attempts (replay_or_reject existing command))
unless_existing command attempts none =
    read_auction command.auction_id false >>= validate command attempts

-- `_attempt`
unfoldable pub attempt_once : BidCommand → ℕ → Prog BidOutcome
attempt_once command attempts =
    transaction (existing_bid command.request_id >>= unless_existing command attempts)

-- Lines 335 to 353, the block of the connection: an outcome that ends the classification, or the
-- evaluation to go on with.
unfoldable pub classify_auction :
    BidCommand → ℕ → Option AuctionSnapshot → Prog (BidOutcome ⊎ BidEvaluation)
classify_auction command attempts none =
    lift (rejected auction_not_found none attempts attempts) >>= λ outcome. ret (inl outcome)
classify_auction command attempts (some auction) = do
  now ← database_time
  evaluation ← lift (evaluate auction command now)
  ret (inr evaluation)

unfoldable pub classify_existing :
    BidCommand → ℕ → Option AcceptedBid → Prog (BidOutcome ⊎ BidEvaluation)
classify_existing command attempts (some existing) =
    lift (replay_or_reject existing command) >>= λ outcome. ret (inl outcome)
classify_existing command attempts none =
    read_auction command.auction_id false >>= classify_auction command attempts

-- Lines 354 to 368
unfoldable pub classify_evaluation : ℕ → ℕ → BidOutcome ⊎ BidEvaluation → Result (Option BidOutcome)
classify_evaluation max_attempts attempts (inl outcome) = ok (some outcome)
classify_evaluation max_attempts attempts (inr evaluation) =
    if not evaluation.accepted
    then elim (refuse evaluation attempts attempts) [ ok o ↦ ok (some o) | err e ↦ err e ]
    else if leb max_attempts attempts
    then elim (rejected conflict_retry_exhausted none attempts attempts) [
      | ok o ↦ ok (some o)
      | err e ↦ err e
    ]
    else ok none

-- `_classify_after_miss`
unfoldable pub classify_after_miss : ℕ → BidCommand → ℕ → Prog (Option BidOutcome)
classify_after_miss max_attempts command attempts =
    transaction (existing_bid command.request_id >>= classify_existing command attempts)
    >>= λ found. lift (classify_evaluation max_attempts attempts found)

unfoldable pub or_retry : Prog BidOutcome → Option BidOutcome → Prog BidOutcome
or_retry retry (some outcome) = ret outcome
or_retry retry none = retry

-- The handlers of `place_bid`, round one attempt; `retry` is the next turn of the loop.
unfoldable pub on_error : ℕ → BidCommand → ℕ → Prog BidOutcome → Exn → Prog BidOutcome
on_error max_attempts command attempts retry (optimistic_miss _) =
    classify_after_miss max_attempts command attempts >>= or_retry retry
on_error max_attempts command attempts retry unique_violation = resolve_duplicate_request command
on_error max_attempts command attempts retry query_canceled = raise strategy_busy
on_error max_attempts command attempts retry e = raise e

-- The loop of `place_bid` with `left` turns to go.
unfoldable pub turns : ℕ → BidCommand → ℕ → Prog BidOutcome
turns max_attempts command zero =
    lift (rejected conflict_retry_exhausted none max_attempts max_attempts)
turns max_attempts command (suc left) =
    let retry = turns max_attempts command left in
    let attempts = max_attempts - left in
    attempt (attempt_once command attempts) (on_error max_attempts command attempts retry)

unfoldable pub place_bid : ℕ → BidCommand → Prog BidOutcome
place_bid max_attempts command = turns max_attempts command max_attempts
