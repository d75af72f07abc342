-- ===== src/Db/Sequential/Spec.antt =====
-- What placing a bid means where nobody else is at work: one function on the tables, with no
-- transaction, lock or retry in it.
use transaction_safe_bidding.Prelude.{
  ◌+◌, ◌≤◌, ◌<◌, ◌≡◌, Option, none, some, [], ◌∷◌, ◌++◌, if◌then◌else◌, length, strip,
}
use transaction_safe_bidding.Prelude.All.{In}
use transaction_safe_bidding.Domain.Errors.{Result, ok, err}
use transaction_safe_bidding.Domain.Models.{
  BidCommand, BidEvaluation, auction_not_found, max_money_cents, max_bidder_id_length,
}
use transaction_safe_bidding.Domain.Outcome.{BidOutcome, accepted, rejected}
use transaction_safe_bidding.Domain.Verdicts.{floor_of}
use transaction_safe_bidding.Db.Tables.{
  AuctionRow, BidRow, Database, lookup_auction, lookup_request, replace, auction_row_error,
  auction_from_row, bid_from_row, bigint_max, btrim,
}
use transaction_safe_bidding.Db.Statements.{Env, with_bid}
use transaction_safe_bidding.Db.Mapped.{snapshot_of, bid_of}
use transaction_safe_bidding.Db.Strategies.Shared.{replay_or_reject, evaluate, refuse}

-- The row of the bid that the command makes on an auction.
abbrev pub placed_row : Env → BidCommand → AuctionRow → BidRow
placed_row env command r = record {
  id = env.uuid;
  request_id = command.request_id;
  auction_id = command.auction_id;
  bidder_id = strip command.bidder_id;
  amount_cents = command.amount_cents;
  auction_version = r.version + 1;
  accepted_at = env.time;
}

-- The row of the auction after it.
unfoldable pub raised_row : Env → BidCommand → AuctionRow → AuctionRow
unfolding with_bid
raised_row env command r = with_bid r command.amount_cents env.uuid (r.version + 1)

-- The tables with both.
abbrev pub raised_tables : Env → Database → BidCommand → AuctionRow → Database
raised_tables env db command r = record {
  auctions = replace (raised_row env command r) db.auctions;
  bids = db.bids ++ placed_row env command r ∷ [];
}

unfoldable pub settle :
    Env → Database → BidCommand → AuctionRow → Result BidEvaluation → Result BidOutcome × Database
unfolding raised_row
settle env db command r (err e) = (err e, db)
settle env db command r (ok e) =
    if e.accepted
    then (accepted (bid_of (placed_row env command r)) 1 0, raised_tables env db command r)
    else (refuse e 1 0, db)

unfoldable pub bid_on :
    Env → Database → BidCommand → Option AuctionRow → Result BidOutcome × Database
unfolding settle
bid_on env db command none = (rejected auction_not_found none 1 0, db)
bid_on env db command (some r) = settle env db command r (evaluate (snapshot_of r) command env.time)

unfoldable pub answer : Env → Database → BidCommand → Option BidRow → Result BidOutcome × Database
unfolding bid_on lookup_auction
answer env db command (some row) = (replay_or_reject (bid_of row) command, db)
answer env db command none = bid_on env db command (lookup_auction command.auction_id db.auctions)

-- A request that is known is answered from its bid; a new one is evaluated, and where it is accepted
-- the bid is added and the auction raised.
unfoldable pub place : Env → Database → BidCommand → Result BidOutcome × Database
unfolding answer lookup_request
place env db command = answer env db command (lookup_request command.request_id db.bids)

-- What the tables and the command have to fulfil: the rows that are read satisfy the constraints and
-- can be mapped, the numbers have room, the bidder has a name, and the new identifier is new.
pub record IsReady (env : Env) (db : Database) (command : BidCommand) : Type 0 where
  pub bid :
      (row : BidRow)
      → lookup_request command.request_id db.bids ≡ some row
      → bid_from_row row ≡ ok (bid_of row)
  pub auction :
      (r : AuctionRow)
      → lookup_auction command.auction_id db.auctions ≡ some r
      → (auction_from_row r ≡ ok (snapshot_of r))
        × (auction_row_error r ≡ none)
        × (r.version < bigint_max)
        × (floor_of (snapshot_of r) ≤ max_money_cents)
  pub amount : (0 < command.amount_cents) × (command.amount_cents ≤ max_money_cents)
  pub bidder :
      (1 ≤ length (btrim (strip command.bidder_id)))
      × (length (btrim (strip command.bidder_id)) ≤ max_bidder_id_length)
  pub fresh : (b : BidRow) → In b db.bids → ¬ (b.id ≡ env.uuid)
