-- ===== src/Db/Mapped.antt =====
-- src/bidding/db/mappers.py keeps every column: what a mapped row says of the row.
use transaction_safe_bidding.Prelude.{ℕ, ◌≡◌, refl, Option, none, some, arith}
use transaction_safe_bidding.Domain.Errors.{ok}
use transaction_safe_bidding.Domain.Models.{Uuid, AuctionSnapshot, check_bid_state, AcceptedBid}
use transaction_safe_bidding.Domain.Verdicts.{floor_of}
use transaction_safe_bidding.Db.Tables.{AuctionRow, BidRow, int?, auction_from_row, bid_from_row}
use transaction_safe_bidding.Db.Statements.{required_price}

check_bid_state-price :
    (starting : ℕ) (price : Option ℕ) (winner : Option Uuid) (version : ℕ) (c : Option ℕ)
    → check_bid_state starting (int? price) winner version ≡ ok c
    → c ≡ price
unfolding check_bid_state
check_bid_state-price starting none none version c h = ground arith
check_bid_state-price starting none (some w) version c h = cc
check_bid_state-price starting (some p) none version c h = cc
check_bid_state-price starting (some p) (some w) version c h = ground arith

abbrev pub snapshot_of : AuctionRow → AuctionSnapshot
snapshot_of r = record {
  id = r.id;
  title = r.title;
  starting_price_cents = r.starting_price_cents;
  current_price_cents = r.current_price_cents;
  minimum_increment_cents = r.minimum_increment_cents;
  winning_bid_id = r.winning_bid_id;
  version = r.version;
  starts_at = r.starts_at;
  ends_at = r.ends_at;
  created_at = r.created_at;
}

abbrev pub bid_of : BidRow → AcceptedBid
bid_of b = record {
  id = b.id;
  request_id = b.request_id;
  auction_id = b.auction_id;
  bidder_id = b.bidder_id;
  amount_cents = b.amount_cents;
  auction_version = b.auction_version;
  accepted_at = b.accepted_at;
}

-- A row of `auctions` that maps to a snapshot maps to the one with its columns.
pub auction_from_row-columns :
    (r : AuctionRow) (a : AuctionSnapshot) → auction_from_row r ≡ ok a → a ≡ snapshot_of r
unfolding auction_from_row
auction_from_row-columns r a h = ground (
  arith,
  check_bid_state-price r.starting_price_cents r.current_price_cents r.winning_bid_id r.version
      a.current_price_cents,
)

-- So does a row of `bids`.
pub bid_from_row-columns : (b : BidRow) (a : AcceptedBid) → bid_from_row b ≡ ok a → a ≡ bid_of b
unfolding bid_from_row
bid_from_row-columns b a h = ground arith

pub required_price-eq-floor : (r : AuctionRow) → required_price r ≡ floor_of (snapshot_of r)
unfolding required_price
required_price-eq-floor r = refl
