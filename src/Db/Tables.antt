-- ===== src/Db/Tables.antt =====
-- The two tables of src/bidding/db/sql/001_initial_schema.sql with their constraints, and
-- src/bidding/db/mappers.py. A table is the list of its committed rows, in the order of their commits.
use transaction_safe_bidding.Prelude.{
  ℕ, Bool, true, false, ◌&&◌, ◌||◌, Option, none, some, List, [], ◌∷◌, ltb, leb, ◌==◌,
  if◌then◌else◌, length, find_first, Text,
}
use transaction_safe_bidding.Domain.Errors.{Exn, check_violation, numeric_out_of_range, Result}
use transaction_safe_bidding.Domain.Models.{
  Uuid, Value, int, aware, AuctionSnapshot, AuctionFields, auction_snapshot, AcceptedBid,
  max_money_cents, max_title_length, max_bidder_id_length,
}
use transaction_safe_bidding.Domain.Outcome.{accepted_bid}
use mathlib.Core.List.{reverse}

-- A row of `auctions`. Money and versions are `bigint`s, and a `timestamptz` is its instant.
pub record AuctionRow : Type 0 where
  pub id : Uuid
  pub title : Text
  pub starting_price_cents : ℕ
  pub current_price_cents : Option ℕ
  pub minimum_increment_cents : ℕ
  pub winning_bid_id : Option Uuid
  pub version : ℕ
  pub starts_at : ℕ
  pub ends_at : ℕ
  pub created_at : ℕ

-- A row of `bids`.
pub record BidRow : Type 0 where
  pub id : Uuid
  pub request_id : Uuid
  pub auction_id : Uuid
  pub bidder_id : Text
  pub amount_cents : ℕ
  pub auction_version : ℕ
  pub accepted_at : ℕ

pub record Database : Type 0 where
  pub auctions : List AuctionRow
  pub bids : List BidRow

abbrev pub bigint_max : ℕ
bigint_max = 9_223_372_036_854_775_807

-- `btrim(text)`: spaces are taken off both ends.
unfoldable pub ltrim : Text → Text
ltrim [] = []
ltrim (c ∷ s) = if c == 32 then ltrim s else c ∷ s

unfoldable pub btrim : Text → Text
unfolding ltrim
btrim s = reverse (ltrim (reverse (ltrim s)))

-- `x BETWEEN lo AND hi`
abbrev pub between : ℕ → ℕ → ℕ → Bool
between x lo hi = leb lo x && leb x hi

unfoldable pub price_fits : ℕ → Option ℕ → Bool
price_fits starting none = true
price_fits starting (some price) = between price starting max_money_cents

-- `auctions_bid_state_consistent`
unfoldable pub bid_state_fits : Option ℕ → Option Uuid → ℕ → Bool
bid_state_fits none none version = version == 0
bid_state_fits none (some winner) version = false
bid_state_fits (some price) none version = false
bid_state_fits (some price) (some winner) version = ltb 0 version

-- The CHECK constraints of `auctions`.
unfoldable pub auction_checks : AuctionRow → Bool
unfolding btrim price_fits bid_state_fits
auction_checks r =
    between (length (btrim r.title)) 1 max_title_length
    && between r.starting_price_cents 1 max_money_cents
    && price_fits r.starting_price_cents r.current_price_cents
    && between r.minimum_increment_cents 1 max_money_cents
    && ltb r.starts_at r.ends_at
    && bid_state_fits r.current_price_cents r.winning_bid_id r.version

-- The CHECK constraints of `bids`.
unfoldable pub bid_checks : BidRow → Bool
unfolding btrim
bid_checks b =
    between (length (btrim b.bidder_id)) 1 max_bidder_id_length
    && between b.amount_cents 1 max_money_cents
    && ltb 0 b.auction_version

-- The error that the values of a row raise, if any: a version out of the range of `bigint`, or a
-- CHECK constraint.
unfoldable pub auction_row_error : AuctionRow → Option Exn
unfolding auction_checks
auction_row_error r =
    if ltb bigint_max r.version
    then some numeric_out_of_range
    else if auction_checks r
    then none
    else some check_violation

unfoldable pub bid_row_error : BidRow → Option Exn
unfolding bid_checks
bid_row_error b =
    if ltb bigint_max b.auction_version
    then some numeric_out_of_range
    else if bid_checks b
    then none
    else some check_violation

-- `WHERE id = %s` on the primary key.
unfoldable pub lookup_auction : Uuid → List AuctionRow → Option AuctionRow
lookup_auction key rows = find_first (λ r. r.id == key) rows

-- `WHERE request_id = %s` on a unique column.
unfoldable pub lookup_request : Uuid → List BidRow → Option BidRow
lookup_request key rows = find_first (λ b. b.request_id == key) rows

-- The new version of a row in place of the old one.
unfoldable pub replace : AuctionRow → List AuctionRow → List AuctionRow
replace r [] = []
replace r (a ∷ rows) = if a.id == r.id then r ∷ rows else a ∷ replace r rows

-- `bids_request_id_unique`, and the primary key.
unfoldable pub clashes : Uuid → Uuid → List BidRow → Bool
clashes id request [] = false
clashes id request (b ∷ bs) = b.id == id || b.request_id == request || clashes id request bs

-- `auctions_winning_bid_fk`: (id, winning_bid_id) is (auction_id, id) of a bid.
unfoldable pub has_bid : Uuid → Uuid → List BidRow → Bool
has_bid auction id [] = false
has_bid auction id (b ∷ bs) = (b.auction_id == auction && b.id == id) || has_bid auction id bs

unfoldable pub winner_exists : List BidRow → AuctionRow → Bool
unfolding has_bid
winner_exists bids r = elim r.winning_bid_id [ none ↦ true | some w ↦ has_bid r.id w bids ]

abbrev pub int? : Option ℕ → Option Value
int? none = none
int? (some n) = some (int n)

abbrev pub row_fields : AuctionRow → AuctionFields
row_fields row = record {
  id = row.id;
  title = row.title;
  starting_price_cents = int row.starting_price_cents;
  current_price_cents = int? row.current_price_cents;
  minimum_increment_cents = int row.minimum_increment_cents;
  winning_bid_id = row.winning_bid_id;
  version = int row.version;
  starts_at = aware row.starts_at;
  ends_at = aware row.ends_at;
  created_at = aware row.created_at;
}

unfoldable pub auction_from_row : AuctionRow → Result AuctionSnapshot
unfolding auction_snapshot
auction_from_row row = auction_snapshot (row_fields row)

unfoldable pub bid_from_row : BidRow → Result AcceptedBid
unfolding accepted_bid
bid_from_row row =
    accepted_bid row.id row.request_id row.auction_id row.bidder_id (int row.amount_cents)
      (int row.auction_version) (aware row.accepted_at)
