-- ===== src/Tests/Data.antt =====
-- One auction from instant 10 to 50, two bids on it, and the run in which both are placed.
use transaction_safe_bidding.Prelude.{
  ℕ, ◌+◌, ◌*◌, ◌≡◌, inl, inr, Bool, true, false, none, some, [], ◌∷◌, ◌==◌, if◌then◌else◌,
  Bool-cases, Text,
}
use transaction_safe_bidding.Domain.Models.{Uuid, BidCommand}
use transaction_safe_bidding.Db.Tables.{AuctionRow, Database, lookup_auction}
use transaction_safe_bidding.Db.Statements.{Env}
use transaction_safe_bidding.Db.Strategies.{BidStrategy, pessimistic, optimistic}
use transaction_safe_bidding.Db.Protocol.Defs.{Policy}
use transaction_safe_bidding.Db.History.{IsSound}
use transaction_safe_bidding.Db.Guarantees.Histories.{IsSafe}

-- The letter A.
abbrev pub text_a : Text
text_a = 65 ∷ []

abbrev pub auction : AuctionRow
auction = record {
  id = 1;
  title = text_a;
  starting_price_cents = 100;
  current_price_cents = none;
  minimum_increment_cents = 10;
  winning_bid_id = none;
  version = 0;
  starts_at = 10;
  ends_at = 50;
  created_at = 5;
}

-- The row of the auction after the first bid.
abbrev pub priced : AuctionRow
priced = record auction { current_price_cents = some 100; winning_bid_id = some 1000; version = 1 }

abbrev pub tables : Database
tables = record { auctions = auction ∷ []; bids = [] }

-- The request of connection `i`: each offers ten cents more than the one before.
abbrev pub command : ℕ → BidCommand
command i = record {
  request_id = 200 + i;
  auction_id = 1;
  bidder_id = text_a;
  amount_cents = 100 + 10 * i;
}

-- The first connection is pessimistic, the others are optimistic.
abbrev pub mixed : ℕ → BidStrategy
mixed i = if i == 0 then pessimistic else optimistic 5

abbrev pub all_optimistic : ℕ → BidStrategy
all_optimistic i = optimistic 5

-- Instant 20, and one new id.
abbrev pub envs : Uuid → ℕ → Env
envs id k = record { time = 20; uuid = id }

pub mixed-IsSafe : (i : ℕ) → IsSafe (mixed i)
mixed-IsSafe i = elim (Bool-cases (i == 0)) [ inl zeroth ↦ rw zeroth tt | inr other ↦ rw other tt ]

only_auction :
    (r : AuctionRow) (b : Bool)
    → (if b then some auction else none) ≡ some r
    → (r.version ≡ 0) × (r.current_price_cents ≡ none) × (r.winning_bid_id ≡ none)
only_auction r true h = (cc, cc, cc)
only_auction r false h = absurd (cc)

pub tables-IsSound : (P : Policy) → IsSound P tables
unfolding lookup_auction
tables-IsSound P = record { linked = λ r h. only_auction r (1 == r.id) h; unique = tt }
