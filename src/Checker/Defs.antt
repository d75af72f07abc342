-- ===== src/Checker/Defs.antt =====
-- `check_auction_invariants`. A violation is its code: the `detail` strings are for readers only.
use transaction_safe_bidding.Prelude.{
  ℕ, ◌+◌, Bool, true, false, not, ◌&&◌, ◌||◌, Option, none, some, List, [], ◌∷◌, ◌++◌, ltb, leb,
  ◌==◌, if◌then◌else◌, length, find_first,
}
use transaction_safe_bidding.Domain.Errors.{Result, ok, ◌>>=◌}
use transaction_safe_bidding.Domain.Models.{Uuid, AuctionSnapshot, AcceptedBid, is_some}
use transaction_safe_bidding.Db.Tables.{Database}
use transaction_safe_bidding.Db.Repository.{get, list_bids}

pub data Code : Type 0 where
  auction_missing empty_state_mismatch version_sequence auction_version : Code
  non_monotonic_bid accepted_outside_window : Code
  winner_missing winner_price_mismatch winner_not_highest : Code

pub record InvariantReport : Type 0 where
  pub auction_id : Uuid
  pub bid_count : ℕ
  pub violations : List Code

abbrev pub is_empty {ℓ} : {A : Type ℓ} → List A → Bool
is_empty [] = true
is_empty (_ ∷ _) = false

-- `InvariantReport.valid`
unfoldable pub valid : InvariantReport → Bool
valid r = is_empty r.violations

-- `if c: violations.append(code)`
abbrev pub report_if : Bool → Code → List Code
report_if c code = if c then code ∷ [] else []

-- Lines 42 to 54
unfoldable pub check_empty : AuctionSnapshot → List Code
check_empty a =
    report_if (is_some a.current_price_cents || is_some a.winning_bid_id || not (a.version == 0))
      empty_state_mismatch

-- `actual_versions != list(range(1, len(bids) + 1))`, from `next` on.
unfoldable pub versions_from : ℕ → List AcceptedBid → Bool
versions_from next [] = true
versions_from next (b ∷ bs) = b.auction_version == next && versions_from (next + 1) bs

unfoldable pub check_versions : AuctionSnapshot → List AcceptedBid → List Code
unfolding versions_from
check_versions a bids =
    report_if (not (versions_from 1 bids)) version_sequence
    ++ report_if (not (a.version == length bids)) auction_version

unfoldable pub required : AuctionSnapshot → Option ℕ → ℕ
required a none = a.starting_price_cents
required a (some previous) = previous + a.minimum_increment_cents

-- Lines 74 to 95
unfoldable pub check_bids : AuctionSnapshot → Option ℕ → List AcceptedBid → List Code
unfolding required
check_bids a previous [] = []
check_bids a previous (b ∷ bs) =
    report_if (ltb b.amount_cents (required a previous)) non_monotonic_bid
    ++ report_if (not (leb a.starts_at b.accepted_at && ltb b.accepted_at a.ends_at))
        accepted_outside_window
    ++ check_bids a (some b.amount_cents) bs

-- `max(bids, key=amount)`: the first of the greatest amount, among `best` and the rest.
unfoldable pub highest : AcceptedBid → List AcceptedBid → AcceptedBid
highest best [] = best
highest best (b ∷ bs) = highest (if ltb best.amount_cents b.amount_cents then b else best) bs

-- `bid.id == auction.winning_bid_id`
unfoldable pub is_winner : AuctionSnapshot → AcceptedBid → Bool
is_winner a b = elim a.winning_bid_id [ none ↦ false | some w ↦ b.id == w ]

unfoldable pub price_is : Option ℕ → ℕ → Bool
price_is none amount = false
price_is (some price) amount = price == amount

-- Lines 102 to 124
unfoldable pub check_winner : AuctionSnapshot → AcceptedBid → Option AcceptedBid → List Code
unfolding price_is
check_winner a top none = winner_missing ∷ []
check_winner a top (some winner) =
    report_if (not (price_is a.current_price_cents winner.amount_cents)) winner_price_mismatch
    ++ report_if (not (winner.id == top.id)) winner_not_highest

unfoldable pub violations_of : AuctionSnapshot → List AcceptedBid → List Code
unfolding check_empty check_versions check_bids highest is_winner check_winner
violations_of a [] = check_empty a
violations_of a (b ∷ bs) =
    check_versions a (b ∷ bs)
    ++ check_bids a none (b ∷ bs)
    ++ check_winner a (highest b bs) (find_first (is_winner a) (b ∷ bs))

unfoldable pub report_of : Uuid → Option AuctionSnapshot → List AcceptedBid → InvariantReport
unfolding violations_of
report_of key none bids = record {
  auction_id = key;
  bid_count = 0;
  violations = auction_missing ∷ [];
}
report_of key (some a) bids = record {
  auction_id = key;
  bid_count = length bids;
  violations = violations_of a bids;
}

-- `check_auction_invariants`; the bids are read only if the auction is there.
unfoldable pub check_auction_invariants : Database → Uuid → Result InvariantReport
unfolding report_of
check_auction_invariants db key = do
  auction ← get db key
  bids ← (elim auction [ none ↦ ok [] | some a ↦ list_bids db key ])
  ok (report_of key auction bids)
