-- ===== src/Domain/Snapshots.antt =====
-- The invariant of an `AuctionSnapshot`: its constructor establishes it, and accepting a bid keeps it.
use transaction_safe_bidding.Prelude.{
  ℕ, ◌+◌, ◌≤◌, ◌<◌, ◌≡◌, true, Option, none, some, arith, length, strip,
}
use transaction_safe_bidding.Domain.Errors.{ok}
use transaction_safe_bidding.Domain.Models.{
  Uuid, Value, int, aware, max_money_cents, max_title_length, AuctionSnapshot, AuctionFields,
  auction_snapshot, BidEvaluation, require_text, check_bid_state,
}
use transaction_safe_bidding.Domain.Rules.{evaluate_bid, apply_accepted_bid, fields_of}
use transaction_safe_bidding.Domain.Verdicts.{floor_of, accepted_iff}

-- Price, winner and version: all three of an auction without bids, or all three of one with bids.
abbrev pub StateFits : ℕ → Option ℕ → Option Uuid → ℕ → Type 0
StateFits starting none none version = version ≡ 0
StateFits starting none (some winner) version = ⊥
StateFits starting (some price) none version = ⊥
StateFits starting (some price) (some winner) version =
    (starting ≤ price) × (price ≤ max_money_cents) × (0 < version)

pub record IsValid (a : AuctionSnapshot) : Type 0 where
  pub title : (0 < length (strip a.title)) × (length (strip a.title) ≤ max_title_length)
  pub starting : (0 < a.starting_price_cents) × (a.starting_price_cents ≤ max_money_cents)
  pub increment : (0 < a.minimum_increment_cents) × (a.minimum_increment_cents ≤ max_money_cents)
  pub window : a.starts_at < a.ends_at
  pub state : StateFits a.starting_price_cents a.current_price_cents a.winning_bid_id a.version

abbrev pub moved : AuctionSnapshot → Uuid → ℕ → AuctionSnapshot
moved a bid amount = record a {
  current_price_cents = some amount;
  winning_bid_id = some bid;
  version = a.version + 1;
}

check_bid_state-fits :
    (starting version : ℕ) (price : Option Value) (winner : Option Uuid) (c : Option ℕ)
    → 0 < starting
    → check_bid_state starting price winner version ≡ ok c
    → StateFits starting c winner version
unfolding check_bid_state
check_bid_state-fits starting version none none c pos h = ground arith
check_bid_state-fits starting version none (some w) c pos h = cc
check_bid_state-fits starting version (some p) none c pos h = cc
check_bid_state-fits starting version (some p) (some w) none pos h = ground arith
check_bid_state-fits starting version (some p) (some w) (some c) pos h = ground arith

check_bid_state-of_fits :
    (starting version : ℕ) (price : Option ℕ) (winner : Option Uuid)
    → 0 < starting
    → StateFits starting price winner version
    → check_bid_state starting (elim price [ none ↦ none | some p ↦ some (int p) ]) winner version
      ≡ ok price
unfolding check_bid_state
check_bid_state-of_fits starting version none none pos h = ground arith
check_bid_state-of_fits starting version none (some w) pos h = absurd h
check_bid_state-of_fits starting version (some p) none pos h = absurd h
check_bid_state-of_fits starting version (some p) (some w) pos h = ground arith

-- Whatever the constructor is given, a snapshot that it returns is valid.
pub auction_snapshot-IsValid :
    (f : AuctionFields) (a : AuctionSnapshot) → auction_snapshot f ≡ ok a → IsValid a
unfolding auction_snapshot
auction_snapshot-IsValid f a h = record {
  title = unfold require_text in ground arith;
  starting = ground arith;
  increment = ground arith;
  window = ground arith;
  state = ground (
    arith,
    check_bid_state-fits a.starting_price_cents a.version f.current_price_cents f.winning_bid_id
        a.current_price_cents,
  );
}

-- A valid snapshot is rebuilt from its fields unchanged.
pub auction_snapshot-fields_of :
    (a : AuctionSnapshot) → IsValid a → auction_snapshot (fields_of a) ≡ ok a
unfolding auction_snapshot require_text
auction_snapshot-fields_of a v = ground (
  arith,
  check_bid_state-of_fits a.starting_price_cents a.version a.current_price_cents a.winning_bid_id,
)

-- What an accepted evaluation tells of the amount.
accepted-bounds :
    (a : AuctionSnapshot) (amount now : ℕ) (e : BidEvaluation)
    → evaluate_bid a (int amount) (aware now) ≡ ok e
    → (0 < amount) × (amount ≤ max_money_cents)
unfolding evaluate_bid
accepted-bounds a amount now e h = ground arith

StateFits-moved :
    (starting increment amount version : ℕ) (price : Option ℕ) (winner : Option Uuid)
    → StateFits starting price winner version
    → (elim price [ none ↦ starting | some p ↦ p + increment ]) ≤ amount
    → starting ≤ amount
StateFits-moved starting increment amount version none winner f le = le
StateFits-moved starting increment amount version (some p) none f le = absurd f
StateFits-moved starting increment amount version (some p) (some w) f le = omega arith

moved-IsValid :
    (a : AuctionSnapshot) (bid : Uuid) (amount : ℕ)
    → IsValid a
    → amount ≤ max_money_cents
    → floor_of a ≤ amount
    → IsValid (moved a bid amount)
moved-IsValid a bid amount v small le = record {
  title = v.title;
  starting = v.starting;
  increment = v.increment;
  window = v.window;
  state = (
    StateFits-moved a.starting_price_cents a.minimum_increment_cents amount a.version
        a.current_price_cents a.winning_bid_id v.state le,
    small,
    omega arith,
  );
}

-- On a valid snapshot, for a bid whose evaluation accepts: `apply_accepted_bid` returns the snapshot with
-- the version raised by one, the price and the winner set, and nothing else changed, and this is valid.
pub apply-accepted :
    (a : AuctionSnapshot) (bid : Uuid) (amount now : ℕ) (e : BidEvaluation)
    → IsValid a
    → evaluate_bid a (int amount) (aware now) ≡ ok e
    → e.accepted ≡ true
    → (apply_accepted_bid a bid (int amount) (aware now) ≡ ok (moved a bid amount))
      × IsValid (moved a bid amount)
unfolding apply_accepted_bid
apply-accepted a bid amount now e v h acc =
    let valid =
      moved-IsValid a bid amount v (accepted-bounds a amount now e h).1
        ((accepted_iff a amount now e h).0.0 acc).2 in
    (rw (h, acc) (auction_snapshot-fields_of (moved a bid amount) valid), valid)
