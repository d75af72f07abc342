-- ===== src/Db/History.antt =====
-- The history of an auction: its accepted bids are numbered from one, each is as high as the one
-- before requires, and the row of the auction is that of the last one.
use transaction_safe_bidding.Prelude.{
  ℕ, ◌+◌, ◌≤◌, ◌≡◌, refl, ◌≢◌, false, Option, none, some, List, [], ◌∷◌, ◌++◌, arith, ◌==◌, keep_if,
}
use transaction_safe_bidding.Domain.Models.{Uuid}
use transaction_safe_bidding.Db.Tables.{AuctionRow, BidRow, Database, lookup_auction, clashes}
use transaction_safe_bidding.Db.Statements.{required_price, with_bid}
use transaction_safe_bidding.Db.Protocol.Defs.{Policy, Extends}

-- `WHERE auction_id = %s`
abbrev pub bids_of : Uuid → List BidRow → List BidRow
bids_of key bids = keep_if (λ b. b.auction_id == key) bids

-- The least amount after a bid of this price, or for a first bid.
abbrev pub required_after : ℕ → ℕ → Option ℕ → ℕ
required_after starting increment none = starting
required_after starting increment (some price) = price + increment

-- The bids continue a history that has come to a version, a price and a winner, and lead to those
-- of the row.
abbrev pub Linked :
    (ℕ → ℕ → ℕ → Type 0) → AuctionRow → ℕ → Option ℕ → Option Uuid → List BidRow → Type 0
Linked Timely r version price winner [] =
    (r.version ≡ version) × (r.current_price_cents ≡ price) × (r.winning_bid_id ≡ winner)
Linked Timely r version price winner (b ∷ bs) =
    (b.auction_version ≡ version + 1)
    × (required_after r.starting_price_cents r.minimum_increment_cents price ≤ b.amount_cents)
    × Timely r.starts_at r.ends_at b.accepted_at
    × Linked Timely r (version + 1) (some b.amount_cents) (some b.id) bs

-- No two rows have the same id or the same request.
abbrev pub Unique : List BidRow → Type 0
Unique [] = Unit
Unique (b ∷ bs) = (clashes b.id b.request_id bs ≡ false) × Unique bs

pub record IsSound (P : Policy) (db : Database) : Type 0 where
  pub linked :
      (r : AuctionRow)
      → lookup_auction r.id db.auctions ≡ some r
      → Linked P.Timely r 0 none none (bids_of r.id db.bids)
  pub unique : Unique db.bids

required_price-eq :
    (r : AuctionRow) (price : Option ℕ)
    → r.current_price_cents ≡ price
    → required_price r ≡ required_after r.starting_price_cents r.minimum_increment_cents price
unfolding required_price
required_price-eq r none h = ground arith
required_price-eq r (some p) h = ground arith

pub Linked-extend :
    (P : Policy) (r : AuctionRow) (b : BidRow) (version : ℕ) (price : Option ℕ)
    (winner : Option Uuid) (bs : List BidRow)
    → Extends P r b (with_bid r b.amount_cents b.id (r.version + 1))
    → Linked P.Timely r version price winner bs
    → Linked P.Timely
        (with_bid r b.amount_cents b.id (r.version + 1))
        version
        price
        winner
        (bs ++ b ∷ [])
unfolding with_bid
Linked-extend P r b version price winner [] x (v, p, w) = (
  omega (arith, x.version),
  omega (arith, x.price, required_price-eq r price p),
  x.timely,
  (omega arith, refl, refl),
)
Linked-extend P r b version price winner (c ∷ bs) x (v, p, t, l) =
    (v, p, t, Linked-extend P r b (version + 1) (some c.amount_cents) (some c.id) bs x l)

pub clashes-append :
    (id request : Uuid) (xs ys : List BidRow)
    → clashes id request xs ≡ false
    → clashes id request ys ≡ false
    → clashes id request (xs ++ ys) ≡ false
unfolding clashes
clashes-append id request [] ys h k = k
clashes-append id request (x ∷ xs) ys h k = ground (arith, clashes-append id request xs ys)

pub clashes-append_left :
    (id request : Uuid) (xs ys : List BidRow)
    → clashes id request (xs ++ ys) ≡ false
    → clashes id request xs ≡ false
unfolding clashes
clashes-append_left id request [] ys h = refl
clashes-append_left id request (x ∷ xs) ys h = ground (arith, clashes-append_left id request xs ys)

pub clashes_one :
    (a b : BidRow)
    → a.id ≢ b.id
    → a.request_id ≢ b.request_id
    → clashes a.id a.request_id (b ∷ []) ≡ false
unfolding clashes
clashes_one a b p q = ground arith

-- A row with new keys may be added at the end.
pub Unique-append :
    (xs : List BidRow) (b : BidRow)
    → Unique xs
    → clashes b.id b.request_id xs ≡ false
    → Unique (xs ++ b ∷ [])
unfolding clashes
Unique-append [] b u h = (refl, tt)
Unique-append (x ∷ xs) b u h = (
  clashes-append x.id x.request_id xs (b ∷ []) u.0 (clashes_one x b (ground arith) (ground arith)),
  Unique-append xs b u.1 (ground arith),
)
