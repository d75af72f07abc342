-- ===== src/Db/Statements.antt =====
-- The SQL statements of src/bidding/db/strategies.py, and what each does for one connection: to its
-- open transaction and, at a commit, to the tables.
use transaction_safe_bidding.Prelude.{
  ℕ, ◌+◌, Bool, true, not, ◌&&◌, Option, none, some, List, [], ◌∷◌, ◌++◌, ltb, leb, ◌==◌,
  if◌then◌else◌, keep_if, Text,
}
use transaction_safe_bidding.Domain.Errors.{
  Exn, unique_violation, foreign_key_violation, Result, ok, err,
}
use transaction_safe_bidding.Domain.Models.{Uuid, is_some}
use transaction_safe_bidding.Db.Tables.{
  AuctionRow, BidRow, Database, auction_row_error, bid_row_error, lookup_auction, replace, clashes,
  winner_exists,
}

-- The values of `_insert_bid`; `accepted_at` is the column's default.
pub record NewBid : Type 0 where
  pub id : Uuid
  pub request_id : Uuid
  pub auction_id : Uuid
  pub bidder_id : Text
  pub amount_cents : ℕ
  pub auction_version : ℕ

pub data Stmt : Type 0 where
  -- a connection of the pool, and BEGIN
  connect : Stmt
  commit rollback : Stmt
  -- SELECT ... FROM bids WHERE request_id = %s
  find_bid : Uuid → Stmt
  -- SELECT ... FROM auctions WHERE id = %s, with FOR UPDATE or without
  find_auction : Uuid → Bool → Stmt
  -- SELECT clock_timestamp()
  database_clock : Stmt
  -- uuid4(), no statement: a value that the program does not choose
  new_uuid : Stmt
  insert_bid : NewBid → Stmt
  -- the UPDATE of the unsafe strategy: amount, bid, version, auction
  update_to : ℕ → Uuid → ℕ → Uuid → Stmt
  -- the UPDATE of the pessimistic strategy: amount, bid, auction
  update_next : ℕ → Uuid → Uuid → Stmt
  -- the UPDATE of the optimistic strategy: amount, bid, auction, version
  update_if : ℕ → Uuid → Uuid → ℕ → Stmt

-- What a statement that does not fail answers.
abbrev pub Answer : Stmt → Type 0
Answer (find_bid _) = Option BidRow
Answer (find_auction _ _) = Option AuctionRow
Answer database_clock = ℕ
Answer new_uuid = Uuid
Answer (insert_bid _) = BidRow
Answer (update_if _ _ _ _) = Option ℕ
Answer connect = Unit
Answer commit = Unit
Answer rollback = Unit
Answer (update_to _ _ _ _) = Unit
Answer (update_next _ _ _) = Unit

-- A connection: the rows that its transaction has locked, as they were then; what the transaction has
-- written so far; and the bids that earlier commits of the connection wrote.
pub record Txn : Type 0 where
  pub locked : List AuctionRow
  pub bids : List BidRow
  pub rows : List AuctionRow
  pub saved : List BidRow

-- The end of a transaction, whose writes are gone.
abbrev pub ended : Txn → Txn
ended t = record { locked = []; bids = []; rows = []; saved = t.saved }

abbrev pub idle : Txn
idle = record { locked = []; bids = []; rows = []; saved = [] }

-- What the environment chooses at a statement: the clock's reading and a fresh UUID.
pub record Env : Type 0 where
  pub time : ℕ
  pub uuid : Uuid

-- A transaction reads its own writes before the committed rows.
unfoldable pub visible : Database → Txn → Uuid → Option AuctionRow
unfolding lookup_auction
visible db t key = elim (lookup_auction key t.rows) [
  | none ↦ lookup_auction key db.auctions
  | some r ↦ some r
]

-- The row `r` is locked by this transaction; the locked version is kept.
unfoldable pub lock : Txn → AuctionRow → Txn
unfolding lookup_auction
lock t r = if is_some (lookup_auction r.id t.locked) then t else record t { locked = r ∷ t.locked }

abbrev pub put : AuctionRow → List AuctionRow → List AuctionRow
put r rows = r ∷ keep_if (λ a. not (a.id == r.id)) rows

-- The new version of a row, unless the constraints refuse it.
unfoldable pub staged : Txn → AuctionRow → AuctionRow → Option Exn → Result (Unit {0}) × Txn
unfolding lock
staged t old new (some e) = (err e, ended t)
staged t old new none = (ok tt, record (lock t old) { rows = put new t.rows })

unfoldable pub stage : Txn → AuctionRow → AuctionRow → Result (Unit {0}) × Txn
unfolding staged
stage t old new = staged t old new (auction_row_error new)

abbrev pub all_of {ℓ} : {A : Type ℓ} → (A → Bool) → List A → Bool
all_of p [] = true
all_of p (x ∷ xs) = p x && all_of p xs

abbrev pub replace_all : List AuctionRow → List AuctionRow → List AuctionRow
unfolding replace
replace_all [] table = table
replace_all (r ∷ rows) table = replace r (replace_all rows table)

-- The tables after a commit.
unfoldable pub written : Database → Txn → Database
unfolding replace
written db t = record { auctions = replace_all t.rows db.auctions; bids = db.bids ++ t.bids }

-- COMMIT checks the deferred foreign key of the winning bids.
unfoldable pub commits : Database → Txn → Bool
unfolding winner_exists
commits db t = all_of (winner_exists (db.bids ++ t.bids)) t.rows

unfoldable pub new_row : NewBid → ℕ → BidRow
new_row b time = record {
  id = b.id;
  request_id = b.request_id;
  auction_id = b.auction_id;
  bidder_id = b.bidder_id;
  amount_cents = b.amount_cents;
  auction_version = b.auction_version;
  accepted_at = time;
}

-- An INSERT of the row, or its error.
unfoldable pub inserted : Txn → BidRow → Option Exn → Result BidRow × Txn
inserted t row (some e) = (err e, ended t)
inserted t row none = (ok row, record t { bids = t.bids ++ row ∷ [] })

-- The error of an INSERT: its values, then the unique columns, then the foreign key.
unfoldable pub insert_error : Database → Txn → BidRow → Option Exn
insert_error db t b = elim (bid_row_error b) [
  | some e ↦ some e
  | none ↦
      if clashes b.id b.request_id (db.bids ++ t.bids)
      then some unique_violation
      else if is_some (visible db t b.auction_id)
      then none
      else some foreign_key_violation
]

-- The least amount of the WHERE clause of `update_if`.
unfoldable pub required_price : AuctionRow → ℕ
required_price r = elim r.current_price_cents [
  | none ↦ r.starting_price_cents
  | some price ↦ price + r.minimum_increment_cents
]

-- The WHERE clause of `update_if`; `time` is the reading of `validation_clock`.
unfoldable pub matches : AuctionRow → ℕ → ℕ → ℕ → Bool
unfolding required_price
matches r amount observed time =
    r.version == observed
    && leb r.starts_at time
    && ltb time r.ends_at
    && leb (required_price r) amount

unfoldable pub with_bid : AuctionRow → ℕ → Uuid → ℕ → AuctionRow
with_bid r amount bid version = record r {
  current_price_cents = some amount;
  winning_bid_id = some bid;
  version = version;
}
