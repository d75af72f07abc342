-- ===== src/Db/Repository.antt =====
-- `AuctionRepository` of src/bidding/db/repositories.py on the committed tables. Each method is one
-- statement on a connection of its own.
use transaction_safe_bidding.Prelude.{
  ℕ, Bool, Option, none, some, List, [], ◌∷◌, ◌++◌, ltb, leb, ◌==◌, if◌then◌else◌, Text, strip,
}
use transaction_safe_bidding.Domain.Errors.{Exn, unique_violation, Result, ok, err, ◌>>=◌}
use transaction_safe_bidding.Domain.Models.{Uuid, AuctionSnapshot, AcceptedBid, is_some}
use transaction_safe_bidding.Db.Tables.{
  AuctionRow, BidRow, Database, auction_row_error, lookup_auction, auction_from_row, bid_from_row,
}
use transaction_safe_bidding.Db.Strategies.Shared.{map_row}
use transaction_safe_bidding.Db.History.{bids_of}

-- What the driver raises, if anything: on a text that it cannot send, as one with U+0000 in it, and on
-- an instant of an answer that it cannot load, as one that is no `datetime` in the time zone of the
-- connection. It stands for psycopg, and is an argument.
pub record Driver : Type 0 where
  pub dump_error : Text → Option Exn
  pub load_error : ℕ → Option Exn

-- The arguments of `create`, each a checked value of the request.
pub record NewAuction : Type 0 where
  pub title : Text
  pub starting_price_cents : ℕ
  pub minimum_increment_cents : ℕ
  pub starts_at : ℕ
  pub ends_at : ℕ

-- The row of the INSERT: the other columns have their defaults.
unfoldable pub created_row : NewAuction → Uuid → ℕ → AuctionRow
created_row a identifier now = record {
  id = identifier;
  title = strip a.title;
  starting_price_cents = a.starting_price_cents;
  current_price_cents = none;
  minimum_increment_cents = a.minimum_increment_cents;
  winning_bid_id = none;
  version = 0;
  starts_at = a.starts_at;
  ends_at = a.ends_at;
  created_at = now;
}

unfoldable pub create_error : Database → AuctionRow → Option Exn
create_error db row = elim (auction_row_error row) [
  | some e ↦ some e
  | none ↦ if is_some (lookup_auction row.id db.auctions) then some unique_violation else none
]

unfoldable pub insert_auction :
    Database → AuctionRow → Option Exn → Result AuctionSnapshot × Database
insert_auction db row (some e) = (err e, db)
insert_auction db row none =
    (auction_from_row row, record db { auctions = db.auctions ++ row ∷ [] })

abbrev pub or_error : Option Exn → Option Exn → Option Exn
or_error (some e) later = some e
or_error none later = later

-- The instants of the row that RETURNING answers with.
unfoldable pub load_row_error : Driver → AuctionRow → Option Exn
load_row_error driver row =
    or_error (driver.load_error row.starts_at)
      (or_error (driver.load_error row.ends_at) (driver.load_error row.created_at))

-- `create`, with the identifier that was given or drawn, and the clock of the INSERT. The answer is
-- loaded inside the transaction, which an exception rolls back; it has committed when the row is mapped.
unfoldable pub create :
    Driver → Database → NewAuction → Uuid → ℕ → Result AuctionSnapshot × Database
unfolding created_row insert_auction create_error load_row_error
create driver db a identifier now =
    let row = created_row a identifier now in
    insert_auction db row (
      or_error (driver.dump_error row.title)
        (or_error (create_error db row) (load_row_error driver row)))

unfoldable pub get : Database → Uuid → Result (Option AuctionSnapshot)
get db key = map_row auction_from_row (lookup_auction key db.auctions)

-- `ORDER BY auction_version, accepted_at, id`
unfoldable pub precedes : BidRow → BidRow → Bool
precedes a b =
    if a.auction_version == b.auction_version
    then (if a.accepted_at == b.accepted_at then leb a.id b.id else ltb a.accepted_at b.accepted_at)
    else ltb a.auction_version b.auction_version

unfoldable pub insert_ordered : BidRow → List BidRow → List BidRow
insert_ordered b [] = b ∷ []
insert_ordered b (c ∷ cs) = if precedes b c then b ∷ c ∷ cs else c ∷ insert_ordered b cs

unfoldable pub ordered : List BidRow → List BidRow
unfolding insert_ordered precedes
ordered [] = []
ordered (b ∷ bs) = insert_ordered b (ordered bs)

unfoldable pub bids_from_rows : List BidRow → Result (List AcceptedBid)
bids_from_rows [] = ok []
bids_from_rows (row ∷ rows) = do b ← bid_from_row row; bs ← bids_from_rows rows; ok (b ∷ bs)

unfoldable pub list_bids : Database → Uuid → Result (List AcceptedBid)
unfolding bids_from_rows ordered
list_bids db key = bids_from_rows (ordered (bids_of key db.bids))
