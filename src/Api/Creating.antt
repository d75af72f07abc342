-- ===== src/Api/Creating.antt =====
-- Creating an auction from a valid body, and reading it afterwards.
use transaction_safe_bidding.Prelude.{
  ℕ, ◌≡◌, refl, sym, ap, ◌∙◌, inl, inr, Option, none, some, List, [], ◌∷◌, ◌++◌, arith, ◌==◌,
  if◌then◌else◌, Bool-cases, Option-cases, length, Text,
}
use transaction_safe_bidding.Domain.Errors.{Exn, unique_violation, Result, ok, ◌>>=◌}
use transaction_safe_bidding.Domain.Models.{Uuid, AuctionSnapshot, is_some}
use transaction_safe_bidding.Domain.Snapshots.{auction_snapshot-fields_of}
use transaction_safe_bidding.Db.Tables.{
  AuctionRow, Database, lookup_auction, auction_row_error, auction_checks, auction_from_row, btrim,
}
use transaction_safe_bidding.Db.Trimmed.{btrim-strip}
use transaction_safe_bidding.Db.Mapped.{snapshot_of}
use transaction_safe_bidding.Db.Strategies.Shared.{map_row, some_row}
use transaction_safe_bidding.Db.Repository.{
  Driver, or_error, load_row_error, created_row, create_error, insert_auction, create, get,
}
use transaction_safe_bidding.Api.Requests.{
  CreateAuctionRequest, IsDeclared, IsValid, validate_values, validate_values-IsValid,
}
use transaction_safe_bidding.Api.Service.{BiddingService}
use transaction_safe_bidding.Api.Service as Service
use transaction_safe_bidding.Api.Handlers.{
  AuctionResponse, auction_response, Response, created, found, new_auction, create_auction,
  get_auction, found_reply, created_reply,
}

-- The row that a valid body makes.
abbrev pub row_of : CreateAuctionRequest → Uuid → ℕ → AuctionRow
row_of body identifier now = record {
  id = identifier;
  title = body.title;
  starting_price_cents = body.starting_price_cents;
  current_price_cents = none;
  minimum_increment_cents = body.minimum_increment_cents;
  winning_bid_id = none;
  version = 0;
  starts_at = body.starts_at;
  ends_at = body.ends_at;
  created_at = now;
}

created_row-valid :
    (body : CreateAuctionRequest) (identifier : Uuid) (now : ℕ)
    → IsValid body
    → created_row (new_auction body) identifier now ≡ row_of body identifier now
unfolding created_row
created_row-valid body identifier now v =
    ap (λ (t : Text). record (row_of body identifier now) { title = t }) v.title.kept

row_of-fits :
    (body : CreateAuctionRequest) (identifier : Uuid) (now : ℕ)
    → IsValid body
    → auction_row_error (row_of body identifier now) ≡ none
unfolding auction_row_error auction_checks
row_of-fits body identifier now v =
    let kept : length (btrim body.title) ≡ length body.title =
      ap length (ap btrim (sym v.title.kept) ∙ btrim-strip body.title ∙ v.title.kept) in
    ground (arith, kept, v.title.size, v.starting, v.increment, v.window)

row_of-snapshot :
    (body : CreateAuctionRequest) (identifier : Uuid) (now : ℕ)
    → IsValid body
    → auction_from_row (row_of body identifier now) ≡ ok (snapshot_of (row_of body identifier now))
unfolding auction_from_row
row_of-snapshot body identifier now v =
    auction_snapshot-fields_of (snapshot_of (row_of body identifier now)) (record {
      title = ground (arith, ap length v.title.kept, v.title.size);
      starting = v.starting;
      increment = v.increment;
      window = v.window;
      state = refl;
    })

lookup_auction-append :
    (key : Uuid) (rows : List AuctionRow) (r : AuctionRow)
    → lookup_auction key (rows ++ r ∷ []) ≡ (elim (lookup_auction key rows) [
      | some a ↦ some a
      | none ↦ if r.id == key then some r else none
    ])
unfolding lookup_auction
lookup_auction-append key [] r = refl
lookup_auction-append key (a ∷ rows) r = elim (Bool-cases (a.id == key)) [
  | inl hit ↦ rw hit refl
  | inr other ↦ rw other (lookup_auction-append key rows r)
]

abbrev pub inserted : Database → AuctionRow → Database
inserted db r = record db { auctions = db.auctions ++ r ∷ [] }

create_error-none :
    (db : Database) (r : AuctionRow)
    → auction_row_error r ≡ none
    → lookup_auction r.id db.auctions ≡ none
    → create_error db r ≡ none
unfolding create_error
create_error-none db r fits new_ =
    ap
      (λ (x : Option Exn). elim x [
        | some e ↦ some e
        | none ↦ if is_some (lookup_auction r.id db.auctions) then some unique_violation else none
      ])
      fits
    ∙ ap
        (λ (o : Option AuctionRow).
          let e : Option Exn = if is_some o then some unique_violation else none in e)
        new_

-- The driver can send the title, and load the instants of the row.
pub record IsCarried (driver : Driver) (body : CreateAuctionRequest) (now : ℕ) : Type 0 where
  pub title : driver.dump_error body.title ≡ none
  pub starts : driver.load_error body.starts_at ≡ none
  pub ends : driver.load_error body.ends_at ≡ none
  pub clock : driver.load_error now ≡ none

no_error :
    (driver : Driver) (db : Database) (body : CreateAuctionRequest) (identifier : Uuid) (now : ℕ)
    → IsCarried driver body now
    → create_error db (row_of body identifier now) ≡ none
    → or_error (driver.dump_error body.title) (
        or_error
          (create_error db (row_of body identifier now))
          (load_row_error driver (row_of body identifier now)))
      ≡ none
unfolding load_row_error
no_error driver db body identifier now carried fits =
    rw (carried.title, fits, carried.starts, carried.ends) carried.clock

create-valid :
    (driver : Driver) (db : Database) (body : CreateAuctionRequest) (identifier : Uuid) (now : ℕ)
    → IsCarried driver body now
    → IsValid body
    → lookup_auction identifier db.auctions ≡ none
    → create driver db (new_auction body) identifier now
      ≡ (ok (snapshot_of (row_of body identifier now)), inserted db (row_of body identifier now))
unfolding create insert_auction
create-valid driver db body identifier now carried v new_ =
    let r = row_of body identifier now in
    ap
      (λ (row : AuctionRow). insert_auction db row (
        or_error (driver.dump_error row.title)
          (or_error (create_error db row) (load_row_error driver row))))
      (created_row-valid body identifier now v)
    ∙ ap (insert_auction db r) (
        no_error driver db body identifier now carried
          (create_error-none db r (row_of-fits body identifier now v) new_))
    ∙ ap
        (λ (s : Result AuctionSnapshot).
          let x : Result AuctionSnapshot × Database = (s, inserted db r) in x)
        (row_of-snapshot body identifier now v)

abbrev pub response_of : CreateAuctionRequest → Uuid → ℕ → AuctionResponse
response_of body identifier now = auction_response (snapshot_of (row_of body identifier now))

lookup_auction-inserted :
    (db : Database) (r : AuctionRow)
    → lookup_auction r.id db.auctions ≡ none
    → lookup_auction r.id (inserted db r).auctions ≡ some r
lookup_auction-inserted db r new_ =
    lookup_auction-append r.id db.auctions r ∙ rw new_ (ground arith)

lookup_auction-other :
    (db : Database) (r : AuctionRow) (key : Uuid)
    → ¬ (key ≡ r.id)
    → lookup_auction key (inserted db r).auctions ≡ lookup_auction key db.auctions
lookup_auction-other db r key differs =
    lookup_auction-append key db.auctions r ∙ elim (Option-cases (lookup_auction key db.auctions)) [
      | inl p ↦ rw p (ground (arith, differs))
      | inr (a, p) ↦ rw p refl
    ]

-- A body whose fields are as declared and that the validator lets through, with an identifier that is
-- not in use, a title that the driver can send, and instants of its start, its end and its creation that
-- the driver can load: the auction is created with status 201, with the values of the body, without
-- bids, and with version 0. A later GET of the auction replies with the same values, and one of another
-- auction as before; no bid is touched.
pub create_auction-get :
    (driver : Driver) (service : BiddingService) (db : Database)
    (request body : CreateAuctionRequest) (identifier key : Uuid) (now : ℕ)
    → IsCarried driver body now
    → IsDeclared request
    → validate_values request ≡ ok body
    → lookup_auction identifier db.auctions ≡ none
    → ¬ (key ≡ identifier)
    → (create_auction driver service db body identifier now ≡ (
      ok (created (response_of body identifier now)),
      inserted db (row_of body identifier now),
    ))
      × (get_auction service (inserted db (row_of body identifier now)) identifier
          ≡ ok (found (response_of body identifier now)))
      × (get_auction service (inserted db (row_of body identifier now)) key
          ≡ get_auction service db key)
unfolding create_auction Service.create_auction created_reply get_auction Service.get_auction get
    found_reply
create_auction-get driver service db request body identifier key now carried declared validated new_
      differs =
    let v = validate_values-IsValid request body declared validated in
    let r = row_of body identifier now in
    (
      ap
          (λ (x : Result AuctionSnapshot × Database).
            let y : Result (Response AuctionResponse) × Database = (created_reply x.0, x.1) in y)
          (create-valid driver db body identifier now carried v new_),
      ap
            (λ (o : Option AuctionRow).
              map_row auction_from_row o >>= λ auction. ok (found_reply auction))
            (lookup_auction-inserted db r new_)
          ∙ ap (λ (s : Result AuctionSnapshot). some_row s >>= λ auction. ok (found_reply auction))
              (row_of-snapshot body identifier now v),
      ap
          (λ (o : Option AuctionRow).
            map_row auction_from_row o >>= λ auction. ok (found_reply auction))
          (lookup_auction-other db r key differs),
    )
