-- ===== src/Db/Sequential/Steps.antt =====
-- The parts of the strategies, run without interference.
use transaction_safe_bidding.Prelude.{
  ◌+◌, ◌≤◌, ◌<◌, ◌≡◌, refl, sym, ap, ◌∙◌, inl, inr, Bool, true, false, ◌&&◌, none, some, List, [],
  ◌∷◌, ◌++◌, arith, Bool-cases, Option-cases,
}
use mathlib.Core.List.{append-nil}
use transaction_safe_bidding.Prelude.All.{In}
use transaction_safe_bidding.Domain.Errors.{Result, ok, err}
use transaction_safe_bidding.Domain.Models.{Uuid, BidCommand, AcceptedBid, max_money_cents}
use transaction_safe_bidding.Domain.Outcome.{
  BidOutcome, bid_outcome, outcome_fits, replayed, rejected,
}
use transaction_safe_bidding.Db.Tables.{
  AuctionRow, BidRow, Database, lookup_auction, lookup_request, replace, auction_row_error,
  auction_checks, bid_row_error, price_fits, bid_state_fits, auction_from_row, bid_from_row,
  clashes, has_bid, winner_exists,
}
use transaction_safe_bidding.Db.Statements.{
  Txn, idle, Env, new_row, visible, commits, written, with_bid, insert_error, inserted,
}
use transaction_safe_bidding.Db.Perform.{perform, locking}
use transaction_safe_bidding.Db.Program.{◌>>=◌, lift, query}
use transaction_safe_bidding.Db.Mapped.{snapshot_of, bid_of}
use transaction_safe_bidding.Domain.Verdicts.{floor_of}
use transaction_safe_bidding.Db.Tables.{bigint_max}
use transaction_safe_bidding.Db.Safety.Calls.{open_txn}
use transaction_safe_bidding.Db.Strategies.Shared.{
  map_row, existing_bid, read_auction, database_time, same_payload, replay_or_reject,
  insert_new_bid,
}
use transaction_safe_bidding.Db.Sequential.Exec.{exec, close, committed, exec-lift}
use transaction_safe_bidding.Db.Sequential.Spec.{placed_row, raised_row, IsReady}

-- A transaction that has written nothing leaves the tables as they are.
pub close-unwritten :
    {A : Type 0} (env : Env) (r : Result A) (locked : List AuctionRow) (db : Database)
    → close env (r, open_txn locked [] [], db) ≡ (r, idle, db)
unfolding commits written
close-unwritten env (ok a) locked db =
    ap (λ bs. (ok a, idle, record db { bids = bs })) (append-nil db.bids)
close-unwritten env (err e) locked db = refl

module _ (env : Env) (db : Database) where
  pub exec-existing_bid :
      (locked : List AuctionRow) (request : Uuid)
      → exec env db (open_txn locked [] []) (existing_bid request)
        ≡ (map_row bid_from_row (lookup_request request db.bids), open_txn locked [] [], db)
  unfolding existing_bid query lift ◌>>=◌ perform
  exec-existing_bid locked request =
      exec-lift env db (open_txn locked [] [])
        (map_row bid_from_row (lookup_request request (db.bids ++ [])))
      ∙ ap (λ bs. (map_row bid_from_row (lookup_request request bs), open_txn locked [] [], db))
          (append-nil db.bids)

  pub exec-read_auction :
      (key : Uuid) (b : Bool)
      → exec env db idle (read_auction key b) ≡ (
        map_row auction_from_row (lookup_auction key db.auctions),
        locking idle b (lookup_auction key db.auctions),
        db,
      )
  unfolding read_auction query lift ◌>>=◌ perform visible lookup_auction
  exec-read_auction key b =
      exec-lift env db (locking idle b (lookup_auction key db.auctions))
        (map_row auction_from_row (lookup_auction key db.auctions))

  pub exec-database_time : (t : Txn) → exec env db t database_time ≡ (ok env.time, t, db)
  unfolding database_time query lift perform
  exec-database_time t = refl

pub replay_ok :
    (b : AcceptedBid) (command : BidCommand)
    → (o : BidOutcome) × (replay_or_reject b command ≡ ok o)
      × (o.attempts ≡ 1)
      × (o.conflicts ≡ 0)
      × (bid_outcome o.status o.bid o.rejection_reason o.minimum_acceptable_cents 1 0 ≡ ok o)
unfolding replay_or_reject replayed rejected bid_outcome outcome_fits
replay_ok b command = elim (Bool-cases (same_payload b command)) [
  | inl yes_ ↦ rw yes_ (_, refl, refl, refl, refl)
  | inr no_ ↦ rw no_ (_, refl, refl, refl, refl)
]

module _ (env : Env) (db : Database) where
  -- The row of an accepted bid satisfies the constraints, and is mapped to the bid.
  pub placed_row-fits :
      (command : BidCommand) (r : AuctionRow)
      → IsReady env db command
      → lookup_auction command.auction_id db.auctions ≡ some r
      → (bid_row_error (placed_row env command r) ≡ none)
        × (bid_from_row (placed_row env command r) ≡ ok (bid_of (placed_row env command r)))
  unfolding bid_row_error bid_from_row
  placed_row-fits command r ready found =
      let (mapped, checked, room, low) = ready.auction r found in
      (ground (arith, ready.bidder, ready.amount, room), ground (arith, ready.amount))

  fresh-clashes :
      (request : Uuid) (bs : List BidRow)
      → ((b : BidRow) → In b bs → ¬ (b.id ≡ env.uuid))
      → lookup_request request bs ≡ none
      → clashes env.uuid request bs ≡ false
  unfolding clashes lookup_request
  fresh-clashes request [] fresh absent = refl
  fresh-clashes request (b ∷ bs) fresh absent =
      ground (arith, fresh b (inl refl), fresh-clashes request bs (λ c m. fresh c (inr m)))

  insert_error-none :
      (locked : List AuctionRow) (command : BidCommand) (r : AuctionRow)
      → IsReady env db command
      → lookup_auction command.auction_id db.auctions ≡ some r
      → lookup_request command.request_id db.bids ≡ none
      → insert_error db (open_txn locked [] []) (placed_row env command r) ≡ none
  unfolding insert_error visible lookup_auction
  insert_error-none locked command r ready found absent =
      let row = placed_row env command r in
      let free : clashes row.id row.request_id (db.bids ++ []) ≡ false =
        ap (λ bs. clashes row.id row.request_id bs) (append-nil db.bids)
        ∙ fresh-clashes command.request_id db.bids ready.fresh absent in
      ground (arith, (placed_row-fits command r ready found).0, free, found)

  -- The INSERT of the bid.
  pub exec-insert_new_bid :
      (locked : List AuctionRow) (command : BidCommand) (r : AuctionRow)
      → IsReady env db command
      → lookup_auction command.auction_id db.auctions ≡ some r
      → lookup_request command.request_id db.bids ≡ none
      → exec env db (open_txn locked [] []) (insert_new_bid command env.uuid (r.version + 1)) ≡ (
        ok (bid_of (placed_row env command r)),
        open_txn locked (placed_row env command r ∷ []) [],
        db,
      )
  unfolding insert_new_bid query lift ◌>>=◌ perform inserted new_row
  exec-insert_new_bid locked command r ready found absent =
      let row = placed_row env command r in
      let t = open_txn locked [] [] in
      ap
        (λ o.
          exec env db (inserted t row o).1
            (lift (inserted t row o).0 >>= λ b. lift (bid_from_row b)))
        (insert_error-none locked command r ready found absent)
      ∙ exec-lift env db (open_txn locked (row ∷ []) []) (bid_from_row row)
      ∙ ap (λ b. (b, open_txn locked (row ∷ []) [], db)) (placed_row-fits command r ready found).1

  -- The raised row satisfies the constraints.
  pub raised_row-fits :
      (command : BidCommand) (r : AuctionRow)
      → auction_row_error r ≡ none
      → r.version < bigint_max
      → command.amount_cents ≤ max_money_cents
      → floor_of (snapshot_of r) ≤ command.amount_cents
      → auction_row_error (raised_row env command r) ≡ none
  unfolding auction_row_error raised_row auction_checks price_fits bid_state_fits
  raised_row-fits command r checked room small low = elim (Option-cases r.current_price_cents) [
    | inl n ↦ ground arith
    | inr (price, e) ↦ ground arith
  ]

  has_bid-last :
      (auction : Uuid) (b : BidRow) (bs : List BidRow)
      → b.auction_id ≡ auction
      → has_bid auction b.id (bs ++ b ∷ []) ≡ true
  unfolding has_bid
  has_bid-last auction b [] e = ground arith
  has_bid-last auction b (c ∷ bs) e = ground (arith, has_bid-last auction b bs e)

  -- The transaction with the bid and the raised row commits.
  pub close-written :
      {A : Type 0} (a : A) (command : BidCommand) (r : AuctionRow) (locked : List AuctionRow)
      → r.id ≡ command.auction_id
      → close env (
        ok a,
        open_txn locked (placed_row env command r ∷ []) (raised_row env command r ∷ []),
        db,
      )
        ≡ (
          ok a,
          record idle { saved = placed_row env command r ∷ [] },
          record {
            auctions = replace (raised_row env command r) db.auctions;
            bids = db.bids ++ placed_row env command r ∷ [];
          },
        )
  unfolding commits written raised_row winner_exists with_bid
  close-written a command r locked e =
      let t = open_txn locked (placed_row env command r ∷ []) (raised_row env command r ∷ []) in
      let there : has_bid r.id env.uuid (db.bids ++ placed_row env command r ∷ []) ≡ true =
        has_bid-last r.id (placed_row env command r) db.bids (sym e) in
      ap (λ b. committed env a t db (b && true)) there
