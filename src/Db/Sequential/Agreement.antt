-- ===== src/Db/Sequential/Agreement.antt =====
-- The UPDATE of the strategies and the transition of the domain, `apply_accepted_bid`, which no strategy
-- calls: they make the same auction.
use transaction_safe_bidding.Prelude.{
  ℕ, ◌≡◌, refl, sym, ap, ◌∙◌, subst, Bool, true, none, some, if◌then◌else◌,
}
use transaction_safe_bidding.Domain.Errors.{Result, ok}
use transaction_safe_bidding.Domain.Models.{BidCommand, BidEvaluation, AuctionSnapshot, int, aware}
use transaction_safe_bidding.Domain.Outcome.{BidOutcome, accepted}
use transaction_safe_bidding.Domain.Rules.{apply_accepted_bid}
use transaction_safe_bidding.Domain.Snapshots.{
  IsValid, moved, auction_snapshot-IsValid, auction_snapshot-fields_of, apply-accepted,
}
use transaction_safe_bidding.Db.Tables.{
  AuctionRow, Database, lookup_auction, lookup_request, row_fields, auction_from_row,
}
use transaction_safe_bidding.Db.Statements.{Env, idle, with_bid}
use transaction_safe_bidding.Db.Program.{run}
use transaction_safe_bidding.Db.Mapped.{snapshot_of, bid_of}
use transaction_safe_bidding.Db.Repository.{get}
use transaction_safe_bidding.Db.Soundness.Commits.{lookup-replace_self}
use transaction_safe_bidding.Db.Safety.Calls.{lookup_auction-id}
use transaction_safe_bidding.Db.Strategies.{BidStrategy, place_bid}
use transaction_safe_bidding.Db.Strategies.Shared.{evaluate, map_row, some_row, refuse}
use transaction_safe_bidding.Db.Sequential.Spec.{
  placed_row, raised_row, raised_tables, settle, bid_on, answer, place, IsReady,
}
use transaction_safe_bidding.Db.Sequential.Ends.{view}
use transaction_safe_bidding.Db.Sequential.Refinement.{IsUsable, run-place}

snapshot_of-IsValid :
    (r : AuctionRow) → auction_from_row r ≡ ok (snapshot_of r) → IsValid (snapshot_of r)
unfolding auction_from_row
snapshot_of-IsValid r h = auction_snapshot-IsValid (row_fields r) (snapshot_of r) h

module _ (env : Env) (db : Database) (command : BidCommand) (r : AuctionRow) (e : BidEvaluation)
    (ready : IsReady env db command) (new_ : lookup_request command.request_id db.bids ≡ none)
    (found : lookup_auction command.auction_id db.auctions ≡ some r)
    (evaluated : evaluate (snapshot_of r) command env.time ≡ ok e) (yes_ : e.accepted ≡ true) where
  raised-moved :
      snapshot_of (raised_row env command r) ≡ moved (snapshot_of r) env.uuid command.amount_cents
  unfolding raised_row with_bid
  raised-moved = refl

  applied :
      (apply_accepted_bid (snapshot_of r) env.uuid (int command.amount_cents) (aware env.time)
        ≡ ok (moved (snapshot_of r) env.uuid command.amount_cents))
      × IsValid (moved (snapshot_of r) env.uuid command.amount_cents)
  applied =
      apply-accepted (snapshot_of r) env.uuid command.amount_cents env.time e
        (snapshot_of-IsValid r (ready.auction r found).0) evaluated yes_

  raised_row-mapped :
      auction_from_row (raised_row env command r) ≡ ok (snapshot_of (raised_row env command r))
  unfolding auction_from_row raised_row with_bid
  raised_row-mapped =
      auction_snapshot-fields_of (moved (snapshot_of r) env.uuid command.amount_cents) applied.1

  raised-found :
      lookup_auction command.auction_id (raised_tables env db command r).auctions
      ≡ some (raised_row env command r)
  unfolding raised_row with_bid
  raised-found =
      let key = lookup_auction-id command.auction_id db.auctions r found in
      subst
        (λ k.
          lookup_auction k (raised_tables env db command r).auctions
          ≡ some (raised_row env command r))
        key
        (lookup-replace_self (raised_row env command r) r db.auctions
          (subst (λ k. lookup_auction k db.auctions ≡ some r) (sym key) found))

  place-accepted :
      place env db command
      ≡ (accepted (bid_of (placed_row env command r)) 1 0, raised_tables env db command r)
  unfolding place answer bid_on settle
  place-accepted =
      ap (answer env db command) new_
      ∙ ap (bid_on env db command) found
      ∙ ap (settle env db command r) evaluated
      ∙ ap
          (λ (b : Bool).
            let x : Result BidOutcome × Database =
              if b
              then (
                accepted (bid_of (placed_row env command r)) 1 0,
                raised_tables env db command r,
              )
              else (refuse e 1 0, db) in
            x)
          yes_

-- Where tables and command are ready, the request is new, and the evaluation of the stored auction
-- accepts: a request that runs without interference is accepted, whatever the usable strategy. The
-- auction that is read afterwards is the one that `apply_accepted_bid` makes of the one before.
pub run-applies :
    (env : Env) (db : Database) (command : BidCommand) (r : AuctionRow) (e : BidEvaluation)
    (strategy : BidStrategy) (n : ℕ)
    → IsReady env db command
    → lookup_request command.request_id db.bids ≡ none
    → lookup_auction command.auction_id db.auctions ≡ some r
    → evaluate (snapshot_of r) command env.time ≡ ok e
    → e.accepted ≡ true
    → IsUsable strategy
    → (after : AuctionSnapshot) × (apply_accepted_bid
          (snapshot_of r)
          env.uuid
          (int command.amount_cents)
          (aware env.time)
        ≡ ok after)
      × (view (run (λ _. env) n db idle (place_bid strategy command))
          ≡ (accepted (bid_of (placed_row env command r)) 1 0, raised_tables env db command r))
      × (get (raised_tables env db command r) command.auction_id ≡ ok (some after))
unfolding get
run-applies env db command r e strategy n ready new_ found evaluated yes_ usable = (
  snapshot_of (raised_row env command r),
  (applied env db command r e ready new_ found evaluated yes_).0
      ∙ ap (λ (a : AuctionSnapshot). ok a)
          (sym (raised-moved env db command r e ready new_ found evaluated yes_)),
  run-place env db command strategy n usable ready
      ∙ place-accepted env db command r e ready new_ found evaluated yes_,
  ap (map_row auction_from_row) (raised-found env db command r e ready new_ found evaluated yes_)
      ∙ ap some_row (raised_row-mapped env db command r e ready new_ found evaluated yes_),
)
