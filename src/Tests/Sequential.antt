-- ===== src/Tests/Sequential.antt =====
-- One request that is alone, on the tables of the examples.
use transaction_safe_bidding.Prelude.{
  true, ◌≤◌, ◌<◌, ◌≡◌, ◌∙◌, ap, refl, subst, none, some, arith, is_space, strip,
}
use transaction_safe_bidding.Domain.Errors.{Result, ok}
use transaction_safe_bidding.Db.Tables.{Database}
use transaction_safe_bidding.Domain.Models.{max_money_cents, require_text, check_bid_state}
use transaction_safe_bidding.Domain.Models.{
  BidOutcomeStatus, AcceptedBid, require_money, require_aware, bid_evaluation,
}
use transaction_safe_bidding.Domain.Outcome.{
  BidOutcome, replayed, accepted, bid_outcome, outcome_fits,
}
use transaction_safe_bidding.Domain.Rules.{
  evaluate_bid, derive_auction_state, minimum_acceptable_bid, minimum_from, verdict,
}
use transaction_safe_bidding.Db.Statements.{Txn}
use transaction_safe_bidding.Db.Mapped.{bid_of}
use transaction_safe_bidding.Db.System.{Reach, start, opening}
use transaction_safe_bidding.Db.Solo.{done, alone}
use transaction_safe_bidding.Db.Guarantees.Histories.{clients}
use transaction_safe_bidding.Db.Guarantees.Progress.{request-served}
use transaction_safe_bidding.Db.Sequential.Spec.{placed_row, settle, bid_on, answer}
use transaction_safe_bidding.Domain.Models.{BidEvaluation, AuctionSnapshot, open_now, int, aware}
use transaction_safe_bidding.Domain.Rules.{apply_accepted_bid}
use transaction_safe_bidding.Db.Repository.{get}
use transaction_safe_bidding.Db.Strategies.Shared.{evaluate}
use transaction_safe_bidding.Db.Sequential.Spec.{raised_tables}
use transaction_safe_bidding.Db.Sequential.Agreement.{run-applies}
use transaction_safe_bidding.Db.Sequential.Repeats.{run-again}
use transaction_safe_bidding.Domain.Verdicts.{floor_of}
use transaction_safe_bidding.Db.Tables.{
  AuctionRow, lookup_auction, lookup_request, auction_row_error, auction_from_row, bigint_max,
  btrim,
}
use transaction_safe_bidding.Db.Statements.{idle}
use transaction_safe_bidding.Db.Mapped.{snapshot_of}
use transaction_safe_bidding.Db.Program.{run}
use transaction_safe_bidding.Db.Strategies.{pessimistic, optimistic, place_bid}
use transaction_safe_bidding.Db.Sequential.Spec.{place, IsReady}
use transaction_safe_bidding.Db.Sequential.Ends.{view}
use transaction_safe_bidding.Db.Sequential.Refinement.{run-place}
use transaction_safe_bidding.Tests.Data.{auction, tables, command, envs, all_optimistic}

-- What `IsReady` asks of the row of the auction.
abbrev Fits : AuctionRow → Type 0
Fits r =
    (auction_from_row r ≡ ok (snapshot_of r))
    × (auction_row_error r ≡ none)
    × (r.version < bigint_max)
    × (floor_of (snapshot_of r) ≤ max_money_cents)

auction-Fits : Fits auction
unfolding auction_from_row auction_row_error require_text strip is_space check_bid_state
auction-Fits = (refl, refl, omega arith, omega arith)

pub row_of-Fits : (r : AuctionRow) → lookup_auction 1 tables.auctions ≡ some r → Fits r
unfolding lookup_auction
row_of-Fits r h = subst Fits (cc) auction-Fits

tables-IsReady : IsReady (envs 1000 0) tables (command 0)
unfolding lookup_auction lookup_request btrim strip is_space
tables-IsReady = record {
  bid = λ row h. absurd (cc);
  auction = row_of-Fits;
  amount = (omega arith, omega arith);
  bidder = (omega arith, omega arith);
  fresh = λ b h. absurd h;
}

tables-IsReady_of_1 : IsReady (envs 1000 0) tables (command 1)
unfolding lookup_auction lookup_request btrim strip is_space
tables-IsReady_of_1 = record {
  bid = λ row h. absurd (cc);
  auction = row_of-Fits;
  amount = (omega arith, omega arith);
  bidder = (omega arith, omega arith);
  fresh = λ b h. absurd h;
}

run-place_example :
    view (run (λ _. envs 1000 0) 0 tables idle (place_bid (optimistic 5) (command 0)))
    ≡ place (envs 1000 0) tables (command 0)
run-place_example =
    run-place (envs 1000 0) tables (command 0) (optimistic 5) 0 (omega arith) tables-IsReady

first_bid : AcceptedBid
first_bid = bid_of (placed_row (envs 1000 0) (command 0) auction)

first_outcome : BidOutcome
first_outcome = record {
  status = BidOutcomeStatus.accepted;
  bid = some first_bid;
  rejection_reason = none;
  minimum_acceptable_cents = none;
  attempts = 1;
  conflicts = 0;
}

first_placed : (place (envs 1000 0) tables (command 0)).0 ≡ ok first_outcome
unfolding first_outcome first_bid place answer bid_on settle lookup_request lookup_auction
    evaluate_bid require_money require_aware derive_auction_state minimum_acceptable_bid
    minimum_from verdict bid_evaluation accepted bid_outcome outcome_fits strip is_space
first_placed = refl

first_run :
    (view (run (λ _. envs 1000 0) 0 tables idle (place_bid (optimistic 5) (command 0)))).0
    ≡ ok first_outcome
first_run =
    ap (λ (x : Result BidOutcome × Database). x.0)
      (run-place (envs 1000 0) tables (command 0) (optimistic 5) 0 (omega arith) tables-IsReady)
    ∙ first_placed

-- The optimistic strategy places the bid, and the pessimistic one gets the request once more.
run-again_example :
    (let left =
        (view (run (λ _. envs 1000 0) 0 tables idle (place_bid (optimistic 5) (command 0)))).1 in
      view (run (λ _. envs 1001 0) 3 left idle (place_bid pessimistic (command 0)))
      ≡ (replayed first_bid 1 0, left))
unfolding first_outcome
run-again_example =
    run-again (envs 1000 0) (envs 1001 0) tables (command 0) (optimistic 5) pessimistic 0 3
      first_outcome first_bid (omega arith) tt tables-IsReady first_run refl refl

-- Connection 1 is served before any other has begun.
request-served_example :
    (t : Txn) × Reach (opening tables 20 (clients all_optimistic command)) (
      alone 1
        (opening tables 20 (clients all_optimistic command)).sessions
        20
        (place (envs 1000 0) tables (command 1)).1
        t
        (done (place (envs 1000 0) tables (command 1)).0))
request-served_example =
    request-served tables 20 all_optimistic command
      (opening tables 20 (clients all_optimistic command)) 1 (envs 1000 0) start refl refl
      (λ j. (refl, refl, refl)) (omega arith) refl tables-IsReady_of_1

first_evaluation : BidEvaluation
first_evaluation = record {
  accepted = true;
  state = open_now;
  minimum_acceptable_cents = 100;
  rejection_reason = none;
}

first_evaluated : evaluate (snapshot_of auction) (command 0) 20 ≡ ok first_evaluation
unfolding first_evaluation evaluate_bid require_money require_aware derive_auction_state
    minimum_acceptable_bid minimum_from verdict bid_evaluation
first_evaluated = refl

nothing_placed : lookup_request 200 tables.bids ≡ none
unfolding lookup_request
nothing_placed = refl

auction_found : lookup_auction 1 tables.auctions ≡ some auction
unfolding lookup_auction
auction_found = refl

run-applies_example :
    (after : AuctionSnapshot) × (apply_accepted_bid (snapshot_of auction) 1000 (int 100) (aware 20)
      ≡ ok after)
    × (view (run (λ _. envs 1000 0) 0 tables idle (place_bid (optimistic 5) (command 0))) ≡ (
      accepted (bid_of (placed_row (envs 1000 0) (command 0) auction)) 1 0,
      raised_tables (envs 1000 0) tables (command 0) auction,
    ))
    × (get (raised_tables (envs 1000 0) tables (command 0) auction) 1 ≡ ok (some after))
unfolding first_evaluation
run-applies_example =
    run-applies (envs 1000 0) tables (command 0) auction first_evaluation (optimistic 5) 0
      tables-IsReady nothing_placed auction_found first_evaluated refl (omega arith)
