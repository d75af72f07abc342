-- ===== src/Tests/Witnesses.antt =====
-- The theorems on concurrent bids and on the checker at concrete inputs.
use transaction_safe_bidding.Prelude.{
  ℕ, ◌≡◌, refl, ◌⊎◌, inl, inr, none, some, [], ◌∷◌, arith, is_space, strip,
}
use transaction_safe_bidding.Domain.Errors.{ok}
use transaction_safe_bidding.Domain.Models.{AcceptedBid}
use transaction_safe_bidding.Domain.Outcome.{BidOutcome}
use transaction_safe_bidding.Db.Tables.{BidRow, lookup_auction, clashes}
use transaction_safe_bidding.Db.Program.{ret, run}
use transaction_safe_bidding.Db.Strategies.{BidStrategy, pessimistic, optimistic}
use transaction_safe_bidding.Db.History.{IsSound}
use transaction_safe_bidding.Db.Guarantees.Histories.{policy}
use transaction_safe_bidding.Domain.Models.{
  require_aware, require_money, require_version, require_text, check_bid_state, auction_snapshot,
  bid_command, bid_evaluation,
}
use transaction_safe_bidding.Domain.Outcome.{
  require_positive, accepted_bid, outcome_fits, bid_outcome,
}
use transaction_safe_bidding.Domain.Outcome
use transaction_safe_bidding.Domain.Rules.{
  derive_auction_state, minimum_from, minimum_acceptable_bid, verdict, evaluate_bid,
  apply_accepted_bid,
}
use transaction_safe_bidding.Db.Tables.{
  price_fits, bid_state_fits, auction_checks, bid_checks, auction_row_error, bid_row_error,
  lookup_auction, lookup_request, replace, clashes, has_bid, winner_exists, auction_from_row,
  bid_from_row,
}
use transaction_safe_bidding.Db.Statements.{
  visible, lock, staged, stage, written, commits, new_row, inserted, insert_error, required_price,
  matches, with_bid,
}
use transaction_safe_bidding.Db.Perform.{
  locking, update_row, update_matched, update_guarded, perform, blocks,
}
use transaction_safe_bidding.Db.Program.{
  ◌>>=◌, lift, query, attempt, after_commit, finish, transaction, run,
}
use transaction_safe_bidding.Db.Strategies
use transaction_safe_bidding.Db.Strategies.Shared.{
  existing_bid, read_auction, database_time, same_payload, replay_or_reject, resolve_existing,
  resolve_duplicate_request, insert_new_bid, refuse,
}
use transaction_safe_bidding.Db.Strategies.Unsafe
use transaction_safe_bidding.Db.Strategies.Pessimistic
use transaction_safe_bidding.Db.Strategies.Optimistic
use transaction_safe_bidding.Tests.Data.{priced, tables, command, mixed, all_optimistic}
use mathlib.Core.Logic.{◌↔◌}
use transaction_safe_bidding.Prelude.All.{In}
use transaction_safe_bidding.Db.Mapped.{snapshot_of, bid_of}
use transaction_safe_bidding.Db.Safety.Pessimistic.{NotEarly}
use transaction_safe_bidding.Db.Safety.Optimistic.{InWindow}
use transaction_safe_bidding.Db.Safety.Outcomes.{Records}
use transaction_safe_bidding.Db.Repository.{bids_from_rows}
use transaction_safe_bidding.Db.Guarantees.Histories.{
  concurrent_bids-IsSound, optimistic_bids-InWindow,
}
use transaction_safe_bidding.Db.Guarantees.Requests.{IsClean, accepted-committed, ended-IsClean}
use transaction_safe_bidding.Db.Guarantees.Phantoms.{Wrote, no_phantom_bids}
use transaction_safe_bidding.Db.Guarantees.Once.{accepted_once}
use transaction_safe_bidding.Checker.Defs.{check_auction_invariants}
use transaction_safe_bidding.Checker.Reports.{check-InWindow, check-Linked}
use transaction_safe_bidding.Db.History.{Linked, bids_of}
use transaction_safe_bidding.Db.Repository.{list_bids, ordered, insert_ordered, precedes}
use transaction_safe_bidding.Tests.Data.{priced, mixed-IsSafe, tables-IsSound}
use transaction_safe_bidding.Tests.Runs.{
  outcome, bid_row, two_placed, Reach-two, optimistic_placed, Reach-optimistic,
}

concurrent_bids-IsSound_example : IsSound (policy NotEarly tables) two_placed.db
concurrent_bids-IsSound_example =
    concurrent_bids-IsSound tables 20 mixed command mixed-IsSafe
      (tables-IsSound (policy NotEarly tables)) Reach-two

no_phantom_bids_example :
    In (bid_row 1) [] ⊎ ((i : ℕ) × Wrote (command i) (bid_row 1) (two_placed.sessions i))
no_phantom_bids_example =
    no_phantom_bids tables 20 mixed command mixed-IsSafe (tables-IsSound (policy NotEarly tables))
      Reach-two (bid_row 1) (inr (inl refl))

accepted-committed_example :
    (row : BidRow) × (b : AcceptedBid) × In row two_placed.db.bids
    × ((outcome 1).bid ≡ some b)
    × (bid_from_row row ≡ ok b)
    × Records (command 1) row
accepted-committed_example =
    accepted-committed tables 20 mixed command mixed-IsSafe
      (tables-IsSound (policy NotEarly tables)) Reach-two 1 (outcome 1) refl refl

accepted_once_example : ¬ ((command 0).request_id ≡ (command 1).request_id)
accepted_once_example =
    accepted_once tables 20 mixed command mixed-IsSafe (tables-IsSound (policy NotEarly tables))
      Reach-two 0 1 (outcome 0) (outcome 1) (λ e. absurd (omega (arith, e))) refl refl refl refl

ended-IsClean_example : IsClean (ret (outcome 1)) (two_placed.sessions 1).txn
ended-IsClean_example =
    ended-IsClean tables 20 mixed command mixed-IsSafe (tables-IsSound (policy NotEarly tables))
      Reach-two 1

optimistic_bids-InWindow_example : IsSound (policy InWindow tables) optimistic_placed.db
optimistic_bids-InWindow_example =
    optimistic_bids-InWindow tables 20 all_optimistic command (λ i. tt)
      (tables-IsSound (policy InWindow tables)) Reach-optimistic

check-InWindow_example :
    check_auction_invariants optimistic_placed.db 1
    ≡ ok (record { auction_id = 1; bid_count = 1; violations = [] })
unfolding require_aware require_money require_version require_text check_bid_state auction_snapshot
    bid_command bid_evaluation require_positive accepted_bid outcome_fits bid_outcome
    Outcome.accepted Outcome.replayed Outcome.rejected derive_auction_state minimum_from
    minimum_acceptable_bid verdict evaluate_bid apply_accepted_bid price_fits bid_state_fits
    auction_checks bid_checks auction_row_error bid_row_error lookup_auction lookup_request replace
    clashes has_bid winner_exists auction_from_row bid_from_row visible lock staged stage written
    commits new_row inserted insert_error required_price matches with_bid locking update_row
    update_matched update_guarded perform blocks ◌>>=◌ lift query attempt after_commit finish
    transaction run Strategies.place_bid existing_bid read_auction database_time same_payload
    replay_or_reject resolve_existing resolve_duplicate_request insert_new_bid refuse Unsafe.write
    Unsafe.decide Unsafe.validate Unsafe.unless_existing Unsafe.on_error Unsafe.place_bid
    Pessimistic.write Pessimistic.decide Pessimistic.recheck Pessimistic.validate
    Pessimistic.unless_existing Pessimistic.on_error Pessimistic.place_bid Optimistic.conclude
    Optimistic.write Optimistic.decide Optimistic.validate Optimistic.counted
    Optimistic.unless_existing Optimistic.attempt_once Optimistic.classify_auction
    Optimistic.classify_existing Optimistic.classify_evaluation Optimistic.classify_after_miss
    Optimistic.or_retry Optimistic.on_error Optimistic.turns Optimistic.place_bid strip is_space
    bids_from_rows
check-InWindow_example =
    check-InWindow optimistic_placed.db tables 1 priced (snapshot_of priced)
      (bid_of (bid_row 0) ∷ [])
      (optimistic_bids-InWindow tables 20 all_optimistic command (λ i. tt)
        (tables-IsSound (policy InWindow tables)) Reach-optimistic)
      refl refl refl

check-Linked_example :
    (check_auction_invariants optimistic_placed.db 1
      ≡ ok (record { auction_id = 1; bid_count = 1; violations = [] }))
    ↔ Linked InWindow priced 0 none none (ordered (bids_of 1 optimistic_placed.db.bids))
unfolding require_aware require_money require_version require_text check_bid_state auction_snapshot
    bid_command bid_evaluation require_positive accepted_bid outcome_fits bid_outcome
    Outcome.accepted Outcome.replayed Outcome.rejected derive_auction_state minimum_from
    minimum_acceptable_bid verdict evaluate_bid apply_accepted_bid price_fits bid_state_fits
    auction_checks bid_checks auction_row_error bid_row_error lookup_auction lookup_request replace
    clashes has_bid winner_exists auction_from_row bid_from_row visible lock staged stage written
    commits new_row inserted insert_error required_price matches with_bid locking update_row
    update_matched update_guarded perform blocks ◌>>=◌ lift query attempt after_commit finish
    transaction run Strategies.place_bid existing_bid read_auction database_time same_payload
    replay_or_reject resolve_existing resolve_duplicate_request insert_new_bid refuse Unsafe.write
    Unsafe.decide Unsafe.validate Unsafe.unless_existing Unsafe.on_error Unsafe.place_bid
    Pessimistic.write Pessimistic.decide Pessimistic.recheck Pessimistic.validate
    Pessimistic.unless_existing Pessimistic.on_error Pessimistic.place_bid Optimistic.conclude
    Optimistic.write Optimistic.decide Optimistic.validate Optimistic.counted
    Optimistic.unless_existing Optimistic.attempt_once Optimistic.classify_auction
    Optimistic.classify_existing Optimistic.classify_evaluation Optimistic.classify_after_miss
    Optimistic.or_retry Optimistic.on_error Optimistic.turns Optimistic.place_bid strip is_space
    bids_from_rows list_bids ordered insert_ordered precedes
check-Linked_example =
    check-Linked optimistic_placed.db 1 priced (snapshot_of priced) (bid_of (bid_row 0) ∷ [])
      (refl, tt) refl refl refl
