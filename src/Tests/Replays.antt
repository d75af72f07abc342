-- ===== src/Tests/Replays.antt =====
-- The first request once more, when its bid is in the table.
use transaction_safe_bidding.Prelude.{◌≡◌, refl, subst, inl, [], ◌∷◌, is_space, strip}
use transaction_safe_bidding.Domain.Errors.{Result, ok}
use transaction_safe_bidding.Domain.Models.{BidOutcomeStatus}
use transaction_safe_bidding.Domain.Outcome.{BidOutcome}
use transaction_safe_bidding.Db.Tables.{Database, lookup_auction, clashes}
use transaction_safe_bidding.Db.Statements.{Txn, idle}
use transaction_safe_bidding.Db.Program.{ret, run}
use transaction_safe_bidding.Db.Strategies.{BidStrategy, pessimistic, optimistic}
use transaction_safe_bidding.Db.System.{System, Reach, start, opening}
use transaction_safe_bidding.Db.Solo.{done, alone, Reach-solo, Reach-alone}
use transaction_safe_bidding.Db.Guarantees.Histories.{clients}
use transaction_safe_bidding.Domain.Models.{
  require_aware, require_money, require_version, require_text, check_bid_state, auction_snapshot,
  bid_command, bid_evaluation,
}
use transaction_safe_bidding.Domain.Outcome.{
  require_positive, accepted_bid, outcome_fits, bid_outcome,
}
use transaction_safe_bidding.Domain.Outcome
use transaction_safe_bidding.Domain.Rules.{
  derive_auction_state, minimum_from, minimum_acceptable_bid, verdict, evaluate_bid,
  apply_accepted_bid,
}
use transaction_safe_bidding.Db.Tables.{
  price_fits, bid_state_fits, auction_checks, bid_checks, auction_row_error, bid_row_error,
  lookup_auction, lookup_request, replace, clashes, has_bid, winner_exists, auction_from_row,
  bid_from_row,
}
use transaction_safe_bidding.Db.Statements.{
  visible, lock, staged, stage, written, commits, new_row, inserted, insert_error, required_price,
  matches, with_bid,
}
use transaction_safe_bidding.Db.Perform.{
  locking, update_row, update_matched, update_guarded, perform, blocks,
}
use transaction_safe_bidding.Db.Program.{
  ◌>>=◌, lift, query, attempt, after_commit, finish, transaction, run,
}
use transaction_safe_bidding.Db.Strategies
use transaction_safe_bidding.Db.Strategies.Shared.{
  existing_bid, read_auction, database_time, same_payload, replay_or_reject, resolve_existing,
  resolve_duplicate_request, insert_new_bid, refuse,
}
use transaction_safe_bidding.Db.Strategies.Unsafe
use transaction_safe_bidding.Db.Strategies.Pessimistic
use transaction_safe_bidding.Db.Strategies.Optimistic
use transaction_safe_bidding.Prelude.All.{In}
use transaction_safe_bidding.Db.Guarantees.Histories.{concurrent_bids-IsSound}
use transaction_safe_bidding.Db.History.{IsSound}
use transaction_safe_bidding.Db.Guarantees.Histories.{policy}
use transaction_safe_bidding.Db.Guarantees.Earlier.{IsAccepted, earlier_bid-final}
use transaction_safe_bidding.Db.Safety.Pessimistic.{NotEarly}
use transaction_safe_bidding.Tests.Data.{tables, command, mixed, envs, mixed-IsSafe, tables-IsSound}
use transaction_safe_bidding.Tests.Runs.{waiting, bid_row, outcome, tables_after, Reach-one}

abbrev again : BidOutcome
again = record (outcome 0) { status = BidOutcomeStatus.replayed }

abbrev later_tables : Database
later_tables = tables_after 0 (bid_row 0 ∷ [])

run-again :
    run (envs 3000) 0 later_tables idle (clients mixed command 0) ≡ (ok again, idle, later_tables)
unfolding require_aware require_money require_version require_text check_bid_state auction_snapshot
    bid_command bid_evaluation require_positive accepted_bid outcome_fits bid_outcome
    Outcome.accepted Outcome.replayed Outcome.rejected derive_auction_state minimum_from
    minimum_acceptable_bid verdict evaluate_bid apply_accepted_bid price_fits bid_state_fits
    auction_checks bid_checks auction_row_error bid_row_error lookup_auction lookup_request replace
    clashes has_bid winner_exists auction_from_row bid_from_row visible lock staged stage written
    commits new_row inserted insert_error required_price matches with_bid locking update_row
    update_matched update_guarded perform blocks ◌>>=◌ lift query attempt after_commit finish
    transaction run Strategies.place_bid existing_bid read_auction database_time same_payload
    replay_or_reject resolve_existing resolve_duplicate_request insert_new_bid refuse Unsafe.write
    Unsafe.decide Unsafe.validate Unsafe.unless_existing Unsafe.on_error Unsafe.place_bid
    Pessimistic.write Pessimistic.decide Pessimistic.recheck Pessimistic.validate
    Pessimistic.unless_existing Pessimistic.on_error Pessimistic.place_bid Optimistic.conclude
    Optimistic.write Optimistic.decide Optimistic.validate Optimistic.counted
    Optimistic.unless_existing Optimistic.attempt_once Optimistic.classify_auction
    Optimistic.classify_existing Optimistic.classify_evaluation Optimistic.classify_after_miss
    Optimistic.or_retry Optimistic.on_error Optimistic.turns Optimistic.place_bid strip is_space
run-again = refl

abbrev replayed_once : System
replayed_once = alone 0 (waiting mixed) 20 later_tables idle (ret again)

Reach-again : Reach (opening later_tables 20 (clients mixed command)) replayed_once
Reach-again =
    subst
      (λ (x : Result BidOutcome × Txn × Database).
        Reach (opening later_tables 20 (clients mixed command))
          (alone 0 (waiting mixed) 20 x.2 x.1 (done x.0)))
      run-again
      (Reach-solo 0 (waiting mixed) 20 (λ j. (refl, refl, refl)) (envs 3000) _ 0 later_tables idle
        (clients mixed command 0) (λ k. refl)
        (Reach-alone 0 (waiting mixed) 20 _ later_tables refl start))

later_tables-IsSound : IsSound (policy NotEarly later_tables) later_tables
later_tables-IsSound =
    let sound =
      concurrent_bids-IsSound tables 20 mixed command mixed-IsSafe
        (tables-IsSound (policy NotEarly tables)) Reach-one in
    record { linked = sound.linked; unique = sound.unique }

earlier_bid-final_example :
    In (bid_row 0) replayed_once.db.bids
    × ¬ (
        ((command 0).request_id ≡ (bid_row 0).request_id)
        × IsAccepted (replayed_once.sessions 0).prog)
earlier_bid-final_example =
    earlier_bid-final later_tables 20 mixed command mixed-IsSafe later_tables-IsSound Reach-again
      (bid_row 0) 0 (inl refl)
