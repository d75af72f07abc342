-- ===== src/Tests/Runs.antt =====
-- The first connection places its bid, and then the second one.
use transaction_safe_bidding.Prelude.{
  ℕ, ◌+◌, ◌*◌, ◌≡◌, refl, subst, inl, inr, none, some, List, [], ◌∷◌, ◌==◌, Bool-cases, is_space,
  strip,
}
use transaction_safe_bidding.Domain.Errors.{Result, ok}
use transaction_safe_bidding.Domain.Models.{BidOutcomeStatus}
use transaction_safe_bidding.Domain.Outcome.{BidOutcome}
use transaction_safe_bidding.Db.Tables.{BidRow, Database, lookup_auction, clashes}
use transaction_safe_bidding.Db.Statements.{Txn, idle}
use transaction_safe_bidding.Db.Program.{ret, run}
use transaction_safe_bidding.Db.Strategies.{BidStrategy, pessimistic, optimistic}
use transaction_safe_bidding.Db.System.{Session, System, Reach, start, opening}
use transaction_safe_bidding.Db.Solo.{done, alone, Reach-solo, Reach-alone}
use transaction_safe_bidding.Db.Guarantees.Histories.{clients}
use transaction_safe_bidding.Domain.Models.{
  require_aware, require_money, require_version, require_text, check_bid_state, auction_snapshot,
  bid_command, bid_evaluation,
}
use transaction_safe_bidding.Domain.Outcome.{
  require_positive, accepted_bid, outcome_fits, bid_outcome,
}
use transaction_safe_bidding.Domain.Outcome
use transaction_safe_bidding.Domain.Rules.{
  derive_auction_state, minimum_from, minimum_acceptable_bid, verdict, evaluate_bid,
  apply_accepted_bid,
}
use transaction_safe_bidding.Db.Tables.{
  price_fits, bid_state_fits, auction_checks, bid_checks, auction_row_error, bid_row_error,
  lookup_auction, lookup_request, replace, clashes, has_bid, winner_exists, auction_from_row,
  bid_from_row,
}
use transaction_safe_bidding.Db.Statements.{
  visible, lock, staged, stage, written, commits, new_row, inserted, insert_error, required_price,
  matches, with_bid,
}
use transaction_safe_bidding.Db.Perform.{
  locking, update_row, update_matched, update_guarded, perform, blocks,
}
use transaction_safe_bidding.Db.Program.{
  ◌>>=◌, lift, query, attempt, after_commit, finish, transaction, run,
}
use transaction_safe_bidding.Db.Strategies
use transaction_safe_bidding.Db.Strategies.Shared.{
  existing_bid, read_auction, database_time, same_payload, replay_or_reject, resolve_existing,
  resolve_duplicate_request, insert_new_bid, refuse,
}
use transaction_safe_bidding.Db.Strategies.Unsafe
use transaction_safe_bidding.Db.Strategies.Pessimistic
use transaction_safe_bidding.Db.Strategies.Optimistic
use transaction_safe_bidding.Db.Safety.Outcomes.{Quiet}
use transaction_safe_bidding.Tests.Data.{
  text_a, auction, tables, command, mixed, all_optimistic, envs,
}

-- The connections before anything has run.
abbrev pub waiting : (ℕ → BidStrategy) → ℕ → Session
waiting strategies i = (opening tables 20 (clients strategies command)).sessions i

abbrev pub bid_row : ℕ → BidRow
bid_row i = record {
  id = 1000 + 100 * i;
  request_id = 200 + i;
  auction_id = 1;
  bidder_id = text_a;
  amount_cents = 100 + 10 * i;
  auction_version = 1 + i;
  accepted_at = 20;
}

abbrev pub outcome : ℕ → BidOutcome
outcome i = record {
  status = BidOutcomeStatus.accepted;
  bid = some (record {
    id = 1000 + 100 * i;
    request_id = 200 + i;
    auction_id = 1;
    bidder_id = text_a;
    amount_cents = 100 + 10 * i;
    auction_version = 1 + i;
    accepted_at = 20;
  });
  rejection_reason = none;
  minimum_acceptable_cents = none;
  attempts = 1;
  conflicts = 0;
}

-- The tables after the bids up to that of connection `i`.
abbrev pub tables_after : ℕ → List BidRow → Database
tables_after i bids = record {
  auctions =
      record auction {
        current_price_cents = some (100 + 10 * i);
        winning_bid_id = some (1000 + 100 * i);
        version = 1 + i;
      }
      ∷ [];
  bids = bids;
}

abbrev pub with_saved : ℕ → Txn
with_saved i = record idle { saved = bid_row i ∷ [] }

run-pessimistic :
    run (envs 1000) 0 tables idle (clients mixed command 0)
    ≡ (ok (outcome 0), with_saved 0, tables_after 0 (bid_row 0 ∷ []))
unfolding require_aware require_money require_version require_text check_bid_state auction_snapshot
    bid_command bid_evaluation require_positive accepted_bid outcome_fits bid_outcome
    Outcome.accepted Outcome.replayed Outcome.rejected derive_auction_state minimum_from
    minimum_acceptable_bid verdict evaluate_bid apply_accepted_bid price_fits bid_state_fits
    auction_checks bid_checks auction_row_error bid_row_error lookup_auction lookup_request replace
    clashes has_bid winner_exists auction_from_row bid_from_row visible lock staged stage written
    commits new_row inserted insert_error required_price matches with_bid locking update_row
    update_matched update_guarded perform blocks ◌>>=◌ lift query attempt after_commit finish
    transaction run Strategies.place_bid existing_bid read_auction database_time same_payload
    replay_or_reject resolve_existing resolve_duplicate_request insert_new_bid refuse Unsafe.write
    Unsafe.decide Unsafe.validate Unsafe.unless_existing Unsafe.on_error Unsafe.place_bid
    Pessimistic.write Pessimistic.decide Pessimistic.recheck Pessimistic.validate
    Pessimistic.unless_existing Pessimistic.on_error Pessimistic.place_bid Optimistic.conclude
    Optimistic.write Optimistic.decide Optimistic.validate Optimistic.counted
    Optimistic.unless_existing Optimistic.attempt_once Optimistic.classify_auction
    Optimistic.classify_existing Optimistic.classify_evaluation Optimistic.classify_after_miss
    Optimistic.or_retry Optimistic.on_error Optimistic.turns Optimistic.place_bid strip is_space
run-pessimistic = refl

run-optimistic :
    run (envs 1100) 0 (tables_after 0 (bid_row 0 ∷ [])) idle (clients mixed command 1)
    ≡ (ok (outcome 1), with_saved 1, tables_after 1 (bid_row 0 ∷ bid_row 1 ∷ []))
unfolding require_aware require_money require_version require_text check_bid_state auction_snapshot
    bid_command bid_evaluation require_positive accepted_bid outcome_fits bid_outcome
    Outcome.accepted Outcome.replayed Outcome.rejected derive_auction_state minimum_from
    minimum_acceptable_bid verdict evaluate_bid apply_accepted_bid price_fits bid_state_fits
    auction_checks bid_checks auction_row_error bid_row_error lookup_auction lookup_request replace
    clashes has_bid winner_exists auction_from_row bid_from_row visible lock staged stage written
    commits new_row inserted insert_error required_price matches with_bid locking update_row
    update_matched update_guarded perform blocks ◌>>=◌ lift query attempt after_commit finish
    transaction run Strategies.place_bid existing_bid read_auction database_time same_payload
    replay_or_reject resolve_existing resolve_duplicate_request insert_new_bid refuse Unsafe.write
    Unsafe.decide Unsafe.validate Unsafe.unless_existing Unsafe.on_error Unsafe.place_bid
    Pessimistic.write Pessimistic.decide Pessimistic.recheck Pessimistic.validate
    Pessimistic.unless_existing Pessimistic.on_error Pessimistic.place_bid Optimistic.conclude
    Optimistic.write Optimistic.decide Optimistic.validate Optimistic.counted
    Optimistic.unless_existing Optimistic.attempt_once Optimistic.classify_auction
    Optimistic.classify_existing Optimistic.classify_evaluation Optimistic.classify_after_miss
    Optimistic.or_retry Optimistic.on_error Optimistic.turns Optimistic.place_bid strip is_space
run-optimistic = refl

-- After the first bid, and after both.
abbrev pub one_placed : System
one_placed =
    alone 0 (waiting mixed) 20 (tables_after 0 (bid_row 0 ∷ [])) (with_saved 0) (ret (outcome 0))

abbrev pub two_placed : System
two_placed =
    alone 1 one_placed.sessions 20 (tables_after 1 (bid_row 0 ∷ bid_row 1 ∷ [])) (with_saved 1)
      (ret (outcome 1))

pub Reach-one : Reach (opening tables 20 (clients mixed command)) one_placed
Reach-one =
    subst
      (λ (x : Result BidOutcome × Txn × Database).
        Reach (opening tables 20 (clients mixed command))
          (alone 0 (waiting mixed) 20 x.2 x.1 (done x.0)))
      run-pessimistic
      (Reach-solo 0 (waiting mixed) 20 (λ j. (refl, refl, refl)) (envs 1000) _ 0 tables idle
        (clients mixed command 0) (λ k. refl)
        (Reach-alone 0 (waiting mixed) 20 _ tables refl start))

one_placed-Quiet : (j : ℕ) → Quiet (one_placed.sessions j).txn
one_placed-Quiet j = elim (Bool-cases (j == 0)) [
  | inl zeroth ↦ rw zeroth (refl, refl, refl)
  | inr other ↦ rw other (refl, refl, refl)
]

pub Reach-two : Reach (opening tables 20 (clients mixed command)) two_placed
Reach-two =
    subst
      (λ (x : Result BidOutcome × Txn × Database).
        Reach (opening tables 20 (clients mixed command))
          (alone 1 one_placed.sessions 20 x.2 x.1 (done x.0)))
      run-optimistic
      (Reach-solo 1 one_placed.sessions 20 one_placed-Quiet (envs 1100) _ 0 one_placed.db idle
        (clients mixed command 1) (λ k. refl)
        (Reach-alone 1 one_placed.sessions 20 _ one_placed.db refl Reach-one))

run-all_optimistic :
    run (envs 1000) 0 tables idle (clients all_optimistic command 0)
    ≡ (ok (outcome 0), with_saved 0, tables_after 0 (bid_row 0 ∷ []))
unfolding require_aware require_money require_version require_text check_bid_state auction_snapshot
    bid_command bid_evaluation require_positive accepted_bid outcome_fits bid_outcome
    Outcome.accepted Outcome.replayed Outcome.rejected derive_auction_state minimum_from
    minimum_acceptable_bid verdict evaluate_bid apply_accepted_bid price_fits bid_state_fits
    auction_checks bid_checks auction_row_error bid_row_error lookup_auction lookup_request replace
    clashes has_bid winner_exists auction_from_row bid_from_row visible lock staged stage written
    commits new_row inserted insert_error required_price matches with_bid locking update_row
    update_matched update_guarded perform blocks ◌>>=◌ lift query attempt after_commit finish
    transaction run Strategies.place_bid existing_bid read_auction database_time same_payload
    replay_or_reject resolve_existing resolve_duplicate_request insert_new_bid refuse Unsafe.write
    Unsafe.decide Unsafe.validate Unsafe.unless_existing Unsafe.on_error Unsafe.place_bid
    Pessimistic.write Pessimistic.decide Pessimistic.recheck Pessimistic.validate
    Pessimistic.unless_existing Pessimistic.on_error Pessimistic.place_bid Optimistic.conclude
    Optimistic.write Optimistic.decide Optimistic.validate Optimistic.counted
    Optimistic.unless_existing Optimistic.attempt_once Optimistic.classify_auction
    Optimistic.classify_existing Optimistic.classify_evaluation Optimistic.classify_after_miss
    Optimistic.or_retry Optimistic.on_error Optimistic.turns Optimistic.place_bid strip is_space
run-all_optimistic = refl

abbrev pub optimistic_placed : System
optimistic_placed =
    alone 0 (waiting all_optimistic) 20 (tables_after 0 (bid_row 0 ∷ [])) (with_saved 0)
      (ret (outcome 0))

pub Reach-optimistic : Reach (opening tables 20 (clients all_optimistic command)) optimistic_placed
Reach-optimistic =
    subst
      (λ (x : Result BidOutcome × Txn × Database).
        Reach (opening tables 20 (clients all_optimistic command))
          (alone 0 (waiting all_optimistic) 20 x.2 x.1 (done x.0)))
      run-all_optimistic
      (Reach-solo 0 (waiting all_optimistic) 20 (λ j. (refl, refl, refl)) (envs 1000) _ 0 tables
        idle (clients all_optimistic command 0) (λ k. refl)
        (Reach-alone 0 (waiting all_optimistic) 20 _ tables refl start))
