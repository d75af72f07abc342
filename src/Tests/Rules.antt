-- ===== src/Tests/Rules.antt =====
-- The theorems on the domain at concrete inputs.
use transaction_safe_bidding.Prelude.{
  ℕ, ◌≤◌, ◌<◌, ◌≡◌, refl, true, false, none, some, arith, is_space, strip,
}
use transaction_safe_bidding.Domain.Errors.{ok, err}
use transaction_safe_bidding.Domain.Outcome.{BidOutcome}
use transaction_safe_bidding.Db.Tables.{AuctionRow, lookup_auction, clashes}
use transaction_safe_bidding.Db.Program.{run}
use transaction_safe_bidding.Db.Strategies.{BidStrategy, pessimistic, optimistic}
use transaction_safe_bidding.Domain.Models.{
  require_aware, require_money, require_version, require_text, check_bid_state, auction_snapshot,
  bid_command, bid_evaluation,
}
use transaction_safe_bidding.Domain.Outcome.{
  require_positive, accepted_bid, outcome_fits, bid_outcome,
}
use transaction_safe_bidding.Domain.Outcome
use transaction_safe_bidding.Domain.Rules.{
  derive_auction_state, minimum_from, minimum_acceptable_bid, verdict, evaluate_bid,
  apply_accepted_bid,
}
use transaction_safe_bidding.Db.Tables.{
  price_fits, bid_state_fits, auction_checks, bid_checks, auction_row_error, bid_row_error,
  lookup_auction, lookup_request, replace, clashes, has_bid, winner_exists, auction_from_row,
  bid_from_row,
}
use transaction_safe_bidding.Db.Statements.{
  visible, lock, staged, stage, written, commits, new_row, inserted, insert_error, required_price,
  matches, with_bid,
}
use transaction_safe_bidding.Db.Perform.{
  locking, update_row, update_matched, update_guarded, perform, blocks,
}
use transaction_safe_bidding.Db.Program.{
  ◌>>=◌, lift, query, attempt, after_commit, finish, transaction, run,
}
use transaction_safe_bidding.Db.Strategies
use transaction_safe_bidding.Db.Strategies.Shared.{
  existing_bid, read_auction, database_time, same_payload, replay_or_reject, resolve_existing,
  resolve_duplicate_request, insert_new_bid, refuse,
}
use transaction_safe_bidding.Db.Strategies.Unsafe
use transaction_safe_bidding.Db.Strategies.Pessimistic
use transaction_safe_bidding.Db.Strategies.Optimistic
use transaction_safe_bidding.Tests.Data.{priced, auction}
use mathlib.Core.Logic.{◌↔◌}
use transaction_safe_bidding.Domain.Models.{
  aware, int, BidEvaluation, AuctionState, BidRejectionReason, max_money_cents,
}
use transaction_safe_bidding.Domain.Verdicts.{
  floor_of, accepted_iff, rejection_reason_iff, evaluate_total, evaluate_overflows,
}
use transaction_safe_bidding.Domain.Snapshots.{
  IsValid, moved, auction_snapshot-IsValid, auction_snapshot-fields_of, apply-accepted,
}
use transaction_safe_bidding.Domain.Rules.{fields_of}
use transaction_safe_bidding.Domain.Errors.{overflow_error}
use transaction_safe_bidding.Db.Mapped.{snapshot_of}
use transaction_safe_bidding.Tests.Data.{priced}

abbrev fine : ℕ → BidEvaluation
fine floor = record {
  accepted = true;
  state = AuctionState.open_now;
  minimum_acceptable_cents = floor;
  rejection_reason = none;
}

accepted_iff_example :
    (((fine 110).accepted ≡ true) ↔ ((10 ≤ 20) × (20 < 50) × (110 ≤ 115)))
    × (((fine 110).accepted ≡ true) ↔ ((fine 110).rejection_reason ≡ none))
    × ((fine 110).minimum_acceptable_cents ≡ floor_of (snapshot_of priced))
unfolding require_aware require_money require_version require_text check_bid_state auction_snapshot
    bid_command bid_evaluation require_positive accepted_bid outcome_fits bid_outcome
    Outcome.accepted Outcome.replayed Outcome.rejected derive_auction_state minimum_from
    minimum_acceptable_bid verdict evaluate_bid apply_accepted_bid price_fits bid_state_fits
    auction_checks bid_checks auction_row_error bid_row_error lookup_auction lookup_request replace
    clashes has_bid winner_exists auction_from_row bid_from_row visible lock staged stage written
    commits new_row inserted insert_error required_price matches with_bid locking update_row
    update_matched update_guarded perform blocks ◌>>=◌ lift query attempt after_commit finish
    transaction run Strategies.place_bid existing_bid read_auction database_time same_payload
    replay_or_reject resolve_existing resolve_duplicate_request insert_new_bid refuse Unsafe.write
    Unsafe.decide Unsafe.validate Unsafe.unless_existing Unsafe.on_error Unsafe.place_bid
    Pessimistic.write Pessimistic.decide Pessimistic.recheck Pessimistic.validate
    Pessimistic.unless_existing Pessimistic.on_error Pessimistic.place_bid Optimistic.conclude
    Optimistic.write Optimistic.decide Optimistic.validate Optimistic.counted
    Optimistic.unless_existing Optimistic.attempt_once Optimistic.classify_auction
    Optimistic.classify_existing Optimistic.classify_evaluation Optimistic.classify_after_miss
    Optimistic.or_retry Optimistic.on_error Optimistic.turns Optimistic.place_bid strip is_space
accepted_iff_example = accepted_iff (snapshot_of priced) 115 20 (fine 110) refl

abbrev too_low : BidEvaluation
too_low = record {
  accepted = false;
  state = AuctionState.open_now;
  minimum_acceptable_cents = 110;
  rejection_reason = some BidRejectionReason.bid_too_low;
}

rejection_reason_iff_example :
    ((too_low.rejection_reason ≡ some BidRejectionReason.auction_not_started) ↔ (20 < 10))
    × ((too_low.rejection_reason ≡ some BidRejectionReason.auction_closed)
        ↔ ((10 ≤ 20) × (50 ≤ 20)))
    × ((too_low.rejection_reason ≡ some BidRejectionReason.bid_too_low)
        ↔ ((10 ≤ 20) × (20 < 50) × (105 < 110)))
unfolding require_aware require_money require_version require_text check_bid_state auction_snapshot
    bid_command bid_evaluation require_positive accepted_bid outcome_fits bid_outcome
    Outcome.accepted Outcome.replayed Outcome.rejected derive_auction_state minimum_from
    minimum_acceptable_bid verdict evaluate_bid apply_accepted_bid price_fits bid_state_fits
    auction_checks bid_checks auction_row_error bid_row_error lookup_auction lookup_request replace
    clashes has_bid winner_exists auction_from_row bid_from_row visible lock staged stage written
    commits new_row inserted insert_error required_price matches with_bid locking update_row
    update_matched update_guarded perform blocks ◌>>=◌ lift query attempt after_commit finish
    transaction run Strategies.place_bid existing_bid read_auction database_time same_payload
    replay_or_reject resolve_existing resolve_duplicate_request insert_new_bid refuse Unsafe.write
    Unsafe.decide Unsafe.validate Unsafe.unless_existing Unsafe.on_error Unsafe.place_bid
    Pessimistic.write Pessimistic.decide Pessimistic.recheck Pessimistic.validate
    Pessimistic.unless_existing Pessimistic.on_error Pessimistic.place_bid Optimistic.conclude
    Optimistic.write Optimistic.decide Optimistic.validate Optimistic.counted
    Optimistic.unless_existing Optimistic.attempt_once Optimistic.classify_auction
    Optimistic.classify_existing Optimistic.classify_evaluation Optimistic.classify_after_miss
    Optimistic.or_retry Optimistic.on_error Optimistic.turns Optimistic.place_bid strip is_space
rejection_reason_iff_example = rejection_reason_iff (snapshot_of priced) 105 20 too_low refl

evaluate_total_example :
    (e : BidEvaluation) × (evaluate_bid (snapshot_of priced) (int 105) (aware 20) ≡ ok e)
evaluate_total_example =
    evaluate_total (snapshot_of priced) 105 20 (omega arith) (omega arith) (omega arith)

-- An auction at the greatest price.
abbrev topped : AuctionRow
topped = record auction {
  current_price_cents = some max_money_cents;
  winning_bid_id = some 1000;
  version = 1;
}

-- The auction is over at instant 60, and still the answer is an exception.
evaluate_overflows_example :
    evaluate_bid (snapshot_of topped) (int 105) (aware 60) ≡ err overflow_error
evaluate_overflows_example =
    evaluate_overflows (snapshot_of topped) 105 60 max_money_cents (omega arith) (omega arith) refl
      (omega arith)

priced-IsValid : IsValid (snapshot_of priced)
priced-IsValid =
    unfold strip is_space in
    record {
      title = (omega arith, omega arith);
      starting = (omega arith, omega arith);
      increment = (omega arith, omega arith);
      window = omega arith;
      state = (omega arith, omega arith, omega arith);
    }

auction_snapshot-IsValid_example : IsValid (snapshot_of priced)
unfolding require_aware require_money require_version require_text check_bid_state auction_snapshot
    bid_command bid_evaluation require_positive accepted_bid outcome_fits bid_outcome
    Outcome.accepted Outcome.replayed Outcome.rejected derive_auction_state minimum_from
    minimum_acceptable_bid verdict evaluate_bid apply_accepted_bid price_fits bid_state_fits
    auction_checks bid_checks auction_row_error bid_row_error lookup_auction lookup_request replace
    clashes has_bid winner_exists auction_from_row bid_from_row visible lock staged stage written
    commits new_row inserted insert_error required_price matches with_bid locking update_row
    update_matched update_guarded perform blocks ◌>>=◌ lift query attempt after_commit finish
    transaction run Strategies.place_bid existing_bid read_auction database_time same_payload
    replay_or_reject resolve_existing resolve_duplicate_request insert_new_bid refuse Unsafe.write
    Unsafe.decide Unsafe.validate Unsafe.unless_existing Unsafe.on_error Unsafe.place_bid
    Pessimistic.write Pessimistic.decide Pessimistic.recheck Pessimistic.validate
    Pessimistic.unless_existing Pessimistic.on_error Pessimistic.place_bid Optimistic.conclude
    Optimistic.write Optimistic.decide Optimistic.validate Optimistic.counted
    Optimistic.unless_existing Optimistic.attempt_once Optimistic.classify_auction
    Optimistic.classify_existing Optimistic.classify_evaluation Optimistic.classify_after_miss
    Optimistic.or_retry Optimistic.on_error Optimistic.turns Optimistic.place_bid strip is_space
auction_snapshot-IsValid_example =
    auction_snapshot-IsValid (fields_of (snapshot_of priced)) (snapshot_of priced) refl

auction_snapshot-fields_of_example :
    auction_snapshot (fields_of (snapshot_of priced)) ≡ ok (snapshot_of priced)
auction_snapshot-fields_of_example = auction_snapshot-fields_of (snapshot_of priced) priced-IsValid

apply-accepted_example :
    (apply_accepted_bid (snapshot_of priced) 2000 (int 115) (aware 20)
      ≡ ok (moved (snapshot_of priced) 2000 115))
    × IsValid (moved (snapshot_of priced) 2000 115)
unfolding require_aware require_money require_version require_text check_bid_state auction_snapshot
    bid_command bid_evaluation require_positive accepted_bid outcome_fits bid_outcome
    Outcome.accepted Outcome.replayed Outcome.rejected derive_auction_state minimum_from
    minimum_acceptable_bid verdict evaluate_bid apply_accepted_bid price_fits bid_state_fits
    auction_checks bid_checks auction_row_error bid_row_error lookup_auction lookup_request replace
    clashes has_bid winner_exists auction_from_row bid_from_row visible lock staged stage written
    commits new_row inserted insert_error required_price matches with_bid locking update_row
    update_matched update_guarded perform blocks ◌>>=◌ lift query attempt after_commit finish
    transaction run Strategies.place_bid existing_bid read_auction database_time same_payload
    replay_or_reject resolve_existing resolve_duplicate_request insert_new_bid refuse Unsafe.write
    Unsafe.decide Unsafe.validate Unsafe.unless_existing Unsafe.on_error Unsafe.place_bid
    Pessimistic.write Pessimistic.decide Pessimistic.recheck Pessimistic.validate
    Pessimistic.unless_existing Pessimistic.on_error Pessimistic.place_bid Optimistic.conclude
    Optimistic.write Optimistic.decide Optimistic.validate Optimistic.counted
    Optimistic.unless_existing Optimistic.attempt_once Optimistic.classify_auction
    Optimistic.classify_existing Optimistic.classify_evaluation Optimistic.classify_after_miss
    Optimistic.or_retry Optimistic.on_error Optimistic.turns Optimistic.place_bid strip is_space
apply-accepted_example =
    apply-accepted (snapshot_of priced) 2000 115 20 (fine 110) priced-IsValid refl refl
