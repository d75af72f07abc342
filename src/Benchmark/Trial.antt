-- ===== src/Benchmark/Trial.antt =====
-- What a trial records and sums up: `execute` and the check at the end of `run_trial` in
-- src/bidding/benchmark/runner.py, and `TrialResult.summarize` of src/bidding/benchmark/models.py. The
-- quotients are in floating point, and are arguments.
use transaction_safe_bidding.Prelude.{
  ℕ, ◌+◌, Bool, true, false, ◌&&◌, ◌||◌, Option, none, some, List, [], ◌∷◌, ◌++◌, ltb, ◌==◌,
  if◌then◌else◌, length, Text, text_eq,
}
use transaction_safe_bidding.Prelude.{codes}
use transaction_safe_bidding.Domain.Errors.{Exn, Result, ok, err, ◌>>=◌}
use transaction_safe_bidding.Domain.Models.{Uuid, BidCommand, BidOutcomeStatus, BidRejectionReason}
use transaction_safe_bidding.Domain.Outcome.{BidOutcome}
use transaction_safe_bidding.Db.Tables.{Database}
use transaction_safe_bidding.Checker.Defs.{Code, check_auction_invariants}
use transaction_safe_bidding.Benchmark.Percentile.{percentile_ns}

unfoldable pub status_value : BidOutcomeStatus → Text
status_value BidOutcomeStatus.accepted = codes "accepted"
status_value BidOutcomeStatus.replayed = codes "replayed"
status_value BidOutcomeStatus.rejected = codes "rejected"

unfoldable pub reason_value : BidRejectionReason → Text
reason_value BidRejectionReason.auction_not_found = codes "auction_not_found"
reason_value BidRejectionReason.auction_not_started = codes "auction_not_started"
reason_value BidRejectionReason.auction_closed = codes "auction_closed"
reason_value BidRejectionReason.bid_too_low = codes "bid_too_low"
reason_value BidRejectionReason.request_id_reused = codes "request_id_reused"
reason_value BidRejectionReason.conflict_retry_exhausted = codes "conflict_retry_exhausted"

pub record RequestObservation : Type 0 where
  pub request_index : ℕ
  pub auction_id : Uuid
  pub amount_cents : ℕ
  pub latency_ns : ℕ
  pub status : Text
  pub reason : Option Text
  pub attempts : ℕ
  pub conflicts : ℕ

abbrev pub reason_values : Option BidRejectionReason → Option Text
reason_values none = none
reason_values (some reason) = some (reason_value reason)

-- `execute`, from what `place_bid` returned or raised and the time that it took; `type_name` is the name
-- of the class of an exception.
unfoldable pub execute : (Exn → Text) → ℕ → BidCommand → ℕ → Result BidOutcome → RequestObservation
unfolding status_value reason_value
execute type_name index command elapsed (ok outcome) = record {
  request_index = index;
  auction_id = command.auction_id;
  amount_cents = command.amount_cents;
  latency_ns = elapsed;
  status = status_value outcome.status;
  reason = reason_values outcome.rejection_reason;
  attempts = outcome.attempts;
  conflicts = outcome.conflicts;
}
execute type_name index command elapsed (err e) = record {
  request_index = index;
  auction_id = command.auction_id;
  amount_cents = command.amount_cents;
  latency_ns = elapsed;
  status = codes "system_error";
  reason = some (type_name e);
  attempts = 1;
  conflicts = 0;
}

-- Each auction is checked, and the violations are put together.
unfoldable pub trial_violations : Database → List Uuid → Result (List Code)
trial_violations db [] = ok []
trial_violations db (key ∷ keys) = do
  report ← check_auction_invariants db key
  rest ← trial_violations db keys
  ok (report.violations ++ rest)

-- The order of `str`.
unfoldable pub text_ltb : Text → Text → Bool
text_ltb s [] = false
text_ltb [] (d ∷ t) = true
text_ltb (c ∷ s) (d ∷ t) = ltb c d || (c == d && text_ltb s t)

-- One more of a status, in a dictionary that is ordered by its keys.
unfoldable pub add_count : Text → List (Text × ℕ) → List (Text × ℕ)
unfolding text_ltb
add_count status [] = (status, 1) ∷ []
add_count status (entry ∷ counts) =
    let rest = add_count status counts in
    if text_eq status entry.0
    then (entry.0, entry.1 + 1) ∷ counts
    else if text_ltb status entry.0
    then (status, 1) ∷ entry ∷ counts
    else entry ∷ rest

-- `dict(sorted(Counter(...).items()))`
unfoldable pub outcome_counts : List RequestObservation → List (Text × ℕ)
unfolding add_count
outcome_counts [] = []
outcome_counts (o ∷ observations) = add_count o.status (outcome_counts observations)

unfoldable pub sum_of : (RequestObservation → ℕ) → List RequestObservation → ℕ
sum_of f [] = 0
sum_of f (o ∷ observations) = f o + sum_of f observations

abbrev pub latencies : List RequestObservation → List ℕ
latencies [] = []
latencies (o ∷ observations) = o.latency_ns ∷ latencies observations

abbrev pub no_violations : List Code → Bool
no_violations [] = true
no_violations (c ∷ violations) = false

pub record TrialResult (F : Type 0) : Type 0 where
  pub request_count : ℕ
  pub throughput_requests_per_second : F
  pub p50_latency_ms : F
  pub p95_latency_ms : F
  pub p99_latency_ms : F
  pub outcome_counts : List (Text × ℕ)
  pub total_optimistic_attempts : ℕ
  pub total_optimistic_conflicts : ℕ
  pub invariant_valid : Bool
  pub invariant_violations : List Code

module _ {F : Type 0} (throughput : ℕ → ℕ → Result F) (milliseconds : ℕ → F)
    (rank : ℕ → ℕ → ℕ) where
  -- `TrialResult.summarize`; the division by the wall time may raise.
  unfoldable pub summarize : ℕ → List RequestObservation → List Code → Result (TrialResult F)
  unfolding outcome_counts sum_of
  summarize wall_time_ns observations violations = do
    rate ← throughput (length observations) wall_time_ns
    p50 ← percentile_ns rank (latencies observations) 50
    p95 ← percentile_ns rank (latencies observations) 95
    p99 ← percentile_ns rank (latencies observations) 99
    ok (record {
      request_count = length observations;
      throughput_requests_per_second = rate;
      p50_latency_ms = milliseconds p50;
      p95_latency_ms = milliseconds p95;
      p99_latency_ms = milliseconds p99;
      outcome_counts = outcome_counts observations;
      total_optimistic_attempts = sum_of (λ o. o.attempts) observations;
      total_optimistic_conflicts = sum_of (λ o. o.conflicts) observations;
      invariant_valid = no_violations violations;
      invariant_violations = violations;
    })

  -- The end of `run_trial`, on the tables that the requests have left.
  unfoldable pub conclude_trial :
      Database → List Uuid → ℕ → List RequestObservation → Result (TrialResult F)
  unfolding trial_violations summarize
  conclude_trial db auction_ids wall_time_ns observations = do
    violations ← trial_violations db auction_ids
    summarize wall_time_ns observations violations
