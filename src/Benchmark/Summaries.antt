-- ===== src/Benchmark/Summaries.antt =====
-- What the summary of a trial says of its observations, and what its check says of sound tables.
use transaction_safe_bidding.Prelude.{
  ℕ, ◌+◌, ◌≡◌, refl, sym, ap, ◌∙◌, subst, inl, inr, true, some, List, [], ◌∷◌, ◌++◌, arith,
  if◌then◌else◌, Bool-cases, length, Text, text_eq, eq_of_text_eq,
}
use transaction_safe_bidding.Prelude.All.{All}
use transaction_safe_bidding.Domain.Errors.{Result, ok, ◌>>=◌, bind-ok, eq_of_ok-eq}
use transaction_safe_bidding.Domain.Models.{Uuid, AuctionSnapshot, AcceptedBid}
use transaction_safe_bidding.Db.Tables.{AuctionRow, Database, lookup_auction, auction_from_row}
use transaction_safe_bidding.Db.Repository.{bids_from_rows}
use transaction_safe_bidding.Db.History.{IsSound, bids_of}
use transaction_safe_bidding.Db.Safety.Optimistic.{InWindow}
use transaction_safe_bidding.Db.Guarantees.Histories.{policy}
use transaction_safe_bidding.Checker.Defs.{Code, InvariantReport}
use transaction_safe_bidding.Checker.Reports.{check-InWindow}
use transaction_safe_bidding.Benchmark.Percentile.{percentile_ns}
use transaction_safe_bidding.Benchmark.Trial.{
  RequestObservation, latencies, TrialResult, text_ltb, add_count, outcome_counts, trial_violations,
  summarize,
}

-- How many requests a dictionary counts, of all and of one status.
abbrev pub total : List (Text × ℕ) → ℕ
total [] = 0
total (entry ∷ counts) = entry.1 + total counts

abbrev pub count_of : Text → List (Text × ℕ) → ℕ
count_of status [] = 0
count_of status (entry ∷ counts) =
    (if text_eq status entry.0 then entry.1 else 0) + count_of status counts

abbrev pub with_status : Text → List RequestObservation → ℕ
with_status status [] = 0
with_status status (o ∷ observations) =
    (if text_eq status o.status then 1 else 0) + with_status status observations

total-add_count :
    (status : Text) (counts : List (Text × ℕ)) → total (add_count status counts) ≡ 1 + total counts
unfolding add_count
total-add_count status [] = refl
total-add_count status (entry ∷ counts) = elim (Bool-cases (text_eq status entry.0)) [
  | inl same ↦ rw same (omega arith)
  | inr other ↦ elim (Bool-cases (text_ltb status entry.0)) [
    | inl before ↦ rw (other, before) (omega arith)
    | inr after_ ↦ rw (other, after_) (omega (arith, total-add_count status counts))
  ]
]

count_of-add_count :
    (t status : Text) (counts : List (Text × ℕ))
    → count_of t (add_count status counts) ≡ (if text_eq t status then 1 else 0) + count_of t counts
unfolding add_count
count_of-add_count t status [] = refl
count_of-add_count t status (entry ∷ counts) = elim (Bool-cases (text_eq status entry.0)) [
  | inl same ↦ rw same (
      subst
        (λ s.
          count_of t ((entry.0, entry.1 + 1) ∷ counts)
          ≡ (if text_eq t s then 1 else 0) + count_of t (entry ∷ counts))
        (sym (eq_of_text_eq status entry.0 same)) (ground arith))
  | inr other ↦ elim (Bool-cases (text_ltb status entry.0)) [
    | inl before ↦ rw (other, before) (omega arith)
    | inr after_ ↦ rw (other, after_) (omega (arith, count_of-add_count t status counts))
  ]
]

total-outcome_counts :
    (observations : List RequestObservation)
    → total (outcome_counts observations) ≡ length observations
unfolding outcome_counts
total-outcome_counts [] = refl
total-outcome_counts (o ∷ observations) =
    total-add_count o.status (outcome_counts observations)
    ∙ omega (arith, total-outcome_counts observations)

count_of-outcome_counts :
    (status : Text) (observations : List RequestObservation)
    → count_of status (outcome_counts observations) ≡ with_status status observations
unfolding outcome_counts
count_of-outcome_counts status [] = refl
count_of-outcome_counts status (o ∷ observations) =
    count_of-add_count status o.status (outcome_counts observations)
    ∙ omega (arith, count_of-outcome_counts status observations)

-- The auction is in the table, and its row and its bids can be mapped.
abbrev pub IsMapped : Database → Uuid → Type 0
IsMapped db key =
    (r : AuctionRow) × (a : AuctionSnapshot) × (bids : List AcceptedBid) × (lookup_auction key
        db.auctions
      ≡ some r)
    × (auction_from_row r ≡ ok a)
    × (bids_from_rows (bids_of key db.bids) ≡ ok bids)

pub trial_violations-InWindow :
    (db start_db : Database) (keys : List Uuid)
    → IsSound (policy InWindow start_db) db
    → All (IsMapped db) keys
    → trial_violations db keys ≡ ok []
unfolding trial_violations
trial_violations-InWindow db start_db [] sound mapped = refl
trial_violations-InWindow db start_db (key ∷ keys) sound mapped =
    let (r, a, bids, found, row, rows) = mapped.0 in
    ap
      (λ (x : Result InvariantReport).
        x >>= λ report. trial_violations db keys >>= λ rest. ok (report.violations ++ rest))
      (check-InWindow db start_db key r a bids sound found row rows)
    ∙ ap (λ (x : Result (List Code)). x >>= λ rest. ok rest)
        (trial_violations-InWindow db start_db keys sound mapped.1)

-- What the summary reports.
pub record Reports {F : Type 0} (observations : List RequestObservation) (status : Text)
    (result : TrialResult F) : Type 0 where
  pub valid : result.invariant_valid ≡ true
  pub requests : result.request_count ≡ length observations
  pub all_counted : total result.outcome_counts ≡ length observations
  pub counted : count_of status result.outcome_counts ≡ with_status status observations

module _ {F : Type 0} (throughput : ℕ → ℕ → Result F) (milliseconds : ℕ → F)
    (rank : ℕ → ℕ → ℕ) where
  pub summarize-Reports :
      (wall_time_ns : ℕ) (observations : List RequestObservation) (status : Text)
      (result : TrialResult F)
      → summarize throughput milliseconds rank wall_time_ns observations [] ≡ ok result
      → Reports observations status result
  unfolding summarize
  summarize-Reports wall_time_ns observations status result h =
      let (rate, _, h1) = bind-ok (throughput (length observations) wall_time_ns) _ result h in
      let (p50, _, h2) = bind-ok (percentile_ns rank (latencies observations) 50) _ result h1 in
      let (p95, _, h3) = bind-ok (percentile_ns rank (latencies observations) 95) _ result h2 in
      let (p99, _, h4) = bind-ok (percentile_ns rank (latencies observations) 99) _ result h3 in
      subst (Reports observations status) (eq_of_ok-eq _ result h4) (record {
        valid = refl;
        requests = refl;
        all_counted = total-outcome_counts observations;
        counted = count_of-outcome_counts status observations;
      })
