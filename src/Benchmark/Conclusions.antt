-- ===== src/Benchmark/Conclusions.antt =====
-- The end of a trial of the optimistic strategy: the observations of its requests and their summary.
use transaction_safe_bidding.Prelude.{
  ℕ, true, zero, suc, ◌+◌, ◌≤◌, ◌<◌, ◌≡◌, refl, sym, ap, ◌∙◌, subst, List, [], ◌∷◌, arith,
  if◌then◌else◌, length, Text, text_eq, codes,
}
use transaction_safe_bidding.Prelude.All.{All}
use transaction_safe_bidding.Domain.Errors.{Exn, Result, ok, err, ◌>>=◌}
use transaction_safe_bidding.Domain.Models.{Uuid, BidCommand, BidOutcomeStatus}
use transaction_safe_bidding.Domain.Outcome.{BidOutcome}
use transaction_safe_bidding.Db.Tables.{Database}
use transaction_safe_bidding.Db.Statements.{Txn}
use transaction_safe_bidding.Db.Program.{Prog, ret, raise, call}
use transaction_safe_bidding.Db.Strategies.{BidStrategy}
use transaction_safe_bidding.Db.Safety.Optimistic.{InWindow}
use transaction_safe_bidding.Db.History.{IsSound}
use transaction_safe_bidding.Db.System.{Session, System, Reach, opening}
use transaction_safe_bidding.Db.Solo.{done}
use transaction_safe_bidding.Db.Guarantees.Histories.{policy, clients, IsOptimistic, optimistic-Inv}
use transaction_safe_bidding.Db.Guarantees.Requests.{IsClean, Safe-IsClean, bid_count}
use transaction_safe_bidding.Checker.Defs.{Code}
use transaction_safe_bidding.Benchmark.Percentile.{percentile_ns-bounds}
use transaction_safe_bidding.Benchmark.Trial.{
  RequestObservation, latencies, TrialResult, status_value, execute, trial_violations, summarize,
  conclude_trial,
}
use transaction_safe_bidding.Benchmark.Summaries.{
  total, count_of, with_status, IsMapped, trial_violations-InWindow, summarize-Reports,
}

-- The bids that a request has committed, where it has ended with an outcome.
abbrev pub committed_by : Prog BidOutcome → Txn → ℕ
committed_by (ret o) t = length t.saved
committed_by (raise e) t = 0
committed_by (call s k) t = 0

-- Those of `n` requests, from `i` on.
abbrev pub committed : (ℕ → Session) → ℕ → ℕ → ℕ
committed sessions i zero = 0
committed sessions i (suc n) =
    committed_by (sessions i).prog (sessions i).txn + committed sessions (i + 1) n

accepted-status :
    (status : BidOutcomeStatus)
    → (if text_eq (codes "accepted") (status_value status) then 1 else 0) ≡ bid_count status
unfolding status_value
accepted-status BidOutcomeStatus.accepted = refl
accepted-status BidOutcomeStatus.replayed = refl
accepted-status BidOutcomeStatus.rejected = refl

module _ (type_name : Exn → Text) (commands : ℕ → BidCommand) (elapsed : ℕ → ℕ)
    (results : ℕ → Result BidOutcome) where
  -- `executor.map(execute, enumerate(commands))`, for `n` requests from `i` on.
  unfoldable pub observe : ℕ → ℕ → List RequestObservation
  unfolding execute
  observe i zero = []
  observe i (suc n) = execute type_name i (commands i) (elapsed i) (results i) ∷ observe (i + 1) n

  length-observe : (i n : ℕ) → length (latencies (observe i n)) ≡ n
  unfolding observe
  length-observe i zero = refl
  length-observe i (suc n) = omega (arith, length-observe (i + 1) n)

  observations-observe : (i n : ℕ) → length (observe i n) ≡ n
  unfolding observe
  observations-observe i zero = refl
  observations-observe i (suc n) = omega (arith, observations-observe (i + 1) n)

  -- One observation counts as accepted as its request has committed a bid.
  accepted-committed_by :
      (i : ℕ) (r : Result BidOutcome) (t : Txn)
      → IsClean (done r) t
      → (if text_eq (codes "accepted") (execute type_name i (commands i) (elapsed i) r).status
          then 1
          else 0)
        ≡ committed_by (done r) t
  unfolding execute
  accepted-committed_by i (ok o) t clean = accepted-status o.status ∙ sym clean.1
  accepted-committed_by i (err e) t clean = refl

  with_status-observe :
      (sessions : ℕ → Session)
      → ((j : ℕ) → IsClean (sessions j).prog (sessions j).txn)
      → (i n : ℕ) → ((j : ℕ) → i ≤ j → j < i + n → (sessions j).prog ≡ done (results j))
      → with_status (codes "accepted") (observe i n) ≡ committed sessions i n
  unfolding observe
  with_status-observe sessions clean i zero ended = refl
  with_status-observe sessions clean i (suc n) ended =
      let e = ended i (omega arith) (omega arith) in
      let one =
        accepted-committed_by i (results i) (sessions i).txn
          (subst (λ m. IsClean m (sessions i).txn) e (clean i)) in
      let own = ap (λ m. committed_by m (sessions i).txn) e in
      let rest =
        with_status-observe sessions clean (i + 1) n
          (λ j lo hi. ended j (omega (arith, lo)) (omega (arith, hi))) in
      omega (arith, one, own, rest)

-- What the summary of `n` requests says, of which `placed` bids are committed.
pub record Concludes {F : Type 0} (n placed : ℕ) (result : TrialResult F) : Type 0 where
  pub valid : result.invariant_valid ≡ true
  pub requests : result.request_count ≡ n
  pub all_counted : total result.outcome_counts ≡ n
  pub accepted : count_of (codes "accepted") result.outcome_counts ≡ placed

module _ {F : Type 0} (throughput : ℕ → ℕ → Result F) (milliseconds : ℕ → F)
    (rank : ℕ → ℕ → ℕ) where
  summarize-total :
      (wall_time_ns : ℕ) (rate : F) (observations : List RequestObservation)
      → throughput (length observations) wall_time_ns ≡ ok rate
      → 0 < length (latencies observations)
      → ((p : ℕ)
          → p ≤ 100
          → rank p (length (latencies observations)) ≤ length (latencies observations))
      → (result : TrialResult F) × (summarize throughput milliseconds rank wall_time_ns observations
            []
          ≡ ok result)
  unfolding summarize
  summarize-total wall_time_ns rate observations divided some_left fits =
      let samples = latencies observations in
      let (p50, h50, _, _, _, _) =
        percentile_ns-bounds rank samples 50 some_left (omega arith) (omega arith)
          (fits 50 (omega arith)) in
      let (p95, h95, _, _, _, _) =
        percentile_ns-bounds rank samples 95 some_left (omega arith) (omega arith)
          (fits 95 (omega arith)) in
      let (p99, h99, _, _, _, _) =
        percentile_ns-bounds rank samples 99 some_left (omega arith) (omega arith)
          (fits 99 (omega arith)) in
      rw (divided, h50, h95, h99) (_, refl)

  -- The end of a trial of `n` requests, of which there is one at least, all placed by the optimistic
  -- strategy, from tables whose histories are sound with every bid inside its window. In the state that
  -- is reached every request has ended, with an outcome or an error; the auctions of the trial are in
  -- the tables and can be mapped; the throughput can be computed from the wall time, and no rank is
  -- above `n`. The observations are those of `execute` for these requests. If nobody writes any more,
  -- so that all checks read the tables of this state, the trial is summed up without an exception: the
  -- summary says that the invariants hold, it counts `n` requests in all, and as many accepted ones as
  -- bids have been committed by the requests that ended with an outcome.
  pub conclude_trial-Concludes :
      (db : Database) (now : ℕ) (strategies : ℕ → BidStrategy) (commands : ℕ → BidCommand)
      (y : System) (n : ℕ) (results : ℕ → Result BidOutcome) (type_name : Exn → Text)
      (elapsed : ℕ → ℕ) (auction_ids : List Uuid) (wall_time_ns : ℕ) (rate : F)
      → 0 < n
      → ((i : ℕ) → IsOptimistic (strategies i))
      → IsSound (policy InWindow db) db
      → Reach (opening db now (clients strategies commands)) y
      → ((i : ℕ) → i < n → (y.sessions i).prog ≡ done (results i))
      → All (IsMapped y.db) auction_ids
      → throughput n wall_time_ns ≡ ok rate
      → ((p : ℕ) → p ≤ 100 → rank p n ≤ n)
      → (result : TrialResult F) × (conclude_trial throughput milliseconds rank y.db auction_ids
            wall_time_ns
            (observe type_name commands elapsed results 0 n)
          ≡ ok result)
        × Concludes n (committed y.sessions 0 n) result
  unfolding conclude_trial
  conclude_trial-Concludes db now strategies commands y n results type_name elapsed auction_ids
        wall_time_ns rate some_left optimistic sound reach ended mapped divided fits =
      let inv = optimistic-Inv db now strategies commands optimistic sound reach in
      let observations = observe type_name commands elapsed results 0 n in
      let samples = length-observe type_name commands elapsed results 0 n in
      let count = observations-observe type_name commands elapsed results 0 n in
      let clean : trial_violations y.db auction_ids ≡ ok [] =
        trial_violations-InWindow y.db db auction_ids inv.sound mapped in
      let (result, summed) =
        summarize-total wall_time_ns rate observations
          (ap (λ k. throughput k wall_time_ns) count ∙ divided) (omega (arith, samples, some_left))
          (subst (λ k. (p : ℕ) → p ≤ 100 → rank p k ≤ k) (sym samples) fits) in
      let reports =
        summarize-Reports throughput milliseconds rank wall_time_ns observations (codes "accepted")
          result summed in
      (
        result,
        ap
              (λ (x : Result (List Code)).
                x >>= summarize throughput milliseconds rank wall_time_ns observations)
              clean
            ∙ summed,
        record {
          valid = reports.valid;
          requests = reports.requests ∙ count;
          all_counted = reports.all_counted ∙ count;
          accepted =
              reports.counted
              ∙ with_status-observe type_name commands elapsed results y.sessions
                  (λ i.
                    Safe-IsClean (policy InWindow db) (commands i) (y.sessions i).prog
                      (y.sessions i).txn (y.sessions i).seen (inv.safe i))
                  0 n (λ j lo hi. ended j (omega (arith, hi)));
        },
      )
