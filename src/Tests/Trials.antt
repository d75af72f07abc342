-- ===== src/Tests/Trials.antt =====
-- The summary of a trial of one request.
use transaction_safe_bidding.Prelude.{
  ℕ, zero, suc, ◌<◌, arith, Text, ◌+◌, ◌*◌, ◌≡◌, refl, [], ◌∷◌, ◌==◌, if◌then◌else◌, is_space,
  strip,
}
use Prim.Native.Nat.{◌/◌}
use transaction_safe_bidding.Prelude.{codes}
use transaction_safe_bidding.Prelude.All.{All}
use transaction_safe_bidding.Domain.Errors.{Exn, Result, ok, err, overflow_error}
use transaction_safe_bidding.Domain.Models.{require_text, check_bid_state}
use transaction_safe_bidding.Db.Tables.{lookup_auction, auction_from_row, bid_from_row}
use transaction_safe_bidding.Db.Repository.{bids_from_rows}
use transaction_safe_bidding.Db.Mapped.{snapshot_of, bid_of}
use transaction_safe_bidding.Db.Safety.Optimistic.{InWindow}
use transaction_safe_bidding.Db.Guarantees.Histories.{policy}
use transaction_safe_bidding.Benchmark.Trial.{TrialResult, conclude_trial}
use transaction_safe_bidding.Benchmark.Summaries.{IsMapped}
use transaction_safe_bidding.Benchmark.Conclusions.{
  committed, observe, Concludes, conclude_trial-Concludes,
}
use transaction_safe_bidding.Db.Solo.{done}
use transaction_safe_bidding.Domain.Outcome.{BidOutcome}
use transaction_safe_bidding.Tests.Data.{priced, tables, command, all_optimistic, tables-IsSound}
use transaction_safe_bidding.Tests.Runs.{bid_row, outcome, optimistic_placed, Reach-optimistic}

-- Requests a second, milliseconds and the rank, rounded down or up.
abbrev throughput : ℕ → ℕ → Result ℕ
throughput n wall = if wall == 0 then err overflow_error else ok (n * 1_000_000_000 / wall)

abbrev milliseconds : ℕ → ℕ
milliseconds n = n / 1_000_000

abbrev rank : ℕ → ℕ → ℕ
rank percentile n = (percentile * n + 99) / 100

placed-IsMapped : All (IsMapped optimistic_placed.db) (1 ∷ [])
unfolding lookup_auction auction_from_row bids_from_rows bid_from_row require_text strip is_space
    check_bid_state
placed-IsMapped = ((priced, snapshot_of priced, bid_of (bid_row 0) ∷ [], refl, refl, refl), tt)

-- The request of connection 0 is accepted, after five milliseconds.
abbrev results : ℕ → Result BidOutcome
results i = ok (outcome 0)

abbrev type_name : Exn → Text
type_name e = codes "Error"

elapsed_of : ℕ → ℕ
elapsed_of i = 5_000_000

first-ended : (i : ℕ) → i < 1 → (optimistic_placed.sessions i).prog ≡ done (results i)
first-ended zero h = refl
first-ended (suc i) h = absurd (omega (arith, h))

conclude_trial-Concludes_example :
    (result : TrialResult ℕ) × (conclude_trial throughput milliseconds rank optimistic_placed.db
        (1 ∷ [])
        10_000_000
        (observe type_name command elapsed_of results 0 1)
      ≡ ok result)
    × Concludes 1 (committed optimistic_placed.sessions 0 1) result
conclude_trial-Concludes_example =
    conclude_trial-Concludes throughput milliseconds rank tables 20 all_optimistic command
      optimistic_placed 1 results type_name elapsed_of (1 ∷ []) 10_000_000 100 (omega arith)
      (λ i. tt) (tables-IsSound (policy InWindow tables)) Reach-optimistic first-ended
      placed-IsMapped refl (λ p h. omega arith)

-- One bid was accepted, and one is committed.
committed_once : committed optimistic_placed.sessions 0 1 ≡ 1
committed_once = refl
