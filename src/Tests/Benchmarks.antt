-- ===== src/Tests/Benchmarks.antt =====
-- The theorems on the benchmark at concrete inputs.
use transaction_safe_bidding.Prelude.{
  ℕ, ◌+◌, ◌*◌, ◌≤◌, ◌≡◌, refl, true, List, [], ◌∷◌, arith, leb, length, Text,
}
use Prim.Native.Nat.{◌/◌}
use mathlib.Core.Logic.{◌↔◌}
use mathlib.Core.List.{Permᴰ}
use mathlib.Core.List.Permᴰ
use mathlib.Core.List.Permᴰ.{swap}
use transaction_safe_bidding.Prelude.{codes, decimal, decimal_on}
use transaction_safe_bidding.Prelude.All.{In}
use transaction_safe_bidding.Domain.Errors.{ok}
use transaction_safe_bidding.Benchmark.Csv.{
  comma, join, decimals, positives, parse_positive_int_csv, parse_positive_int_csv-join,
}
use transaction_safe_bidding.Benchmark.Schedule.{
  Trial, build_trial_schedule, Planned, build_trial_schedule-Planned,
}
use transaction_safe_bidding.Benchmark.Percentile.{percentile_ns, count_if, percentile_ns-bounds}

parse_positive_int_csv-join_example :
    parse_positive_int_csv (join comma (decimals (1 ∷ 8 ∷ 32 ∷ [])))
    ≡ ok (positives (1 ∷ 8 ∷ 32 ∷ []))
unfolding decimal decimal_on
parse_positive_int_csv-join_example =
    parse_positive_int_csv-join 1 (8 ∷ 32 ∷ [])
      ((omega arith, omega arith), ((omega arith, omega arith), ((omega arith, omega arith), tt)))

-- A shuffle that exchanges the first two.
abbrev exchange : ℕ → List Trial → List Trial
exchange n [] = []
exchange n (t ∷ []) = t ∷ []
exchange n (t ∷ u ∷ ts) = u ∷ t ∷ ts

exchange-Perm : (n : ℕ) (ts : List Trial) → Permᴰ ts (exchange n ts)
exchange-Perm n [] = Permᴰ.refl []
exchange-Perm n (t ∷ []) = Permᴰ.refl (t ∷ [])
exchange-Perm n (t ∷ u ∷ ts) = swap refl refl

abbrev strategies : List Text
strategies = codes "unsafe" ∷ codes "pessimistic" ∷ []

abbrev workloads : List Text
workloads = codes "same_price" ∷ []

abbrev levels : List ℕ
levels = 1 ∷ 8 ∷ []

abbrev trial : Trial
trial = record {
  strategy = codes "unsafe";
  workload = codes "same_price";
  concurrency = 8;
  repetition = 3;
}

build_trial_schedule-Planned_example :
    (In trial (build_trial_schedule exchange strategies workloads levels 3 20_260_922 true)
      ↔ Planned strategies workloads levels 3 trial)
    × (length (build_trial_schedule exchange strategies workloads levels 3 20_260_922 true)
        ≡ 2 * (2 * (1 * 3)))
build_trial_schedule-Planned_example =
    build_trial_schedule-Planned exchange strategies workloads levels 3 20_260_922 true trial
      exchange-Perm

-- The rank without rounding.
abbrev exact_rank : ℕ → ℕ → ℕ
exact_rank percentile n = (percentile * n + 99) / 100

percentile_ns-bounds_example :
    (v : ℕ) × (percentile_ns exact_rank (40 ∷ 10 ∷ 30 ∷ 20 ∷ []) 50 ≡ ok v)
    × In v (40 ∷ 10 ∷ 30 ∷ 20 ∷ [])
    × (1 ≤ count_if (λ x. leb x v) (40 ∷ 10 ∷ 30 ∷ 20 ∷ []))
    × (2 ≤ count_if (λ x. leb x v) (40 ∷ 10 ∷ 30 ∷ 20 ∷ []))
    × (4 ≤ 1 + count_if (λ x. leb v x) (40 ∷ 10 ∷ 30 ∷ 20 ∷ []))
percentile_ns-bounds_example =
    percentile_ns-bounds exact_rank (40 ∷ 10 ∷ 30 ∷ 20 ∷ []) 50 (omega arith) (omega arith)
      (omega arith) (omega arith)
