-- ===== src/Benchmark.antt =====
-- src/bidding/benchmark: the arguments of a benchmark, its schedule, its percentiles and its trials.
pub mod Csv
pub mod Schedule
pub mod Percentile
pub mod Trial
pub mod Summaries
pub mod Conclusions
