-- ===== src/Tests.antt =====
-- Concrete runs of the platform.
mod Data
mod Runs
mod Witnesses
mod Edges
mod Replays
mod Sequential
mod Settings
mod Requests
mod Benchmarks
mod Rules
mod Trials
