-- ===== src/Db/Sequential.antt =====
-- A request that nobody interferes with: what it does, in steps and as one function on the tables.
pub mod Exec
pub mod Spec
pub mod Steps
pub mod Writes
pub mod Ends
pub mod Pessimistic
pub mod Optimistic
pub mod Unsafe
pub mod Refinement
pub mod Outcomes
pub mod Agreement
pub mod Repeats
