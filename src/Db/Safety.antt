-- ===== src/Db/Safety.antt =====
-- The pessimistic and the optimistic strategy keep to the discipline of `Db.Protocol`.
pub mod Outcomes
pub mod Calls
pub mod Writes
pub mod Duplicates
pub mod Pessimistic
pub mod Optimistic
pub mod Retries
