-- ===== src/Domain.antt =====
-- src/bidding/domain: the values of an auction and the rules about them.
pub mod Errors
pub mod Models
pub mod Texts
pub mod Outcome
pub mod Rules
pub mod Verdicts
pub mod Snapshots
