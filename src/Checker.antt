-- ===== src/Checker.antt =====
-- src/bidding/verification/invariants.py: the check of the committed data.
pub mod Defs
pub mod Sorting
pub mod Agreement
pub mod Reports
pub mod Converse
