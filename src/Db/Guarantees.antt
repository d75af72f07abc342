-- ===== src/Db/Guarantees.antt =====
-- What holds in every reachable state of connections that place bids, and what can follow it.
pub mod Histories
pub mod Requests
pub mod Sources
pub mod Phantoms
pub mod Once
pub mod Earlier
pub mod Progress
