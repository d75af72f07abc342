-- ===== src/Db/Protocol.antt =====
-- The discipline that a strategy has to keep so that no commit breaks the history of an auction,
-- whatever the other connections do: a proof rule for the programs of `Db.Program`.
pub mod Rules
pub mod Defs
