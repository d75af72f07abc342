-- ===== src/Db/Soundness.antt =====
-- Connections that keep to the discipline of `Db.Protocol` keep every history sound.
pub mod Effects
pub mod Apart
pub mod Commits
pub mod Invariant
