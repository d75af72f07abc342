-- ===== src/Migrations.antt =====
-- src/bidding/db/migrations.py: the runner of SQL migrations.
pub mod Defs
pub mod Runs
pub mod Names
