-- ===== src/Db.antt =====
-- src/bidding/db: the tables, the statements, and the programs that make them.
pub mod Tables
pub mod Statements
pub mod Perform
pub mod Mapped
pub mod Program
pub mod Strategies
pub mod Protocol
pub mod Safety
pub mod System
pub mod Solo
pub mod Trimmed
pub mod Pool
pub mod Sequential
pub mod History
pub mod Soundness
pub mod Guarantees
pub mod Repository
