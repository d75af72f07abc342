-- ===== src/Config.antt =====
-- src/bidding/config.py: the settings and how they are read from the environment.
pub mod Settings
pub mod Environment
pub mod Laws
pub mod Reading
