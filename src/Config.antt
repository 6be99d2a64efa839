-- ===== src/Config.antt =====
-- pc-service/src/wol_unlock/config.py: validation of what the configuration file says, and the
-- questions that the service asks of it.
pub mod Defaults
pub mod Mac
pub mod Address
pub mod Sections
pub mod Load
