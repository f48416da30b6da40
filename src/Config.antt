-- ===== src/Config.antt =====
-- src/core/settings: the log, the settings file and the texts of the status line.
pub mod Logger
pub mod Format
pub mod Settings
pub mod Paths
