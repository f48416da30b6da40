-- ===== src/Indexing.antt =====
-- Keeping the index up to date.
pub mod Indexer
pub mod Lifecycle
pub mod FindFile
pub mod Drives
pub mod Mft
pub mod Journal
pub mod Watcher
pub mod Scanners
