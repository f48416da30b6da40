-- ===== src/Tests.antt =====
-- Runs of the definitions on concrete inputs, and the theorems at inputs where they apply.
mod Storage
mod Damage
mod Search
mod Modes
mod Indexing
mod Lifecycle
mod Scanners
mod Monitors
mod Sorting
mod Window
mod Config
