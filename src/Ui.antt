-- ===== src/Ui.antt =====
-- The window and its dialogs.
pub mod Ids
pub mod Results
pub mod Window
pub mod SearchThread
pub mod Messages
pub mod Rows
pub mod Controls
pub mod Lifetime
pub mod Commands
pub mod Dialogs
pub mod Startup
pub mod Devices
pub mod Drag
