-- ===== src/Daemon.antt =====
-- The daemon (src/06-mini-project/daemon): its access to the sysfs files, the application's
-- operations, the messages that it receives, its buttons, LED and display.
pub mod State
pub mod Files
pub mod App
pub mod Ipc
pub mod Main
pub mod Oled
pub mod LockOrder
pub mod Queue
pub mod Posix
pub mod Led
pub mod Button
pub mod Ssd1306
pub mod Start
