-- ===== src/Solutions.antt =====
-- The course's solutions (src/solutions).
pub mod BufferDevice
pub mod Children
pub mod ProcFiles
pub mod Interrupts
pub mod LeakingList
pub mod SillyLed
pub mod Elements
pub mod Daemonize
