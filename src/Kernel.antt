-- ===== src/Kernel.antt =====
-- The kernel module `temp_regulator` (src/06-mini-project/kernel): the temperature sensor, the
-- blinking LED, the regulator, its sysfs files, and the module's init and exit.
pub mod State
pub mod Temp
pub mod Blink
pub mod Callbacks
pub mod Sysfs
pub mod Regulator
pub mod Module
pub mod Entries
pub mod Monitor
pub mod Session
pub mod Spec
pub mod Refinement
pub mod Observation
