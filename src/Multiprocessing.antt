-- ===== src/Multiprocessing.antt =====
-- The lab on processes (src/04-multiprocessing).
pub mod Cgroups
pub mod MaxCpu
pub mod Process
