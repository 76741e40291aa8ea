-- ===== src/Skeleton.antt =====
-- The kernel modules of the first lab (src/01-skeleton).
pub mod Sleeping
pub mod Interrupt
pub mod IoMemory
pub mod Elements
pub mod Kthreads
pub mod Module
