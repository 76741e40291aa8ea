-- ===== src/Tests.antt =====
-- Concrete inputs, and the theorems at them.
mod Data
mod KernelTests
mod SystemTests
mod DaemonTests
mod BoardTests
mod LabTests
mod RunTests
mod SkeletonTests
mod CourseTests
