-- ===== src/Labs.antt =====
-- The labs' programs: routines beside plainer ones of the same result, and accesses to the board's
-- memory.
pub mod Fibonacci
pub mod Sum
pub mod ChipId
pub mod Toggle
pub mod Matrix
