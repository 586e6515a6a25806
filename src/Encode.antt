-- ===== src/Encode.antt =====
-- The encoding of routes, crates/runtime/src/services/encode: so far the allocation of amounts.
pub mod Errors
pub mod Allocation
pub mod Tests
