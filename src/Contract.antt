-- ===== src/Contract.antt =====
-- The contract between the broadcaster and its consumers, crates/simulator-core/src/broadcaster.rs:
-- the payload types, their validators and the subscription tracker.
pub mod External
pub mod Backend
pub mod Protocol
pub mod Errors
pub mod Payload
pub mod Validate
pub mod Boundary
pub mod Scope
pub mod Derived
pub mod Entry
pub mod Recovery
pub mod Block
pub mod Tracker
pub mod Tests
