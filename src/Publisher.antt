-- ===== src/Publisher.antt =====
-- crates/runtime/src/broadcaster/redis_publisher.rs: the publisher of the broadcaster's stream. Only
-- one process at a time may write the stream, which the scripts it runs inside Redis see to.
pub mod Redis
pub mod Fence
pub mod Writer
pub mod Size
pub mod Errors
pub mod State
pub mod Append
pub mod Gate
pub mod Publish
pub mod Drain
pub mod Lease
pub mod Calls
pub mod Fragments
pub mod Recovery
pub mod Commit
pub mod Handoff
pub mod Keeps
mod Tests
