-- ===== src/Replay.antt =====
-- crates/broadcaster-replay-client: replaying Redis deltas after a snapshot, from a checkpoint.
pub mod Errors
pub mod EntryId
pub mod Checkpoint
pub mod Poll
mod Tests
