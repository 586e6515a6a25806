-- ===== src/Contract/Boundary.antt =====
-- The records of crates/simulator-core/src/broadcaster/redis_streams.rs: the replay boundary of a
-- snapshot session and the fields of a stream entry.
use tycho_simulation_server.Base.{
  ℕ, ◌==◌, Option, Text, codes, is_blank, ◌++◌, ◌∷◌, format_u64, ok, err, ◌>>=◌, if◌then◌else◌,
}
use tycho_simulation_server.Contract.Errors.{
  MessageKind, Checked, redis_entry_empty_field, invalid_redis_entry_id,
}

pub record ReplayBoundary : Type 0 where
  pub stream_key : Text
  pub stream_id : Text
  pub snapshot_id : Text
  pub generation : ℕ
  pub exclusive_message_seq : ℕ
  pub state_version : ℕ

-- format!("{generation}-{message_seq}")
unfoldable pub redis_entry_id : ℕ → ℕ → Text
redis_entry_id generation message_seq = format_u64 generation ++ b'-' ∷ format_u64 message_seq

unfoldable pub exclusive_entry_id : ReplayBoundary → Text
unfolding redis_entry_id
exclusive_entry_id boundary = redis_entry_id boundary.generation boundary.exclusive_message_seq

unfoldable pub required_redis_field : Text → Text → Checked Text
required_redis_field field value =
    if is_blank value then err (redis_entry_empty_field field) else ok value

unfoldable pub redis_boundary_generation : ℕ → Checked ℕ
redis_boundary_generation generation =
    if generation == 0
    then err (invalid_redis_entry_id (format_u64 generation ++ codes "-0"))
    else ok generation

-- BroadcasterRedisReplayBoundary::new
unfoldable pub new_boundary : Text → Text → Text → ℕ → ℕ → ℕ → Checked ReplayBoundary
unfolding required_redis_field redis_boundary_generation
new_boundary stream_key stream_id snapshot_id generation exclusive_message_seq state_version = do
  key ← required_redis_field (codes "stream_key") stream_key
  stream ← required_redis_field (codes "stream_id") stream_id
  snapshot ← required_redis_field (codes "snapshot_id") snapshot_id
  fenced ← redis_boundary_generation generation
  ok (record {
    stream_key = key;
    stream_id = stream;
    snapshot_id = snapshot;
    generation = fenced;
    exclusive_message_seq = exclusive_message_seq;
    state_version = state_version;
  })

-- BroadcasterRedisStreamEntry
pub record StreamEntry : Type 0 where
  pub schema_version : Text
  pub chain_id : ℕ
  pub stream_id : Text
  pub message_seq : ℕ
  pub state_version : ℕ
  pub kind : MessageKind
  pub snapshot_id : Option Text
  pub backend_scope : Text
  pub block_number : Option ℕ
  pub observed_timestamp_ms : Option ℕ
  pub published_at_ms : ℕ
  pub payload_json : Text
