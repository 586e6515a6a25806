-- ===== src/Contract/Payload.antt =====
-- The envelope and its payloads, one record for each struct. A `BTreeMap` is the list of its
-- entries in key order.
use tycho_simulation_server.Base.{ℕ, Bool, ◌&&◌, Option, List, is_empty, Text}
use tycho_simulation_server.Contract.External.{Tycho}
use tycho_simulation_server.Contract.Backend.{Backend}
use tycho_simulation_server.Contract.Errors.{
  MessageKind, snapshot_start, snapshot_chunk, snapshot_end, recovery_start, recovery_chunk,
  recovery_catch_up, recovery_commit, update, heartbeat, progress,
}

pub data SyncStatusKind : Type 0 where
  started ready delayed stale advanced ended : SyncStatusKind

pub record BlockRef (T : Tycho) : Type 0 where
  pub hash : T.Bytes
  pub number : ℕ
  pub parent_hash : T.Bytes
  pub revert : Bool
  pub timestamp : ℕ
  pub partial_block_index : Option ℕ

pub record SyncStatus (T : Tycho) : Type 0 where
  pub kind : SyncStatusKind
  pub block : Option (BlockRef T)
  pub reason : Option Text

pub record ProtocolMessage (T : Tycho) : Type 0 where
  pub protocol : Text
  pub sync_state : T.SynchronizerState
  pub message : T.StateSyncMessage

pub record StateEntry (T : Tycho) : Type 0 where
  pub component_id : Text
  pub component : T.Component
  pub state : T.Sim

pub record StateDelta (T : Tycho) : Type 0 where
  pub component_id : Text
  pub backend : Backend
  pub state : T.Sim

pub record RemovedPair (T : Tycho) : Type 0 where
  pub component_id : Text
  pub component : T.Component

pub record SnapshotPartition (T : Tycho) : Type 0 where
  pub backend : Backend
  pub block_number : ℕ
  pub messages : List (ProtocolMessage T)
  pub states : List (StateEntry T)
  pub sync_statuses : List (Text × SyncStatus T)

pub record UpdatePartition (T : Tycho) : Type 0 where
  pub backend : Backend
  pub block_number : ℕ
  pub messages : List (ProtocolMessage T)
  pub new_pairs : List (StateEntry T)
  pub updated_states : List (StateDelta T)
  pub removed_pairs : List (RemovedPair T)
  pub sync_statuses : List (Text × SyncStatus T)

-- BroadcasterUpdatePartition::is_empty
abbrev pub partition_is_empty : {T : Tycho} → UpdatePartition T → Bool
partition_is_empty p =
    is_empty p.messages
    && is_empty p.new_pairs
    && is_empty p.updated_states
    && is_empty p.removed_pairs
    && is_empty p.sync_statuses

pub record SnapshotStart : Type 0 where
  pub snapshot_id : Text
  pub chain_id : ℕ
  pub backends : List Backend
  pub total_chunks : ℕ

pub record SnapshotChunk (T : Tycho) : Type 0 where
  pub snapshot_id : Text
  pub chunk_index : ℕ
  pub partitions : List (SnapshotPartition T)

pub record SnapshotEnd : Type 0 where
  pub snapshot_id : Text

pub record RecoveryManifest : Type 0 where
  pub recovery_id : Text
  pub target_state_version : ℕ
  pub backends : List Backend
  pub chunk_count : ℕ
  pub replacement_encoded_bytes : ℕ
  pub chunk_encoded_bytes : List ℕ
  pub chunk_digests : List Text
  pub replacement_digest : Text
  pub buffer_a_count : ℕ
  pub commit_watermark : ℕ

pub record RecoveryStart : Type 0 where
  pub manifest : RecoveryManifest

pub record RecoveryChunk : Type 0 where
  pub recovery_id : Text
  pub target_state_version : ℕ
  pub backends : List Backend
  pub chunk_index : ℕ
  pub encoded_bytes : ℕ
  pub digest : Text
  pub payload_fragment : Text

pub record UpdateMessage (T : Tycho) : Type 0 where
  pub partitions : List (UpdatePartition T)

pub record RecoveryCatchUp (T : Tycho) : Type 0 where
  pub recovery_id : Text
  pub target_state_version : ℕ
  pub block_index : ℕ
  pub update_message : UpdateMessage T

pub record RecoveryCommit : Type 0 where
  pub recovery_id : Text
  pub target_state_version : ℕ
  pub backends : List Backend
  pub replacement_digest : Text
  pub buffer_a_count : ℕ
  pub commit_watermark : ℕ

pub record BackendHead : Type 0 where
  pub backend : Backend
  pub block_number : ℕ

pub record Heartbeat : Type 0 where
  pub chain_id : ℕ
  pub snapshot_id : Text
  pub backend_heads : List BackendHead

pub record Progress : Type 0 where
  pub chain_id : ℕ
  pub snapshot_id : Text
  pub backends : List Backend
  pub reason : Text

pub data Payload (T : Tycho) : Type 0 where
  starts : SnapshotStart → Payload T
  chunk : SnapshotChunk T → Payload T
  ends : SnapshotEnd → Payload T
  recovery_starts : RecoveryStart → Payload T
  recovers : RecoveryChunk → Payload T
  catches_up : RecoveryCatchUp T → Payload T
  commits : RecoveryCommit → Payload T
  updates : UpdateMessage T → Payload T
  beats : Heartbeat → Payload T
  progresses : Progress → Payload T

unfoldable pub payload_kind : {T : Tycho} → Payload T → MessageKind
payload_kind (starts p) = snapshot_start
payload_kind (chunk p) = snapshot_chunk
payload_kind (ends p) = snapshot_end
payload_kind (recovery_starts p) = recovery_start
payload_kind (recovers p) = recovery_chunk
payload_kind (catches_up p) = recovery_catch_up
payload_kind (commits p) = recovery_commit
payload_kind (updates p) = update
payload_kind (beats p) = heartbeat
payload_kind (progresses p) = progress

pub record Envelope (T : Tycho) : Type 0 where
  pub stream_id : Text
  pub message_seq : ℕ
  pub payload : Payload T

unfoldable pub envelope_kind : {T : Tycho} → Envelope T → MessageKind
unfolding payload_kind
envelope_kind envelope = payload_kind envelope.payload
