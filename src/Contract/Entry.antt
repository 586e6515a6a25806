-- ===== src/Contract/Entry.antt =====
-- `BroadcasterRedisStreamEntry::from_envelope_at` and `validate` of broadcaster/redis_streams.rs, with
-- `serde_json` as the pair of functions that write and read an envelope.
pub mod Validity
pub mod Publish
use tycho_simulation_server.Base.{
  ℕ, Bool, true, false, not, ◌&&◌, ◌==◌, Option, some, none, List, [], ◌∷◌, ◌++◌, map, filter, all,
  is_empty, if◌then◌else◌, Text, codes, text_eq, format_u64, Result, ok, err, ◌>>=◌, ◌>>◌, ensure,
  refuse, map_err,
}
use tycho_simulation_server.Contract.External.{Tycho}
use tycho_simulation_server.Contract.Backend.{Backend, native, vm, rfq, backend_eq}
use tycho_simulation_server.Contract.Errors.{
  MessageKind, snapshot_start, snapshot_chunk, snapshot_end, recovery_start, recovery_chunk,
  recovery_catch_up, recovery_commit, update, heartbeat, progress, ContractError, Checked,
  redis_entry_empty_field, redis_entry_unexpected_field, redis_unsupported_schema_version,
  redis_entry_missing_snapshot_id, redis_message_sequence_zero, redis_snapshot_payload_unsupported,
  redis_payload_json_invalid, redis_payload_kind_mismatch, redis_block_number_mismatch,
  redis_observed_timestamp_mismatch,
}
use tycho_simulation_server.Contract.Payload.{
  UpdatePartition, BackendHead, Payload, starts, chunk, ends, recovery_starts, recovers, catches_up,
  commits, updates, beats, progresses, Envelope, envelope_kind,
}
use tycho_simulation_server.Contract.Validate.{
  ensure_stream_id, ensure_chain_id, ensure_snapshot_id, ensure_message_seq,
}
use tycho_simulation_server.Contract.Recovery.{
  validate_recovery_manifest, validate_recovery_chunk, validate_recovery_catch_up,
  validate_recovery_commit,
}
use tycho_simulation_server.Contract.Boundary.{StreamEntry, required_redis_field}
use tycho_simulation_server.Contract.Scope.{
  redis_backend_scope, parse_redis_backend_scope, ensure_redis_backend_scope,
}
use tycho_simulation_server.Contract.Derived.{
  redis_stream_schema_version, kind_eq, redis_entry_requires_snapshot_id,
  ensure_redis_schema_version, ensure_redis_message_seq, ensure_redis_delta_kind, rfq_number,
  redis_payload_global_block_number, ensure_same_number, when_some, ensure_redis_snapshot_id,
  require_snapshot_id, redis_entry_observed_timestamp_ms, redis_payload_chain_block_numbers,
  redis_entry_block_number, redis_payload_snapshot_id, redis_payload_chain_id,
  announced_target_version, ensure_redis_payload_state_version, ensure_redis_payload_block_number,
  ensure_redis_payload_observed_timestamp_ms, redis_update_backend_scope,
  redis_payload_backend_scope,
}

-- unwrap_or_default
abbrev pub or_none : Option (List Backend) → List Backend
or_none none = []
or_none (some bs) = bs

-- serde_json on envelopes, with the message of an error.
pub record Json (T : Tycho) : Type 0 where
  pub to_string : Envelope T → Result Text Text
  pub from_str : Text → Result Text (Envelope T)

module _ {T : Tycho} (json : Json T) where
  unfoldable pub parse_redis_payload_json : Text → Checked (Envelope T)
  parse_redis_payload_json payload_json =
      map_err redis_payload_json_invalid (json.from_str payload_json)

  -- The part of `validate_payload` behind the decoding.
  unfoldable pub validate_decoded : StreamEntry → List Backend → Envelope T → Checked Unit
  validate_decoded e backends envelope = do
    ensure_stream_id e.stream_id envelope.stream_id
    ensure_message_seq (some e.message_seq) envelope.message_seq
    refuse (not (kind_eq (envelope_kind envelope) e.kind))
        (redis_payload_kind_mismatch e.kind (envelope_kind envelope))
    when_some (redis_payload_snapshot_id envelope.payload) (ensure_redis_snapshot_id e.snapshot_id)
    when_some (redis_payload_chain_id envelope.payload) (ensure_chain_id e.chain_id)
    scope ← redis_payload_backend_scope envelope.payload
    when_some scope (ensure_redis_backend_scope backends)
    ensure_redis_payload_block_number e.block_number envelope.payload
    ensure_redis_payload_observed_timestamp_ms e.observed_timestamp_ms envelope.payload
    ensure_redis_payload_state_version e.state_version envelope.payload

  unfoldable pub validate_payload : StreamEntry → List Backend → Checked Unit
  validate_payload e backends =
      parse_redis_payload_json e.payload_json >>= validate_decoded e backends

  unfoldable pub validate : StreamEntry → Checked Unit
  validate e = do
    ensure_redis_schema_version e.schema_version
    _ ← required_redis_field (codes "stream_id") e.stream_id
    _ ← required_redis_field (codes "payload_json") e.payload_json
    ensure_redis_message_seq e.message_seq
    ensure_redis_delta_kind e.kind
    backends ← parse_redis_backend_scope e.backend_scope
    when_some e.snapshot_id (λ s. required_redis_field (codes "snapshot_id") s >>= λ _. ok tt)
    require_snapshot_id e.kind e.snapshot_id
    validate_payload e backends

  -- `from_envelope` is `from_envelope_at` at the time 0.
  unfoldable pub from_envelope_at : ℕ → Envelope T → ℕ → ℕ → Checked StreamEntry
  from_envelope_at chain_id envelope published_at_ms state_version = do
    ensure_redis_delta_kind (envelope_kind envelope)
    scope ← redis_payload_backend_scope envelope.payload
    payload_json ← map_err redis_payload_json_invalid (json.to_string envelope)
    stream_id ← required_redis_field (codes "stream_id") envelope.stream_id
    backend_scope ← redis_backend_scope (or_none scope)
    let entry : StreamEntry = record {
      schema_version = redis_stream_schema_version;
      chain_id = chain_id;
      stream_id = stream_id;
      message_seq = envelope.message_seq;
      state_version = state_version;
      kind = envelope_kind envelope;
      snapshot_id = redis_payload_snapshot_id envelope.payload;
      backend_scope = backend_scope;
      block_number = redis_entry_block_number envelope.payload;
      observed_timestamp_ms = redis_entry_observed_timestamp_ms envelope.payload;
      published_at_ms = published_at_ms;
      payload_json = payload_json;
    }
    validate entry
    ok entry
