-- ===== src/Contract/Errors.antt =====
-- `BroadcasterContractError` and `BroadcasterMessageKind`. Its `Display` text is not modelled.
use tycho_simulation_server.Base.{ℕ, List, Text, Result}
use tycho_simulation_server.Contract.Backend.{Backend}

pub data MessageKind : Type 0 where
  snapshot_start snapshot_chunk snapshot_end recovery_start recovery_chunk recovery_catch_up
        recovery_commit update heartbeat progress :
      MessageKind

pub data ContractError : Type 0 where
  expected_snapshot_start : MessageKind → ContractError
  unexpected_stream_id : Text → Text → ContractError
  unexpected_chain_id : ℕ → ℕ → ContractError
  unexpected_message_seq : ℕ → ℕ → ContractError
  message_sequence_overflow : ℕ → ContractError
  unexpected_snapshot_start : Text → ContractError
  unexpected_snapshot_chunk unexpected_snapshot_end : ContractError
  unexpected_recovery_message : MessageKind → ContractError
  unexpected_snapshot_id : Text → Text → ContractError
  unexpected_chunk_index : ℕ → ℕ → ContractError
  extra_snapshot_chunk : ℕ → ℕ → ContractError
  snapshot_incomplete : ℕ → ℕ → ContractError
  missing_declared_snapshot_backends : List Backend → ContractError
  update_before_snapshot_complete heartbeat_before_snapshot_complete
        progress_before_snapshot_complete :
      ContractError
  redis_replay_boundary_before_snapshot_complete : Text → ContractError
  empty_update progress_reason_empty : ContractError
  recovery_manifest_invalid : Text → ContractError
  empty_update_partition : Backend → ContractError
  duplicate_backend_entry : Text → Backend → ContractError
  undeclared_backend_entry : Text → Backend → ContractError
  new_pair_missing_state : Text → ContractError
  unknown_component_protocol : Text → ContractError
  unsupported_component_protocol : Text → Text → ContractError
  state_backend_missing : Text → ContractError
  unknown_sync_state_protocol : Text → ContractError
  unsupported_sync_state_protocol : Text → Text → ContractError
  partition_content_backend_mismatch : Text → Text → Backend → Backend → ContractError
  redis_entry_empty_field : Text → ContractError
  redis_entry_unexpected_field : Text → ContractError
  redis_unsupported_schema_version : Text → ContractError
  redis_entry_missing_snapshot_id : MessageKind → ContractError
  redis_message_sequence_zero : ContractError
  redis_snapshot_payload_unsupported : MessageKind → ContractError
  redis_backend_scope_invalid : Text → ContractError
  redis_payload_json_invalid : Text → ContractError
  redis_payload_kind_mismatch : MessageKind → MessageKind → ContractError
  redis_block_number_mismatch : ℕ → ℕ → ContractError
  redis_observed_timestamp_mismatch : ℕ → ℕ → ContractError
  invalid_redis_entry_id : Text → ContractError
  token_chain_mismatch : ℕ → ℕ → ContractError

-- Result<A, BroadcasterContractError>
abbrev pub Checked : Type 0 → Type 0
Checked A = Result ContractError A
