-- ===== src/Publisher/Errors.antt =====
-- The errors of the publisher in redis_publisher.rs, each with what its text is formatted from, and
-- the publisher's modes.
use tycho_simulation_server.Base.{ℕ, Bool, true, false, Text, Result}
use tycho_simulation_server.Contract.Errors.{MessageKind, ContractError}

-- BroadcasterRedisPublisherMode
pub data Mode : Type 0 where
  passive active retired unhealthy : Mode

-- What a writer's error says. Only the first contains STALE_WRITER_MESSAGE, and only the second
-- MISSING_FENCE_MESSAGE.
pub data WriterError : Type 0 where
  stale_writer missing_fence : WriterError
  writer_failed : Text → WriterError

pub data PublishError : Type 0 where
  writer_error : WriterError → PublishError
  -- APPEND_EXHAUSTED_MESSAGE
  append_exhausted : PublishError
  contract_error : ContractError → PublishError
  serialization_failed : Text → PublishError
  invalid_entry_stream_id : Text → PublishError
  oversized_entry : MessageKind → ℕ → ℕ → PublishError
  prepared_sequence_mismatch : ℕ → ℕ → PublishError
  message_seq_overflow state_version_overflow : PublishError
  publisher_is_passive publisher_is_retired : PublishError
  publisher_is_unhealthy : PublishError → PublishError
  publisher_is_unhealthy_without_error : PublishError
  not_a_live_payload : PublishError
  recovery_queue_is_full : PublishError
  handoff_is_frozen handoff_is_not_current handoff_exceeded handoff_needs_passive : PublishError
  handoff_drain_needs_active handoff_drain_mismatch : PublishError
  cannot_promote : Mode → PublishError
  fenced_by : Text → PublishError
  recovery_cancelled : PublishError
  reservation_not_active : Text → PublishError
  replacement_is_empty fragment_boundary_not_utf8 : PublishError
  recovery_sequence_overflow number_exceeds_u32 size_did_not_converge : PublishError
  recovery_byte_count_overflow recovery_has_no_entries : PublishError
  -- RecoveryCommitAdoptionUncertain
  commit_is_uncertain : PublishError → PublishError

-- is_stale_writer_error: an error that passes another on contains its text.
unfoldable pub is_stale_writer_error : PublishError → Bool
is_stale_writer_error (writer_error stale_writer) = true
is_stale_writer_error (publisher_is_unhealthy e) = is_stale_writer_error e
is_stale_writer_error (commit_is_uncertain e) = is_stale_writer_error e
is_stale_writer_error _ = false

-- `error.downcast_ref::<OversizedRedisEntry>().is_some()`
unfoldable pub is_oversized : PublishError → Bool
is_oversized (oversized_entry kind encoded_bytes limit_bytes) = true
is_oversized _ = false

abbrev pub Published : Type 0 → Type 0
Published A = Result PublishError A
