-- ===== src/Publisher/Tests/Recoveries.antt =====
-- The theorems on recoveries at work, with the writer that counts its appends.
use tycho_simulation_server.Base.{
  ℕ, parse_u64, format_u64, is_blank, text_eq, split, List, [], ◌∷◌, false, none, Text, codes, ok,
  ◌≡◌, refl, ◌==◌, if◌then◌else◌,
}
use tycho_simulation_server.Contract.Tests.{toy}
use tycho_simulation_server.Contract.Backend.{native, sort_by_key}
use tycho_simulation_server.Contract.Payload.{
  Payload, envelope_kind, recovery_starts, recovers, commits,
}
use tycho_simulation_server.Publisher.Append.{Environment}
use tycho_simulation_server.Contract.Errors.{
  MessageKind, recovery_start, recovery_chunk, recovery_commit,
}
use tycho_simulation_server.Contract.Boundary.{StreamEntry, redis_entry_id, required_redis_field}
use tycho_simulation_server.Contract.Recovery.{
  new_chunk, validate_recovery_chunk, require_recovery_text, require_recovery_version,
  validate_recovery_backends, validate_recovery_manifest, new_start, new_commit,
  validate_recovery_commit, new_manifest,
}
use tycho_simulation_server.Contract.Validate.{
  validate_unique_backend_entries, ensure_stream_id, ensure_message_seq, check_each,
}
use tycho_simulation_server.Contract.Entry.{
  from_envelope_at, validate, validate_payload, parse_redis_payload_json, validate_decoded,
}
use tycho_simulation_server.Contract.Derived.{
  redis_entry_observed_timestamp_ms, ensure_redis_payload_state_version, ensure_redis_delta_kind,
  redis_payload_backend_scope, ensure_redis_schema_version, ensure_redis_message_seq,
  redis_payload_snapshot_id, redis_entry_requires_snapshot_id, redis_payload_chain_id,
  ensure_redis_payload_block_number, redis_entry_block_number, redis_payload_global_block_number,
  redis_payload_chain_block_numbers, ensure_redis_payload_observed_timestamp_ms,
}
use tycho_simulation_server.Contract.Scope.{
  redis_backend_scope, parse_redis_backend_scope, ensure_redis_backend_scope,
}
use tycho_simulation_server.Publisher.Size.{replay_entry_encoded_size, ensure_redis_entry_size}
use tycho_simulation_server.Publisher.Fragments.{RecoveryFragment, prepare_recovery_fragments}
use tycho_simulation_server.Publisher.Fragments.Whole.{Whole, prepare_recovery_fragments-Whole}
use tycho_simulation_server.Publisher.Recovery.{
  RecoveryTransaction, RecoveryTarget, recovery_entries,
}
use tycho_simulation_server.Publisher.Recovery.Numbers.{Run, parts_of, recovery_entries-Run}
use tycho_simulation_server.Publisher.Commit.{publish_recovery}
use tycho_simulation_server.Publisher.Commit.Adoption.{
  CommitOutcome, publish_recovery-CommitOutcome,
}
use tycho_simulation_server.Publisher.Gate.{Publisher, begin_recovery}
use tycho_simulation_server.Publisher.Calls.{new_passive}
use tycho_simulation_server.Publisher.Tests.Publishing.{environment, clock, promoted_state}

abbrev digest_of : Text → Text
digest_of s = codes "0x"

prepare_recovery_fragments-Whole_example :
    Whole digest_of (codes "{}") (prepare_recovery_fragments digest_of (codes "{}"))
prepare_recovery_fragments-Whole_example =
    prepare_recovery_fragments-Whole digest_of (codes "{}") (λ h. cc)

abbrev transaction : RecoveryTransaction toy
transaction = record {
  recovery_id = codes "recovery-1";
  backends = native ∷ [];
  replacement_json = codes "{}";
  buffer_a = [];
}

abbrev target : RecoveryTarget
target = record { stream_id = codes "chain-1-stream-2"; next_entry_seq = 2; state_version = 4 }

abbrev fragments : List RecoveryFragment
fragments = record { payload = codes "{}"; digest = digest_of [] } ∷ []

-- An envelope is written as its number, and read back as the payload of that number.
abbrev payload_of : ℕ → Payload toy
payload_of n =
    if n == 2
    then recovery_starts (record {
      manifest = record {
        recovery_id = codes "recovery-1";
        target_state_version = 4;
        backends = native ∷ [];
        chunk_count = 1;
        replacement_encoded_bytes = 2;
        chunk_encoded_bytes = 1 ∷ [];
        chunk_digests = codes "0x" ∷ [];
        replacement_digest = codes "0x";
        buffer_a_count = 0;
        commit_watermark = 4;
      };
    })
    else if n == 3
    then recovers (record {
      recovery_id = codes "recovery-1";
      target_state_version = 4;
      backends = native ∷ [];
      chunk_index = 0;
      encoded_bytes = 1;
      digest = codes "0x";
      payload_fragment = codes "{}";
    })
    else commits (record {
      recovery_id = codes "recovery-1";
      target_state_version = 4;
      backends = native ∷ [];
      replacement_digest = codes "0x";
      buffer_a_count = 0;
      commit_watermark = 4;
    })

abbrev number_in : Text → ℕ
number_in [] = 0
number_in (n ∷ s) = n

abbrev recovery_environment : Environment toy ℕ
recovery_environment = record environment {
  json = record {
    to_string = λ e. ok (e.message_seq ∷ []);
    from_str = λ s. ok (record {
      stream_id = codes "chain-1-stream-2";
      message_seq = number_in s;
      payload = payload_of (number_in s);
    });
  };
}

abbrev entry_of : ℕ → MessageKind → StreamEntry
entry_of n kind = record {
  schema_version = codes "1";
  chain_id = 1;
  stream_id = codes "chain-1-stream-2";
  message_seq = n;
  state_version = 4;
  kind = kind;
  snapshot_id = none;
  backend_scope = codes "native";
  block_number = none;
  observed_timestamp_ms = none;
  published_at_ms = 0;
  payload_json = n ∷ [];
}

abbrev prepared : List StreamEntry
prepared = entry_of 2 recovery_start ∷ entry_of 3 recovery_chunk ∷ entry_of 4 recovery_commit ∷ []

recovery_entries-prepared :
    recovery_entries recovery_environment digest_of 0 transaction target fragments ≡ ok prepared
unfolding recovery_entries new_chunk validate_recovery_chunk require_recovery_text is_blank
    require_recovery_version validate_recovery_backends sort_by_key validate_unique_backend_entries
    from_envelope_at ensure_redis_delta_kind envelope_kind redis_payload_backend_scope
    required_redis_field redis_backend_scope validate ensure_redis_schema_version text_eq
    ensure_redis_message_seq parse_redis_backend_scope split redis_payload_snapshot_id
    redis_entry_requires_snapshot_id validate_payload parse_redis_payload_json validate_decoded
    ensure_stream_id ensure_message_seq redis_payload_chain_id ensure_redis_backend_scope
    ensure_redis_payload_block_number redis_entry_block_number redis_payload_global_block_number
    redis_payload_chain_block_numbers ensure_redis_payload_observed_timestamp_ms
    validate_recovery_manifest check_each new_start new_commit validate_recovery_commit new_manifest
    redis_entry_observed_timestamp_ms ensure_redis_payload_state_version replay_entry_encoded_size
    parse_u64 redis_entry_id format_u64 ensure_redis_entry_size
recovery_entries-prepared = refl

recovery_entries-Run_example :
    Run recovery_environment digest_of 0 transaction target 2
      (parts_of transaction fragments 4)
      prepared
recovery_entries-Run_example =
    recovery_entries-Run recovery_environment digest_of 0 transaction target fragments prepared
      recovery_entries-prepared

abbrev not_reserved : Publisher toy
not_reserved = record (new_passive 1) {
  state = record promoted_state { committed_state_version = 3; next_state_version = 3 };
}

reserved : Publisher toy
unfolding new_passive begin_recovery
reserved = (begin_recovery environment (native ∷ []) not_reserved).1

publish_recovery-CommitOutcome_example :
    CommitOutcome recovery_environment digest_of clock []
      (λ c. false)
      transaction
      reserved
      0
      (publish_recovery recovery_environment digest_of clock [] (λ c. false) transaction reserved 0)
publish_recovery-CommitOutcome_example =
    publish_recovery-CommitOutcome recovery_environment digest_of clock [] (λ c. false) transaction
      reserved 0
