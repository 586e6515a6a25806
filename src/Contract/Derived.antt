-- ===== src/Contract/Derived.antt =====
-- What a Redis entry derives from its payload, and the comparison of each field with it: the
-- `redis_payload_*`, `redis_entry_*` and `ensure_redis_*` functions of broadcaster/redis_streams.rs.
pub mod Checks
use tycho_simulation_server.Base.{
  ℕ, Bool, true, false, not, ◌&&◌, ◌==◌, Option, some, none, List, [], ◌∷◌, ◌++◌, map, filter, all,
  is_empty, if◌then◌else◌, Text, codes, text_eq, format_u64, Result, ok, err, ◌>>=◌, ◌>>◌, ensure,
  refuse, map_err,
}
use tycho_simulation_server.Contract.External.{Tycho}
use tycho_simulation_server.Contract.Backend.{Backend, native, vm, rfq, backend_eq}
use tycho_simulation_server.Contract.Errors.{
  MessageKind, snapshot_start, snapshot_chunk, snapshot_end, recovery_start, recovery_chunk,
  recovery_catch_up, recovery_commit, update, heartbeat, progress, ContractError, Checked,
  redis_entry_empty_field, redis_entry_unexpected_field, redis_unsupported_schema_version,
  redis_entry_missing_snapshot_id, redis_message_sequence_zero, redis_snapshot_payload_unsupported,
  redis_payload_json_invalid, redis_payload_kind_mismatch, redis_block_number_mismatch,
  redis_observed_timestamp_mismatch,
}
use tycho_simulation_server.Contract.Payload.{
  UpdatePartition, BackendHead, Payload, starts, chunk, ends, recovery_starts, recovers, catches_up,
  commits, updates, beats, progresses, Envelope, envelope_kind,
}
use tycho_simulation_server.Contract.Validate.{
  ensure_stream_id, ensure_chain_id, ensure_snapshot_id, ensure_message_seq,
}
use tycho_simulation_server.Contract.Recovery.{
  validate_recovery_manifest, validate_recovery_chunk, validate_recovery_catch_up,
  validate_recovery_commit,
}
use tycho_simulation_server.Contract.Boundary.{StreamEntry, required_redis_field}
use tycho_simulation_server.Contract.Scope.{
  redis_backend_scope, parse_redis_backend_scope, ensure_redis_backend_scope,
}

abbrev pub redis_stream_schema_version : Text
redis_stream_schema_version = codes "1"

-- The derived equality of kinds.
abbrev pub kind_index : MessageKind → ℕ
kind_index snapshot_start = 0
kind_index snapshot_chunk = 1
kind_index snapshot_end = 2
kind_index recovery_start = 3
kind_index recovery_chunk = 4
kind_index recovery_catch_up = 5
kind_index recovery_commit = 6
kind_index update = 7
kind_index heartbeat = 8
kind_index progress = 9

abbrev pub kind_eq : MessageKind → MessageKind → Bool
kind_eq a b = kind_index a == kind_index b

unfoldable pub redis_entry_requires_snapshot_id : MessageKind → Bool
redis_entry_requires_snapshot_id heartbeat = true
redis_entry_requires_snapshot_id progress = true
redis_entry_requires_snapshot_id _ = false

unfoldable pub ensure_redis_schema_version : Text → Checked Unit
ensure_redis_schema_version schema_version =
    ensure (text_eq schema_version redis_stream_schema_version)
      (redis_unsupported_schema_version schema_version)

unfoldable pub ensure_redis_message_seq : ℕ → Checked Unit
ensure_redis_message_seq message_seq = refuse (message_seq == 0) redis_message_sequence_zero

unfoldable pub ensure_redis_delta_kind : MessageKind → Checked Unit
ensure_redis_delta_kind snapshot_start = err (redis_snapshot_payload_unsupported snapshot_start)
ensure_redis_delta_kind snapshot_chunk = err (redis_snapshot_payload_unsupported snapshot_chunk)
ensure_redis_delta_kind snapshot_end = err (redis_snapshot_payload_unsupported snapshot_end)
ensure_redis_delta_kind _ = ok tt

-- `entries.iter().find(|e| e.backend == Rfq).map(|e| e.block_number)`
module _ {A : Type 0} (backend_of : A → Backend) (number_of : A → ℕ) where
  unfoldable pub rfq_number : List A → Option ℕ
  rfq_number [] = none
  rfq_number (x ∷ xs) =
      let rest = rfq_number xs in if backend_eq (backend_of x) rfq then some (number_of x) else rest

abbrev is_chain_backend : Backend → Bool
is_chain_backend native = true
is_chain_backend vm = true
is_chain_backend rfq = false

unfoldable pub redis_payload_global_block_number : List ℕ → Option ℕ
redis_payload_global_block_number [] = none
redis_payload_global_block_number (first ∷ remaining) =
    if all (λ n. n == first) remaining then some first else none

-- The comparison of a field of the entry with the same of its payload.
unfoldable pub ensure_same_number :
    Text → (ℕ → ℕ → ContractError) → Option ℕ → Option ℕ → Checked Unit
ensure_same_number field mismatch (some a) (some b) = refuse (not (a == b)) (mismatch a b)
ensure_same_number field mismatch (some a) none = err (redis_entry_unexpected_field field)
ensure_same_number field mismatch none (some b) = err (redis_entry_empty_field field)
ensure_same_number field mismatch none none = ok tt

-- `if let Some(x) = o { check(x)?; }`
abbrev pub when_some : {A : Type 0} → Option A → (A → Checked Unit) → Checked Unit
when_some none check = ok tt
when_some (some a) check = check a

unfoldable pub ensure_redis_snapshot_id : Option Text → Text → Checked Unit
ensure_redis_snapshot_id none payload_id = err (redis_entry_missing_snapshot_id snapshot_start)
ensure_redis_snapshot_id (some entry_id) payload_id = ensure_snapshot_id entry_id payload_id

-- `if self.snapshot_id.is_none() && requires { return Err(..) }`
abbrev pub require_snapshot_id : MessageKind → Option Text → Checked Unit
require_snapshot_id kind none =
    refuse (redis_entry_requires_snapshot_id kind) (redis_entry_missing_snapshot_id kind)
require_snapshot_id kind (some s) = ok tt

module _ {T : Tycho} where
  abbrev observed_in : List (UpdatePartition T) → Option ℕ
  observed_in partitions = rfq_number (λ p. p.backend) (λ p. p.block_number) partitions

  unfoldable pub redis_entry_observed_timestamp_ms : Payload T → Option ℕ
  redis_entry_observed_timestamp_ms (updates u) = observed_in u.partitions
  redis_entry_observed_timestamp_ms (catches_up c) = observed_in c.update_message.partitions
  redis_entry_observed_timestamp_ms (beats h) =
      rfq_number (λ b. b.backend) (λ b. b.block_number) h.backend_heads
  redis_entry_observed_timestamp_ms _ = none

  -- The block numbers of the partitions whose backend is not Rfq.
  abbrev chain_numbers : List (UpdatePartition T) → List ℕ
  chain_numbers [] = []
  chain_numbers (p ∷ ps) =
      let rest = chain_numbers ps in
      if is_chain_backend p.backend then p.block_number ∷ rest else rest

  unfoldable pub redis_payload_chain_block_numbers : Payload T → List ℕ
  redis_payload_chain_block_numbers (updates u) = chain_numbers u.partitions
  redis_payload_chain_block_numbers (catches_up c) = chain_numbers c.update_message.partitions
  redis_payload_chain_block_numbers _ = []

  unfoldable pub redis_entry_block_number : Payload T → Option ℕ
  redis_entry_block_number payload =
      redis_payload_global_block_number (redis_payload_chain_block_numbers payload)

  unfoldable pub redis_payload_snapshot_id : Payload T → Option Text
  redis_payload_snapshot_id (beats h) = some h.snapshot_id
  redis_payload_snapshot_id (progresses p) = some p.snapshot_id
  redis_payload_snapshot_id _ = none

  unfoldable pub redis_payload_chain_id : Payload T → Option ℕ
  redis_payload_chain_id (beats h) = some h.chain_id
  redis_payload_chain_id (progresses p) = some p.chain_id
  redis_payload_chain_id _ = none

  abbrev pub announced_target_version : Payload T → Option ℕ
  announced_target_version (recovery_starts s) = some s.manifest.target_state_version
  announced_target_version (recovers c) = some c.target_state_version
  announced_target_version (catches_up c) = some c.target_state_version
  announced_target_version (commits c) = some c.target_state_version
  announced_target_version _ = none

  unfoldable pub ensure_redis_payload_state_version : ℕ → Payload T → Checked Unit
  ensure_redis_payload_state_version state_version payload =
      when_some (announced_target_version payload) (λ target. ensure (target == state_version) (
        redis_payload_json_invalid (
          codes "Redis entry state_version "
          ++ format_u64 state_version
          ++ codes " does not match recovery target "
          ++ format_u64 target)))

  unfoldable pub ensure_redis_payload_block_number : Option ℕ → Payload T → Checked Unit
  unfolding ensure_same_number
  ensure_redis_payload_block_number entry_block_number payload =
      ensure_same_number (codes "block_number") redis_block_number_mismatch entry_block_number
        (redis_entry_block_number payload)

  unfoldable pub ensure_redis_payload_observed_timestamp_ms : Option ℕ → Payload T → Checked Unit
  unfolding ensure_same_number
  ensure_redis_payload_observed_timestamp_ms entry_observed payload =
      ensure_same_number (codes "observed_timestamp_ms") redis_observed_timestamp_mismatch
        entry_observed (redis_entry_observed_timestamp_ms payload)

  unfoldable pub redis_update_backend_scope :
      List (UpdatePartition T) → Checked (Option (List Backend))
  redis_update_backend_scope partitions =
      let backends = map (λ p. p.backend) partitions in
      if is_empty backends
      then ok (some backends)
      else (redis_backend_scope backends >>= parse_redis_backend_scope >>= λ bs. ok (some bs))

  unfoldable pub redis_payload_backend_scope : Payload T → Checked (Option (List Backend))
  redis_payload_backend_scope (updates u) = redis_update_backend_scope u.partitions
  redis_payload_backend_scope (recovery_starts s) = do
    validate_recovery_manifest s.manifest
    ok (some s.manifest.backends)
  redis_payload_backend_scope (recovers c) = do validate_recovery_chunk c; ok (some c.backends)
  redis_payload_backend_scope (catches_up c) = do
    validate_recovery_catch_up T c
    redis_update_backend_scope c.update_message.partitions
  redis_payload_backend_scope (commits c) = do validate_recovery_commit c; ok (some c.backends)
  redis_payload_backend_scope (beats h) = ok (some (map (λ b. b.backend) h.backend_heads))
  redis_payload_backend_scope (progresses p) = ok (some p.backends)
  redis_payload_backend_scope _ = ok none
