-- ===== src/Contract/Recovery.antt =====
-- The recovery payloads of broadcaster.rs: their validators and their constructors, which sort the
-- backends, count the chunks and then validate.
pub mod Validity
use tycho_simulation_server.Base.{
  ℕ, not, ◌==◌, leb, ◌||◌, List, [], ◌∷◌, length, is_empty, if◌then◌else◌, Text, codes, is_blank,
  ◌++◌, max_u32, Result, ok, err, ◌>>=◌, ◌>>◌, refuse,
}
use tycho_simulation_server.Contract.External.{Tycho}
use tycho_simulation_server.Contract.Backend.{Backend, sort_by_key}
use tycho_simulation_server.Contract.Errors.{ContractError, Checked, recovery_manifest_invalid}
use tycho_simulation_server.Contract.Payload.{
  RecoveryManifest, RecoveryStart, RecoveryChunk, RecoveryCatchUp, RecoveryCommit, UpdateMessage,
}
use tycho_simulation_server.Contract.Validate.{
  check_each, validate_unique_backend_entries, validate_update_partitions,
}

abbrev pub recovery_error : Text → ContractError
recovery_error reason = recovery_manifest_invalid reason

unfoldable pub require_recovery_text : Text → Text → Checked Unit
require_recovery_text field value =
    refuse (is_blank value) (recovery_error (field ++ codes " must not be empty"))

unfoldable pub require_recovery_version : ℕ → Checked Unit
require_recovery_version version =
    refuse (version == 0) (recovery_error (codes "target_state_version must be greater than zero"))

unfoldable pub validate_recovery_backends : List Backend → Checked Unit
validate_recovery_backends backends = do
  refuse (is_empty backends) (recovery_error (codes "backends must not be empty"))
  validate_unique_backend_entries (codes "recovery.backends") backends

-- `values.contains(&0)`, as the loop that refuses the first zero.
unfoldable pub refuse_zero : ContractError → ℕ → Checked Unit
refuse_zero e n = refuse (n == 0) e

unfoldable pub validate_recovery_manifest : RecoveryManifest → Checked Unit
unfolding refuse_zero
validate_recovery_manifest m = do
  require_recovery_text (codes "recovery_id") m.recovery_id
  require_recovery_version m.target_state_version
  validate_recovery_backends m.backends
  refuse (m.chunk_count == 0) (recovery_error (codes "chunk_count must be greater than zero"))
  refuse (not (m.chunk_count == length m.chunk_encoded_bytes))
      (recovery_error (codes "chunk_count does not match chunk_encoded_bytes"))
  refuse (not (m.chunk_count == length m.chunk_digests))
      (recovery_error (codes "chunk_count does not match chunk_digests"))
  refuse (m.replacement_encoded_bytes == 0)
      (recovery_error (codes "replacement_encoded_bytes must be greater than zero"))
  check_each
      (refuse_zero (recovery_error (codes "chunk_encoded_bytes values must be greater than zero")))
      m.chunk_encoded_bytes
  check_each (require_recovery_text (codes "chunk_digest")) m.chunk_digests
  require_recovery_text (codes "replacement_digest") m.replacement_digest
  refuse (m.commit_watermark == 0)
      (recovery_error (codes "commit_watermark must be greater than zero"))

unfoldable pub validate_recovery_chunk : RecoveryChunk → Checked Unit
validate_recovery_chunk c = do
  require_recovery_text (codes "recovery_id") c.recovery_id
  require_recovery_version c.target_state_version
  validate_recovery_backends c.backends
  refuse (c.encoded_bytes == 0) (recovery_error (codes "encoded_bytes must be greater than zero"))
  require_recovery_text (codes "digest") c.digest
  require_recovery_text (codes "payload_fragment") c.payload_fragment

unfoldable pub validate_recovery_catch_up : (T : Tycho) → RecoveryCatchUp T → Checked Unit
validate_recovery_catch_up T c = do
  require_recovery_text (codes "recovery_id") c.recovery_id
  require_recovery_version c.target_state_version
  validate_update_partitions T c.update_message.partitions

unfoldable pub validate_recovery_commit : RecoveryCommit → Checked Unit
validate_recovery_commit c = do
  require_recovery_text (codes "recovery_id") c.recovery_id
  require_recovery_version c.target_state_version
  validate_recovery_backends c.backends
  require_recovery_text (codes "replacement_digest") c.replacement_digest
  refuse (c.commit_watermark == 0)
      (recovery_error (codes "commit_watermark must be greater than zero"))

abbrev pub sort : List Backend → List Backend
sort backends = sort_by_key (λ b. b) backends

-- BroadcasterRecoveryManifest::new
unfoldable pub new_manifest :
    Text → ℕ → List Backend → ℕ → List ℕ → List Text → Text → ℕ → ℕ → Checked RecoveryManifest
new_manifest recovery_id version backends bytes chunk_bytes digests digest buffer_a watermark = do
  refuse (not (leb (length chunk_bytes) max_u32)) (recovery_error (codes "chunk count exceeds u32"))
  let manifest : RecoveryManifest = record {
    recovery_id = recovery_id;
    target_state_version = version;
    backends = sort backends;
    chunk_count = length chunk_bytes;
    replacement_encoded_bytes = bytes;
    chunk_encoded_bytes = chunk_bytes;
    chunk_digests = digests;
    replacement_digest = digest;
    buffer_a_count = buffer_a;
    commit_watermark = watermark;
  }
  validate_recovery_manifest manifest
  ok manifest

-- BroadcasterRecoveryStart::new
unfoldable pub new_start : RecoveryManifest → Checked RecoveryStart
new_start manifest = do validate_recovery_manifest manifest; ok (record { manifest = manifest })

-- BroadcasterRecoveryChunk::new
unfoldable pub new_chunk : Text → ℕ → List Backend → ℕ → ℕ → Text → Text → Checked RecoveryChunk
new_chunk recovery_id version backends index bytes digest fragment = do
  let chunk : RecoveryChunk = record {
    recovery_id = recovery_id;
    target_state_version = version;
    backends = sort backends;
    chunk_index = index;
    encoded_bytes = bytes;
    digest = digest;
    payload_fragment = fragment;
  }
  validate_recovery_chunk chunk
  ok chunk

-- BroadcasterRecoveryCatchUp::new
unfoldable pub new_catch_up :
    {T : Tycho} → Text → ℕ → ℕ → UpdateMessage T → Checked (RecoveryCatchUp T)
new_catch_up {T} recovery_id version index update = do
  let catch_up : RecoveryCatchUp T = record {
    recovery_id = recovery_id;
    target_state_version = version;
    block_index = index;
    update_message = update;
  }
  validate_recovery_catch_up T catch_up
  ok catch_up

-- BroadcasterRecoveryCommit::new
unfoldable pub new_commit : Text → ℕ → List Backend → Text → ℕ → ℕ → Checked RecoveryCommit
new_commit recovery_id version backends digest buffer_a watermark = do
  let commit : RecoveryCommit = record {
    recovery_id = recovery_id;
    target_state_version = version;
    backends = sort backends;
    replacement_digest = digest;
    buffer_a_count = buffer_a;
    commit_watermark = watermark;
  }
  validate_recovery_commit commit
  ok commit
