-- ===== src/Contract/Recovery/Validity.antt =====
-- What a recovery manifest and a commit must satisfy.
use tycho_simulation_server.Base.{
  ℕ, ◌<◌, ◌≡◌, ◌↔◌, false, not, ◌==◌, List, All, length, is_empty, Text, is_blank, ok, arith,
  before, >>_iff, refuse,
}
use tycho_simulation_server.Contract.Backend.{Backend}
use tycho_simulation_server.Contract.Errors.{ContractError}
use tycho_simulation_server.Contract.Payload.{RecoveryManifest, RecoveryCommit}
use tycho_simulation_server.Contract.Validate.Backends.{Distinct, validate_unique-Distinct}
use tycho_simulation_server.Contract.Validate.Contents.{check_each_iff}
use tycho_simulation_server.Contract.Recovery.{
  require_recovery_text, require_recovery_version, validate_recovery_backends, refuse_zero,
  validate_recovery_manifest, validate_recovery_commit,
}

-- Not blank: some character is not whitespace.
abbrev pub HasText : Text → Type 0
HasText value = is_blank value ≡ false

-- At least one backend, none twice.
abbrev pub BackendsOf : List Backend → Type 0
BackendsOf backends = (is_empty backends ≡ false) × Distinct backends

pub record ManifestIsValid (m : RecoveryManifest) : Type 0 where
  pub has_id : HasText m.recovery_id
  pub has_version : 0 < m.target_state_version
  pub backends_of : BackendsOf m.backends
  pub has_chunks : 0 < m.chunk_count
  pub bytes_of_chunks : m.chunk_count ≡ length m.chunk_encoded_bytes
  pub digests_of_chunks : m.chunk_count ≡ length m.chunk_digests
  pub has_bytes : 0 < m.replacement_encoded_bytes
  pub each_has_bytes : All (λ n. 0 < n) m.chunk_encoded_bytes
  pub each_has_digest : All HasText m.chunk_digests
  pub has_digest : HasText m.replacement_digest
  pub has_watermark : 0 < m.commit_watermark

pub record CommitIsValid (c : RecoveryCommit) : Type 0 where
  pub has_id : HasText c.recovery_id
  pub has_version : 0 < c.target_state_version
  pub backends_of : BackendsOf c.backends
  pub has_digest : HasText c.replacement_digest
  pub has_watermark : 0 < c.commit_watermark

text_iff : (field value : Text) → (require_recovery_text field value ≡ ok tt) ↔ HasText value
unfolding require_recovery_text
text_iff field value = ground arith

version_iff : (n : ℕ) → (require_recovery_version n ≡ ok tt) ↔ (0 < n)
unfolding require_recovery_version
version_iff n = ground arith

zero_iff : (e : ContractError) (n : ℕ) → (refuse (n == 0) e ≡ ok tt) ↔ (0 < n)
zero_iff e n = ground arith

zero_each_iff : (e : ContractError) (n : ℕ) → (refuse_zero e n ≡ ok tt) ↔ (0 < n)
unfolding refuse_zero
zero_each_iff e n = zero_iff e n

count_iff : (e : ContractError) (m n : ℕ) → (refuse (not (m == n)) e ≡ ok tt) ↔ (m ≡ n)
count_iff e m n = ground arith

empty_iff :
    (e : ContractError) (bs : List Backend)
    → (refuse (is_empty bs) e ≡ ok tt) ↔ (is_empty bs ≡ false)
empty_iff e bs = ground arith

backends_iff : (bs : List Backend) → (validate_recovery_backends bs ≡ ok tt) ↔ BackendsOf bs
unfolding validate_recovery_backends
backends_iff bs = >>_iff _ _ tt (empty_iff _ bs) (validate_unique-Distinct _ bs)

-- A manifest passes exactly when it names its recovery, version, watermark and digest, has distinct
-- backends, at least one of them, and one byte count and one digest for each of its chunks, none of
-- them zero or blank.
pub validate_recovery_manifest-ManifestIsValid :
    (m : RecoveryManifest) → (validate_recovery_manifest m ≡ ok tt) ↔ ManifestIsValid m
unfolding validate_recovery_manifest
validate_recovery_manifest-ManifestIsValid m =
    let bytes =
      check_each_iff (λ n. 0 < n) (refuse_zero _) (zero_each_iff _) m.chunk_encoded_bytes in
    let digests = check_each_iff HasText (require_recovery_text _) (text_iff _) m.chunk_digests in
    let last = before (text_iff _ m.replacement_digest) (zero_iff _ m.commit_watermark) in
    let sizes =
      before (zero_iff _ m.replacement_encoded_bytes) (before bytes (before digests last)) in
    let counts =
      before (count_iff _ m.chunk_count (length m.chunk_encoded_bytes))
        (before (count_iff _ m.chunk_count (length m.chunk_digests)) sizes) in
    let checks = before (text_iff _ m.recovery_id) (
      before (version_iff m.target_state_version)
        (before (backends_iff m.backends) (before (zero_iff _ m.chunk_count) counts))) in
    (
      λ h.
          let f = checks.0 h in
          let c = f.1.1.1.1 in
          let s = c.1.1 in
          record {
            has_id = f.0;
            has_version = f.1.0;
            backends_of = f.1.1.0;
            has_chunks = f.1.1.1.0;
            bytes_of_chunks = c.0;
            digests_of_chunks = c.1.0;
            has_bytes = s.0;
            each_has_bytes = s.1.0;
            each_has_digest = s.1.1.0;
            has_digest = s.1.1.1.0;
            has_watermark = s.1.1.1.1;
          },
      λ v. checks.1 (
        v.has_id,
        (
          v.has_version,
          (
            v.backends_of,
            (
              v.has_chunks,
              (
                v.bytes_of_chunks,
                (
                  v.digests_of_chunks,
                  (
                    v.has_bytes,
                    (v.each_has_bytes, (v.each_has_digest, (v.has_digest, v.has_watermark))),
                  ),
                ),
              ),
            ),
          ),
        ),
      ),
    )

-- A commit passes exactly when it names its recovery, version, watermark and digest, and has
-- distinct backends, at least one of them.
pub validate_recovery_commit-CommitIsValid :
    (c : RecoveryCommit) → (validate_recovery_commit c ≡ ok tt) ↔ CommitIsValid c
unfolding validate_recovery_commit
validate_recovery_commit-CommitIsValid c =
    let last = before (text_iff _ c.replacement_digest) (zero_iff _ c.commit_watermark) in
    let checks =
      before (text_iff _ c.recovery_id)
        (before (version_iff c.target_state_version) (before (backends_iff c.backends) last)) in
    (
      λ h.
          let f = checks.0 h in
          record {
            has_id = f.0;
            has_version = f.1.0;
            backends_of = f.1.1.0;
            has_digest = f.1.1.1.0;
            has_watermark = f.1.1.1.1;
          },
      λ v. checks.1 (v.has_id, (v.has_version, (v.backends_of, (v.has_digest, v.has_watermark)))),
    )
