-- ===== src/Contract/Derived/Checks.antt =====
-- When each check of a Redis entry succeeds.
use tycho_simulation_server.Base.{
  ℕ, ◌<◌, ◌≡◌, refl, ◌↔◌, Bool, false, not, ◌==◌, if◌then◌else◌, Option, some, none, Text, is_blank,
  text_eq_iff, ok, refuse, arith, ap, ◌∙◌, sym,
}
use tycho_simulation_server.Contract.External.{Tycho}
use tycho_simulation_server.Contract.Errors.{
  MessageKind, snapshot_start, snapshot_chunk, snapshot_end, recovery_start, recovery_chunk,
  recovery_catch_up, recovery_commit, update, heartbeat, progress, ContractError, Checked,
}
use tycho_simulation_server.Contract.Payload.{Payload}
use tycho_simulation_server.Contract.Validate.Identity.{ensure_snapshot_id_iff}
use tycho_simulation_server.Contract.Boundary.{required_redis_field}
use tycho_simulation_server.Contract.Derived.{
  kind_eq, kind_index, redis_stream_schema_version, redis_entry_requires_snapshot_id,
  ensure_redis_schema_version, ensure_redis_message_seq, ensure_redis_delta_kind,
  ensure_same_number, when_some, ensure_redis_snapshot_id, require_snapshot_id,
  redis_entry_observed_timestamp_ms, redis_entry_block_number, announced_target_version,
  ensure_redis_payload_state_version, ensure_redis_payload_block_number,
  ensure_redis_payload_observed_timestamp_ms,
}

kind_at : ℕ → MessageKind
kind_at n =
    if n == 0
    then snapshot_start
    else if n == 1
    then snapshot_chunk
    else if n == 2
    then snapshot_end
    else if n == 3
    then recovery_start
    else if n == 4
    then recovery_chunk
    else if n == 5
    then recovery_catch_up
    else if n == 6
    then recovery_commit
    else if n == 7
    then update
    else if n == 8
    then heartbeat
    else progress

kind_at-kind_index : (k : MessageKind) → kind_at (kind_index k) ≡ k
unfolding kind_at
kind_at-kind_index snapshot_start = refl
kind_at-kind_index snapshot_chunk = refl
kind_at-kind_index snapshot_end = refl
kind_at-kind_index recovery_start = refl
kind_at-kind_index recovery_chunk = refl
kind_at-kind_index recovery_catch_up = refl
kind_at-kind_index recovery_commit = refl
kind_at-kind_index update = refl
kind_at-kind_index heartbeat = refl
kind_at-kind_index progress = refl

kind_index-injective : (a b : MessageKind) → kind_index a ≡ kind_index b → a ≡ b
kind_index-injective a b h = sym (kind_at-kind_index a) ∙ ap kind_at h ∙ kind_at-kind_index b

refuse_number_iff : (e : ContractError) (m n : ℕ) → (refuse (not (m == n)) e ≡ ok tt) ↔ (m ≡ n)
refuse_number_iff e m n = ground arith

pub kind_iff :
    (e : ContractError) (a b : MessageKind) → (refuse (not (kind_eq a b)) e ≡ ok tt) ↔ (a ≡ b)
kind_iff e a b =
    let same = refuse_number_iff e (kind_index a) (kind_index b) in
    (λ h. kind_index-injective a b (same.0 h), λ h. same.1 (ap kind_index h))

-- A kind of the delta stream.
abbrev pub IsDelta : MessageKind → Type 0
IsDelta snapshot_start = ⊥
IsDelta snapshot_chunk = ⊥
IsDelta snapshot_end = ⊥
IsDelta _ = Unit

pub IsDelta-iff : (k : MessageKind) → (ensure_redis_delta_kind k ≡ ok tt) ↔ IsDelta k
unfolding ensure_redis_delta_kind
IsDelta-iff snapshot_start = (λ h. cc, λ h. absurd h)
IsDelta-iff snapshot_chunk = (λ h. cc, λ h. absurd h)
IsDelta-iff snapshot_end = (λ h. cc, λ h. absurd h)
IsDelta-iff recovery_start = (λ h. tt, λ h. refl)
IsDelta-iff recovery_chunk = (λ h. tt, λ h. refl)
IsDelta-iff recovery_catch_up = (λ h. tt, λ h. refl)
IsDelta-iff recovery_commit = (λ h. tt, λ h. refl)
IsDelta-iff update = (λ h. tt, λ h. refl)
IsDelta-iff heartbeat = (λ h. tt, λ h. refl)
IsDelta-iff progress = (λ h. tt, λ h. refl)

pub schema_iff :
    (v : Text) → (ensure_redis_schema_version v ≡ ok tt) ↔ (v ≡ redis_stream_schema_version)
unfolding ensure_redis_schema_version
schema_iff v = ground (arith, text_eq_iff v redis_stream_schema_version)

pub positive_iff : (n : ℕ) → (ensure_redis_message_seq n ≡ ok tt) ↔ (0 < n)
unfolding ensure_redis_message_seq
positive_iff n = ground arith

-- A required field is not blank.
pub required_iff :
    (field value found : Text)
    → (required_redis_field field value ≡ ok found) ↔ ((is_blank value ≡ false) × (found ≡ value))
unfolding required_redis_field
required_iff field value found = ground arith

-- A value, if there is one, has the property.
abbrev pub WhenSome : {A : Type 0} → Option A → (A → Type 0) → Type 0
WhenSome none P = Unit
WhenSome (some a) P = P a

pub when_some_iff :
    {A : Type 0} (P : A → Type 0) (check : A → Checked Unit)
    → ((a : A) → (check a ≡ ok tt) ↔ P a)
    → (o : Option A) → (when_some o check ≡ ok tt) ↔ WhenSome o P
when_some_iff P check h none = (λ e. tt, λ e. refl)
when_some_iff P check h (some a) = h a

pub snapshot_id_iff :
    (entry : Option Text) (id : Text)
    → (ensure_redis_snapshot_id entry id ≡ ok tt) ↔ (entry ≡ some id)
unfolding ensure_redis_snapshot_id
snapshot_id_iff none id = (λ h. cc, λ h. cc)
snapshot_id_iff (some s) id =
    let same = ensure_snapshot_id_iff s id in (λ h. ap some (same.0 h), λ h. same.1 (cc))

-- A kind that needs a snapshot id has one.
abbrev pub SnapshotIsNamed : MessageKind → Option Text → Type 0
SnapshotIsNamed kind none = redis_entry_requires_snapshot_id kind ≡ false
SnapshotIsNamed kind (some s) = Unit

refuse_iff : (e : ContractError) (b : Bool) → (refuse b e ≡ ok tt) ↔ (b ≡ false)
refuse_iff e b = ground arith

pub named_iff :
    (kind : MessageKind) (o : Option Text)
    → (require_snapshot_id kind o ≡ ok tt) ↔ SnapshotIsNamed kind o
named_iff kind none = refuse_iff _ (redis_entry_requires_snapshot_id kind)
named_iff kind (some s) = (λ h. tt, λ h. refl)

same_number_iff :
    (field : Text) (mismatch : ℕ → ℕ → ContractError) (a b : Option ℕ)
    → (ensure_same_number field mismatch a b ≡ ok tt) ↔ (a ≡ b)
unfolding ensure_same_number
same_number_iff field mismatch (some a) (some b) =
    let same = refuse_number_iff (mismatch a b) a b in (λ h. ap some (same.0 h), λ h. same.1 (cc))
same_number_iff field mismatch (some a) none = (λ h. cc, λ h. cc)
same_number_iff field mismatch none (some b) = (λ h. cc, λ h. cc)
same_number_iff field mismatch none none = (λ h. refl, λ h. refl)

module _ {T : Tycho} (payload : Payload T) where
  pub block_iff :
      (n : Option ℕ)
      → (ensure_redis_payload_block_number n payload ≡ ok tt)
        ↔ (n ≡ redis_entry_block_number payload)
  unfolding ensure_redis_payload_block_number
  block_iff n = same_number_iff _ _ n (redis_entry_block_number payload)

  pub observed_iff :
      (n : Option ℕ)
      → (ensure_redis_payload_observed_timestamp_ms n payload ≡ ok tt)
        ↔ (n ≡ redis_entry_observed_timestamp_ms payload)
  unfolding ensure_redis_payload_observed_timestamp_ms
  observed_iff n = same_number_iff _ _ n (redis_entry_observed_timestamp_ms payload)

  pub version_iff :
      (v : ℕ)
      → (ensure_redis_payload_state_version v payload ≡ ok tt)
        ↔ WhenSome (announced_target_version payload) (λ t. t ≡ v)
  unfolding ensure_redis_payload_state_version
  version_iff v =
      when_some_iff (λ t. t ≡ v) _ (λ t. ground arith) (announced_target_version payload)
