-- ===== src/Contract/Entry/Publish.antt =====
-- Entries made from envelopes, and their validation.
use tycho_simulation_server.Base.{
  ℕ, ◌<◌, ◌≡◌, refl, Bool, true, false, Option, some, none, List, Text, codes, ok,
}
use tycho_simulation_server.Contract.External.{Tycho}
use tycho_simulation_server.Contract.Backend.{Backend, from_list}
use tycho_simulation_server.Contract.Payload.{
  Payload, starts, chunk, ends, recovery_starts, recovers, catches_up, commits, updates, beats,
  progresses, payload_kind, Envelope, envelope_kind,
}
use tycho_simulation_server.Contract.Validate.Backends.{Distinct}
use tycho_simulation_server.Contract.Boundary.{StreamEntry}
use tycho_simulation_server.Contract.Scope.{members}
use tycho_simulation_server.Contract.Scope.RoundTrip.{
  set, parse_redis_backend_scope-redis_backend_scope,
}
use tycho_simulation_server.Contract.Scope.Same.{
  HasScope, scope_of, scope_iff, SameScope, members_back, from_list-HasMember,
}
use tycho_simulation_server.Contract.Derived.{
  redis_stream_schema_version, redis_entry_requires_snapshot_id, redis_entry_block_number,
  redis_entry_observed_timestamp_ms, redis_payload_snapshot_id, redis_payload_chain_id,
  redis_payload_backend_scope, announced_target_version,
}
use tycho_simulation_server.Contract.Derived.Checks.{
  IsDelta, WhenSome, SnapshotIsNamed, IsDelta-iff, required_iff,
}
use tycho_simulation_server.Contract.Entry.{Json, from_envelope_at, validate}
use tycho_simulation_server.Contract.Entry.Validity.{HasText, EntryIsValid, validate-EntryIsValid}

members-Distinct : (n v r : Bool) → Distinct (members (set n v r))
members-Distinct false false false = tt
members-Distinct false false true = (tt, tt)
members-Distinct false true false = (tt, tt)
members-Distinct false true true = ((λ e. cc, tt), (tt, tt))
members-Distinct true false false = (tt, tt)
members-Distinct true false true = ((λ e. cc, tt), (tt, tt))
members-Distinct true true false = ((λ e. cc, tt), (tt, tt))
members-Distinct true true true = ((λ e. cc, (λ e. cc, tt)), ((λ e. cc, tt), (tt, tt)))

-- The backends that a consumer reads from a scope are those it was written from.
read_scope : (bs : List Backend) → HasScope bs → SameScope (members (from_list bs)) bs
read_scope bs h =
    let u = from_list bs in
    record {
      entry_has = record {
        some_backend = from_list-HasMember bs h.some_backend;
        no_repeat = members-Distinct u.has_native u.has_vm u.has_rfq;
      };
      payload_has = h;
      same_set = members_back u.has_native u.has_vm u.has_rfq;
    }

same_as_named : {A : Type 0} (o : Option A) → WhenSome o (λ id. o ≡ some id)
same_as_named none = tt
same_as_named (some a) = refl

module _ {T : Tycho} where
  -- A payload names its snapshot where its kind requires it.
  SnapshotIsNamed-payload_kind :
      (p : Payload T) → SnapshotIsNamed (payload_kind p) (redis_payload_snapshot_id p)
  unfolding payload_kind redis_payload_snapshot_id redis_entry_requires_snapshot_id
  SnapshotIsNamed-payload_kind (starts p) = refl
  SnapshotIsNamed-payload_kind (chunk p) = refl
  SnapshotIsNamed-payload_kind (ends p) = refl
  SnapshotIsNamed-payload_kind (recovery_starts p) = refl
  SnapshotIsNamed-payload_kind (recovers p) = refl
  SnapshotIsNamed-payload_kind (catches_up p) = refl
  SnapshotIsNamed-payload_kind (commits p) = refl
  SnapshotIsNamed-payload_kind (updates p) = refl
  SnapshotIsNamed-payload_kind (beats p) = tt
  SnapshotIsNamed-payload_kind (progresses p) = tt

  -- What `from_envelope_at` relies on: a delta of a stream, numbered, whose payload is valid and
  -- names backends, and which is of the chain and the state version that it is published with.
  pub record Publishable (chain_id : ℕ) (envelope : Envelope T) (state_version : ℕ) : Type 0 where
    pub is_delta : IsDelta (envelope_kind envelope)
    pub is_numbered : 0 < envelope.message_seq
    pub has_stream : HasText envelope.stream_id
    pub backends : List Backend
    pub has_backends : redis_payload_backend_scope envelope.payload ≡ ok (some backends)
    pub has_scope : HasScope backends
    pub snapshot_text : WhenSome (redis_payload_snapshot_id envelope.payload) HasText
    pub same_chain : WhenSome (redis_payload_chain_id envelope.payload) (λ id. chain_id ≡ id)
    pub same_version : WhenSome (announced_target_version envelope.payload) (λ t. t ≡ state_version)

  -- The entry of an envelope with its fields.
  abbrev pub entry_of : ℕ → Envelope T → ℕ → ℕ → List Backend → Text → StreamEntry
  entry_of chain_id envelope at version backends payload_json = record {
    schema_version = redis_stream_schema_version;
    chain_id = chain_id;
    stream_id = envelope.stream_id;
    message_seq = envelope.message_seq;
    state_version = version;
    kind = envelope_kind envelope;
    snapshot_id = redis_payload_snapshot_id envelope.payload;
    backend_scope = scope_of backends;
    block_number = redis_entry_block_number envelope.payload;
    observed_timestamp_ms = redis_entry_observed_timestamp_ms envelope.payload;
    published_at_ms = at;
    payload_json = payload_json;
  }

  module _ (json : Json T) (chain_id : ℕ) (envelope : Envelope T) (at version : ℕ) (s : Text) where
    entry_is_valid :
        (p : Publishable chain_id envelope version)
        → HasText s
        → json.from_str s ≡ ok envelope
        → EntryIsValid json (entry_of chain_id envelope at version p.backends s)
    unfolding envelope_kind
    entry_is_valid p text reads = record {
      of_schema = refl;
      has_stream = p.has_stream;
      has_payload = text;
      is_numbered = p.is_numbered;
      is_delta = p.is_delta;
      backends = members (from_list p.backends);
      scope_reads =
          parse_redis_backend_scope-redis_backend_scope p.backends (scope_of p.backends)
            ((scope_iff p.backends _).1 (p.has_scope, refl));
      snapshot_text = p.snapshot_text;
      snapshot_named = SnapshotIsNamed-payload_kind envelope.payload;
      envelope = envelope;
      decodes = reads;
      agrees = record {
        same_stream = refl;
        same_seq = refl;
        same_kind = refl;
        same_snapshot = same_as_named (redis_payload_snapshot_id envelope.payload);
        same_chain = p.same_chain;
        scope = some p.backends;
        has_scope = p.has_backends;
        same_scope = read_scope p.backends p.has_scope;
        same_block = refl;
        same_observed = refl;
        same_version = p.same_version;
      };
    }

    -- Where serde_json writes the envelope to a text that is not blank and reads it back, every
    -- publishable envelope gets an entry, which names what the envelope says, and which `validate`
    -- accepts.
    pub from_envelope_at-validate :
        (p : Publishable chain_id envelope version)
        → json.to_string envelope ≡ ok s
        → HasText s
        → json.from_str s ≡ ok envelope
        → (from_envelope_at json chain_id envelope at version
            ≡ ok (entry_of chain_id envelope at version p.backends s))
          × (validate json (entry_of chain_id envelope at version p.backends s) ≡ ok tt)
    unfolding from_envelope_at
    from_envelope_at-validate p writes text reads =
        let entry = entry_of chain_id envelope at version p.backends s in
        let valid = (validate-EntryIsValid json entry).1 (entry_is_valid p text reads) in
        let scope = (scope_iff p.backends _).1 (p.has_scope, refl) in
        let stream =
          (required_iff (codes "stream_id") envelope.stream_id _).1 (p.has_stream, refl) in
        (
          rw ((IsDelta-iff (envelope_kind envelope)).1 p.is_delta)
              (rw p.has_backends (rw writes (rw stream (rw scope (rw valid refl))))),
          valid,
        )
