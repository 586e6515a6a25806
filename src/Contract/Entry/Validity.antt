-- ===== src/Contract/Entry/Validity.antt =====
-- What a valid entry says of its payload.
use tycho_simulation_server.Base.{
  arith, ◌<◌, ◌≡◌, ◌↔◌, false, Option, some, List, Text, codes, is_blank, ok, ◌>>=◌, before,
  >>=_iff, >>=_exists, map_err, Result, err,
}
use tycho_simulation_server.Contract.External.{Tycho}
use tycho_simulation_server.Contract.Backend.{Backend}
use tycho_simulation_server.Contract.Payload.{Envelope, envelope_kind}
use tycho_simulation_server.Contract.Validate.Identity.{
  ensure_stream_id_iff, ensure_chain_id_iff, ensure_message_seq_iff,
}
use tycho_simulation_server.Contract.Boundary.{StreamEntry, required_redis_field}
use tycho_simulation_server.Contract.Scope.{parse_redis_backend_scope}
use tycho_simulation_server.Contract.Scope.Same.{SameScope, ensure_redis_backend_scope-SameScope}
use tycho_simulation_server.Contract.Derived.{
  redis_stream_schema_version, redis_entry_block_number, redis_entry_observed_timestamp_ms,
  redis_payload_snapshot_id, redis_payload_chain_id, redis_payload_backend_scope,
  announced_target_version,
}
use tycho_simulation_server.Contract.Derived.Checks.{
  IsDelta, WhenSome, SnapshotIsNamed, kind_iff, IsDelta-iff, schema_iff, positive_iff, required_iff,
  when_some_iff, snapshot_id_iff, named_iff, block_iff, observed_iff, version_iff,
}
use tycho_simulation_server.Contract.Entry.{
  Json, parse_redis_payload_json, validate_decoded, validate_payload, validate,
}

abbrev pub HasText : Text → Type 0
HasText s = is_blank s ≡ false

module _ {T : Tycho} where
  -- The entry says of the envelope what the envelope says itself.
  pub record Agrees (e : StreamEntry) (backends : List Backend) (envelope : Envelope T)
      : Type 0 where
    pub same_stream : e.stream_id ≡ envelope.stream_id
    pub same_seq : some e.message_seq ≡ some envelope.message_seq
    pub same_kind : envelope_kind envelope ≡ e.kind
    pub same_snapshot :
        WhenSome (redis_payload_snapshot_id envelope.payload) (λ id. e.snapshot_id ≡ some id)
    pub same_chain : WhenSome (redis_payload_chain_id envelope.payload) (λ id. e.chain_id ≡ id)
    pub scope : Option (List Backend)
    pub has_scope : redis_payload_backend_scope envelope.payload ≡ ok scope
    pub same_scope : WhenSome scope (SameScope backends)
    pub same_block : e.block_number ≡ redis_entry_block_number envelope.payload
    pub same_observed : e.observed_timestamp_ms ≡ redis_entry_observed_timestamp_ms envelope.payload
    pub same_version :
        WhenSome (announced_target_version envelope.payload) (λ t. t ≡ e.state_version)

  module _ (json : Json T) where
    decoded_iff :
        (e : StreamEntry) (backends : List Backend) (envelope : Envelope T)
        → (validate_decoded json e backends envelope ≡ ok tt) ↔ Agrees e backends envelope
    unfolding validate_decoded
    decoded_iff e backends envelope =
        let p = envelope.payload in
        let numbers =
          before (block_iff p e.block_number)
            (before (observed_iff p e.observed_timestamp_ms) (version_iff p e.state_version)) in
        let scoped = >>=_exists (redis_payload_backend_scope p) _ tt (λ scope.
          before
            (when_some_iff (SameScope backends) _ (ensure_redis_backend_scope-SameScope backends)
              scope)
            numbers) in
        let ids =
          before
            (when_some_iff (λ id. e.snapshot_id ≡ some id) _ (snapshot_id_iff e.snapshot_id)
              (redis_payload_snapshot_id p))
            (before
              (when_some_iff (λ id. e.chain_id ≡ id) _ (ensure_chain_id_iff e.chain_id)
                (redis_payload_chain_id p))
              scoped) in
        let checks = before (ensure_stream_id_iff e.stream_id envelope.stream_id) (
          before (ensure_message_seq_iff (some e.message_seq) envelope.message_seq)
            (before (kind_iff _ (envelope_kind envelope) e.kind) ids)) in
        (
          λ h.
              let f = checks.0 h in
              let g = f.1.1.1.1.1 in
              record {
                same_stream = f.0;
                same_seq = f.1.0;
                same_kind = f.1.1.0;
                same_snapshot = f.1.1.1.0;
                same_chain = f.1.1.1.1.0;
                scope = g.0;
                has_scope = g.1;
                same_scope = g.2.0;
                same_block = g.2.1.0;
                same_observed = g.2.1.1.0;
                same_version = g.2.1.1.1;
              },
          λ a. checks.1 (
            a.same_stream,
            (
              a.same_seq,
              (
                a.same_kind,
                (
                  a.same_snapshot,
                  (
                    a.same_chain,
                    (
                      a.scope,
                      a.has_scope,
                      (a.same_scope, (a.same_block, (a.same_observed, a.same_version))),
                    ),
                  ),
                ),
              ),
            ),
          ),
        )

map_err_iff :
    {E F A : Type 0} (f : E → F) (r : Result E A) (a : A) → (map_err f r ≡ ok a) ↔ (r ≡ ok a)
map_err_iff f (ok x) a = (λ h. cc, λ h. cc)
map_err_iff f (err e) a = (λ h. cc, λ h. cc)

optional_text_iff :
    (s : Text) → ((required_redis_field (codes "snapshot_id") s >>= λ _. ok tt) ≡ ok tt) ↔ HasText s
unfolding required_redis_field
optional_text_iff s = ground arith

module _ {T : Tycho} (json : Json T) where
  -- The entry is a numbered delta of the schema, with the fields that it must have, and its payload
  -- decodes to an envelope with which it agrees.
  pub record EntryIsValid (e : StreamEntry) : Type 0 where
    pub of_schema : e.schema_version ≡ redis_stream_schema_version
    pub has_stream : HasText e.stream_id
    pub has_payload : HasText e.payload_json
    pub is_numbered : 0 < e.message_seq
    pub is_delta : IsDelta e.kind
    pub backends : List Backend
    pub scope_reads : parse_redis_backend_scope e.backend_scope ≡ ok backends
    pub snapshot_text : WhenSome e.snapshot_id HasText
    pub snapshot_named : SnapshotIsNamed e.kind e.snapshot_id
    pub envelope : Envelope T
    pub decodes : json.from_str e.payload_json ≡ ok envelope
    pub agrees : Agrees e backends envelope

  payload_iff :
      (e : StreamEntry) (backends : List Backend)
      → (validate_payload json e backends ≡ ok tt) ↔ (
          (envelope : Envelope T) × (parse_redis_payload_json json e.payload_json ≡ ok envelope)
          × Agrees e backends envelope)
  unfolding validate_payload
  payload_iff e backends = >>=_exists _ _ tt (decoded_iff json e backends)

  parsed_iff :
      (s : Text) (envelope : Envelope T)
      → (parse_redis_payload_json json s ≡ ok envelope) ↔ (json.from_str s ≡ ok envelope)
  unfolding parse_redis_payload_json
  parsed_iff s envelope = map_err_iff _ (json.from_str s) envelope

  -- An entry passes exactly when it is a numbered delta of the schema with the fields that it must
  -- have, and its payload decodes to an envelope of the same stream, number and kind, and of the
  -- snapshot, chain, backends, block, timestamp and target version that the entry names.
  pub validate-EntryIsValid : (e : StreamEntry) → (validate json e ≡ ok tt) ↔ EntryIsValid e
  unfolding validate
  validate-EntryIsValid e =
      let tail = >>=_exists (parse_redis_backend_scope e.backend_scope) _ tt (λ backends.
        before (when_some_iff HasText _ optional_text_iff e.snapshot_id)
          (before (named_iff e.kind e.snapshot_id) (payload_iff e backends))) in
      let numbered = before (positive_iff e.message_seq) (before (IsDelta-iff e.kind) tail) in
      let texts =
        >>=_iff (required_redis_field (codes "stream_id") e.stream_id) _ e.stream_id tt
          (required_iff _ e.stream_id)
          (>>=_iff (required_redis_field (codes "payload_json") e.payload_json) _ e.payload_json tt
            (required_iff _ e.payload_json) numbered) in
      let checks = before (schema_iff e.schema_version) texts in
      (
        λ h.
            let f = checks.0 h in
            let g = f.1.1.1.1.1 in
            let p = g.2.1.1 in
            record {
              of_schema = f.0;
              has_stream = f.1.0;
              has_payload = f.1.1.0;
              is_numbered = f.1.1.1.0;
              is_delta = f.1.1.1.1.0;
              backends = g.0;
              scope_reads = g.1;
              snapshot_text = g.2.0;
              snapshot_named = g.2.1.0;
              envelope = p.0;
              decodes = (parsed_iff e.payload_json p.0).0 p.1;
              agrees = p.2;
            },
        λ v. checks.1 (
          v.of_schema,
          (
            v.has_stream,
            (
              v.has_payload,
              (
                v.is_numbered,
                (
                  v.is_delta,
                  (
                    v.backends,
                    v.scope_reads,
                    (
                      v.snapshot_text,
                      (
                        v.snapshot_named,
                        (v.envelope, (parsed_iff e.payload_json v.envelope).1 v.decodes, v.agrees),
                      ),
                    ),
                  ),
                ),
              ),
            ),
          ),
        ),
      )
