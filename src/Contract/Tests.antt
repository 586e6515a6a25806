-- ===== src/Contract/Tests.antt =====
-- Concrete streams for the contract, and its theorems at them.
mod Entries
use tycho_simulation_server.Base.{
  ℕ, ◌≡◌, refl, ◌↔◌, true, false, Option, some, none, [], ◌∷◌, All, Text, codes, text_eq, ok, err,
  ◌==◌, ==_iff, arith,
}
use tycho_simulation_server.Contract.External.{Tycho}
use tycho_simulation_server.Contract.Backend.{native, vm, rfq, from_list, IsSubset}
use tycho_simulation_server.Contract.Errors.{unexpected_message_seq}
use tycho_simulation_server.Contract.Payload.{
  Payload, RecoveryManifest, RecoveryCommit, ProtocolMessage, SnapshotStart, SnapshotChunk, starts,
  chunk, ends, beats, Envelope, SnapshotPartition, UpdatePartition,
}
use tycho_simulation_server.Contract.Boundary.{ReplayBoundary}
use tycho_simulation_server.Contract.Validate.{
  ensure_stream_id, ensure_snapshot_id, ensure_chain_id, ensure_message_seq, next_message_seq,
  validate_unique_backend_entries, validate_declared_backend_entries,
  ensure_all_declared_backends_observed, validate_snapshot_partition_contents,
  validate_update_partitions, validate_snapshot_start_backends, validate_snapshot_chunk_partitions,
  validate_declared_snapshot_chunk_backends, validate_heartbeat_backend_heads,
  validate_declared_heartbeat_backends,
}
use tycho_simulation_server.Contract.Validate.Backends.{
  Distinct, validate_unique-Distinct, ensure_all_observed-IsSubset,
}
use tycho_simulation_server.Contract.Validate.Contents.{
  SnapshotContents, SnapshotContents-iff, UpdateIsValid, validate_update_iff,
}
use tycho_simulation_server.Contract.Tracker.{
  Observation, Subscription, snapshot, live, heartbeat_accepted, snapshot_chunk_accepted, Tracker,
  new_tracker, align_live_replay_boundary, skip_live_delta,
}
use tycho_simulation_server.Contract.Tracker.Observe.{observe, opened, advanced}
use tycho_simulation_server.Contract.Tracker.Spec.{Accepts}
use tycho_simulation_server.Contract.Tracker.Refinement.{observe-Accepts}
use tycho_simulation_server.Contract.Tracker.Run.{observe_all, ObservationIsValid, observe-IsValid}
use tycho_simulation_server.Contract.Tracker.Session.{SessionOf, observe_all-SessionOf}
use tycho_simulation_server.Contract.Tracker.Order.{
  observe_out_of_order, skip_live_delta-observe, AlignedTo, align_live_replay_boundary-AlignedTo,
}
use tycho_simulation_server.Contract.Recovery.{validate_recovery_manifest}
use tycho_simulation_server.Contract.Recovery.Validity.{
  ManifestIsValid, validate_recovery_manifest-ManifestIsValid, CommitIsValid,
  validate_recovery_commit-CommitIsValid,
}
use tycho_simulation_server.Contract.Recovery.{validate_recovery_commit}
use tycho_simulation_server.Contract.Block.{complete_broadcaster_partition_block}
use tycho_simulation_server.Contract.Block.Complete.{SeenAt, complete_partition_block-SeenAt}

-- Numbers for bytes, a pair of names for a component, and headers of a hash and a number.
abbrev pub toy : Tycho
toy = record {
  Bytes = ℕ;
  bytes_eq = λ a b. a == b;
  bytes_eq_iff = ==_iff;
  Component = Text × Text;
  protocol_system = λ c. c.0;
  protocol_type_name = λ c. c.1;
  Sim = Unit;
  Header = ℕ × ℕ;
  header_hash = λ h. h.0;
  header_number = λ h. h.1;
  header_partial_block_index = λ h. none;
  SynchronizerState = Option (ℕ × ℕ);
  ready_header = λ s. s;
  StateSyncMessage = ℕ × ℕ;
  message_header = λ m. m;
}

abbrev pub send : ℕ → Payload toy → Envelope toy
send seq p = record { stream_id = codes "stream-1"; message_seq = seq; payload = p }

abbrev pool_partition : SnapshotPartition toy
pool_partition = record {
  backend = native;
  block_number = 7;
  messages = record { protocol = codes "uniswap_v2"; sync_state = none; message = (1, 7) } ∷ [];
  states = [];
  sync_statuses = [];
}

abbrev announced : SnapshotStart
announced = record {
  snapshot_id = codes "snap-1";
  chain_id = 1;
  backends = native ∷ [];
  total_chunks = 1;
}

abbrev begin : Envelope toy
begin = send 5 (starts announced)

abbrev pool_chunk : SnapshotChunk toy
pool_chunk = record {
  snapshot_id = codes "snap-1";
  chunk_index = 0;
  partitions = pool_partition ∷ [];
}

abbrev only_chunk : Envelope toy
only_chunk = send 6 (chunk pool_chunk)

abbrev finish : Envelope toy
finish = send 7 (ends (record { snapshot_id = codes "snap-1" }))

abbrev pub heartbeat_8 : Envelope toy
heartbeat_8 = send 8 (
    beats (record {
      chain_id = 1;
      snapshot_id = codes "snap-1";
      backend_heads = record { backend = native; block_number = 7 } ∷ [];
    }))

abbrev subscribed : Subscription
subscribed = record {
  stream_id = codes "stream-1";
  chain_id = 1;
  snapshot_id = codes "snap-1";
  declared_backends = record { has_native = true; has_vm = false; has_rfq = false };
}

abbrev live_at : ℕ → Tracker
live_at seq = record { state = live subscribed; next_seq = some seq }

-- What a run of the tracker computes with.
stepping : Unit {0}
unfolding observe_all observe text_eq from_list validate_snapshot_start_backends next_message_seq
    ensure_stream_id ensure_message_seq validate_snapshot_chunk_partitions
    validate_snapshot_partition_contents validate_declared_snapshot_chunk_backends
    validate_declared_backend_entries ensure_all_declared_backends_observed
    validate_heartbeat_backend_heads validate_declared_heartbeat_backends ensure_chain_id
    ensure_snapshot_id
stepping = tt

session : observe_all new_tracker (begin ∷ only_chunk ∷ finish ∷ heartbeat_8 ∷ []) ≡ ok (live_at 9)
unfolding stepping
session = refl

observe_all-SessionOf_example : SessionOf begin (only_chunk ∷ finish ∷ heartbeat_8 ∷ []) subscribed
observe_all-SessionOf_example =
    observe_all-SessionOf begin (only_chunk ∷ finish ∷ heartbeat_8 ∷ []) subscribed (live_at 9) refl
      session

beat : observe (live_at 8) heartbeat_8 ≡ ok (heartbeat_accepted, live_at 9)
unfolding stepping
beat = refl

observe-Accepts_example :
    (observe (live_at 8) heartbeat_8 ≡ ok (heartbeat_accepted, live_at 9))
    ↔ Accepts (live_at 8) heartbeat_8 (heartbeat_accepted, live_at 9)
observe-Accepts_example = observe-Accepts (live_at 8) heartbeat_8 (heartbeat_accepted, live_at 9)

abbrev observing : Observation
observing = opened begin announced

abbrev observed : Observation
observed = advanced observing pool_chunk

chunk_taken :
    observe (record { state = snapshot observing; next_seq = some 6 }) only_chunk
    ≡ ok (
      snapshot_chunk_accepted (codes "snap-1") 0,
      record { state = snapshot observed; next_seq = some 7 },
    )
unfolding stepping
chunk_taken = refl

observe-IsValid_example : ObservationIsValid observed
unfolding from_list
observe-IsValid_example =
    observe-IsValid (record { state = snapshot observing; next_seq = some 6 }) only_chunk
      (
        snapshot_chunk_accepted (codes "snap-1") 0,
        record { state = snapshot observed; next_seq = some 7 },
      )
      (omega arith, elim [ native ↦ λ e. cc | vm ↦ λ e. cc | rfq ↦ λ e. cc ]) chunk_taken

observe_out_of_order_example : observe (live_at 6) heartbeat_8 ≡ err (unexpected_message_seq 6 8)
observe_out_of_order_example =
    observe_out_of_order (live_at 6) 6 heartbeat_8 refl refl (omega arith)

skip_live_delta-observe_example : skip_live_delta (live_at 8) heartbeat_8 ≡ ok (live_at 9)
skip_live_delta-observe_example =
    skip_live_delta-observe (live_at 8) subscribed heartbeat_8 (heartbeat_accepted, live_at 9) refl
      beat

abbrev pub boundary_20 : ReplayBoundary
boundary_20 = record {
  stream_key = codes "deltas";
  stream_id = codes "stream-1";
  snapshot_id = codes "snap-1";
  generation = 3;
  exclusive_message_seq = 20;
  state_version = 1;
}

align_live_replay_boundary-AlignedTo_example :
    (align_live_replay_boundary (live_at 8) boundary_20 ≡ ok (live_at 21))
    ↔ AlignedTo (live_at 8) boundary_20 (live_at 21)
align_live_replay_boundary-AlignedTo_example =
    align_live_replay_boundary-AlignedTo (live_at 8) boundary_20 (live_at 21)

abbrev pool_update : UpdatePartition toy
pool_update = record {
  backend = native;
  block_number = 8;
  messages = record { protocol = codes "uniswap_v2"; sync_state = none; message = (1, 8) } ∷ [];
  new_pairs = [];
  updated_states = [];
  removed_pairs = [];
  sync_statuses = [];
}

validate_update_iff_example :
    (validate_update_partitions toy (pool_update ∷ []) ≡ ok tt)
    ↔ UpdateIsValid toy (pool_update ∷ [])
validate_update_iff_example = validate_update_iff toy (pool_update ∷ [])

abbrev rebuilt : RecoveryManifest
rebuilt = record {
  recovery_id = codes "recovery-1";
  target_state_version = 2;
  backends = native ∷ vm ∷ [];
  chunk_count = 1;
  replacement_encoded_bytes = 10;
  chunk_encoded_bytes = 10 ∷ [];
  chunk_digests = codes "d1" ∷ [];
  replacement_digest = codes "d";
  buffer_a_count = 0;
  commit_watermark = 4;
}

validate_recovery_manifest-ManifestIsValid_example :
    (validate_recovery_manifest rebuilt ≡ ok tt) ↔ ManifestIsValid rebuilt
validate_recovery_manifest-ManifestIsValid_example =
    validate_recovery_manifest-ManifestIsValid rebuilt

abbrev closing : RecoveryCommit
closing = record {
  recovery_id = codes "recovery-1";
  target_state_version = 2;
  backends = native ∷ vm ∷ [];
  replacement_digest = codes "d";
  buffer_a_count = 0;
  commit_watermark = 4;
}

abbrev synced_message : ProtocolMessage toy
synced_message = record {
  protocol = codes "uniswap_v2";
  sync_state = some (1, 8);
  message = (1, 8);
}

complete_partition_block-SeenAt_example :
    (complete_broadcaster_partition_block toy 8 (synced_message ∷ []) [] ≡ some 8)
    ↔ (◌≡◌ {A = ℕ} 8 8 × ((h : ℕ) × SeenAt toy 8 (synced_message ∷ []) [] h))
complete_partition_block-SeenAt_example =
    complete_partition_block-SeenAt toy 8 (synced_message ∷ []) [] 8
