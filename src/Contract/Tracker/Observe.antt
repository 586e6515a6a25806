-- ===== src/Contract/Tracker/Observe.antt =====
-- `BroadcasterSubscriptionTracker::observe` and its three handlers, one for each state.
use tycho_simulation_server.Base.{
  ℕ, ◌+◌, not, Option, some, leb, ◌==◌, text_eq, ok, err, ◌>>=◌, ◌>>◌, refuse,
}
use tycho_simulation_server.Contract.External.{Tycho}
use tycho_simulation_server.Contract.Backend.{empty, extend, from_list}
use tycho_simulation_server.Contract.Errors.{
  MessageKind, Checked, expected_snapshot_start, unexpected_snapshot_start,
  unexpected_snapshot_chunk, unexpected_snapshot_end, unexpected_recovery_message,
  unexpected_snapshot_id, unexpected_chunk_index, extra_snapshot_chunk, snapshot_incomplete,
  update_before_snapshot_complete, heartbeat_before_snapshot_complete,
  progress_before_snapshot_complete,
}
use tycho_simulation_server.Contract.Payload.{
  SnapshotStart, SnapshotChunk, SnapshotEnd, UpdateMessage, Heartbeat, Progress, Payload, starts,
  chunk, ends, recovery_starts, recovers, catches_up, commits, updates, beats, progresses, Envelope,
  envelope_kind,
}
use tycho_simulation_server.Contract.Validate.{
  ensure_stream_id, ensure_snapshot_id, ensure_chain_id, ensure_message_seq, next_message_seq,
  validate_snapshot_start_backends, validate_snapshot_chunk_partitions,
  validate_declared_snapshot_chunk_backends, snapshot_backends,
  ensure_all_declared_backends_observed, validate_update_partitions,
  validate_declared_update_backends, validate_heartbeat_backend_heads,
  validate_declared_heartbeat_backends, validate_progress_backends,
  validate_declared_progress_backends,
}
use tycho_simulation_server.Contract.Tracker.{
  Observation, Subscription, SubscriptionState, awaiting_snapshot, snapshot, live, label,
  SubscriptionEvent, snapshot_started, snapshot_chunk_accepted, snapshot_completed, update_accepted,
  heartbeat_accepted, progress_accepted, Tracker,
}

-- What a successful `observe` returns, with the tracker that it leaves.
abbrev pub Outcome : Type 0
Outcome = SubscriptionEvent × Tracker

module _ {T : Tycho} where
  -- The state that a snapshot start opens.
  abbrev pub opened : Envelope T → SnapshotStart → Observation
  opened envelope start = record {
    stream_id = envelope.stream_id;
    chain_id = start.chain_id;
    snapshot_id = start.snapshot_id;
    declared_backends = from_list start.backends;
    observed_backends = empty;
    next_chunk_index = 0;
    total_chunks = start.total_chunks;
  }

  unfoldable pub await_payload : Envelope T → Payload T → Checked Outcome
  await_payload envelope (starts start) = do
    validate_snapshot_start_backends start.backends
    next ← next_message_seq envelope.message_seq
    ok (
      snapshot_started start.snapshot_id,
      record { state = snapshot (opened envelope start); next_seq = some next },
    )
  await_payload envelope payload = err (expected_snapshot_start (envelope_kind envelope))

  unfoldable pub observe_awaiting_snapshot : Envelope T → Checked Outcome
  unfolding await_payload
  observe_awaiting_snapshot envelope = await_payload envelope envelope.payload

  -- The state after an accepted chunk. The index does not wrap: it is below `total_chunks`.
  abbrev pub advanced : Observation → SnapshotChunk T → Observation
  advanced o c = record o {
    observed_backends = extend o.observed_backends (snapshot_backends c.partitions);
    next_chunk_index = o.next_chunk_index + 1;
  }

  unfoldable pub accept_chunk : Observation → ℕ → SnapshotChunk T → Checked Outcome
  accept_chunk o next c = do
    refuse (not (text_eq c.snapshot_id o.snapshot_id))
        (unexpected_snapshot_id o.snapshot_id c.snapshot_id)
    refuse (leb o.total_chunks o.next_chunk_index)
        (extra_snapshot_chunk o.total_chunks c.chunk_index)
    validate_snapshot_chunk_partitions T c.partitions
    validate_declared_snapshot_chunk_backends c.partitions o.declared_backends
    refuse (not (c.chunk_index == o.next_chunk_index))
        (unexpected_chunk_index o.next_chunk_index c.chunk_index)
    ok (
      snapshot_chunk_accepted c.snapshot_id c.chunk_index,
      record { state = snapshot (advanced o c); next_seq = some next },
    )

-- The fields of the state `Live` after a snapshot.
abbrev pub completed : Observation → Subscription
completed o = record {
  stream_id = o.stream_id;
  chain_id = o.chain_id;
  snapshot_id = o.snapshot_id;
  declared_backends = o.declared_backends;
}

unfoldable pub accept_end : Observation → ℕ → SnapshotEnd → Checked Outcome
accept_end o next e = do
  refuse (not (text_eq e.snapshot_id o.snapshot_id))
      (unexpected_snapshot_id o.snapshot_id e.snapshot_id)
  refuse (not (o.next_chunk_index == o.total_chunks))
      (snapshot_incomplete o.total_chunks o.next_chunk_index)
  ensure_all_declared_backends_observed o.declared_backends o.observed_backends
  ok (snapshot_completed e.snapshot_id, record { state = live (completed o); next_seq = some next })

module _ {T : Tycho} where
  unfoldable pub snapshot_payload : Observation → ℕ → MessageKind → Payload T → Checked Outcome
  unfolding accept_chunk accept_end
  snapshot_payload o next kind (starts p) = err (unexpected_snapshot_start (label (snapshot o)))
  snapshot_payload o next kind (chunk c) = accept_chunk o next c
  snapshot_payload o next kind (ends e) = accept_end o next e
  snapshot_payload o next kind (recovery_starts p) = err (unexpected_recovery_message kind)
  snapshot_payload o next kind (recovers p) = err (unexpected_recovery_message kind)
  snapshot_payload o next kind (catches_up p) = err (unexpected_recovery_message kind)
  snapshot_payload o next kind (commits p) = err (unexpected_recovery_message kind)
  snapshot_payload o next kind (updates p) = err update_before_snapshot_complete
  snapshot_payload o next kind (beats p) = err heartbeat_before_snapshot_complete
  snapshot_payload o next kind (progresses p) = err progress_before_snapshot_complete

  unfoldable pub observe_snapshot : Envelope T → Option ℕ → Observation → Checked Outcome
  unfolding snapshot_payload
  observe_snapshot envelope expected o = do
    ensure_stream_id o.stream_id envelope.stream_id
    ensure_message_seq expected envelope.message_seq
    next ← next_message_seq envelope.message_seq
    snapshot_payload o next (envelope_kind envelope) envelope.payload

  unfoldable pub accept_update : Subscription → ℕ → UpdateMessage T → Checked Outcome
  accept_update s next u = do
    validate_update_partitions T u.partitions
    validate_declared_update_backends u.partitions s.declared_backends
    ok (update_accepted, record { state = live s; next_seq = some next })

unfoldable pub accept_heartbeat : Subscription → ℕ → Heartbeat → Checked Outcome
accept_heartbeat s next h = do
  validate_heartbeat_backend_heads h.backend_heads
  validate_declared_heartbeat_backends h.backend_heads s.declared_backends
  ensure_chain_id s.chain_id h.chain_id
  ensure_snapshot_id s.snapshot_id h.snapshot_id
  ok (heartbeat_accepted, record { state = live s; next_seq = some next })

unfoldable pub accept_progress : Subscription → ℕ → Progress → Checked Outcome
accept_progress s next p = do
  validate_progress_backends p.backends
  validate_declared_progress_backends p.backends s.declared_backends
  ensure_chain_id s.chain_id p.chain_id
  ensure_snapshot_id s.snapshot_id p.snapshot_id
  ok (progress_accepted, record { state = live s; next_seq = some next })

module _ {T : Tycho} where
  unfoldable pub live_payload : Subscription → ℕ → MessageKind → Payload T → Checked Outcome
  unfolding accept_update accept_heartbeat accept_progress
  live_payload s next kind (starts p) = err (unexpected_snapshot_start (label (live s)))
  live_payload s next kind (chunk p) = err unexpected_snapshot_chunk
  live_payload s next kind (ends p) = err unexpected_snapshot_end
  live_payload s next kind (recovery_starts p) = err (unexpected_recovery_message kind)
  live_payload s next kind (recovers p) = err (unexpected_recovery_message kind)
  live_payload s next kind (catches_up p) = err (unexpected_recovery_message kind)
  live_payload s next kind (commits p) = err (unexpected_recovery_message kind)
  live_payload s next kind (updates u) = accept_update s next u
  live_payload s next kind (beats h) = accept_heartbeat s next h
  live_payload s next kind (progresses p) = accept_progress s next p

  unfoldable pub observe_live : Envelope T → Option ℕ → Subscription → Checked Outcome
  unfolding live_payload
  observe_live envelope expected s = do
    ensure_stream_id s.stream_id envelope.stream_id
    ensure_message_seq expected envelope.message_seq
    next ← next_message_seq envelope.message_seq
    live_payload s next (envelope_kind envelope) envelope.payload

  unfoldable pub observe_in : SubscriptionState → Option ℕ → Envelope T → Checked Outcome
  unfolding observe_awaiting_snapshot observe_snapshot observe_live
  observe_in awaiting_snapshot expected envelope = observe_awaiting_snapshot envelope
  observe_in (snapshot o) expected envelope = observe_snapshot envelope expected o
  observe_in (live s) expected envelope = observe_live envelope expected s

  unfoldable pub observe : Tracker → Envelope T → Checked Outcome
  unfolding observe_in
  observe t envelope = observe_in t.state t.next_seq envelope
