-- ===== src/Contract/Tracker.antt =====
-- `BroadcasterSubscriptionTracker`: the consumer's view of one broadcaster stream. A method that
-- fails leaves the tracker as it was, since every assignment stands behind the last check.
pub mod Observe
pub mod Spec
pub mod Handlers
pub mod Refinement
pub mod Run
pub mod Session
pub mod Order
use tycho_simulation_server.Base.{ℕ, Option, none, some, Text, codes, ok, err, ◌>>=◌, ◌>>◌}
use tycho_simulation_server.Contract.External.{Tycho}
use tycho_simulation_server.Contract.Backend.{BackendSet}
use tycho_simulation_server.Contract.Boundary.{ReplayBoundary}
use tycho_simulation_server.Contract.Errors.{
  MessageKind, Checked, unexpected_snapshot_start, unexpected_snapshot_chunk,
  unexpected_snapshot_end, unexpected_recovery_message,
  redis_replay_boundary_before_snapshot_complete,
}
use tycho_simulation_server.Contract.Payload.{
  Payload, starts, chunk, ends, recovery_starts, recovers, catches_up, commits, updates, beats,
  progresses, Envelope, envelope_kind,
}
use tycho_simulation_server.Contract.Validate.{
  ensure_stream_id, ensure_snapshot_id, ensure_message_seq, next_message_seq,
}

-- SnapshotObservationState, the fields of the state `Snapshot`.
pub record Observation : Type 0 where
  pub stream_id : Text
  pub chain_id : ℕ
  pub snapshot_id : Text
  pub declared_backends : BackendSet
  pub observed_backends : BackendSet
  pub next_chunk_index : ℕ
  pub total_chunks : ℕ

-- The fields of the state `Live`.
pub record Subscription : Type 0 where
  pub stream_id : Text
  pub chain_id : ℕ
  pub snapshot_id : Text
  pub declared_backends : BackendSet

pub data SubscriptionState : Type 0 where
  awaiting_snapshot : SubscriptionState
  snapshot : Observation → SubscriptionState
  live : Subscription → SubscriptionState

unfoldable pub label : SubscriptionState → Text
label awaiting_snapshot = codes "awaiting_snapshot"
label (snapshot o) = codes "snapshot"
label (live s) = codes "live"

pub data SubscriptionEvent : Type 0 where
  snapshot_started : Text → SubscriptionEvent
  snapshot_chunk_accepted : Text → ℕ → SubscriptionEvent
  snapshot_completed : Text → SubscriptionEvent
  update_accepted heartbeat_accepted progress_accepted : SubscriptionEvent

pub record Tracker : Type 0 where
  pub state : SubscriptionState
  pub next_seq : Option ℕ

abbrev pub new_tracker : Tracker
new_tracker = record { state = awaiting_snapshot; next_seq = none }

unfoldable pub reset_for_reconnect : Tracker → Tracker
reset_for_reconnect t = record { state = awaiting_snapshot; next_seq = none }

align_in : SubscriptionState → ReplayBoundary → Checked Tracker
align_in (live s) boundary = do
  ensure_stream_id s.stream_id boundary.stream_id
  ensure_snapshot_id s.snapshot_id boundary.snapshot_id
  next ← next_message_seq boundary.exclusive_message_seq
  ok (record { state = live s; next_seq = some next })
align_in state boundary = err (redis_replay_boundary_before_snapshot_complete (label state))

unfoldable pub align_live_replay_boundary : Tracker → ReplayBoundary → Checked Tracker
unfolding align_in
align_live_replay_boundary t boundary = align_in t.state boundary

module _ {T : Tycho} where
  -- The match of `skip_live_delta` on the payload.
  unfoldable pub skip_payload : Subscription → ℕ → MessageKind → Payload T → Checked Tracker
  skip_payload s next kind (starts p) = err (unexpected_snapshot_start (label (live s)))
  skip_payload s next kind (chunk p) = err unexpected_snapshot_chunk
  skip_payload s next kind (ends p) = err unexpected_snapshot_end
  skip_payload s next kind (recovery_starts p) = err (unexpected_recovery_message kind)
  skip_payload s next kind (recovers p) = err (unexpected_recovery_message kind)
  skip_payload s next kind (catches_up p) = err (unexpected_recovery_message kind)
  skip_payload s next kind (commits p) = err (unexpected_recovery_message kind)
  skip_payload s next kind (updates p) = ok (record { state = live s; next_seq = some next })
  skip_payload s next kind (beats p) = ok (record { state = live s; next_seq = some next })
  skip_payload s next kind (progresses p) = ok (record { state = live s; next_seq = some next })

  skip_in : SubscriptionState → Option ℕ → Envelope T → Checked Tracker
  unfolding skip_payload
  skip_in (live s) expected envelope = do
    ensure_stream_id s.stream_id envelope.stream_id
    ensure_message_seq expected envelope.message_seq
    next ← next_message_seq envelope.message_seq
    skip_payload s next (envelope_kind envelope) envelope.payload
  skip_in state expected envelope =
      err (redis_replay_boundary_before_snapshot_complete (label state))

  unfoldable pub skip_live_delta : Tracker → Envelope T → Checked Tracker
  unfolding skip_in
  skip_live_delta t envelope = skip_in t.state t.next_seq envelope
