-- ===== src/Replay/Checkpoint.antt =====
-- `ReplayCheckpoint`, the position of a consumer in one generation of the stream, and
-- `build_replay_batch`, which checks every entry of a read against it.
pub mod Continuity
pub mod Batches
use tycho_simulation_server.Base.{
  ℕ, ◌+◌, ◌==◌, leb, not, Option, none, some, List, [], ◌∷◌, map, Text, text_eq, checked_succ,
  get_last?, Bool, Result, ok, err, ◌>>=◌, ◌>>◌, ok_or, refuse, map_err,
}
use tycho_simulation_server.Contract.External.{Tycho}
use tycho_simulation_server.Contract.Payload.{Envelope}
use tycho_simulation_server.Contract.Boundary.{
  ReplayBoundary, StreamEntry, redis_entry_id, exclusive_entry_id,
}
use tycho_simulation_server.Replay.Errors.{
  Replay, redis_gap, redis_decode, sequence_overflow, wrong_stream_id, wrong_chain_id,
  stale_message_seq, wrong_message_seq, wrong_entry_id, wrong_snapshot_id,
}

pub record ReplayCheckpoint : Type 0 where
  pub boundary : ReplayBoundary
  pub entry_id : Text
  pub last_message_seq : ℕ
  pub expected_chain_id : ℕ

unfoldable pub new_checkpoint : ReplayBoundary → ℕ → ReplayCheckpoint
unfolding exclusive_entry_id
new_checkpoint boundary expected_chain_id = record {
  boundary = boundary;
  entry_id = exclusive_entry_id boundary;
  last_message_seq = boundary.exclusive_message_seq;
  expected_chain_id = expected_chain_id;
}

-- RedisStreamMessage
pub record StreamMessage : Type 0 where
  pub entry_id : Text
  pub entry : StreamEntry

-- A heartbeat or progress entry names its snapshot; the other deltas do not.
ensure_snapshot : Text → Option Text → Replay Unit
ensure_snapshot expected none = ok tt
ensure_snapshot expected (some found) =
    refuse (not (text_eq found expected)) (redis_gap (wrong_snapshot_id expected found))

unfoldable pub ensure_next_message : ReplayCheckpoint → StreamMessage → Replay Unit
unfolding ensure_snapshot
ensure_next_message c m = do
  refuse (not (text_eq m.entry.stream_id c.boundary.stream_id))
      (redis_gap (wrong_stream_id c.boundary.stream_id m.entry.stream_id))
  refuse (not (m.entry.chain_id == c.expected_chain_id))
      (redis_gap (wrong_chain_id c.expected_chain_id m.entry.chain_id))
  refuse (leb m.entry.message_seq c.last_message_seq)
      (redis_gap (stale_message_seq m.entry.message_seq c.entry_id m.entry_id))
  expected_seq ← ok_or (checked_succ c.last_message_seq) (redis_gap sequence_overflow)
  refuse (not (m.entry.message_seq == expected_seq))
      (redis_gap (wrong_message_seq expected_seq c.entry_id m.entry.message_seq m.entry_id))
  let expected_entry_id = redis_entry_id c.boundary.generation expected_seq
  refuse (not (text_eq m.entry_id expected_entry_id))
      (redis_gap (wrong_entry_id expected_entry_id m.entry_id))
  ensure_snapshot c.boundary.snapshot_id m.entry.snapshot_id

unfoldable pub after_applied : ReplayCheckpoint → StreamMessage → ReplayCheckpoint
after_applied c m = record c { entry_id = m.entry_id; last_message_seq = m.entry.message_seq }

pub record ReplayMessage (T : Tycho) : Type 0 where
  pub entry_id : Text
  pub entry : StreamEntry
  pub envelope : Envelope T
  pub checkpoint_after : ReplayCheckpoint

pub record ReplayBatch (T : Tycho) : Type 0 where
  pub items : List (ReplayMessage T)
  pub caught_up_after_batch : Bool

-- ReplayBatch::checkpoint_after
unfoldable pub checkpoint_after : {T : Tycho} → ReplayBatch T → Option ReplayCheckpoint
checkpoint_after b = get_last? (map (λ m. m.checkpoint_after) b.items)

-- `decode` is `serde_json::from_str` on an envelope, with its error message.
module _ {T : Tycho} (decode : Text → Result Text (Envelope T)) where
  -- The loop of `build_replay_batch`.
  replay_items : ReplayCheckpoint → List StreamMessage → Replay (List (ReplayMessage T))
  unfolding ensure_next_message after_applied
  replay_items c [] = ok []
  replay_items c (m ∷ ms) = do
    envelope ← map_err (redis_decode m.entry_id) (decode m.entry.payload_json)
    ensure_next_message c m
    rest ← replay_items (after_applied c m) ms
    ok (
        record {
          entry_id = m.entry_id;
          entry = m.entry;
          envelope = envelope;
          checkpoint_after = after_applied c m;
        }
        ∷ rest)

  unfoldable pub build_replay_batch :
      ReplayCheckpoint → List StreamMessage → Bool → Replay (ReplayBatch T)
  unfolding replay_items
  build_replay_batch c messages caught_up = do
    items ← replay_items c messages
    ok (record { items = items; caught_up_after_batch = caught_up })
