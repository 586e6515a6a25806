-- ===== src/Replay/Poll.antt =====
-- One poll of the stream: `redis_empty_poll_action` and `BroadcasterReplayClient::read_next`, whose
-- two Redis calls are arguments.
pub mod Outcomes
use tycho_simulation_server.Base.{
  ℕ, ◌==◌, ltb, not, ◌||◌, Option, none, some, List, [], ◌∷◌, Text, Bool, length, is_empty,
  checked_succ, Result, ok, err, ◌>>=◌, ◌>>◌, ok_or, refuse, if◌then◌else◌,
}
use tycho_simulation_server.Contract.External.{Tycho}
use tycho_simulation_server.Contract.Payload.{Envelope}
use tycho_simulation_server.Contract.Boundary.{redis_entry_id}
use tycho_simulation_server.Replay.Errors.{
  Replay, redis_gap, sequence_overflow, stream_disappeared, moved_backwards, retained_no_entries,
  retained_no_last_entry, first_entry_after_expected, last_entry_not_after,
}
use tycho_simulation_server.Replay.EntryId.{EntryIdParts, parse_redis_entry_id, parts_lt, parts_eq}
use tycho_simulation_server.Replay.Checkpoint.{
  ReplayCheckpoint, StreamMessage, ReplayBatch, build_replay_batch,
}

-- RedisStreamInfo
pub record StreamInfo : Type 0 where
  pub last_generated_entry_id : Text
  pub first_entry_id : Option Text
  pub last_entry_id : Option Text

pub data EmptyPollAction : Type 0 where
  caught_up pending : EmptyPollAction

-- What is checked once the stream has generated entries behind the checkpoint.
retained_action : ReplayCheckpoint → EntryIdParts → StreamInfo → Replay EmptyPollAction
retained_action c position info = do
  expected_seq ← ok_or (checked_succ c.last_message_seq) (redis_gap sequence_overflow)
  let expected_entry_id = redis_entry_id c.boundary.generation expected_seq
  expected ← parse_redis_entry_id expected_entry_id
  first_entry_id ←
      ok_or info.first_entry_id
        (redis_gap (retained_no_entries info.last_generated_entry_id c.entry_id))
  last_entry_id ←
      ok_or info.last_entry_id
        (redis_gap (retained_no_last_entry info.last_generated_entry_id c.entry_id))
  first ← parse_redis_entry_id first_entry_id
  refuse (parts_lt expected first)
      (redis_gap (first_entry_after_expected first_entry_id expected_entry_id))
  last ← parse_redis_entry_id last_entry_id
  refuse (not (parts_lt position last))
      (redis_gap (last_entry_not_after info.last_generated_entry_id c.entry_id last_entry_id))
  ok pending

unfoldable pub redis_empty_poll_action :
    ReplayCheckpoint → Option StreamInfo → Replay EmptyPollAction
unfolding retained_action
redis_empty_poll_action c none =
    if c.last_message_seq == 0
    then ok caught_up
    else err (redis_gap (stream_disappeared c.entry_id))
redis_empty_poll_action c (some info) = do
  position ← parse_redis_entry_id c.entry_id
  last_generated ← parse_redis_entry_id info.last_generated_entry_id
  refuse (parts_lt last_generated position)
      (redis_gap (moved_backwards c.entry_id info.last_generated_entry_id))
  if parts_eq last_generated position then ok caught_up else retained_action c position info

pub data ReplayPoll (T : Tycho) : Type 0 where
  batch : ReplayBatch T → ReplayPoll T
  caught_up_at : ReplayCheckpoint → ReplayPoll T
  still_pending : ReplayPoll T

module _ {T : Tycho} (decode : Text → Result Text (Envelope T)) where
  poll_of : ReplayCheckpoint → EmptyPollAction → ReplayPoll T
  poll_of c caught_up = caught_up_at c
  poll_of c pending = still_pending

  poll_without_messages : ReplayCheckpoint → Replay (Option StreamInfo) → Replay (ReplayPoll T)
  unfolding poll_of
  poll_without_messages c info = do
    stream_info ← info
    action ← redis_empty_poll_action c stream_info
    ok (poll_of c action)

  -- `messages` is the reply of the blocking read after the checkpoint's entry, and `info` that of
  -- the inspection, which is asked for only when no message came.
  unfoldable pub read_next :
      ReplayCheckpoint
      → ℕ
      → Replay (List StreamMessage)
      → Replay (Option StreamInfo)
      → Replay (ReplayPoll T)
  unfolding poll_without_messages
  read_next c read_count messages info = do
    read ← messages
    if is_empty read
        then poll_without_messages c info
        else build_replay_batch decode c read (ltb (length read) read_count) >>= λ b. ok (batch b)
