-- ===== src/Replay/Errors.antt =====
-- `BroadcasterReplayClientError`, for the failures of reading and replaying the stream. The message
-- of a gap is the data that its text is formatted from.
use tycho_simulation_server.Base.{ℕ, Text, Result}

pub data Gap : Type 0 where
  invalid_entry_id : Text → Gap
  stream_disappeared : Text → Gap
  moved_backwards : Text → Text → Gap
  sequence_overflow : Gap
  retained_no_entries retained_no_last_entry : Text → Text → Gap
  first_entry_after_expected : Text → Text → Gap
  last_entry_not_after : Text → Text → Text → Gap
  wrong_stream_id : Text → Text → Gap
  wrong_chain_id : ℕ → ℕ → Gap
  stale_message_seq : ℕ → Text → Text → Gap
  wrong_message_seq : ℕ → Text → ℕ → Text → Gap
  wrong_entry_id : Text → Text → Gap
  wrong_snapshot_id : Text → Text → Gap

pub data ReplayError : Type 0 where
  redis_read redis_read_transport redis_inspect redis_inspect_transport : Text → ReplayError
  -- The entry that was not decoded, and the decoder's message.
  redis_decode : Text → Text → ReplayError
  redis_gap : Gap → ReplayError

abbrev pub Replay : Type 0 → Type 0
Replay A = Result ReplayError A
