-- ===== src/Replay/Tests.antt =====
-- A stream of two entries behind a boundary, and the theorems of the replay client at it.
use tycho_simulation_server.Base.{
  ℕ, ◌≡◌, refl, ◌↔◌, true, false, some, none, [], ◌∷◌, ◌++◌, Text, codes, Result, ok, text_eq,
  arith, format_u64,
}
use tycho_simulation_server.Contract.Payload.{Envelope}
use tycho_simulation_server.Contract.Errors.{heartbeat}
use tycho_simulation_server.Contract.Boundary.{redis_entry_id}
use tycho_simulation_server.Contract.Tests.{toy, heartbeat_8, boundary_20}
use tycho_simulation_server.Replay.EntryId.{
  parse_redis_entry_id, parts, parse_redis_entry_id-redis_entry_id,
}
use tycho_simulation_server.Replay.Checkpoint.{
  ReplayCheckpoint, StreamMessage, ensure_next_message, ReplayBatch, build_replay_batch,
  checkpoint_after,
}
use tycho_simulation_server.Replay.Checkpoint.Batches.{
  IsCanonical, Replays, Advances, build_replay_batch-Replays, checkpoint_after-Advances,
  build_replay_batch-append,
}
use tycho_simulation_server.Replay.Poll.{redis_empty_poll_action}
use tycho_simulation_server.Replay.Poll.Outcomes.{
  retaining, expected_action, redis_empty_poll_action-expected,
}

abbrev at_20 : ReplayCheckpoint
at_20 = record {
  boundary = boundary_20;
  entry_id = codes "3-20";
  last_message_seq = 20;
  expected_chain_id = 1;
}

abbrev message : ℕ → Text → StreamMessage
message seq id = record {
  entry_id = id;
  entry = record {
    schema_version = codes "1";
    chain_id = 1;
    stream_id = codes "stream-1";
    message_seq = seq;
    state_version = 1;
    kind = heartbeat;
    snapshot_id = some (codes "snap-1");
    backend_scope = codes "native";
    block_number = none;
    observed_timestamp_ms = none;
    published_at_ms = 0;
    payload_json = codes "{}";
  };
}

abbrev first : StreamMessage
first = message 21 (codes "3-21")

abbrev second : StreamMessage
second = message 22 (codes "3-22")

-- A decoder that reads every text as one heartbeat.
abbrev decode : Text → Result Text (Envelope toy)
decode text = ok heartbeat_8

abbrev after_first : ReplayCheckpoint
after_first = record at_20 { entry_id = codes "3-21"; last_message_seq = 21 }

abbrev batch_of_first : ReplayBatch toy
batch_of_first = record {
  items =
      record {
        entry_id = codes "3-21";
        entry = first.entry;
        envelope = heartbeat_8;
        checkpoint_after = after_first;
      }
      ∷ [];
  caught_up_after_batch = false;
}

abbrev batch_of_second : ReplayBatch toy
batch_of_second = record {
  items =
      record {
        entry_id = codes "3-22";
        entry = second.entry;
        envelope = heartbeat_8;
        checkpoint_after = record at_20 { entry_id = codes "3-22"; last_message_seq = 22 };
      }
      ∷ [];
  caught_up_after_batch = true;
}

stepping : Unit {0}
unfolding build_replay_batch checkpoint_after ensure_next_message redis_entry_id format_u64 text_eq
stepping = tt

IsCanonical-at : IsCanonical at_20
unfolding stepping
IsCanonical-at = refl

reads_first : build_replay_batch decode at_20 (first ∷ []) false ≡ ok batch_of_first
unfolding stepping
reads_first = refl

reads_second : build_replay_batch decode after_first (second ∷ []) true ≡ ok batch_of_second
unfolding stepping
reads_second = refl

left_by_first : checkpoint_after batch_of_first ≡ some after_first
unfolding stepping
left_by_first = refl

build_replay_batch-Replays_example :
    (build_replay_batch decode at_20 (first ∷ []) false ≡ ok batch_of_first) ↔ (
      Replays decode at_20 (first ∷ []) batch_of_first.items
      × (batch_of_first.caught_up_after_batch ≡ false))
build_replay_batch-Replays_example =
    build_replay_batch-Replays decode at_20 (first ∷ []) false batch_of_first

checkpoint_after-Advances_example :
    (d : ReplayCheckpoint) × (checkpoint_after batch_of_first ≡ some d) × Advances decode at_20 1 d
checkpoint_after-Advances_example =
    checkpoint_after-Advances decode at_20 first [] false batch_of_first IsCanonical-at reads_first

build_replay_batch-append_example :
    build_replay_batch decode at_20 (first ∷ second ∷ []) true
    ≡ ok (record {
      items = batch_of_first.items ++ batch_of_second.items;
      caught_up_after_batch = true;
    })
build_replay_batch-append_example =
    build_replay_batch-append decode at_20 after_first first [] (second ∷ []) false true
      batch_of_first batch_of_second reads_first left_by_first reads_second

parse_redis_entry_id-redis_entry_id_example :
    parse_redis_entry_id (redis_entry_id 3 20) ≡ ok (parts 3 20)
parse_redis_entry_id-redis_entry_id_example =
    parse_redis_entry_id-redis_entry_id 3 20 (omega arith) (omega arith)

redis_empty_poll_action-expected_example :
    redis_empty_poll_action at_20 (some (retaining at_20 25 21 25)) ≡ expected_action at_20 25 21 25
redis_empty_poll_action-expected_example =
    redis_empty_poll_action-expected at_20 IsCanonical-at 25 21 25 (omega arith) (omega arith)
      (omega arith) (omega arith) (omega arith)
