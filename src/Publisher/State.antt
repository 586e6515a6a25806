-- ===== src/Publisher/State.antt =====
-- BroadcasterRedisPublisherState of redis_publisher.rs with its methods, the deployment phases, and
-- the ids and versions of a generation.
pub mod Phases
use tycho_simulation_server.Base.{
  ℕ, ◌+◌, ◌*◌, ◌-◌, ◌^◌, ltb, leb, Option, none, some, List, [], ◌++◌, Bool, true, false, not, ◌&&◌,
  ◌||◌, if◌then◌else◌, Text, codes, format_u64, max_u64, checked_succ, Result, ok, err,
}
use tycho_simulation_server.Contract.External.{Tycho}
use tycho_simulation_server.Contract.Payload.{Payload}
use tycho_simulation_server.Contract.Boundary.{redis_entry_id}
use tycho_simulation_server.Publisher.Errors.{
  Mode, passive, active, retired, unhealthy, PublishError, Published, state_version_overflow,
}

-- StartupHandoffBuffer. `complete_native_blocks` is a HashSet: a list without repetitions.
pub record StartupHandoff (T : Tycho) : Type 0 where
  pub id : ℕ
  pub started_at : ℕ
  pub payloads : List (Payload T)
  pub complete_native_blocks : List ℕ
  pub cancelled : Bool
  pub frozen : Bool

pub record PublisherState (T : Tycho) : Type 0 where
  pub mode : Mode
  pub generation : ℕ
  pub stream_id : Text
  pub snapshot_id : Text
  pub next_entry_seq : ℕ
  pub committed_state_version : ℕ
  pub next_state_version : ℕ
  pub latest_entry_id : Option Text
  pub append_success_count : ℕ
  pub append_failure_count : ℕ
  pub retry_exhaustion_count : ℕ
  pub last_error : Option PublishError
  pub startup_handoff : Option (StartupHandoff T)

-- u64::saturating_add(1)
abbrev pub saturating_succ : ℕ → ℕ
saturating_succ n = if ltb n max_u64 then n + 1 else n

unfoldable pub format_redis_stream_id : ℕ → ℕ → Text
format_redis_stream_id chain_id generation =
    codes "chain-" ++ format_u64 chain_id ++ codes "-stream-" ++ format_u64 generation

unfoldable pub format_redis_snapshot_id : ℕ → ℕ → Text
format_redis_snapshot_id chain_id generation =
    codes "chain-" ++ format_u64 chain_id ++ codes "-snapshot-" ++ format_u64 generation

-- generation.saturating_mul(1 << 48)
unfoldable pub state_version_base : ℕ → ℕ
state_version_base generation =
    if leb (generation * 2 ^ 48) max_u64 then generation * 2 ^ 48 else max_u64

-- new_with_mode
unfoldable pub new_publisher : {T : Tycho} → ℕ → ℕ → Mode → PublisherState T
unfolding format_redis_stream_id format_redis_snapshot_id state_version_base
new_publisher chain_id generation mode = record {
  mode = mode;
  generation = generation;
  stream_id = format_redis_stream_id chain_id generation;
  snapshot_id = format_redis_snapshot_id chain_id generation;
  next_entry_seq = 1;
  committed_state_version = state_version_base generation;
  next_state_version = state_version_base generation;
  latest_entry_id = none;
  append_success_count = 0;
  append_failure_count = 0;
  retry_exhaustion_count = 0;
  last_error = none;
  startup_handoff = none;
}

module _ {T : Tycho} where
  unfoldable pub record_append_success : Text → ℕ → PublisherState T → PublisherState T
  record_append_success entry_id next_entry_seq s = record s {
    append_success_count = saturating_succ s.append_success_count;
    latest_entry_id = some entry_id;
    next_entry_seq = next_entry_seq;
    last_error = none;
  }

  unfoldable pub record_append_failure : PublisherState T → PublisherState T
  record_append_failure s = record s {
    append_failure_count = saturating_succ s.append_failure_count;
  }

  unfoldable pub record_unhealthy : PublishError → Bool → PublisherState T → PublisherState T
  record_unhealthy last_error retry_exhausted s = record s {
    retry_exhaustion_count =
        if retry_exhausted
        then saturating_succ s.retry_exhaustion_count
        else s.retry_exhaustion_count;
    mode = unhealthy;
    last_error = some last_error;
  }

  unfoldable pub record_retired : PublishError → PublisherState T → PublisherState T
  record_retired last_error s = record s { mode = retired; last_error = some last_error }

  unfoldable pub activate_generation : ℕ → ℕ → PublisherState T → PublisherState T
  unfolding format_redis_stream_id format_redis_snapshot_id state_version_base
  activate_generation chain_id generation s = record s {
    mode = active;
    generation = generation;
    stream_id = format_redis_stream_id chain_id generation;
    snapshot_id = format_redis_snapshot_id chain_id generation;
    next_entry_seq = 2;
    committed_state_version = state_version_base generation;
    next_state_version = state_version_base generation;
    latest_entry_id = some (redis_entry_id generation 1);
    last_error = none;
  }

  unfoldable pub take_version : PublisherState T → Option ℕ → Published ℕ × PublisherState T
  take_version s none = (err state_version_overflow, s)
  take_version s (some version) = (ok version, record s { next_state_version = version })

  unfoldable pub allocate_state_version : PublisherState T → Published ℕ × PublisherState T
  unfolding take_version
  allocate_state_version s = take_version s (checked_succ s.next_state_version)
