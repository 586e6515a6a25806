-- ===== src/Publisher/Append.antt =====
-- Appending to the stream in redis_publisher.rs: `append_with_retry`, `append_entry_locked`,
-- `normalize_live_payload` and `append_live_payload_locked`. The clock of a retry window is a list
-- with an element for each attempt that the window leaves time for, which says whether the window
-- was over when the attempt returned.
pub mod Sequence
pub mod Sent
pub mod Normal
use tycho_simulation_server.Base.{
  ℕ, ◌+◌, ◌*◌, ◌==◌, Option, none, some, List, [], ◌∷◌, Bool, true, false, not, ◌||◌, if◌then◌else◌,
  Text, checked_succ, is_blank, codes, Result, ok, err, ◌>>=◌, map_err, refuse, ◌>>◌,
}
use tycho_simulation_server.Contract.External.{Tycho}
use tycho_simulation_server.Contract.Backend.{Backend, sort_by_key}
use tycho_simulation_server.Contract.Errors.{
  MessageKind, recovery_start, recovery_chunk, recovery_catch_up, recovery_commit, Checked,
  progress_reason_empty,
}
use tycho_simulation_server.Contract.Payload.{
  Payload, updates, beats, progresses, Heartbeat, Progress, BackendHead, Envelope,
}
use tycho_simulation_server.Contract.Validate.{
  validate_heartbeat_backend_heads, validate_progress_backends,
}
use tycho_simulation_server.Contract.Recovery.{sort}
use tycho_simulation_server.Contract.Boundary.{StreamEntry}
use tycho_simulation_server.Contract.Entry.{Json, from_envelope_at}
use tycho_simulation_server.Publisher.Redis.{Fields}
use tycho_simulation_server.Publisher.Errors.{
  WriterError, stale_writer, PublishError, writer_error, append_exhausted, contract_error,
  prepared_sequence_mismatch, message_seq_overflow, not_a_live_payload, Published,
  is_stale_writer_error,
}
use tycho_simulation_server.Publisher.Size.{ensure_redis_entry_size}
use tycho_simulation_server.Publisher.State.{
  PublisherState, record_append_success, record_append_failure, allocate_state_version,
}

-- BroadcasterHeartbeat::new
unfoldable pub new_heartbeat : ℕ → Text → List BackendHead → Checked Heartbeat
new_heartbeat chain_id snapshot_id backend_heads = do
  let heads = sort_by_key (λ h. h.backend) backend_heads
  validate_heartbeat_backend_heads heads
  ok (record { chain_id = chain_id; snapshot_id = snapshot_id; backend_heads = heads })

-- BroadcasterProgress::new
unfoldable pub new_progress : ℕ → Text → List Backend → Text → Checked Progress
new_progress chain_id snapshot_id backends reason = do
  let sorted = sort backends
  validate_progress_backends sorted
  refuse (is_blank reason) progress_reason_empty
  ok (record { chain_id = chain_id; snapshot_id = snapshot_id; backends = sorted; reason = reason })

unfoldable pub normalize_live_payload : {T : Tycho} → Payload T → Text → Published (Payload T)
unfolding new_heartbeat new_progress
normalize_live_payload (updates u) snapshot_id = ok (updates u)
normalize_live_payload (beats h) snapshot_id = do
  heartbeat ← map_err contract_error (new_heartbeat h.chain_id snapshot_id h.backend_heads)
  ok (beats heartbeat)
normalize_live_payload (progresses p) snapshot_id = do
  progress ← map_err contract_error (new_progress p.chain_id snapshot_id p.backends p.reason)
  ok (progresses progress)
normalize_live_payload _ snapshot_id = err not_a_live_payload

-- What one call of the writer's `append_fenced` comes to within its time limit.
pub data Attempt : Type 0 where
  appended : Text → Attempt
  failed : WriterError → Attempt
  timed_out : Attempt

-- What the publisher is configured with and runs on: the world `W` that the writer acts on, the
-- writer, and serde_json.
pub record Environment (T : Tycho) (W : Type 0) : Type 0 where
  pub stream_key : Text
  pub chain_id : ℕ
  pub maxlen : Option ℕ
  pub max_buffered_native_blocks : ℕ
  pub json : Json T
  pub to_fields : StreamEntry → Result Text Fields
  pub send_append : ℕ → StreamEntry → W → Attempt × W

abbrev pub Outcome : Tycho → Type 0 → Type 0 → Type 0
Outcome T W A = Published A × PublisherState T × W

abbrev pub recovery_entry_max_bytes : ℕ
recovery_entry_max_bytes = 4 * 1024 * 1024

abbrev live_entry_max_bytes : ℕ
live_entry_max_bytes = 8 * 1024 * 1024

abbrev is_recovery_kind : MessageKind → Bool
is_recovery_kind recovery_start = true
is_recovery_kind recovery_chunk = true
is_recovery_kind recovery_catch_up = true
is_recovery_kind recovery_commit = true
is_recovery_kind _ = false

abbrev entry_limit : MessageKind → ℕ
entry_limit kind = if is_recovery_kind kind then recovery_entry_max_bytes else live_entry_max_bytes

abbrev pub advances_state : {T : Tycho} → Payload T → Bool
advances_state (updates u) = true
advances_state _ = false

is_stale : WriterError → Bool
is_stale stale_writer = true
is_stale _ = false

-- The error of a window that is over before an attempt.
last_or_exhausted : Option WriterError → PublishError
last_or_exhausted none = append_exhausted
last_or_exhausted (some e) = writer_error e

module _ {T : Tycho} {W : Type 0} (env : Environment T W) where
  give_up : PublishError → PublisherState T → W → Outcome T W Text
  give_up e s w = (err e, record_append_failure s, w)

  -- `again` is the rest of the loop, which goes on unless the error is final or the window is over.
  after_attempt :
      Bool
      → PublisherState T
      → (WriterError → W → Outcome T W Text)
      → Attempt × W
      → Outcome T W Text
  unfolding give_up is_stale
  after_attempt over s again (appended entry_id, w) = (ok entry_id, s, w)
  after_attempt over s again (timed_out, w) = give_up append_exhausted s w
  after_attempt over s again (failed e, w) =
      if is_stale e || over then give_up (writer_error e) s w else again e w

  unfoldable pub append_with_retry :
      List Bool → Option WriterError → PublisherState T → StreamEntry → W → Outcome T W Text
  unfolding give_up last_or_exhausted after_attempt
  append_with_retry [] last_error s entry w = give_up (last_or_exhausted last_error) s w
  append_with_retry (over ∷ clock) last_error s entry w =
      after_attempt over s (λ e v. append_with_retry clock (some e) s entry v)
        (env.send_append s.generation entry w)

  record_outcome : ℕ → Outcome T W Text → Outcome T W Text
  record_outcome next (ok entry_id, s, w) = (ok entry_id, record_append_success entry_id next s, w)
  record_outcome next (err e, s, w) = (err e, s, w)

  append_next : List Bool → PublisherState T → StreamEntry → W → Option ℕ → Outcome T W Text
  unfolding record_outcome
  append_next clock s entry w none = (err message_seq_overflow, s, w)
  append_next clock s entry w (some next) =
      record_outcome next (append_with_retry clock none s entry w)

  unfoldable pub append_entry_locked :
      List Bool → PublisherState T → StreamEntry → W → Outcome T W Text
  unfolding append_next
  append_entry_locked clock s entry w =
      if entry.message_seq == s.next_entry_seq
      then append_next clock s entry w (checked_succ entry.message_seq)
      else (err (prepared_sequence_mismatch s.next_entry_seq entry.message_seq), s, w)

  -- The entry of a live payload, once its state version is known.
  unfoldable pub live_entry : ℕ → PublisherState T → Payload T → ℕ → Published StreamEntry
  live_entry now s payload state_version = do
    let envelope : Envelope T = record {
      stream_id = s.stream_id;
      message_seq = s.next_entry_seq;
      payload = payload;
    }
    entry ←
        map_err contract_error (from_envelope_at env.json env.chain_id envelope now state_version)
    _ ←
        ensure_redis_entry_size env.to_fields env.stream_key env.maxlen entry
          (entry_limit entry.kind)
    ok entry

  commit_version : Bool → ℕ → Outcome T W Text → Outcome T W Text
  commit_version true version (ok id, s, w) =
      (ok id, record s { committed_state_version = version }, w)
  commit_version advances version outcome = outcome

  append_prepared :
      List Bool → Bool → ℕ → PublisherState T → W → Published StreamEntry → Outcome T W Text
  unfolding commit_version
  append_prepared clock advances version s w (err e) = (err e, s, w)
  append_prepared clock advances version s w (ok entry) =
      commit_version advances version (append_entry_locked clock s entry w)

  append_versioned :
      List Bool → ℕ → Payload T → W → Published ℕ × PublisherState T → Outcome T W Text
  unfolding append_prepared
  append_versioned clock now payload w (err e, s) = (err e, s, w)
  append_versioned clock now payload w (ok version, s) =
      append_prepared clock (advances_state payload) version s w (live_entry now s payload version)

  unfoldable pub append_live_payload_locked :
      List Bool → ℕ → PublisherState T → Payload T → W → Outcome T W Text
  unfolding append_versioned
  append_live_payload_locked clock now s payload w = append_versioned clock now payload w (
      if advances_state payload
      then allocate_state_version s
      else (ok s.committed_state_version, s))
