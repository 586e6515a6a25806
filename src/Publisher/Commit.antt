-- ===== src/Publisher/Commit.antt =====
-- `publish_recovery` of redis_publisher.rs: the checks, the appends of the prepared entries, and the
-- drain behind the commit.
pub mod Kept
pub mod Sent
pub mod Adoption
pub mod Keeping
use tycho_simulation_server.Base.{
  length, ℕ, ◌+◌, leb, ltb, not, ◌&&◌, Option, none, some, List, [], ◌∷◌, Bool, true, false,
  if◌then◌else◌, Text, text_eq, max_u64, Result, ok, err, ◌>>=◌, ensure, refuse, ◌>>◌,
}
use tycho_simulation_server.Contract.External.{Tycho}
use tycho_simulation_server.Contract.Payload.{Payload}
use tycho_simulation_server.Contract.Errors.{MessageKind, recovery_commit}
use tycho_simulation_server.Contract.Boundary.{ReplayBoundary, StreamEntry}
use tycho_simulation_server.Publisher.Errors.{
  Mode, passive, active, retired, unhealthy, PublishError, Published, is_stale_writer_error,
  publisher_is_passive, publisher_is_retired, recovery_cancelled, reservation_not_active,
  commit_is_uncertain, recovery_has_no_entries, recovery_byte_count_overflow,
}
use tycho_simulation_server.Publisher.State.{
  PublisherState, record_retired, record_unhealthy, allocate_state_version,
}
use tycho_simulation_server.Publisher.State.Phases.{set_deployment_phase, retired_phase}
use tycho_simulation_server.Publisher.Size.{replay_entry_encoded_size}
use tycho_simulation_server.Publisher.Append.{Environment, Outcome, append_entry_locked}
use tycho_simulation_server.Publisher.Gate.{Publisher, Clock}
use tycho_simulation_server.Publisher.Drain.{drain_pending_payloads_locked}
use tycho_simulation_server.Publisher.Lease.{is_retired, unhealthy_because, replay_boundary_locked}
use tycho_simulation_server.Publisher.Fragments.{RecoveryFragment, prepare_recovery_fragments}
use tycho_simulation_server.Publisher.Recovery.{
  RecoveryTransaction, RecoveryTarget, recovery_entries,
}

-- Where the cancellation flag is read.
pub data CancelPoint : Type 0 where
  at_start past_lock : CancelPoint
  before_entry : ℕ → CancelPoint

-- BroadcasterRecoveryPublication
pub record RecoveryPublication : Type 0 where
  pub recovery_id : Text
  pub target_state_version : ℕ
  pub commit_entry_id : Text
  pub replay_boundary : ReplayBoundary
  pub encoded_bytes : ℕ
  pub chunk_count : ℕ
  pub buffer_a_count : ℕ

-- What the publication says of its entries.
pub record RecoveryCounts : Type 0 where
  pub total_bytes : ℕ
  pub chunks : ℕ
  pub catch_ups : ℕ

abbrev is_commit : MessageKind → Bool
is_commit recovery_commit = true
is_commit _ = false

is_reserved_for : Option Text → Text → Bool
is_reserved_for none id = false
is_reserved_for (some current) id = text_eq current id

ensure_active_in : Mode → Option PublishError → Published Unit
ensure_active_in active none = ok tt
ensure_active_in active (some e) = err (unhealthy_because (some e))
ensure_active_in passive last_error = err publisher_is_passive
ensure_active_in retired last_error = err publisher_is_retired
ensure_active_in unhealthy last_error = err (unhealthy_because last_error)

module _ {T : Tycho} where
  unfoldable pub ensure_active_publisher : PublisherState T → Published Unit
  unfolding ensure_active_in
  ensure_active_publisher s = ensure_active_in s.mode s.last_error

  unfoldable pub record_publisher_error : ℕ → PublishError → PublisherState T → PublisherState T
  record_publisher_error failures_before e s =
      if is_stale_writer_error e
      then record_retired e s
      else record_unhealthy e (ltb failures_before s.append_failure_count) s

  -- A publisher that was retired takes its deployment with it.
  failed_with : PublishError → Publisher T → Publisher T
  failed_with e p =
      if is_retired p.state.mode
      then record p { admission = set_deployment_phase retired_phase (some e) p.admission }
      else p

module _ {T : Tycho} {W : Type 0} (env : Environment T W) (digest_bytes : Text → Text)
    (clock : Clock) (arrivals : List (List (Payload T))) (cancelled : CancelPoint → Bool) where
  append_then :
      ℕ
      → Bool
      → (Text → PublisherState T → W → Outcome T W (Option Text))
      → Outcome T W Text
      → Outcome T W (Option Text)
  unfolding record_publisher_error
  append_then failures_before commit rest (ok id, s, w) = rest id s w
  append_then failures_before commit rest (err e, s, w) = (
    err (if commit && not (is_stale_writer_error e) then commit_is_uncertain e else e),
    record_publisher_error failures_before e s,
    w,
  )

  -- The entries one after the other, with the id of the last.
  pub append_all :
      ℕ → Option Text → List StreamEntry → PublisherState T → W → Outcome T W (Option Text)
  unfolding append_then
  append_all failures_before last [] s w = (ok last, s, w)
  append_all failures_before last (e ∷ es) s w =
      let appended =
        append_then failures_before (is_commit e.kind)
          (λ id t v. append_all failures_before (some id) es t v)
          (append_entry_locked env (clock.window e.message_seq) s e w) in
      if cancelled (before_entry e.message_seq) then (err recovery_cancelled, s, w) else appended

  total_size : ℕ → List StreamEntry → Published ℕ
  total_size total [] = ok total
  total_size total (e ∷ es) = do
    size ← replay_entry_encoded_size env.to_fields env.stream_key env.maxlen e
    if leb (total + size) max_u64
        then total_size (total + size) es
        else err recovery_byte_count_overflow

  finish_drained :
      Text
      → ℕ
      → RecoveryCounts
      → Text
      → Published Unit × Publisher T × W
      → Published RecoveryPublication × Publisher T × W
  finish_drained id version counts commit (err e, p, w) = (err e, p, w)
  finish_drained id version counts commit (ok _, p, w) = (
    (do
      boundary ← replay_boundary_locked env p.state
      ok (record {
        recovery_id = id;
        target_state_version = version;
        commit_entry_id = commit;
        replay_boundary = boundary;
        encoded_bytes = counts.total_bytes;
        chunk_count = counts.chunks;
        buffer_a_count = counts.catch_ups;
      })),
    p,
    w,
  )

  finish_appended :
      Text
      → ℕ
      → RecoveryCounts
      → Publisher T
      → Outcome T W (Option Text)
      → Published RecoveryPublication × Publisher T × W
  unfolding failed_with finish_drained
  finish_appended id version counts p (err e, s, w) =
      (err e, failed_with e (record p { state = s }), w)
  finish_appended id version counts p (ok none, s, w) =
      (err recovery_has_no_entries, record p { state = s }, w)
  finish_appended id version counts p (ok (some commit), s, w) =
      finish_drained id version counts commit (
        drain_pending_payloads_locked env clock arrivals
          (record p { state = record s { committed_state_version = version } }) w)

  publish_entries :
      Text
      → ℕ
      → Publisher T
      → W
      → Published (List StreamEntry × RecoveryCounts)
      → Published RecoveryPublication × Publisher T × W
  unfolding append_all finish_appended
  publish_entries id version p w (err e) = (err e, p, w)
  publish_entries id version p w (ok (entries, counts)) =
      finish_appended id version counts p
        (append_all p.state.append_failure_count none entries p.state w)

  -- The entries, with what the publication says of them.
  measured_entries :
      RecoveryTransaction T
      → List RecoveryFragment
      → ℕ
      → PublisherState T
      → Published (List StreamEntry × RecoveryCounts)
  unfolding total_size
  measured_entries tx fragments version s = do
    let target : RecoveryTarget = record {
      stream_id = s.stream_id;
      next_entry_seq = s.next_entry_seq;
      state_version = version;
    }
    entries ← recovery_entries env digest_bytes (clock.now s.next_entry_seq) tx target fragments
    encoded_bytes ← total_size 0 entries
    ok (
      entries,
      record {
        total_bytes = encoded_bytes;
        chunks = length fragments;
        catch_ups = length tx.buffer_a;
      },
    )

  publish_versioned :
      RecoveryTransaction T
      → List RecoveryFragment
      → Publisher T
      → W
      → Published ℕ × PublisherState T
      → Published RecoveryPublication × Publisher T × W
  unfolding measured_entries publish_entries
  publish_versioned tx fragments p w (err e, s) = (err e, record p { state = s }, w)
  publish_versioned tx fragments p w (ok version, s) =
      publish_entries tx.recovery_id version (record p { state = s }) w
        (measured_entries tx fragments version s)

  -- The checks before a version is taken, with the fragments.
  pub checked_fragments : RecoveryTransaction T → Publisher T → Published (List RecoveryFragment)
  unfolding is_reserved_for
  checked_fragments tx p = do
    refuse (cancelled at_start) recovery_cancelled
    fragments ← prepare_recovery_fragments digest_bytes tx.replacement_json
    ensure (is_reserved_for p.gate.open_recovery_id tx.recovery_id)
        (reservation_not_active tx.recovery_id)
    ensure_active_publisher p.state
    refuse (cancelled past_lock) recovery_cancelled
    ok fragments

  pub publish_checked :
      RecoveryTransaction T
      → Publisher T
      → W
      → Published (List RecoveryFragment)
      → Published RecoveryPublication × Publisher T × W
  unfolding publish_versioned
  publish_checked tx p w (err e) = (err e, p, w)
  publish_checked tx p w (ok fragments) =
      publish_versioned tx fragments p w (allocate_state_version p.state)

  unfoldable pub publish_recovery :
      RecoveryTransaction T → Publisher T → W → Published RecoveryPublication × Publisher T × W
  unfolding checked_fragments publish_checked
  publish_recovery tx p w = publish_checked tx p w (checked_fragments tx p)
