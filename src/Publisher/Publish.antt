-- ===== src/Publisher/Publish.antt =====
-- `publish_accepted_payload` of redis_publisher.rs: to the queue of an open recovery, to the startup
-- handoff, or to the stream. The function is taken between its locks, where the publisher is a
-- value.
pub mod Kept
use tycho_simulation_server.Base.{
  ℕ, ◌+◌, ◌-◌, ◌^◌, ◌%◌, leb, ltb, ◌==◌, Option, none, some, List, [], ◌∷◌, ◌++◌, Bool, true, false,
  not, ◌&&◌, ◌||◌, if◌then◌else◌, Text, codes, length, is_empty, format_u64, Result, ok, err,
}
use tycho_simulation_server.Contract.External.{Tycho}
use tycho_simulation_server.Contract.Backend.{Backend, native, backend_eq}
use tycho_simulation_server.Contract.Block.{complete_native_block}
use tycho_simulation_server.Contract.Payload.{
  Payload, updates, beats, UpdateMessage, UpdatePartition,
}
use tycho_simulation_server.Publisher.Errors.{
  Mode, passive, active, retired, unhealthy, PublishError, Published, is_stale_writer_error,
  is_oversized, publisher_is_retired, publisher_is_unhealthy, publisher_is_unhealthy_without_error,
  recovery_queue_is_full, handoff_is_frozen,
}
use tycho_simulation_server.Publisher.State.{
  PublisherState, StartupHandoff, record_retired, record_unhealthy,
}
use tycho_simulation_server.Publisher.State.Phases.{Admission, set_deployment_phase, retired_phase}
use tycho_simulation_server.Publisher.Append.{
  Environment, Outcome, normalize_live_payload, append_live_payload_locked,
}
use tycho_simulation_server.Publisher.Gate.{
  RecoveryGate, Publisher, Clock, startup_handoff_abort_after, insert_some, payload_native_block,
  queue_payload, max_pending_recovery_payloads,
}

module _ {T : Tycho} {W : Type 0} (env : Environment T W) where
  -- A payload for a publisher that is not promoted yet goes to the startup handoff.
  buffer_payload : ℕ → Payload T → StartupHandoff T → StartupHandoff T
  unfolding payload_native_block
  buffer_payload now payload b =
      let blocks = insert_some (payload_native_block T payload) b.complete_native_blocks in
      if leb startup_handoff_abort_after (now - b.started_at)
        || leb env.max_buffered_native_blocks (length blocks)
      then record b { complete_native_blocks = blocks; cancelled = true; payloads = [] }
      else if b.cancelled
      then record b { complete_native_blocks = blocks }
      else record b { complete_native_blocks = blocks; payloads = b.payloads ++ payload ∷ [] }

  unfoldable pub hand_over : ℕ → Payload T → PublisherState T → Published Unit × PublisherState T
  unfolding buffer_payload
  hand_over now payload s = elim s.startup_handoff [
    | none ↦ (ok tt, s)
    | some b ↦
        if b.frozen
        then (err handoff_is_frozen, s)
        else (ok tt, record s { startup_handoff = some (buffer_payload now payload b) })
  ]

  -- What a failed live append makes of the publisher.
  after_failure : ℕ → PublishError → Publisher T → Publisher T
  after_failure failures_before e p =
      if is_oversized e
      then p
      else if is_stale_writer_error e
      then record p {
        state = record_retired e p.state;
        admission = set_deployment_phase retired_phase (some e) p.admission;
      }
      else record p {
        state = record_unhealthy e (ltb failures_before p.state.append_failure_count) p.state;
      }

  finish_live : ℕ → Publisher T → Outcome T W Text → Published Unit × Publisher T × W
  unfolding after_failure
  finish_live failures_before p (ok id, s, w) = (ok tt, record p { state = s }, w)
  finish_live failures_before p (err e, s, w) =
      (err e, after_failure failures_before e (record p { state = s }), w)

  append_normalized :
      Clock → Publisher T → Published (Payload T) → W → Published Unit × Publisher T × W
  unfolding finish_live
  append_normalized clock p (err e) w = (err e, p, w)
  append_normalized clock p (ok payload) w =
      let seq = p.state.next_entry_seq in
      finish_live p.state.append_failure_count p
        (append_live_payload_locked env (clock.window seq) (clock.now seq) p.state payload w)

  publish_active :
      Option PublishError → Clock → Payload T → Publisher T → W → Published Unit × Publisher T × W
  unfolding append_normalized
  publish_active (some e) clock payload p w = (err (publisher_is_unhealthy e), p, w)
  publish_active none clock payload p w =
      append_normalized clock p (normalize_live_payload payload p.state.snapshot_id) w

  abbrev unhealthy_error : Option PublishError → PublishError
  unhealthy_error none = publisher_is_unhealthy_without_error
  unhealthy_error (some e) = publisher_is_unhealthy e

  -- Past the recovery gate.
  publish_in : Mode → ℕ → Clock → Payload T → Publisher T → W → Published Unit × Publisher T × W
  unfolding publish_active hand_over
  publish_in passive now clock payload p w =
      let r = hand_over now payload p.state in (r.0, record p { state = r.1 }, w)
  publish_in retired now clock payload p w = (err publisher_is_retired, p, w)
  publish_in unhealthy now clock payload p w = (err (unhealthy_error p.state.last_error), p, w)
  publish_in active now clock payload p w = publish_active p.state.last_error clock payload p w

  publish_through :
      Option Text → ℕ → Clock → Payload T → Publisher T → W → Published Unit × Publisher T × W
  unfolding queue_payload publish_in
  publish_through (some id) now clock payload p w =
      let r = queue_payload env payload p.gate in (r.0, record p { gate = r.1 }, w)
  publish_through none now clock payload p w = publish_in p.state.mode now clock payload p w

  unfoldable pub publish_accepted_payload :
      ℕ → Clock → Payload T → Publisher T → W → Published Unit × Publisher T × W
  unfolding publish_through
  publish_accepted_payload now clock payload p w =
      publish_through p.gate.open_recovery_id now clock payload p w
