-- ===== src/Publisher/Lease.antt =====
-- The publisher's lease in redis_publisher.rs: `verify_writer_fence_locked`, `renew_lease` with
-- `resync_stream_tail_locked`, `promote_locked`, `self_fence` and `replay_boundary_locked`. What the
-- writer replies is an argument.
pub mod Kept
use tycho_simulation_server.Base.{
  ℕ, ◌-◌, ◌==◌, ltb, not, ◌||◌, ◌&&◌, Option, none, some, List, Bool, true, false, if◌then◌else◌,
  Text, codes, ◌++◌, format_u64, checked_succ, Result, ok, err, ◌>>=◌, map_err,
}
use tycho_simulation_server.Contract.External.{Tycho}
use tycho_simulation_server.Contract.Backend.{Backend}
use tycho_simulation_server.Contract.Payload.{Envelope, progresses}
use tycho_simulation_server.Contract.Boundary.{ReplayBoundary, new_boundary, redis_entry_id}
use tycho_simulation_server.Contract.Entry.{from_envelope_at}
use tycho_simulation_server.Publisher.Redis.{Fields}
use tycho_simulation_server.Publisher.Fence.{WriterInspection}
use tycho_simulation_server.Publisher.Errors.{
  Mode, passive, active, retired, unhealthy, WriterError, PublishError, writer_error, Published,
  contract_error, serialization_failed, is_stale_writer_error, publisher_is_passive,
  publisher_is_retired, publisher_is_unhealthy, publisher_is_unhealthy_without_error,
  cannot_promote, message_seq_overflow, fenced_by,
}
use tycho_simulation_server.Publisher.State.{
  PublisherState, record_retired, record_unhealthy, activate_generation,
}
use tycho_simulation_server.Publisher.State.Phases.{
  Admission, set_deployment_phase, retired_phase, fatal,
}
use tycho_simulation_server.Publisher.Append.{Environment, new_progress}
use tycho_simulation_server.Publisher.Gate.{closed_gate, Publisher}

abbrev pub is_retired : Mode → Bool
is_retired retired = true
is_retired _ = false

abbrev pub is_unhealthy : Mode → Bool
is_unhealthy unhealthy = true
is_unhealthy _ = false

abbrev generation_placeholder : Text
generation_placeholder = codes "__GENERATION__"

unfoldable pub unhealthy_because : Option PublishError → PublishError
unhealthy_because none = publisher_is_unhealthy_without_error
unhealthy_because (some e) = publisher_is_unhealthy e

module _ {T : Tycho} where
  -- A stale writer retires the publisher, with its deployment.
  retire : PublishError → Publisher T → Publisher T
  retire e p = record p {
    state = record_retired e p.state;
    admission = set_deployment_phase retired_phase (some e) p.admission;
  }

  fence_failed : PublishError → Publisher T → Publisher T
  unfolding retire
  fence_failed e p =
      if is_stale_writer_error e
      then retire e p
      else record p { state = record_unhealthy e false p.state }

  verified : Result WriterError Unit → Publisher T → Published Unit × Publisher T
  unfolding fence_failed
  verified (ok _) p = (ok tt, record p { state = record p.state { last_error = none } })
  verified (err e) p = (err (writer_error e), fence_failed (writer_error e) p)

  verify_active :
      Option PublishError → Result WriterError Unit → Publisher T → Published Unit × Publisher T
  unfolding verified
  verify_active (some e) reply p = (err (publisher_is_unhealthy e), p)
  verify_active none reply p = verified reply p

  verify_in : Mode → Result WriterError Unit → Publisher T → Published Unit × Publisher T
  unfolding verify_active unhealthy_because
  verify_in active reply p = verify_active p.state.last_error reply p
  verify_in passive reply p = (err publisher_is_passive, p)
  verify_in retired reply p = (err publisher_is_retired, p)
  verify_in unhealthy reply p = (err (unhealthy_because p.state.last_error), p)

  -- `reply` is the writer's, to a renewal or to a verification.
  unfoldable pub verify_writer_fence_locked :
      Result WriterError Unit → Publisher T → Published Unit × Publisher T
  unfolding verify_in
  verify_writer_fence_locked reply p = verify_in p.state.mode reply p

  -- The tail of the stream is behind what the publisher wrote, or of another generation.
  is_behind : PublisherState T → ℕ → ℕ → Bool
  is_behind s generation sequence =
      not (generation == s.generation) || ltb sequence s.next_entry_seq

  adopt_tail : ℕ → ℕ → Option ℕ → PublisherState T → Published Unit × PublisherState T
  adopt_tail generation sequence none s = (err message_seq_overflow, s)
  adopt_tail generation sequence (some next) s = (
    ok tt,
    record s { next_entry_seq = next; latest_entry_id = some (redis_entry_id generation sequence) },
  )

  unfoldable pub resync_stream_tail_locked :
      Result WriterError WriterInspection → PublisherState T → Published Unit × PublisherState T
  unfolding is_behind adopt_tail
  resync_stream_tail_locked (err e) s = (err (writer_error e), s)
  resync_stream_tail_locked (ok inspection) s = elim inspection.last_entry_id [
    | none ↦ (ok tt, s)
    | some id ↦
        if not (inspection.generation == s.generation) || is_behind s id.millis id.sequence
        then (ok tt, s)
        else adopt_tail id.millis id.sequence (checked_succ id.sequence) s
  ]

  reactivate : Publisher T → Published Unit × PublisherState T → Published Unit × Publisher T
  reactivate p (ok _, s) =
      (ok tt, record p { state = record s { mode = active; last_error = none } })
  reactivate p (err e, s) = (err e, record p { state = s })

  renew_unhealthy :
      Result WriterError Unit
      → Result WriterError WriterInspection
      → Publisher T
      → Published Unit × Publisher T
  unfolding reactivate retire resync_stream_tail_locked
  renew_unhealthy (ok _) inspection p = reactivate p (resync_stream_tail_locked inspection p.state)
  renew_unhealthy (err e) inspection p = (
    err (writer_error e),
    (if is_stale_writer_error (writer_error e) then retire (writer_error e) p else p),
  )

  renew_in :
      Mode
      → Result WriterError Unit
      → Result WriterError WriterInspection
      → Publisher T
      → Published Unit × Publisher T
  unfolding verify_writer_fence_locked renew_unhealthy
  renew_in passive reply inspection p = (ok tt, p)
  renew_in retired reply inspection p = (err publisher_is_retired, p)
  renew_in active reply inspection p = verify_writer_fence_locked reply p
  renew_in unhealthy reply inspection p = renew_unhealthy reply inspection p

  unfoldable pub renew_lease :
      Result WriterError Unit
      → Result WriterError WriterInspection
      → Publisher T
      → Published Unit × Publisher T
  unfolding renew_in
  renew_lease reply inspection p = renew_in p.state.mode reply inspection p

  unfoldable pub self_fence : Text → Publisher T → Publisher T
  self_fence reason p = record p {
    state = record_retired (fenced_by reason) p.state;
    admission = set_deployment_phase fatal (some (fenced_by reason)) p.admission;
  }

module _ {T : Tycho} {W : Type 0} (env : Environment T W) where
  unfoldable pub replay_boundary_locked : PublisherState T → Published ReplayBoundary
  replay_boundary_locked s = map_err contract_error (
      new_boundary env.stream_key s.stream_id s.snapshot_id s.generation (s.next_entry_seq - 1)
        s.committed_state_version)

  unfoldable pub generation_marker_template_fields : ℕ → List Backend → Text → Published Fields
  generation_marker_template_fields now backends reason = do
    let chain = codes "chain-" ++ format_u64 env.chain_id
    marker ← map_err contract_error (
        new_progress env.chain_id (chain ++ codes "-snapshot-" ++ generation_placeholder) backends
          reason)
    let envelope : Envelope T = record {
      stream_id = chain ++ codes "-stream-" ++ generation_placeholder;
      message_seq = 1;
      payload = progresses marker;
    }
    entry ← map_err contract_error (from_envelope_at env.json env.chain_id envelope now 0)
    map_err serialization_failed (env.to_fields entry)

  promotion_failed : Bool → PublishError → Publisher T → Publisher T
  unfolding retire
  promotion_failed recovering e p =
      if is_stale_writer_error e
      then retire e p
      else if recovering
      then record p { state = record_unhealthy e false p.state }
      else record p { state = record p.state { mode = passive; last_error = some e } }

  -- The writer's reply to the promotion.
  promoted : Bool → Result WriterError ℕ → Publisher T → Published ReplayBoundary × Publisher T
  unfolding promotion_failed replay_boundary_locked
  promoted recovering (err e) p =
      (err (writer_error e), promotion_failed recovering (writer_error e) p)
  promoted recovering (ok generation) p =
      let s = activate_generation env.chain_id generation p.state in
      (replay_boundary_locked s, record p { state = s })

  promote_marked :
      Bool
      → Result WriterError ℕ
      → Publisher T
      → Published Fields
      → Published ReplayBoundary × Publisher T
  unfolding promoted
  promote_marked recovering reply p (err e) = (err e, p)
  promote_marked recovering reply p (ok fields) = promoted recovering reply p

  unfoldable pub promote_locked :
      ℕ
      → List Backend
      → Text
      → Bool
      → Result WriterError ℕ
      → Publisher T
      → Published ReplayBoundary × Publisher T
  unfolding promote_marked
  promote_locked now backends reason recovering reply p =
      if is_retired p.state.mode || (recovering && not (is_unhealthy p.state.mode))
      then (err (cannot_promote p.state.mode), p)
      else promote_marked recovering reply p (generation_marker_template_fields now backends reason)

  -- What is queued behind the lost generation is dropped.
  reset_gate : Published ReplayBoundary × Publisher T → Published ReplayBoundary × Publisher T
  reset_gate (err e, p) = (err e, p)
  reset_gate (ok boundary, p) = (ok boundary, record p { gate = closed_gate })

  unfoldable pub recover_writer :
      ℕ
      → List Backend
      → Text
      → Result WriterError ℕ
      → Publisher T
      → Published ReplayBoundary × Publisher T
  unfolding reset_gate
  recover_writer now backends reason reply p =
      reset_gate (promote_locked now backends reason true reply p)
