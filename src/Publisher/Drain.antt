-- ===== src/Publisher/Drain.antt =====
-- `drain_pending_payloads_locked` of redis_publisher.rs. The gate is not locked while a payload is
-- appended, so each round has a list of the payloads that other tasks hand in meanwhile.
pub mod Arrivals
pub mod Requeue
pub mod Kept
use tycho_simulation_server.Base.{
  ℕ, ◌+◌, ◌-◌, ◌^◌, ◌%◌, leb, ltb, ◌==◌, Option, none, some, List, [], ◌∷◌, ◌++◌, Bool, true, false,
  not, ◌&&◌, ◌||◌, if◌then◌else◌, Text, codes, length, is_empty, format_u64, Result, ok, err,
}
use tycho_simulation_server.Contract.External.{Tycho}
use tycho_simulation_server.Contract.Backend.{Backend, native, backend_eq}
use tycho_simulation_server.Contract.Block.{complete_native_block}
use tycho_simulation_server.Contract.Payload.{
  Payload, updates, beats, UpdateMessage, UpdatePartition,
}
use tycho_simulation_server.Publisher.Errors.{
  Mode, passive, active, retired, unhealthy, PublishError, Published, is_stale_writer_error,
  is_oversized, publisher_is_retired, publisher_is_unhealthy, publisher_is_unhealthy_without_error,
  recovery_queue_is_full, handoff_is_frozen,
}
use tycho_simulation_server.Publisher.State.{
  PublisherState, StartupHandoff, record_retired, record_unhealthy,
}
use tycho_simulation_server.Publisher.State.Phases.{Admission, set_deployment_phase, retired_phase}
use tycho_simulation_server.Publisher.Append.{
  Environment, Outcome, normalize_live_payload, append_live_payload_locked,
}
use tycho_simulation_server.Publisher.Gate.{
  RecoveryGate, Publisher, Clock, startup_handoff_abort_after, insert_some, payload_native_block,
  queue_payload, is_some, max_pending_recovery_payloads,
}

module _ {T : Tycho} {W : Type 0} (env : Environment T W) where
  -- A payload that is handed in while the publisher's state is locked: it is queued, or it waits for
  -- the state where the gate is closed.
  unfoldable pub accept_one : Payload T → RecoveryGate T → RecoveryGate T
  accept_one payload g =
      let queued = (queue_payload env payload g).1 in
      if is_some g.open_recovery_id then queued else g

  unfoldable pub accept_all : List (Payload T) → RecoveryGate T → RecoveryGate T
  unfolding accept_one
  accept_all [] g = g
  accept_all (p ∷ ps) g = accept_all ps (accept_one p g)

  -- One round of the drain: what was appended, or what goes back to the front of the queue.
  round :
      Payload T
      → RecoveryGate T
      → (PublisherState T → W → Published Unit × PublisherState T × W × RecoveryGate T)
      → Outcome T W Text
      → Published Unit × PublisherState T × W × RecoveryGate T
  round payload g rest (ok id, s, w) = rest s w
  round payload g rest (err e, s, w) =
      (err e, s, w, record g { pending_payloads = payload ∷ g.pending_payloads })

  drain_next :
      Clock
      → PublisherState T
      → W
      → RecoveryGate T
      → (PublisherState T → W → Published Unit × PublisherState T × W × RecoveryGate T)
      → Published (Payload T)
      → Published Unit × PublisherState T × W × RecoveryGate T
  unfolding round
  drain_next clock s w g rest (err e) = (err e, s, w, g)
  drain_next clock s w g rest (ok payload) =
      let seq = s.next_entry_seq in
      round payload g rest
        (append_live_payload_locked env (clock.window seq) (clock.now seq) s payload w)

  -- The payload in front is popped; `arrivals` are handed in before the round is over.
  drain_front :
      Clock
      → List (Payload T)
      → (RecoveryGate T
          → PublisherState T
          → W
          → Published Unit × PublisherState T × W × RecoveryGate T)
      → RecoveryGate T
      → List (Payload T)
      → PublisherState T
      → W
      → Published Unit × PublisherState T × W × RecoveryGate T
  unfolding drain_next accept_all
  drain_front clock arrivals rest g [] s w = (ok tt, s, w, record g { pending_payloads = [] })
  drain_front clock arrivals rest g (p ∷ ps) s w =
      let popped = accept_all arrivals (record g { pending_payloads = ps }) in
      drain_next clock s w popped (rest popped) (normalize_live_payload p s.snapshot_id)

  -- The rounds once no payload is handed in any more.
  drain_rest :
      Clock
      → RecoveryGate T
      → List (Payload T)
      → PublisherState T
      → W
      → Published Unit × PublisherState T × W × RecoveryGate T
  unfolding drain_next
  drain_rest clock g [] s w = (ok tt, s, w, record g { pending_payloads = [] })
  drain_rest clock g (p ∷ ps) s w =
      drain_next clock s w (record g { pending_payloads = ps }) (λ t v. drain_rest clock g ps t v)
        (normalize_live_payload p s.snapshot_id)

  -- The rounds over the queue, with the gate that they leave.
  unfoldable pub drain_queue :
      Clock
      → List (List (Payload T))
      → RecoveryGate T
      → PublisherState T
      → W
      → Published Unit × PublisherState T × W × RecoveryGate T
  unfolding drain_front drain_rest
  drain_queue clock [] g s w = drain_rest clock g g.pending_payloads s w
  drain_queue clock (arrivals ∷ later) g s w =
      drain_front clock arrivals (λ h t v. drain_queue clock later h t v) g g.pending_payloads s w

  close_gate :
      Publisher T
      → Published Unit × PublisherState T × W × RecoveryGate T
      → Published Unit × Publisher T × W
  close_gate p (ok _, s, w, g) = (
    ok tt,
    record p {
      state = s;
      gate = record g { open_recovery_id = none; cancelled = none; complete_native_blocks = [] };
    },
    w,
  )
  close_gate p (err e, s, w, g) = (err e, record p { state = s; gate = g }, w)

  unfoldable pub drain_pending_payloads_locked :
      Clock → List (List (Payload T)) → Publisher T → W → Published Unit × Publisher T × W
  unfolding drain_queue close_gate
  drain_pending_payloads_locked clock arrivals p w =
      close_gate p (drain_queue clock arrivals p.gate p.state w)
