-- ===== src/Publisher/Gate.antt =====
-- The recovery gate of redis_publisher.rs, which queues live payloads while a recovery is open:
-- `begin_recovery` and what `publish_accepted_payload` does under an open gate.
pub mod Bound
use tycho_simulation_server.Base.{
  ℕ, ◌+◌, ◌-◌, ◌^◌, ◌%◌, leb, ltb, ◌==◌, Option, none, some, List, [], ◌∷◌, ◌++◌, Bool, true, false,
  not, ◌&&◌, ◌||◌, if◌then◌else◌, Text, codes, length, is_empty, format_u64, Result, ok, err,
}
use tycho_simulation_server.Contract.External.{Tycho}
use tycho_simulation_server.Contract.Backend.{Backend, native, backend_eq}
use tycho_simulation_server.Contract.Block.{complete_native_block}
use tycho_simulation_server.Contract.Payload.{
  Payload, updates, beats, UpdateMessage, UpdatePartition,
}
use tycho_simulation_server.Publisher.Errors.{
  Mode, passive, active, retired, unhealthy, PublishError, Published, is_stale_writer_error,
  is_oversized, publisher_is_retired, publisher_is_unhealthy, publisher_is_unhealthy_without_error,
  recovery_queue_is_full, handoff_is_frozen,
}
use tycho_simulation_server.Publisher.State.{
  PublisherState, StartupHandoff, record_retired, record_unhealthy,
}
use tycho_simulation_server.Publisher.State.Phases.{Admission, set_deployment_phase, retired_phase}
use tycho_simulation_server.Publisher.Append.{
  Environment, Outcome, normalize_live_payload, append_live_payload_locked,
}

-- PublisherRecoveryGate. `cancelled` is the flag that the recovery watches.
pub record RecoveryGate (T : Tycho) : Type 0 where
  pub open_recovery_id : Option Text
  pub cancelled : Option Bool
  pub complete_native_blocks : List ℕ
  pub pending_payloads : List (Payload T)
  pub max_pending_payloads : ℕ

-- PublisherRecoveryGate::default()
abbrev pub closed_gate : {T : Tycho} → RecoveryGate T
closed_gate = record {
  open_recovery_id = none;
  cancelled = none;
  complete_native_blocks = [];
  pending_payloads = [];
  max_pending_payloads = 0;
}

-- What of BroadcasterRedisPublisher changes.
pub record Publisher (T : Tycho) : Type 0 where
  pub state : PublisherState T
  pub gate : RecoveryGate T
  pub admission : Admission
  pub next_recovery_id : ℕ

-- When, and with which retry window, the entry of a number is appended.
pub record Clock : Type 0 where
  pub now : ℕ → ℕ
  pub window : ℕ → List Bool

abbrev pub max_pending_recovery_payloads : ℕ
max_pending_recovery_payloads = 1024

-- STARTUP_HANDOFF_ABORT_AFTER in milliseconds
abbrev pub startup_handoff_abort_after : ℕ
startup_handoff_abort_after = 60000

abbrev pub any_block : ℕ → List ℕ → Bool
any_block n [] = false
any_block n (b ∷ bs) = n == b || any_block n bs

-- HashSet::insert
abbrev pub insert_block : ℕ → List ℕ → List ℕ
insert_block n bs = if any_block n bs then bs else n ∷ bs

abbrev pub insert_some : Option ℕ → List ℕ → List ℕ
insert_some none bs = bs
insert_some (some n) bs = insert_block n bs

any_backend : Backend → List Backend → Bool
any_backend b [] = false
any_backend b (c ∷ cs) = backend_eq b c || any_backend b cs

module _ (T : Tycho) where
  first_native : List (UpdatePartition T) → Option ℕ
  first_native [] = none
  first_native (p ∷ ps) =
      let rest = first_native ps in
      if backend_eq p.backend native then complete_native_block T p else rest

  unfoldable pub payload_native_block : Payload T → Option ℕ
  unfolding first_native
  payload_native_block (updates u) = first_native u.partitions
  payload_native_block _ = none

  unfoldable pub queued_complete_native_blocks : List (Payload T) → List ℕ
  unfolding payload_native_block
  queued_complete_native_blocks [] = []
  queued_complete_native_blocks (p ∷ ps) =
      insert_some (payload_native_block p) (queued_complete_native_blocks ps)

  drop_backends : List Backend → List (UpdatePartition T) → List (UpdatePartition T)
  unfolding any_backend
  drop_backends backends [] = []
  drop_backends backends (p ∷ ps) =
      let rest = drop_backends backends ps in
      if any_backend p.backend backends then rest else p ∷ rest

  -- The update without the partitions of the backends, and whether anything is left.
  trim_payload : List Backend → Payload T → Option (Payload T)
  unfolding drop_backends
  trim_payload backends (updates u) =
      let kept = drop_backends backends u.partitions in
      if is_empty kept then none else some (updates (record { partitions = kept }))
  trim_payload backends p = some p

  keep_some : Option (Payload T) → List (Payload T) → List (Payload T)
  keep_some none ps = ps
  keep_some (some p) ps = p ∷ ps

  unfoldable pub trim_queued_target_backends : List Backend → List (Payload T) → List (Payload T)
  unfolding trim_payload keep_some
  trim_queued_target_backends backends [] = []
  trim_queued_target_backends backends (p ∷ ps) =
      keep_some (trim_payload backends p) (trim_queued_target_backends backends ps)

abbrev pub is_some : {A : Type 0} → Option A → Bool
is_some none = false
is_some (some a) = true

cancel : Option Bool → Option Bool
cancel none = none
cancel (some flag) = some true

abbrev is_heartbeat : {T : Tycho} → Payload T → Bool
is_heartbeat (beats h) = true
is_heartbeat _ = false

abbrev max : ℕ → ℕ → ℕ
max a b = if leb a b then b else a

module _ {T : Tycho} {W : Type 0} (env : Environment T W) where
  unfoldable pub open_gate : List Backend → Text → RecoveryGate T → RecoveryGate T
  unfolding trim_queued_target_backends queued_complete_native_blocks
  open_gate backends recovery_id g =
      let pending =
        if is_some g.open_recovery_id
        then trim_queued_target_backends T backends g.pending_payloads
        else g.pending_payloads in
      let blocks = queued_complete_native_blocks T pending in
      record {
        open_recovery_id = some recovery_id;
        cancelled = some (leb env.max_buffered_native_blocks (length blocks));
        complete_native_blocks = blocks;
        pending_payloads = pending;
        max_pending_payloads = if is_some g.open_recovery_id then g.max_pending_payloads else 0;
      }

  unfoldable pub begin_recovery : List Backend → Publisher T → Text × Publisher T
  unfolding open_gate
  begin_recovery backends p =
      let recovery_id = codes "recovery-" ++ format_u64 p.next_recovery_id in
      (
        recovery_id,
        record p {
          gate = open_gate backends recovery_id p.gate;
          next_recovery_id = (p.next_recovery_id + 1) % 2 ^ 64;
        },
      )

  note_number : Option ℕ → RecoveryGate T → RecoveryGate T
  unfolding cancel
  note_number none g = g
  note_number (some n) g =
      let blocks = insert_block n g.complete_native_blocks in
      record g {
        complete_native_blocks = blocks;
        cancelled =
            if leb env.max_buffered_native_blocks (length blocks)
            then cancel g.cancelled
            else g.cancelled;
      }

  -- The block of an accepted payload counts even where the queue is full.
  note_block : Payload T → RecoveryGate T → RecoveryGate T
  unfolding payload_native_block note_number
  note_block payload g = note_number (payload_native_block T payload) g

  push_back : Payload T → RecoveryGate T → RecoveryGate T
  push_back payload g =
      let pending = g.pending_payloads ++ payload ∷ [] in
      record g {
        pending_payloads = pending;
        max_pending_payloads = max g.max_pending_payloads (length pending);
      }

  unfoldable pub queue_payload : Payload T → RecoveryGate T → Published Unit × RecoveryGate T
  unfolding note_block push_back
  queue_payload payload g =
      if is_heartbeat payload
      then (ok tt, g)
      else (let noted = note_block payload g in
          if ltb (length g.pending_payloads) max_pending_recovery_payloads
          then (ok tt, push_back payload noted)
          else (err recovery_queue_is_full, noted))
