-- ===== src/Publisher/Calls.antt =====
-- The publisher of redis_publisher.rs under any sequence of its calls.
pub mod Kept
use tycho_simulation_server.Base.{ℕ, List, [], ◌∷◌, Bool, false, none, Text, Result}
use tycho_simulation_server.Contract.External.{Tycho}
use tycho_simulation_server.Contract.Backend.{Backend}
use tycho_simulation_server.Contract.Payload.{Payload}
use tycho_simulation_server.Publisher.Fence.{WriterInspection}
use tycho_simulation_server.Publisher.Errors.{Mode, passive, WriterError, PublishError}
use tycho_simulation_server.Publisher.State.{new_publisher}
use tycho_simulation_server.Publisher.State.Phases.{new_admission, warming}
use tycho_simulation_server.Publisher.Append.{Environment}
use tycho_simulation_server.Publisher.Gate.{
  closed_gate, Publisher, RecoveryGate, Clock, begin_recovery,
}
use tycho_simulation_server.Publisher.Publish.{publish_accepted_payload}
use tycho_simulation_server.Publisher.Drain.{drain_pending_payloads_locked}
use tycho_simulation_server.Publisher.Lease.{
  verify_writer_fence_locked, renew_lease, promote_locked, recover_writer, self_fence,
}
use tycho_simulation_server.Publisher.Recovery.{RecoveryTransaction}
use tycho_simulation_server.Publisher.Handoff.{
  FrozenHandoff, begin_startup_handoff, abort_startup_handoff, freeze_startup_handoff,
  drain_startup_handoff,
}
use tycho_simulation_server.Publisher.Commit.{CancelPoint, publish_recovery}

-- A call, with the times and the writer's replies that it meets.
pub data Call (T : Tycho) : Type 0 where
  accepts : ℕ → Clock → Payload T → Call T
  begins : List Backend → Call T
  drains : Clock → List (List (Payload T)) → Call T
  verifies : Result WriterError Unit → Call T
  renews : Result WriterError Unit → Result WriterError WriterInspection → Call T
  promotes : ℕ → List Backend → Text → Result WriterError ℕ → Call T
  recovers_writer : ℕ → List Backend → Text → Result WriterError ℕ → Call T
  fences : Text → Call T
  begins_handoff : ℕ → ℕ → Call T
  aborts_handoff : ℕ → PublishError → Call T
  freezes_handoff : ℕ → ℕ → Call T
  drains_handoff : Clock → FrozenHandoff T → Call T
  publishes :
      (Text → Text)
      → Clock
      → List (List (Payload T))
      → (CancelPoint → Bool)
      → RecoveryTransaction T
      → Call T

-- BroadcasterRedisPublisher::new
unfoldable pub new_passive : {T : Tycho} → ℕ → Publisher T
unfolding new_publisher new_admission
new_passive chain_id = record {
  state = new_publisher chain_id 1 passive;
  gate = closed_gate;
  admission = new_admission warming none;
  next_recovery_id = 1;
}

module _ {T : Tycho} {W : Type 0} (env : Environment T W) where
  unfoldable pub handle : Call T → Publisher T → W → Publisher T × W
  handle (accepts now clock payload) p w =
      let r = publish_accepted_payload env now clock payload p w in (r.1, r.2)
  handle (begins backends) p w = ((begin_recovery env backends p).1, w)
  handle (drains clock arrivals) p w =
      let r = drain_pending_payloads_locked env clock arrivals p w in (r.1, r.2)
  handle (verifies reply) p w = ((verify_writer_fence_locked reply p).1, w)
  handle (renews reply inspection) p w = ((renew_lease reply inspection p).1, w)
  handle (promotes now backends reason reply) p w =
      ((promote_locked env now backends reason false reply p).1, w)
  handle (recovers_writer now backends reason reply) p w =
      ((recover_writer env now backends reason reply p).1, w)
  handle (publishes digest_bytes clock arrivals cancelled tx) p w =
      let r = publish_recovery env digest_bytes clock arrivals cancelled tx p w in (r.1, r.2)
  handle (begins_handoff id now) p w = ((begin_startup_handoff id now p).1, w)
  handle (aborts_handoff id e) p w = (abort_startup_handoff id e p, w)
  handle (freezes_handoff id now) p w =
      (record p { state = (freeze_startup_handoff env id now p.state).1 }, w)
  handle (drains_handoff clock handoff) p w =
      let r = drain_startup_handoff env clock handoff p w in (r.1, r.2)
  handle (fences reason) p w = (self_fence reason p, w)

  unfoldable pub handle_all : List (Call T) → Publisher T → W → Publisher T × W
  unfolding handle
  handle_all [] p w = (p, w)
  handle_all (c ∷ cs) p w = let r = handle c p w in handle_all cs r.0 r.1
