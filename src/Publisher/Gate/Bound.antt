-- ===== src/Publisher/Gate/Bound.antt =====
-- The length of the queue of redis_publisher.rs.
use tycho_simulation_server.Base.{
  ap, Bool-cases, ◌⊎◌, inl, inr, ltb, ◌++◌, ℕ, suc, ◌≤◌, List, [], ◌∷◌, Option, none, some, length,
  length-append, ◌≡◌, refl, arith,
}
use tycho_simulation_server.Contract.External.{Tycho}
use tycho_simulation_server.Contract.Backend.{Backend}
use tycho_simulation_server.Contract.Payload.{Payload}
use tycho_simulation_server.Publisher.Append.{Environment}
use tycho_simulation_server.Publisher.Gate.{
  is_heartbeat, Publisher, RecoveryGate, queue_payload, push_back, note_block, note_number,
  payload_native_block, trim_queued_target_backends, keep_some, trim_payload, open_gate,
  begin_recovery, max_pending_recovery_payloads,
}
use tycho_simulation_server.Publisher.Keeps.{Keeps, KeepsState-refl}

module _ {T : Tycho} where
  keep_some-length :
      (p : Option (Payload T)) (ps : List (Payload T)) → length (keep_some T p ps) ≤ suc (length ps)
  unfolding keep_some
  keep_some-length none ps = omega arith
  keep_some-length (some p) ps = omega arith

  trim-length :
      (backends : List Backend) (ps : List (Payload T))
      → length (trim_queued_target_backends T backends ps) ≤ length ps
  unfolding trim_queued_target_backends
  trim-length backends [] = omega arith
  trim-length backends (p ∷ ps) = omega (
    arith,
    trim-length backends ps,
    keep_some-length (trim_payload T backends p) (trim_queued_target_backends T backends ps),
  )

module _ {T : Tycho} {W : Type 0} (env : Environment T W) where
  note_number-pending :
      (n : Option ℕ) (g : RecoveryGate T)
      → (note_number env n g).pending_payloads ≡ g.pending_payloads
  unfolding note_number
  note_number-pending none g = refl
  note_number-pending (some n) g = refl

  note_block-pending :
      (payload : Payload T) (g : RecoveryGate T)
      → (note_block env payload g).pending_payloads ≡ g.pending_payloads
  unfolding note_block
  note_block-pending payload g = note_number-pending (payload_native_block T payload) g

  pub queue_payload-bounded :
      (payload : Payload T) (g : RecoveryGate T) (n : ℕ)
      → max_pending_recovery_payloads ≤ n
      → length g.pending_payloads ≤ n
      → length (queue_payload env payload g).1.pending_payloads ≤ n
  unfolding queue_payload push_back
  queue_payload-bounded payload g n m h =
      ground
        (arith, m, h, note_block-pending payload g, length-append g.pending_payloads (payload ∷ []))

  -- A payload is queued at the end, or the queue stays.
  pub queue_payload-pending :
      (payload : Payload T) (g : RecoveryGate T)
      → ((queue_payload env payload g).1.pending_payloads ≡ g.pending_payloads)
        ⊎ ((queue_payload env payload g).1.pending_payloads ≡ g.pending_payloads ++ payload ∷ [])
  unfolding queue_payload push_back
  queue_payload-pending payload g = elim (Bool-cases (is_heartbeat payload)) [
    | inl h ↦ rw h (inl refl)
    | inr h ↦ elim (Bool-cases (ltb (length g.pending_payloads) max_pending_recovery_payloads)) [
      | inl q ↦ rw h (rw q (inr (ap (λ l. l ++ payload ∷ []) (note_block-pending payload g))))
      | inr q ↦ rw h (rw q (inl (note_block-pending payload g)))
    ]
  ]

  pub begin_recovery-Keeps :
      (backends : List Backend) (p : Publisher T) → Keeps p (begin_recovery env backends p).1
  unfolding begin_recovery open_gate
  begin_recovery-Keeps backends p = record {
    state = KeepsState-refl p.state;
    bounded = λ h. ground (arith, h, trim-length backends p.gate.pending_payloads);
  }
