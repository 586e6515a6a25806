-- ===== src/Publisher/Append/Normal.antt =====
-- What `normalize_live_payload` of redis_publisher.rs makes of a payload.
use tycho_simulation_server.Base.{
  Result-cases, Always, Always-ok, false, Text, ok, err, ◌≡◌, refl, inl, inr, arith, is_blank,
  Bool-cases,
}
use tycho_simulation_server.Contract.External.{Tycho}
use tycho_simulation_server.Contract.Payload.{
  Payload, updates, beats, progresses, starts, chunk, ends, recovery_starts, recovers, catches_up,
  commits,
}
use tycho_simulation_server.Contract.Backend.{sort_by_key}
use tycho_simulation_server.Contract.Recovery.{sort}
use tycho_simulation_server.Contract.Validate.{
  validate_heartbeat_backend_heads, validate_progress_backends,
}
use tycho_simulation_server.Publisher.Errors.{PublishError}
use tycho_simulation_server.Publisher.Append.{normalize_live_payload, new_heartbeat, new_progress}

module _ {T : Tycho} where
  -- A live payload that the contract allows: a heartbeat or a progress with backends, none of them
  -- twice, and a progress with a reason.
  abbrev pub IsPublishable : Payload T → Type 0
  IsPublishable (updates u) = Unit
  IsPublishable (beats h) =
      validate_heartbeat_backend_heads (sort_by_key (λ b. b.backend) h.backend_heads) ≡ ok tt
  IsPublishable (progresses p) =
      (validate_progress_backends (sort p.backends) ≡ ok tt) × (is_blank p.reason ≡ false)
  IsPublishable _ = ⊥

  -- What goes out of a payload: an update as it is; a heartbeat or a progress for the publisher's own
  -- snapshot, in the order of the backends.
  abbrev pub IsNormalized : Text → Payload T → Payload T → Type 0
  IsNormalized id (updates u) (updates v) = v ≡ u
  IsNormalized id (beats h) (beats k) = k ≡ record {
    chain_id = h.chain_id;
    snapshot_id = id;
    backend_heads = sort_by_key (λ b. b.backend) h.backend_heads;
  }
  IsNormalized id (progresses p) (progresses q) = q ≡ record {
    chain_id = p.chain_id;
    snapshot_id = id;
    backends = sort p.backends;
    reason = p.reason;
  }
  IsNormalized id p q = ⊥

  payload-IsNormalized :
      (p : Payload T) (id : Text) → Always (IsNormalized id p) (normalize_live_payload p id)
  unfolding normalize_live_payload new_heartbeat new_progress
  payload-IsNormalized (updates u) id = refl
  payload-IsNormalized (beats h) id =
      elim (Result-cases
        (validate_heartbeat_backend_heads (sort_by_key (λ b. b.backend) h.backend_heads))) [
          | inl (u, q) ↦ rw q refl
          | inr (e, q) ↦ rw q tt
        ]
  payload-IsNormalized (progresses p) id =
      elim (Result-cases (validate_progress_backends (sort p.backends))) [
        | inl (u, q) ↦ elim (Bool-cases (is_blank p.reason)) [
          | inl b ↦ rw q (rw b tt)
          | inr b ↦ rw q (rw b refl)
        ]
        | inr (e, q) ↦ rw q tt
      ]
  payload-IsNormalized (starts x) id = tt
  payload-IsNormalized (chunk x) id = tt
  payload-IsNormalized (ends x) id = tt
  payload-IsNormalized (recovery_starts x) id = tt
  payload-IsNormalized (recovers x) id = tt
  payload-IsNormalized (catches_up x) id = tt
  payload-IsNormalized (commits x) id = tt

  pub normalize_live_payload-IsNormalized :
      (p : Payload T) (id : Text) (q : Payload T)
      → normalize_live_payload p id ≡ ok q
      → IsNormalized id p q
  normalize_live_payload-IsNormalized p id q h =
      Always-ok (IsNormalized id p) _ q (payload-IsNormalized p id) h

  pub normalize_live_payload-IsPublishable :
      (p : Payload T) (id : Text) (e : PublishError)
      → normalize_live_payload p id ≡ err e
      → ¬ (IsPublishable p)
  unfolding normalize_live_payload new_heartbeat new_progress
  normalize_live_payload-IsPublishable (updates u) id e h i = cc h
  normalize_live_payload-IsPublishable (beats b) id e h i = ground (arith, h, i)
  normalize_live_payload-IsPublishable (progresses p) id e h (i, j) = ground (arith, h, i, j)
  normalize_live_payload-IsPublishable (starts x) id e h i = i
  normalize_live_payload-IsPublishable (chunk x) id e h i = i
  normalize_live_payload-IsPublishable (ends x) id e h i = i
  normalize_live_payload-IsPublishable (recovery_starts x) id e h i = i
  normalize_live_payload-IsPublishable (recovers x) id e h i = i
  normalize_live_payload-IsPublishable (catches_up x) id e h i = i
  normalize_live_payload-IsPublishable (commits x) id e h i = i
