-- ===== src/Publisher/Commit/Kept.antt =====
-- What `publish_recovery` of redis_publisher.rs keeps of the state versions.
use tycho_simulation_server.Base.{
  ℕ, ◌≤◌, Option, none, some, List, [], ◌∷◌, Bool, false, Text, ok, err, ◌≡◌, refl, arith, Always,
  Always-ok, Bool-cases, inl, inr,
}
use tycho_simulation_server.Contract.External.{Tycho}
use tycho_simulation_server.Contract.Payload.{Payload}
use tycho_simulation_server.Contract.Boundary.{StreamEntry}
use tycho_simulation_server.Publisher.Errors.{
  Mode, passive, active, retired, unhealthy, PublishError,
}
use tycho_simulation_server.Publisher.State.{PublisherState, record_retired, record_unhealthy}
use tycho_simulation_server.Publisher.Append.{Environment, Outcome}
use tycho_simulation_server.Publisher.Append.Sequence.{AppendOutcome, append_entry-AppendOutcome}
use tycho_simulation_server.Publisher.Gate.{Clock}
use tycho_simulation_server.Publisher.Commit.{
  CancelPoint, before_entry, is_commit, record_publisher_error, ensure_active_in,
  ensure_active_publisher, append_then, append_all,
}

-- The committed version is the same, and no version is taken back.
pub record Held {T : Tycho} (s t : PublisherState T) : Type 0 where
  pub committed : t.committed_state_version ≡ s.committed_state_version
  pub allocated : s.next_state_version ≤ t.next_state_version

pub Held-trans : {T : Tycho} {s t u : PublisherState T} → Held s t → Held t u → Held s u
Held-trans a b = record {
  committed = omega (arith, a.committed, b.committed);
  allocated = omega (arith, a.allocated, b.allocated);
}

ensure_active_in-active :
    (m : Mode) (e : Option PublishError) → Always (λ _. m ≡ active) (ensure_active_in m e)
unfolding ensure_active_in
ensure_active_in-active active none = refl
ensure_active_in-active active (some e) = tt
ensure_active_in-active passive e = tt
ensure_active_in-active retired e = tt
ensure_active_in-active unhealthy e = tt

module _ {T : Tycho} where
  record_publisher_error-Held :
      (n : ℕ) (e : PublishError) (s : PublisherState T) → Held s (record_publisher_error n e s)
  unfolding record_publisher_error record_retired record_unhealthy
  record_publisher_error-Held n e s = record { committed = ground arith; allocated = ground arith }

  pub ensure_active-active :
      (s : PublisherState T) (u : Unit) → ensure_active_publisher s ≡ ok u → s.mode ≡ active
  unfolding ensure_active_publisher
  ensure_active-active s u h =
      Always-ok (λ _. s.mode ≡ active) _ u (ensure_active_in-active s.mode s.last_error) h

module _ {T : Tycho} {W : Type 0} (env : Environment T W) (digest_bytes : Text → Text)
    (clock : Clock) (arrivals : List (List (Payload T))) (cancelled : CancelPoint → Bool) where
  append_then-Held :
      (n : ℕ) (commit : Bool) (rest : Text → PublisherState T → W → Outcome T W (Option Text))
      (s : PublisherState T) (r : Outcome T W Text)
      → ((id : Text) (t : PublisherState T) (w : W) → Held t (rest id t w).1)
      → AppendOutcome env false s r
      → Held s (append_then env digest_bytes clock arrivals cancelled n commit rest r).1
  unfolding append_then AppendOutcome
  append_then-Held n commit rest s (ok id, t, w) h m =
      Held-trans (record { committed = m.committed; allocated = m.allocated }) (h id t w)
  append_then-Held n commit rest s (err e, t, w) h m =
      Held-trans (record { committed = m.committed; allocated = m.allocated })
        (record_publisher_error-Held n e t)

  pub append_all-Held :
      (n : ℕ) (last : Option Text) (es : List StreamEntry) (s : PublisherState T) (w : W)
      → Held s (append_all env digest_bytes clock arrivals cancelled n last es s w).1
  unfolding append_all
  append_all-Held n last [] s w = record { committed = refl; allocated = omega arith }
  append_all-Held n last (e ∷ es) s w = elim (Bool-cases (cancelled (before_entry e.message_seq))) [
    | inl q ↦ rw q (record { committed = refl; allocated = omega arith })
    | inr q ↦ rw q (
        append_then-Held n (is_commit e.kind) _ s _ (λ id t v. append_all-Held n (some id) es t v)
          (append_entry-AppendOutcome env _ s e w))
  ]
