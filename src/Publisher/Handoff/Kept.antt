-- ===== src/Publisher/Handoff/Kept.antt =====
-- What the calls of the startup handoff of redis_publisher.rs keep.
use tycho_simulation_server.Base.{ℕ, List, [], ◌∷◌, Option, none, some, Text, ok, err, arith}
use tycho_simulation_server.Contract.External.{Tycho}
use tycho_simulation_server.Contract.Payload.{Payload}
use tycho_simulation_server.Publisher.Errors.{PublishError, Published}
use tycho_simulation_server.Publisher.State.{PublisherState, StartupHandoff, record_retired}
use tycho_simulation_server.Publisher.State.Phases.{set_deployment_phase, handoff_draining}
use tycho_simulation_server.Publisher.Append.{
  Environment, Outcome, normalize_live_payload, advances_state,
}
use tycho_simulation_server.Publisher.Append.Sequence.{append_live-AppendOutcome}
use tycho_simulation_server.Publisher.Gate.{Publisher, Clock}
use tycho_simulation_server.Publisher.Keeps.{
  KeepsState, Keeps, Keeps-refl, Keeps-trans, KeepsState-refl, AppendOutcome-KeepsState,
}
use tycho_simulation_server.Publisher.Handoff.{
  FrozenHandoff, begin_startup_handoff, abort_startup_handoff, freeze_current,
  freeze_startup_handoff, handoff_failed, handoff_round, handoff_next, drain_payloads,
  drain_startup_handoff,
}

module _ {T : Tycho} where
  pub begin_handoff-Keeps :
      (id now : ℕ) (p : Publisher T) → Keeps p (begin_startup_handoff id now p).1
  unfolding begin_startup_handoff
  begin_handoff-Keeps id now p = record {
    state = record { ordered = λ o. ground (arith, o); stays_retired = λ r. ground (arith, r) };
    bounded = λ b. ground (arith, b);
  }

  pub abort_handoff-Keeps :
      (id : ℕ) (e : PublishError) (p : Publisher T) → Keeps p (abort_startup_handoff id e p)
  unfolding abort_startup_handoff
  abort_handoff-Keeps id e p = record {
    state = record { ordered = λ o. ground (arith, o); stays_retired = λ r. ground (arith, r) };
    bounded = λ b. b;
  }

module _ {T : Tycho} {W : Type 0} (env : Environment T W) where
  freeze_current-KeepsState :
      (id now : ℕ) (b : Option (StartupHandoff T)) (s : PublisherState T)
      → KeepsState s (freeze_current env id now b s).1
  unfolding freeze_current
  freeze_current-KeepsState id now none s = record { ordered = λ o. o; stays_retired = λ r. r }
  freeze_current-KeepsState id now (some b) s = record {
    ordered = λ o. ground (arith, o);
    stays_retired = λ r. ground (arith, r);
  }

  pub freeze_handoff-KeepsState :
      (id now : ℕ) (s : PublisherState T) → KeepsState s (freeze_startup_handoff env id now s).1
  unfolding freeze_startup_handoff
  freeze_handoff-KeepsState id now s =
      let k = freeze_current-KeepsState id now s.startup_handoff s in
      record {
        ordered = λ o. ground (arith, o, k.ordered o);
        stays_retired = λ r. ground (arith, r, k.stays_retired r);
      }

  moved-Keeps :
      (p : Publisher T) (s : PublisherState T)
      → KeepsState p.state s
      → Keeps p (record p { state = s })
  moved-Keeps p s k = record { state = k; bounded = λ b. b }

  handoff_failed-Keeps :
      (n : ℕ) (e : PublishError) (p : Publisher T) → Keeps p (handoff_failed env n e p)
  unfolding handoff_failed record_retired
  handoff_failed-Keeps n e p = record {
    state = record { ordered = λ o. ground (arith, o); stays_retired = λ r. ground arith };
    bounded = λ b. ground (arith, b);
  }

  handoff_round-Keeps :
      (n : ℕ) (p : Publisher T) (rest : Publisher T → W → Published Unit × Publisher T × W)
      (r : Outcome T W Text)
      → ((q : Publisher T) (w : W) → Keeps q (rest q w).1)
      → KeepsState p.state r.1
      → Keeps p (handoff_round env n p rest r).1
  unfolding handoff_round
  handoff_round-Keeps n p rest (ok id, s, w) h k =
      Keeps-trans (moved-Keeps p s k) (h (record p { state = s }) w)
  handoff_round-Keeps n p rest (err e, s, w) h k =
      Keeps-trans (moved-Keeps p s k) (handoff_failed-Keeps n e (record p { state = s }))

  handoff_next-Keeps :
      (n : ℕ) (clock : Clock) (p : Publisher T) (w : W)
      (rest : Publisher T → W → Published Unit × Publisher T × W) (m : Published (Payload T))
      → ((q : Publisher T) (w : W) → Keeps q (rest q w).1)
      → Keeps p (handoff_next env n clock p w rest m).1
  unfolding handoff_next
  handoff_next-Keeps n clock p w rest (err e) h = Keeps-refl p
  handoff_next-Keeps n clock p w rest (ok q) h = handoff_round-Keeps n p rest _ h (
      AppendOutcome-KeepsState env (advances_state q) p.state _
        (append_live-AppendOutcome env _ _ p.state q w))

  drain_payloads-Keeps :
      (n : ℕ) (clock : Clock) (ps : List (Payload T)) (p : Publisher T) (w : W)
      → Keeps p (drain_payloads env n clock ps p w).1
  unfolding drain_payloads
  drain_payloads-Keeps n clock [] p w = record {
    state = record { ordered = λ o. o; stays_retired = λ r. r };
    bounded = λ b. b;
  }
  drain_payloads-Keeps n clock (q ∷ ps) p w =
      handoff_next-Keeps n clock p w (λ t v. drain_payloads env n clock ps t v)
        (normalize_live_payload q p.state.snapshot_id) (λ t v. drain_payloads-Keeps n clock ps t v)

  pub drain_handoff-Keeps :
      (clock : Clock) (handoff : FrozenHandoff T) (p : Publisher T) (w : W)
      → Keeps p (drain_startup_handoff env clock handoff p w).1
  unfolding drain_startup_handoff
  drain_handoff-Keeps clock handoff p w =
      let q = record p { admission = set_deployment_phase handoff_draining none p.admission } in
      let k : Keeps p
          (drain_payloads env p.state.append_failure_count clock handoff.frozen_payloads q w).1 =
        Keeps-trans (record { state = KeepsState-refl p.state; bounded = λ b. b })
          (drain_payloads-Keeps p.state.append_failure_count clock handoff.frozen_payloads q w) in
      record {
        state = record {
          ordered = λ o. ground (arith, o, k.state.ordered o);
          stays_retired = λ r. ground (arith, r, k.state.stays_retired r);
        };
        bounded = λ b. ground (arith, b, k.bounded b);
      }
