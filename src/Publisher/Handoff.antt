-- ===== src/Publisher/Handoff.antt =====
-- The startup handoff of redis_publisher.rs: the payloads that are accepted while a candidate is
-- built, from `begin_startup_handoff` to `drain_startup_handoff`. An id, which the source takes from
-- a counter, is an argument.
pub mod Kept
use tycho_simulation_server.Base.{
  ℕ, ◌-◌, ◌==◌, ltb, leb, not, ◌&&◌, ◌||◌, Option, none, some, List, [], ◌∷◌, Bool, true, false,
  if◌then◌else◌, Text, length, ok, err, ◌>>=◌, ◌>>◌, ensure,
}
use tycho_simulation_server.Contract.External.{Tycho}
use tycho_simulation_server.Contract.Payload.{Payload}
use tycho_simulation_server.Publisher.Errors.{
  Mode, passive, active, retired, unhealthy, PublishError, Published, is_stale_writer_error,
  handoff_needs_passive, handoff_is_not_current, handoff_exceeded, handoff_is_frozen,
  handoff_drain_needs_active, handoff_drain_mismatch,
}
use tycho_simulation_server.Publisher.State.{
  PublisherState, StartupHandoff, saturating_succ, record_retired,
}
use tycho_simulation_server.Publisher.State.Phases.{
  set_deployment_phase, candidate_building, warming, handoff_draining, retired_phase, fatal,
}
use tycho_simulation_server.Publisher.Append.{
  Environment, Outcome, normalize_live_payload, append_live_payload_locked,
}
use tycho_simulation_server.Publisher.Gate.{Publisher, Clock, startup_handoff_abort_after}

-- FrozenStartupHandoff
pub record FrozenHandoff (T : Tycho) : Type 0 where
  pub frozen_id : ℕ
  pub frozen_payloads : List (Payload T)

abbrev is_passive : Mode → Bool
is_passive passive = true
is_passive _ = false

abbrev is_active : Mode → Bool
is_active active = true
is_active _ = false

module _ {T : Tycho} where
  -- A buffer of the id.
  abbrev has_handoff : ℕ → Option (StartupHandoff T) → Bool
  has_handoff id none = false
  has_handoff id (some b) = b.id == id

  abbrev has_frozen : ℕ → Option (StartupHandoff T) → Bool
  has_frozen id none = false
  has_frozen id (some b) = b.id == id && b.frozen

  unfoldable pub begin_startup_handoff : ℕ → ℕ → Publisher T → Published ℕ × Publisher T
  begin_startup_handoff id now p =
      if is_passive p.state.mode
      then (
        ok id,
        record p {
          state = record p.state {
            startup_handoff = some (record {
              id = id;
              started_at = now;
              payloads = [];
              complete_native_blocks = [];
              cancelled = false;
              frozen = false;
            });
          };
          admission = set_deployment_phase candidate_building none p.admission;
        },
      )
      else (err handoff_needs_passive, p)

  unfoldable pub abort_startup_handoff : ℕ → PublishError → Publisher T → Publisher T
  abort_startup_handoff id e p = record p {
    state =
        if has_handoff id p.state.startup_handoff
        then record p.state { startup_handoff = none }
        else p.state;
    admission = set_deployment_phase warming (some e) p.admission;
  }

module _ {T : Tycho} {W : Type 0} (env : Environment T W) where
  freeze_buffer : StartupHandoff T → Published (FrozenHandoff T) × StartupHandoff T
  freeze_buffer b =
      if b.cancelled
      then (err handoff_exceeded, b)
      else if b.frozen
      then (err handoff_is_frozen, b)
      else (
        ok (record { frozen_id = b.id; frozen_payloads = b.payloads }),
        record b { frozen = true; payloads = [] },
      )

  -- A buffer that is over its bounds is cancelled.
  note_bounds : ℕ → StartupHandoff T → StartupHandoff T
  note_bounds now b =
      if leb startup_handoff_abort_after (now - b.started_at)
        || leb env.max_buffered_native_blocks (length b.complete_native_blocks)
      then record b { cancelled = true }
      else b

  freeze_current :
      ℕ
      → ℕ
      → Option (StartupHandoff T)
      → PublisherState T
      → Published (FrozenHandoff T) × PublisherState T
  unfolding freeze_buffer note_bounds
  freeze_current id now none s = (err handoff_is_not_current, s)
  freeze_current id now (some b) s =
      let r = freeze_buffer (note_bounds now b) in
      if b.id == id
      then (r.0, record s { startup_handoff = some r.1 })
      else (err handoff_is_not_current, s)

  unfoldable pub freeze_startup_handoff :
      ℕ → ℕ → PublisherState T → Published (FrozenHandoff T) × PublisherState T
  unfolding freeze_current
  freeze_startup_handoff id now s =
      if is_passive s.mode
      then freeze_current id now s.startup_handoff s
      else (err handoff_needs_passive, s)

  -- A payload that cannot be appended ends the candidate.
  handoff_failed : ℕ → PublishError → Publisher T → Publisher T
  handoff_failed failures_before e p =
      if is_stale_writer_error e
      then record p {
        state = record_retired e p.state;
        admission = set_deployment_phase retired_phase (some e) p.admission;
      }
      else record p {
        state = record_retired e (record p.state {
          retry_exhaustion_count =
              if ltb failures_before p.state.append_failure_count
              then saturating_succ p.state.retry_exhaustion_count
              else p.state.retry_exhaustion_count;
        });
        admission = set_deployment_phase fatal (some e) p.admission;
      }

  handoff_round :
      ℕ
      → Publisher T
      → (Publisher T → W → Published Unit × Publisher T × W)
      → Outcome T W Text
      → Published Unit × Publisher T × W
  unfolding handoff_failed
  handoff_round failures_before p rest (ok id, s, w) = rest (record p { state = s }) w
  handoff_round failures_before p rest (err e, s, w) =
      (err e, handoff_failed failures_before e (record p { state = s }), w)

  handoff_next :
      ℕ
      → Clock
      → Publisher T
      → W
      → (Publisher T → W → Published Unit × Publisher T × W)
      → Published (Payload T)
      → Published Unit × Publisher T × W
  unfolding handoff_round
  handoff_next failures_before clock p w rest (err e) = (err e, p, w)
  handoff_next failures_before clock p w rest (ok payload) =
      let seq = p.state.next_entry_seq in
      handoff_round failures_before p rest
        (append_live_payload_locked env (clock.window seq) (clock.now seq) p.state payload w)

  drain_payloads : ℕ → Clock → List (Payload T) → Publisher T → W → Published Unit × Publisher T × W
  unfolding handoff_next
  drain_payloads failures_before clock [] p w =
      (ok tt, record p { state = record p.state { startup_handoff = none } }, w)
  drain_payloads failures_before clock (payload ∷ payloads) p w =
      handoff_next failures_before clock p w
        (λ q v. drain_payloads failures_before clock payloads q v)
        (normalize_live_payload payload p.state.snapshot_id)

  unfoldable pub drain_startup_handoff :
      Clock → FrozenHandoff T → Publisher T → W → Published Unit × Publisher T × W
  unfolding drain_payloads
  drain_startup_handoff clock handoff p w =
      let q = record p { admission = set_deployment_phase handoff_draining none p.admission } in
      let drained = drain_payloads p.state.append_failure_count clock handoff.frozen_payloads q w in
      if not (is_active p.state.mode)
      then (err handoff_drain_needs_active, q, w)
      else if has_frozen handoff.frozen_id p.state.startup_handoff
      then drained
      else (err handoff_drain_mismatch, q, w)
