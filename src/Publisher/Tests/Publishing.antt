-- ===== src/Publisher/Tests/Publishing.antt =====
-- The theorems on the publisher's state at work, with a writer that counts its appends.
use tycho_simulation_server.Base.{
  ℕ, ◌+◌, ltb, Option, none, some, List, [], ◌∷◌, true, false, codes, ok, err, ◌≡◌, refl, arith,
  ◌⊎◌, if◌then◌else◌, ◌≤◌, max_u64, format_u64,
}
use tycho_simulation_server.Contract.Tests.{toy}
use tycho_simulation_server.Contract.Backend.{native}
use tycho_simulation_server.Contract.Payload.{Payload, progresses}
use tycho_simulation_server.Contract.Entry.{Json}
use tycho_simulation_server.Publisher.Errors.{
  passive, retired, PublishError, stale_writer, missing_fence,
}
use tycho_simulation_server.Publisher.State.{
  PublisherState, record_retired, new_publisher, activate_generation,
}
use tycho_simulation_server.Publisher.State.Phases.{
  DeploymentPhase, is_admitted, Admission, admitted_phase, warming, fatal, is_terminal,
  IsConsistent, set_phases, set_phases-keeps,
}
use tycho_simulation_server.Publisher.Append.{
  appended, failed, Environment, append_live_payload_locked,
}
use tycho_simulation_server.Publisher.Append.Sequence.{AppendOutcome}
use tycho_simulation_server.Publisher.Append.Sent.{LiveSent, append_live-Sent}
use tycho_simulation_server.Publisher.Gate.{RecoveryGate, closed_gate, Publisher, Clock}
use tycho_simulation_server.Publisher.Publish.{publish_accepted_payload}
use tycho_simulation_server.Publisher.Publish.Kept.{
  MayWrite, Silent, publish_accepted_payload-Silent,
}
use tycho_simulation_server.Publisher.Lease.{self_fence}
use tycho_simulation_server.Publisher.Keeps.{IsOrdered, IsBounded}
use tycho_simulation_server.Publisher.Calls.{
  Call, accepts, begins, drains, verifies, promotes, new_passive, handle_all,
}
use tycho_simulation_server.Publisher.Calls.Kept.{handle_all-IsBounded, handle_all-retired}
use tycho_simulation_server.Publisher.Size.{byte_len, resp_array_size}
use tycho_simulation_server.Publisher.Size.Wire.{resp_array, resp_array_size_lem}

-- Envelopes as one letter, read back as a progress.
abbrev progress_of : ℕ → Payload toy
progress_of n = progresses (record {
  chain_id = 1;
  snapshot_id = codes "chain-1-snapshot-2";
  backends = native ∷ [];
  reason = codes "tick";
})

abbrev json : Json toy
json = record {
  to_string = λ e. ok (codes "p");
  from_str = λ s.
      ok
        (record { stream_id = codes "chain-1-stream-2"; message_seq = 2; payload = progress_of 0 });
}

-- The writer takes three entries, and is stale from then on.
abbrev pub environment : Environment toy ℕ
environment = record {
  stream_key = codes "stream";
  chain_id = 1;
  maxlen = none;
  max_buffered_native_blocks = 8;
  json = json;
  to_fields = λ e. ok ((codes "kind", codes "progress") ∷ []);
  send_append = λ generation entry n.
      if ltb n 3 then (appended (codes "2-2"), n + 1) else (failed stale_writer, n);
}

abbrev pub clock : Clock
clock = record { now = λ n. 0; window = λ n. false ∷ [] }

abbrev pub promoted_state : PublisherState toy
promoted_state = activate_generation 1 2 (new_publisher 1 1 passive)

append_live-Sent_example :
    AppendOutcome environment false promoted_state
      (append_live_payload_locked environment (false ∷ []) 0 promoted_state (progress_of 0) 0)
    × LiveSent environment 0 promoted_state
        (progress_of 0)
        0
        (append_live_payload_locked environment (false ∷ []) 0 promoted_state (progress_of 0) 0)
append_live-Sent_example =
    append_live-Sent environment (false ∷ []) 0 promoted_state (progress_of 0) 0

-- The gate with two queued payloads.
abbrev queued_gate : RecoveryGate toy
queued_gate = record closed_gate {
  open_recovery_id = some (codes "recovery-1");
  pending_payloads = progress_of 0 ∷ progress_of 1 ∷ [];
}

abbrev calls : List (Call toy)
calls =
    promotes 0 (native ∷ []) (codes "start") (ok 2)
    ∷ accepts 0 clock (progress_of 0)
    ∷ begins (native ∷ [])
    ∷ accepts 0 clock (progress_of 1)
    ∷ drains clock ((progress_of 2 ∷ []) ∷ [])
    ∷ verifies (err missing_fence)
    ∷ []

handle_all-IsBounded_example :
    IsOrdered (handle_all environment calls (new_passive 1) 0).0.state
    × IsBounded (handle_all environment calls (new_passive 1) 0).0
handle_all-IsBounded_example = handle_all-IsBounded environment calls 1 0

-- A passive publisher writes nothing.
passive_silent : ¬ (MayWrite environment (new_passive {T = toy} 1))
unfolding new_passive new_publisher
passive_silent h = cc h.is_active

publish_accepted_payload-Silent_example :
    Silent environment
      (new_passive 1)
      0
      (publish_accepted_payload environment 0 clock (progress_of 0) (new_passive 1) 0)
publish_accepted_payload-Silent_example =
    publish_accepted_payload-Silent environment 0 clock (progress_of 0) (new_passive 1) 0
      passive_silent

abbrev fenced : Publisher toy
fenced = self_fence (codes "shutdown") (new_passive 1)

fenced_retired : fenced.state.mode ≡ retired
unfolding self_fence record_retired
fenced_retired = refl

handle_all-retired_example :
    (handle_all environment
      (promotes 0 (native ∷ []) (codes "start") (ok 3) ∷ [])
      fenced
      0).0.state.mode
    ≡ retired
handle_all-retired_example =
    handle_all-retired environment (promotes 0 (native ∷ []) (codes "start") (ok 3) ∷ []) fenced 0
      fenced_retired

abbrev admitted_now : Admission
admitted_now = record { admitted = true; phase = admitted_phase; last_error = none }

admitted_now-IsConsistent : IsConsistent admitted_now
unfolding is_admitted
admitted_now-IsConsistent = refl

abbrev calls_of : List (DeploymentPhase × Option PublishError)
calls_of = (warming, none) ∷ (fatal, none) ∷ []

set_phases-keeps_example :
    IsConsistent (set_phases calls_of admitted_now)
    × ((is_terminal admitted_now.phase ≡ true) → set_phases calls_of admitted_now ≡ admitted_now)
    × ((admitted_now.admitted ≡ true)
        → (set_phases calls_of admitted_now ≡ admitted_now)
          ⊎ (is_terminal (set_phases calls_of admitted_now).phase ≡ true))
set_phases-keeps_example = set_phases-keeps calls_of admitted_now admitted_now-IsConsistent

small_command : byte_len (resp_array (codes "XADD" ∷ codes "s" ∷ [])) ≤ max_u64
unfolding byte_len resp_array format_u64
small_command = omega arith

resp_array_size_lem_example :
    resp_array_size (codes "XADD" ∷ codes "s" ∷ [])
    ≡ byte_len (resp_array (codes "XADD" ∷ codes "s" ∷ []))
resp_array_size_lem_example = resp_array_size_lem (codes "XADD" ∷ codes "s" ∷ []) small_command
