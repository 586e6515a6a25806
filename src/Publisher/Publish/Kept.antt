-- ===== src/Publisher/Publish/Kept.antt =====
-- What `publish_accepted_payload` of redis_publisher.rs keeps, and when it writes.
use tycho_simulation_server.Base.{◌+◌, ℕ, Option, none, some, Text, ok, err, ◌≡◌, ◌≢◌, refl, arith}
use tycho_simulation_server.Contract.External.{Tycho}
use tycho_simulation_server.Contract.Payload.{Payload}
use tycho_simulation_server.Publisher.Errors.{
  Mode, passive, active, retired, unhealthy, PublishError, Published,
}
use tycho_simulation_server.Publisher.State.{PublisherState, record_retired, record_unhealthy}
use tycho_simulation_server.Publisher.Append.{Environment, Outcome, advances_state}
use tycho_simulation_server.Publisher.Append.Sequence.{append_live-AppendOutcome}
use tycho_simulation_server.Publisher.Gate.{Publisher, Clock, max_pending_recovery_payloads}
use tycho_simulation_server.Publisher.Gate.Bound.{queue_payload-bounded}
use tycho_simulation_server.Publisher.Keeps.{
  KeepsState, Keeps, KeepsState-refl, Keeps-refl, AppendOutcome-KeepsState,
}
use tycho_simulation_server.Publisher.Publish.{
  publish_accepted_payload, publish_through, publish_in, publish_active, append_normalized,
  finish_live, after_failure, hand_over,
}

module _ {T : Tycho} {W : Type 0} (env : Environment T W) where
  -- An active publisher stays none but active or what a failure makes of it.
  finish_live-Keeps :
      (n : ℕ) (p : Publisher T) (r : Outcome T W Text)
      → p.state.mode ≡ active
      → KeepsState p.state r.1
      → Keeps p (finish_live env n p r).1
  unfolding finish_live after_failure record_retired record_unhealthy
  finish_live-Keeps n p (ok id, s, w) m h = record { state = h; bounded = λ b. b }
  finish_live-Keeps n p (err e, s, w) m h = record {
    state = record { ordered = λ o. ground (arith, h.ordered o); stays_retired = λ r. cc };
    bounded = λ b. ground (arith, b);
  }

  append_normalized-Keeps :
      (clock : Clock) (p : Publisher T) (n : Published (Payload T)) (w : W)
      → p.state.mode ≡ active
      → Keeps p (append_normalized env clock p n w).1
  unfolding append_normalized
  append_normalized-Keeps clock p (err e) w m = Keeps-refl p
  append_normalized-Keeps clock p (ok q) w m = finish_live-Keeps _ p _ m (
      AppendOutcome-KeepsState env (advances_state q) p.state _
        (append_live-AppendOutcome env _ _ p.state q w))

  publish_active-Keeps :
      (e : Option PublishError) (clock : Clock) (q : Payload T) (p : Publisher T) (w : W)
      → p.state.mode ≡ active
      → Keeps p (publish_active env e clock q p w).1
  unfolding publish_active
  publish_active-Keeps none clock q p w m = append_normalized-Keeps clock p _ w m
  publish_active-Keeps (some e) clock q p w m = Keeps-refl p

  hand_over-KeepsState :
      (now : ℕ) (q : Payload T) (s : PublisherState T) → KeepsState s (hand_over env now q s).1
  unfolding hand_over
  hand_over-KeepsState now q s = record {
    ordered = λ o. ground (arith, o);
    stays_retired = λ r. ground (arith, r);
  }

  publish_in-Keeps :
      (m : Mode) (now : ℕ) (clock : Clock) (q : Payload T) (p : Publisher T) (w : W)
      → p.state.mode ≡ m
      → Keeps p (publish_in env m now clock q p w).1
  unfolding publish_in
  publish_in-Keeps active now clock q p w m = publish_active-Keeps p.state.last_error clock q p w m
  publish_in-Keeps passive now clock q p w m = record {
    state = hand_over-KeepsState now q p.state;
    bounded = λ b. b;
  }
  publish_in-Keeps retired now clock q p w m = Keeps-refl p
  publish_in-Keeps unhealthy now clock q p w m = Keeps-refl p

  publish_through-Keeps :
      (g : Option Text) (now : ℕ) (clock : Clock) (q : Payload T) (p : Publisher T) (w : W)
      → Keeps p (publish_through env g now clock q p w).1
  unfolding publish_through
  publish_through-Keeps none now clock q p w = publish_in-Keeps p.state.mode now clock q p w refl
  publish_through-Keeps (some id) now clock q p w = record {
    state = KeepsState-refl p.state;
    bounded = queue_payload-bounded env q p.gate (max_pending_recovery_payloads + 1) (omega arith);
  }

  pub publish_accepted_payload-Keeps :
      (now : ℕ) (clock : Clock) (q : Payload T) (p : Publisher T) (w : W)
      → Keeps p (publish_accepted_payload env now clock q p w).1
  unfolding publish_accepted_payload
  publish_accepted_payload-Keeps now clock q p w =
      publish_through-Keeps p.gate.open_recovery_id now clock q p w

  -- The publisher may write: no recovery is open, and it is active without an error.
  pub record MayWrite (p : Publisher T) : Type 0 where
    pub closed : p.gate.open_recovery_id ≡ none
    pub is_active : p.state.mode ≡ active
    pub no_error : p.state.last_error ≡ none

  -- Nothing was written, and the numbers of the stream are as they were.
  unfoldable pub Silent : Publisher T → W → Published Unit × Publisher T × W → Type 0
  Silent p w r =
      (r.2 ≡ w)
      × (r.1.state.next_entry_seq ≡ p.state.next_entry_seq)
      × (r.1.state.committed_state_version ≡ p.state.committed_state_version)
      × (r.1.state.next_state_version ≡ p.state.next_state_version)

  publish_active-Silent :
      (e : Option PublishError) (clock : Clock) (q : Payload T) (p : Publisher T) (w : W)
      → e ≢ none
      → Silent p w (publish_active env e clock q p w)
  unfolding publish_active Silent
  publish_active-Silent none clock q p w h = absurd (h refl)
  publish_active-Silent (some e) clock q p w h = (refl, refl, refl, refl)

  publish_in-Silent :
      (m : Mode) (now : ℕ) (clock : Clock) (q : Payload T) (p : Publisher T) (w : W)
      → ((m ≡ active) → p.state.last_error ≢ none)
      → Silent p w (publish_in env m now clock q p w)
  unfolding publish_in Silent hand_over
  publish_in-Silent active now clock q p w h =
      publish_active-Silent p.state.last_error clock q p w (h refl)
  publish_in-Silent passive now clock q p w h = (refl, ground arith, ground arith, ground arith)
  publish_in-Silent retired now clock q p w h = (refl, refl, refl, refl)
  publish_in-Silent unhealthy now clock q p w h = (refl, refl, refl, refl)

  publish_through-Silent :
      (g : Option Text) (now : ℕ) (clock : Clock) (q : Payload T) (p : Publisher T) (w : W)
      → ((g ≡ none) → (p.state.mode ≡ active) → p.state.last_error ≢ none)
      → Silent p w (publish_through env g now clock q p w)
  unfolding publish_through Silent
  publish_through-Silent none now clock q p w h =
      publish_in-Silent p.state.mode now clock q p w (h refl)
  publish_through-Silent (some id) now clock q p w h = (refl, refl, refl, refl)

  -- Unless no recovery is open and the publisher is active without an error, an accepted payload
  -- does not reach the writer, and takes no sequence number and no state version.
  pub publish_accepted_payload-Silent :
      (now : ℕ) (clock : Clock) (q : Payload T) (p : Publisher T) (w : W)
      → ¬ (MayWrite p)
      → Silent p w (publish_accepted_payload env now clock q p w)
  unfolding publish_accepted_payload
  publish_accepted_payload-Silent now clock q p w h =
      publish_through-Silent p.gate.open_recovery_id now clock q p w
        (λ c a e. h (record { closed = c; is_active = a; no_error = e }))
