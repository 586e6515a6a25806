-- ===== src/Publisher/Drain/Kept.antt =====
-- What a drain of redis_publisher.rs keeps.
use tycho_simulation_server.Base.{◌+◌, ◌≤◌, List, [], ◌∷◌, Text, length, ok, err, arith}
use tycho_simulation_server.Contract.External.{Tycho}
use tycho_simulation_server.Contract.Payload.{Payload}
use tycho_simulation_server.Publisher.Errors.{Published}
use tycho_simulation_server.Publisher.State.{PublisherState}
use tycho_simulation_server.Publisher.Append.{
  Environment, Outcome, advances_state, normalize_live_payload,
}
use tycho_simulation_server.Publisher.Append.Sequence.{append_live-AppendOutcome}
use tycho_simulation_server.Publisher.Gate.{
  Publisher, RecoveryGate, Clock, max_pending_recovery_payloads,
}
use tycho_simulation_server.Publisher.Gate.Bound.{queue_payload-bounded}
use tycho_simulation_server.Publisher.Keeps.{
  KeepsState, Keeps, KeepsState-refl, KeepsState-trans, AppendOutcome-KeepsState,
}
use tycho_simulation_server.Publisher.Drain.{
  accept_one, accept_all, drain_rest, drain_front, drain_queue, drain_next, round, close_gate,
  drain_pending_payloads_locked,
}

module _ {T : Tycho} {W : Type 0} (env : Environment T W) where
  accept_all-bounded :
      (cs : List (Payload T)) (g : RecoveryGate T)
      → length g.pending_payloads ≤ max_pending_recovery_payloads
      → length (accept_all env cs g).pending_payloads ≤ max_pending_recovery_payloads
  unfolding accept_all accept_one
  accept_all-bounded [] g h = h
  accept_all-bounded (c ∷ cs) g h = accept_all-bounded cs (accept_one env c g) (
      ground
        (arith, h, queue_payload-bounded env c g max_pending_recovery_payloads (omega arith) h))

  -- The state is kept, and so is the bound.
  DrainKeeps :
      List (Payload T)
      → PublisherState T
      → Published Unit × PublisherState T × W × RecoveryGate T
      → Type 0
  DrainKeeps ps s r =
      KeepsState s r.1
      × (length ps ≤ max_pending_recovery_payloads + 1
          → length r.3.pending_payloads ≤ max_pending_recovery_payloads + 1)

  -- The queue behind the popped payload.
  Popped : List (Payload T) → RecoveryGate T → Type 0
  Popped ps h =
      length ps ≤ max_pending_recovery_payloads
      → length h.pending_payloads ≤ max_pending_recovery_payloads

  round-DrainKeeps :
      (p q : Payload T) (ps : List (Payload T)) (h : RecoveryGate T) (s : PublisherState T)
      (rest : PublisherState T → W → Published Unit × PublisherState T × W × RecoveryGate T)
      (r : Outcome T W Text)
      → Popped ps h
      → ((t : PublisherState T) (w : W) → DrainKeeps h.pending_payloads t (rest t w))
      → KeepsState s r.1
      → DrainKeeps (p ∷ ps) s (round env q h rest r)
  unfolding DrainKeeps Popped round
  round-DrainKeeps p q ps h s rest (ok id, t, w) b k m =
      (KeepsState-trans m (k t w).0, λ l. (k t w).1 (omega (arith, b (omega (arith, l)))))
  round-DrainKeeps p q ps h s rest (err e, t, w) b k m =
      (m, λ l. omega (arith, b (omega (arith, l))))

  drain_next-DrainKeeps :
      (clock : Clock) (p : Payload T) (ps : List (Payload T)) (h : RecoveryGate T)
      (s : PublisherState T) (w : W)
      (rest : PublisherState T → W → Published Unit × PublisherState T × W × RecoveryGate T)
      (n : Published (Payload T))
      → Popped ps h
      → ((t : PublisherState T) (w : W) → DrainKeeps h.pending_payloads t (rest t w))
      → DrainKeeps (p ∷ ps) s (drain_next env clock s w h rest n)
  unfolding DrainKeeps Popped drain_next
  drain_next-DrainKeeps clock p ps h s w rest (err e) b k =
      (KeepsState-refl s, λ l. omega (arith, b (omega (arith, l))))
  drain_next-DrainKeeps clock p ps h s w rest (ok q) b k = round-DrainKeeps p q ps h s rest _ b k (
      AppendOutcome-KeepsState env (advances_state q) s _ (append_live-AppendOutcome env _ _ s q w))

  drain_rest-DrainKeeps :
      (clock : Clock) (g : RecoveryGate T) (ps : List (Payload T)) (s : PublisherState T) (w : W)
      → DrainKeeps ps s (drain_rest env clock g ps s w)
  unfolding DrainKeeps Popped drain_rest
  drain_rest-DrainKeeps clock g [] s w = (KeepsState-refl s, λ l. omega arith)
  drain_rest-DrainKeeps clock g (p ∷ ps) s w =
      drain_next-DrainKeeps clock p ps (record g { pending_payloads = ps }) s w
        (λ t v. drain_rest env clock g ps t v) (normalize_live_payload p s.snapshot_id) (λ l. l)
        (λ t v. drain_rest-DrainKeeps clock g ps t v)

  drain_front-DrainKeeps :
      (clock : Clock) (cs : List (Payload T))
      (rest : RecoveryGate T
        → PublisherState T
        → W
        → Published Unit × PublisherState T × W × RecoveryGate T)
      (g : RecoveryGate T) (ps : List (Payload T)) (s : PublisherState T) (w : W)
      → ((h : RecoveryGate T) (t : PublisherState T) (v : W)
          → DrainKeeps h.pending_payloads t (rest h t v))
      → DrainKeeps ps s (drain_front env clock cs rest g ps s w)
  unfolding DrainKeeps Popped drain_front
  drain_front-DrainKeeps clock cs rest g [] s w k = (KeepsState-refl s, λ l. omega arith)
  drain_front-DrainKeeps clock cs rest g (p ∷ ps) s w k =
      let h = accept_all env cs (record g { pending_payloads = ps }) in
      drain_next-DrainKeeps clock p ps h s w (rest h) (normalize_live_payload p s.snapshot_id)
        (λ l. accept_all-bounded cs (record g { pending_payloads = ps }) l) (k h)

  drain_queue-DrainKeeps :
      (clock : Clock) (arrivals : List (List (Payload T))) (g : RecoveryGate T)
      (s : PublisherState T) (w : W)
      → DrainKeeps g.pending_payloads s (drain_queue env clock arrivals g s w)
  unfolding drain_queue
  drain_queue-DrainKeeps clock [] g s w = drain_rest-DrainKeeps clock g g.pending_payloads s w
  drain_queue-DrainKeeps clock (cs ∷ later) g s w =
      drain_front-DrainKeeps clock cs (λ h t v. drain_queue env clock later h t v) g
        g.pending_payloads s w (λ h t v. drain_queue-DrainKeeps clock later h t v)

  close_gate-Keeps :
      (p : Publisher T) (r : Published Unit × PublisherState T × W × RecoveryGate T)
      → DrainKeeps p.gate.pending_payloads p.state r
      → Keeps p (close_gate env p r).1
  unfolding DrainKeeps close_gate
  close_gate-Keeps p (ok _, s, w, g) (k, l) = record { state = k; bounded = l }
  close_gate-Keeps p (err e, s, w, g) (k, l) = record { state = k; bounded = l }

  pub drain-Keeps :
      (clock : Clock) (arrivals : List (List (Payload T))) (p : Publisher T) (w : W)
      → Keeps p (drain_pending_payloads_locked env clock arrivals p w).1
  unfolding drain_pending_payloads_locked
  drain-Keeps clock arrivals p w =
      close_gate-Keeps p _ (drain_queue-DrainKeeps clock arrivals p.gate p.state w)
