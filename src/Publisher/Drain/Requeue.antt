-- ===== src/Publisher/Drain/Requeue.antt =====
-- What a drain of redis_publisher.rs does with the queued payloads.
use tycho_simulation_server.Base.{
  none, List, [], ◌∷◌, ◌++◌, append_assoc, append-nil, Text, ok, err, ◌≡◌, refl, subst, sym, ap,
  ◌∙◌, ◌⊎◌, inl, inr,
}
use tycho_simulation_server.Contract.External.{Tycho}
use tycho_simulation_server.Contract.Payload.{Payload}
use tycho_simulation_server.Publisher.Errors.{Published}
use tycho_simulation_server.Publisher.State.{PublisherState}
use tycho_simulation_server.Publisher.Append.{
  Environment, Outcome, normalize_live_payload, advances_state,
}
use tycho_simulation_server.Publisher.Append.Sequence.{Unmoved, Unmoved-refl, Moved, AppendOutcome}
use tycho_simulation_server.Publisher.Append.Sent.{LiveSent, append_live-Sent}
use tycho_simulation_server.Publisher.Gate.{RecoveryGate, Publisher, Clock}
use tycho_simulation_server.Publisher.Drain.{
  accept_all, drain_queue, drain_rest, drain_front, drain_next, round, close_gate,
  drain_pending_payloads_locked,
}
use tycho_simulation_server.Publisher.Append.Normal.{
  IsPublishable, IsNormalized, normalize_live_payload-IsNormalized,
  normalize_live_payload-IsPublishable,
}
use tycho_simulation_server.Publisher.Drain.Arrivals.{
  Chosen, Chosen-append, Chosen-none, Chosen-more, all_of, accept_all-Chosen,
}

module _ {T : Tycho} {W : Type 0} (env : Environment T W) where
  -- The payloads went out one after the other, each as it is normalized, as the entry of the next
  -- sequence number.
  abbrev pub AllSent :
      Clock → List (Payload T) → PublisherState T → W → PublisherState T → W → Type 0
  AllSent clock [] s w t v = (t ≡ s) × (v ≡ w)
  AllSent clock (p ∷ ps) s w t v =
      (q : Payload T) × (id : Text) × (u : PublisherState T) × (x : W) × IsNormalized s.snapshot_id
        p q
      × Moved (advances_state q) id s u
      × LiveSent env (clock.now s.next_entry_seq) s q w (ok id, u, x)
      × AllSent clock ps u x t v

  -- The front of the queue after a failure: the payload that failed is back, as it was normalized;
  -- one that the contract does not allow is gone.
  abbrev pub Front : Text → List (Payload T) → List (Payload T) → Type 0
  Front snapshot_id [] queue = ⊥
  Front snapshot_id (p ∷ ps) queue =
      ((q : Payload T) × IsNormalized snapshot_id p q × (queue ≡ q ∷ ps))
      ⊎ ((¬ (IsPublishable p)) × (queue ≡ ps))

  -- A drain that failed: `sent` went out, and the next one did not.
  pub record Stopped (clock : Clock) (s : PublisherState T) (w : W) (queued : List (Payload T))
      (t : PublisherState T) (queue : List (Payload T)) : Type 0 where
    pub sent : List (Payload T)
    pub rest : List (Payload T)
    pub last_state : PublisherState T
    pub last_writer : W
    pub split : queued ≡ sent ++ rest
    pub all_sent : AllSent clock sent s w last_state last_writer
    pub unmoved : Unmoved last_state t
    pub front : Front last_state.snapshot_id rest queue

  -- `candidates` are handed in while it runs, and some of them are queued.
  unfoldable pub DrainOutcome :
      Clock
      → PublisherState T
      → W
      → List (Payload T)
      → List (Payload T)
      → Published Unit × PublisherState T × W × RecoveryGate T
      → Type 0
  DrainOutcome clock s w queued candidates (ok _, t, v, g) =
      (arrived : List (Payload T)) × Chosen candidates arrived
      × AllSent clock (queued ++ arrived) s w t v
      × (g.pending_payloads ≡ [])
  DrainOutcome clock s w queued candidates (err e, t, v, g) =
      (arrived : List (Payload T)) × Chosen candidates arrived
      × Stopped clock s w (queued ++ arrived) t g.pending_payloads

  longer :
      (clock : Clock) (s u : PublisherState T) (w x : W) (p q : Payload T) (id : Text)
      (ps xs cs ds : List (Payload T)) (r : Published Unit × PublisherState T × W × RecoveryGate T)
      → IsNormalized s.snapshot_id p q
      → Moved (advances_state q) id s u
      → LiveSent env (clock.now s.next_entry_seq) s q w (ok id, u, x)
      → Chosen cs xs
      → DrainOutcome clock u x (ps ++ xs) ds r
      → DrainOutcome clock s w (p ∷ ps) (cs ++ ds) r
  unfolding DrainOutcome
  longer clock s u w x p q id ps xs cs ds (ok _, t, v, g) n m l c (ys, k, a, e) = (
    xs ++ ys,
    Chosen-append cs ds xs ys c k,
    (q, id, u, x, n, m, l, subst (λ z. AllSent clock z u x t v) (append_assoc ps xs ys) a),
    e,
  )
  longer clock s u w x p q id ps xs cs ds (err e, t, v, g) n m l c (ys, k, a) = (
    xs ++ ys,
    Chosen-append cs ds xs ys c k,
    record {
      sent = p ∷ a.sent;
      rest = a.rest;
      last_state = a.last_state;
      last_writer = a.last_writer;
      split = ap (λ z. p ∷ z) (sym (append_assoc ps xs ys) ∙ a.split);
      all_sent = (q, id, u, x, n, m, l, a.all_sent);
      unmoved = a.unmoved;
      front = a.front;
    },
  )

  Stopped-Front :
      (clock : Clock) (s t : PublisherState T) (w : W) (p : Payload T)
      (ps xs queue : List (Payload T))
      → Unmoved s t
      → Front s.snapshot_id (p ∷ (ps ++ xs)) queue
      → Stopped clock s w (p ∷ (ps ++ xs)) t queue
  Stopped-Front clock s t w p ps xs queue m f = record {
    sent = [];
    rest = p ∷ (ps ++ xs);
    last_state = s;
    last_writer = w;
    split = refl;
    all_sent = (refl, refl);
    unmoved = m;
    front = f;
  }

  round-DrainOutcome :
      (clock : Clock) (s : PublisherState T) (w : W) (p q : Payload T)
      (ps xs cs ds : List (Payload T)) (h : RecoveryGate T)
      (rest : PublisherState T → W → Published Unit × PublisherState T × W × RecoveryGate T)
      (r : Outcome T W Text)
      → normalize_live_payload p s.snapshot_id ≡ ok q
      → h.pending_payloads ≡ ps ++ xs
      → Chosen cs xs
      → ((t : PublisherState T) (v : W) → DrainOutcome clock t v (ps ++ xs) ds (rest t v))
      → AppendOutcome env (advances_state q) s r × LiveSent env (clock.now s.next_entry_seq) s q w r
      → DrainOutcome clock s w (p ∷ ps) (cs ++ ds) (round env q h rest r)
  unfolding DrainOutcome round AppendOutcome
  round-DrainOutcome clock s w p q ps xs cs ds h rest (ok id, t, v) n e c k (m, l) =
      longer clock s t w v p q id ps xs cs ds _
        (normalize_live_payload-IsNormalized p s.snapshot_id q n) m l c (k t v)
  round-DrainOutcome clock s w p q ps xs cs ds h rest (err f, t, v) n e c k (m, l) = (
    xs,
    Chosen-more cs ds xs c,
    Stopped-Front clock s t w p ps xs _ m
        (inl (q, normalize_live_payload-IsNormalized p s.snapshot_id q n, ap (λ z. q ∷ z) e)),
  )

  drain_next-DrainOutcome :
      (clock : Clock) (s : PublisherState T) (w : W) (p : Payload T)
      (ps xs cs ds : List (Payload T)) (h : RecoveryGate T)
      (rest : PublisherState T → W → Published Unit × PublisherState T × W × RecoveryGate T)
      (n : Published (Payload T))
      → normalize_live_payload p s.snapshot_id ≡ n
      → h.pending_payloads ≡ ps ++ xs
      → Chosen cs xs
      → ((t : PublisherState T) (v : W) → DrainOutcome clock t v (ps ++ xs) ds (rest t v))
      → DrainOutcome clock s w (p ∷ ps) (cs ++ ds) (drain_next env clock s w h rest n)
  unfolding DrainOutcome drain_next
  drain_next-DrainOutcome clock s w p ps xs cs ds h rest (err f) n e c k = (
    xs,
    Chosen-more cs ds xs c,
    Stopped-Front clock s s w p ps xs _ (Unmoved-refl env s)
        (inr (normalize_live_payload-IsPublishable p s.snapshot_id f n, e)),
  )
  drain_next-DrainOutcome clock s w p ps xs cs ds h rest (ok q) n e c k =
      round-DrainOutcome clock s w p q ps xs cs ds h rest _ n e c k (append_live-Sent env _ _ s q w)

  drain_rest-DrainOutcome :
      (clock : Clock) (g : RecoveryGate T) (ps : List (Payload T)) (s : PublisherState T) (w : W)
      → DrainOutcome clock s w ps [] (drain_rest env clock g ps s w)
  unfolding drain_rest DrainOutcome
  drain_rest-DrainOutcome clock g [] s w = ([], refl, (refl, refl), refl)
  drain_rest-DrainOutcome clock g (p ∷ ps) s w =
      drain_next-DrainOutcome clock s w p ps [] [] [] _ (λ t v. drain_rest env clock g ps t v) _
        refl (sym (append-nil ps)) refl
        (λ t v.
          subst (λ z. DrainOutcome clock t v z [] (drain_rest env clock g ps t v))
            (sym (append-nil ps)) (drain_rest-DrainOutcome clock g ps t v))

  drain_front-DrainOutcome :
      (clock : Clock) (cs ds : List (Payload T))
      (rest : RecoveryGate T
        → PublisherState T
        → W
        → Published Unit × PublisherState T × W × RecoveryGate T)
      (g : RecoveryGate T) (ps : List (Payload T)) (s : PublisherState T) (w : W)
      → ((h : RecoveryGate T) (t : PublisherState T) (v : W)
          → DrainOutcome clock t v h.pending_payloads ds (rest h t v))
      → DrainOutcome clock s w ps (cs ++ ds) (drain_front env clock cs rest g ps s w)
  unfolding drain_front DrainOutcome
  drain_front-DrainOutcome clock cs ds rest g [] s w k =
      ([], Chosen-none (cs ++ ds), (refl, refl), refl)
  drain_front-DrainOutcome clock cs ds rest g (p ∷ ps) s w k =
      let h = accept_all env cs (record g { pending_payloads = ps }) in
      let (xs, q, c) = accept_all-Chosen env cs (record g { pending_payloads = ps }) in
      drain_next-DrainOutcome clock s w p ps xs cs ds h (rest h) _ refl q c
        (λ t v. subst (λ z. DrainOutcome clock t v z ds (rest h t v)) q (k h t v))

  pub drain_queue-DrainOutcome :
      (clock : Clock) (arrivals : List (List (Payload T))) (g : RecoveryGate T)
      (s : PublisherState T) (w : W)
      → DrainOutcome clock s w g.pending_payloads
          (all_of arrivals)
          (drain_queue env clock arrivals g s w)
  unfolding drain_queue
  drain_queue-DrainOutcome clock [] g s w = drain_rest-DrainOutcome clock g g.pending_payloads s w
  drain_queue-DrainOutcome clock (cs ∷ later) g s w =
      drain_front-DrainOutcome clock cs (all_of later) _ g g.pending_payloads s w
        (λ h t v. drain_queue-DrainOutcome clock later h t v)

  -- A drain that succeeds closes the gate and leaves no queue.
  unfoldable pub GateOutcome : Published Unit × Publisher T × W → Type 0
  GateOutcome (ok _, q, w) = (q.gate.open_recovery_id ≡ none) × (q.gate.pending_payloads ≡ [])
  GateOutcome (err e, q, w) = Unit

  close_gate-GateOutcome :
      (clock : Clock) (p : Publisher T) (s : PublisherState T) (w : W) (ps cs : List (Payload T))
      (r : Published Unit × PublisherState T × W × RecoveryGate T)
      → DrainOutcome clock s w ps cs r
      → GateOutcome (close_gate env p r)
  unfolding close_gate DrainOutcome GateOutcome
  close_gate-GateOutcome clock p s w ps cs (ok _, t, v, g) (xs, c, a, q) = (refl, q)
  close_gate-GateOutcome clock p s w ps cs (err e, t, v, g) d = tt

  pub drain-GateOutcome :
      (clock : Clock) (arrivals : List (List (Payload T))) (p : Publisher T) (w : W)
      → GateOutcome (drain_pending_payloads_locked env clock arrivals p w)
  unfolding drain_pending_payloads_locked
  drain-GateOutcome clock arrivals p w =
      close_gate-GateOutcome clock p p.state w p.gate.pending_payloads (all_of arrivals) _
        (drain_queue-DrainOutcome clock arrivals p.gate p.state w)
