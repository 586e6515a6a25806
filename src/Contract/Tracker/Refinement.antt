-- ===== src/Contract/Tracker/Refinement.antt =====
-- The tracker and its specification.
use tycho_simulation_server.Base.{
  ℕ, ◌+◌, ◌<◌, ◌≡◌, refl, ◌↔◌, ◌∙◌, Option, some, ok, Text, max_u64, err_iff,
}
use tycho_simulation_server.Contract.External.{Tycho}
use tycho_simulation_server.Contract.Payload.{
  Payload, starts, chunk, ends, updates, beats, progresses, Envelope, envelope_kind,
}
use tycho_simulation_server.Contract.Tracker.{
  Observation, Subscription, SubscriptionState, awaiting_snapshot, snapshot, live, Tracker,
}
use tycho_simulation_server.Contract.Tracker.Observe.{
  Outcome, observe_in, observe, snapshot_payload, live_payload,
}
use tycho_simulation_server.Contract.Tracker.Spec.{
  Accepts, start, continue, close, update, heartbeat, progress,
}
use tycho_simulation_server.Contract.Tracker.Handlers.{
  in_sequence_iff, start_iff, chunk_iff, end_iff, update_iff, heartbeat_iff, progress_iff,
}

abbrev in_state : Option ℕ → SubscriptionState → Tracker
in_state x st = record { state = st; next_seq = x }

module _ {T : Tycho} (x : Option ℕ) (sid : Text) (n : ℕ) (r : Outcome) where
  abbrev with_payload : Payload T → Envelope T
  with_payload p = record { stream_id = sid; message_seq = n; payload = p }

  snapshot_iff :
      {Q : Type 0} (o : Observation) (p : Payload T)
      → (snapshot_payload o (n + 1) (envelope_kind (with_payload p)) p ≡ ok r) ↔ Q
      → (observe_in (snapshot o) x (with_payload p) ≡ ok r)
        ↔ ((o.stream_id ≡ sid) × ((x ≡ some n) × ((n < max_u64) × Q)))
  unfolding observe_in
  snapshot_iff o p q = in_sequence_iff o.stream_id sid x n _ r q

  live_iff :
      {Q : Type 0} (s : Subscription) (p : Payload T)
      → (live_payload s (n + 1) (envelope_kind (with_payload p)) p ≡ ok r) ↔ Q
      → (observe_in (live s) x (with_payload p) ≡ ok r)
        ↔ ((s.stream_id ≡ sid) × ((x ≡ some n) × ((n < max_u64) × Q)))
  unfolding observe_in
  live_iff s p q = in_sequence_iff s.stream_id sid x n _ r q

  sound :
      (st : SubscriptionState) (p : Payload T)
      → observe_in st x (with_payload p) ≡ ok r
      → Accepts (in_state x st) (with_payload p) r
  unfolding observe_in
  sound awaiting_snapshot (starts p) e =
      let h = (start_iff (with_payload (starts p)) p r).0 e in start p refl refl h.0 h.1.0 h.1.1
  sound awaiting_snapshot p e = cc
  sound (snapshot o) (chunk c) e =
      let h = (snapshot_iff o (chunk c) (chunk_iff o n r c)).0 e in
      continue o c refl refl (record { same_stream = h.0; next = h.1.0; room = h.1.1.0 }) h.1.1.1.0
        h.1.1.1.1
  sound (snapshot o) (ends p) e =
      let h = (snapshot_iff o (ends p) (end_iff o n r p)).0 e in
      close o p refl refl (record { same_stream = h.0; next = h.1.0; room = h.1.1.0 }) h.1.1.1.0
        h.1.1.1.1
  sound (snapshot o) p e = absurd ((snapshot_iff o p (err_iff _ r)).0 e).1.1.1
  sound (live s) (updates u) e =
      let h = (live_iff s (updates u) (update_iff s n r u)).0 e in
      update s u refl refl (record { same_stream = h.0; next = h.1.0; room = h.1.1.0 }) h.1.1.1.0
        h.1.1.1.1
  sound (live s) (beats b) e =
      let h = (live_iff s (beats b) (heartbeat_iff s n r b)).0 e in
      heartbeat s b refl refl (record { same_stream = h.0; next = h.1.0; room = h.1.1.0 }) h.1.1.1.0
        h.1.1.1.1
  sound (live s) (progresses p) e =
      let h = (live_iff s (progresses p) (progress_iff s n r p)).0 e in
      progress s p refl refl (record { same_stream = h.0; next = h.1.0; room = h.1.1.0 }) h.1.1.1.0
        h.1.1.1.1
  sound (live s) p e = absurd ((live_iff s p (err_iff _ r)).0 e).1.1.1

-- Replacing the state and the payload by equal ones.
observe_at :
    {T : Tycho} (t : Tracker) (e : Envelope T) (st : SubscriptionState) (p : Payload T)
    → t.state ≡ st
    → e.payload ≡ p
    → observe t e ≡ observe_in st t.next_seq (record e { payload = p })
unfolding observe
observe_at t e st p a b = λ i. observe_in (a i) t.next_seq (record e { payload = b i })

module _ {T : Tycho} (t : Tracker) (e : Envelope T) (r : Outcome) where
  complete : Accepts t e r → observe t e ≡ ok r
  unfolding observe_in
  complete (start p st pl distinct room out) =
      observe_at t e _ _ st pl
      ∙ (start_iff (record e { payload = starts p }) p r).1 (distinct, (room, out))
  complete (continue o c st pl q premises out) =
      observe_at t e _ _ st pl
      ∙ (snapshot_iff {T = T} t.next_seq e.stream_id e.message_seq r o (chunk c)
            (chunk_iff o e.message_seq r c)).1
          (q.same_stream, (q.next, (q.room, (premises, out))))
  complete (close o p st pl q premises out) =
      observe_at t e _ _ st pl
      ∙ (snapshot_iff {T = T} t.next_seq e.stream_id e.message_seq r o (ends p)
            (end_iff o e.message_seq r p)).1
          (q.same_stream, (q.next, (q.room, (premises, out))))
  complete (update s u st pl q premises out) =
      observe_at t e _ _ st pl
      ∙ (live_iff {T = T} t.next_seq e.stream_id e.message_seq r s (updates u)
            (update_iff s e.message_seq r u)).1
          (q.same_stream, (q.next, (q.room, (premises, out))))
  complete (heartbeat s b st pl q premises out) =
      observe_at t e _ _ st pl
      ∙ (live_iff {T = T} t.next_seq e.stream_id e.message_seq r s (beats b)
            (heartbeat_iff s e.message_seq r b)).1
          (q.same_stream, (q.next, (q.room, (premises, out))))
  complete (progress s p st pl q premises out) =
      observe_at t e _ _ st pl
      ∙ (live_iff {T = T} t.next_seq e.stream_id e.message_seq r s (progresses p)
            (progress_iff s e.message_seq r p)).1
          (q.same_stream, (q.next, (q.room, (premises, out))))

  -- `observe` succeeds with an event and a tracker exactly when the specification has that
  -- transition: the code accepts all that it should, and nothing else.
  pub observe-Accepts : (observe t e ≡ ok r) ↔ Accepts t e r
  observe-Accepts = (
    λ h. sound t.next_seq e.stream_id e.message_seq r t.state e.payload (unfold observe in h),
    complete,
  )
