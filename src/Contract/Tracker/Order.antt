-- ===== src/Contract/Tracker/Order.antt =====
-- Envelopes out of order, the replay boundary, and skipped deltas.
use tycho_simulation_server.Base.{
  ◌↔◌, ℕ, ◌+◌, ◌<◌, ◌≡◌, refl, ap, ◌≢◌, ◌∙◌, sym, Option, some, none, ok, err, Text, arith, max_u64,
  >>_iff, >>=_iff, ok_iff,
}
use tycho_simulation_server.Contract.External.{Tycho}
use tycho_simulation_server.Contract.Boundary.{ReplayBoundary}
use tycho_simulation_server.Contract.Errors.{MessageKind, unexpected_message_seq}
use tycho_simulation_server.Contract.Payload.{Payload, updates, beats, progresses, Envelope}
use tycho_simulation_server.Contract.Tracker.{
  Subscription, SubscriptionState, awaiting_snapshot, snapshot, live, Tracker, skip_live_delta,
  skip_payload, align_in, align_live_replay_boundary,
}
use tycho_simulation_server.Contract.Validate.{next_message_seq}
use tycho_simulation_server.Contract.Validate.Identity.{
  ensure_stream_id_iff, ensure_snapshot_id_iff, ensure_message_seq_ne, next_message_seq_iff,
}
use tycho_simulation_server.Contract.Tracker.Observe.{Outcome, observe, observe_in}
use tycho_simulation_server.Contract.Tracker.Spec.{
  Accepts, start, continue, close, update, heartbeat, progress, after,
}
use tycho_simulation_server.Contract.Tracker.Handlers.{in_sequence_iff}
use tycho_simulation_server.Contract.Tracker.Refinement.{observe-Accepts}
use tycho_simulation_server.Contract.Tracker.Run.{IsDelta, live_step}

-- The stream that a tracker is bound to.
abbrev pub stream_of : SubscriptionState → Option Text
stream_of awaiting_snapshot = none
stream_of (snapshot o) = some o.stream_id
stream_of (live s) = some s.stream_id

module _ {T : Tycho} where
  out_of_order :
      (st : SubscriptionState) (n : ℕ) (e : Envelope T)
      → stream_of st ≡ some e.stream_id
      → n ≢ e.message_seq
      → observe_in st (some n) e ≡ err (unexpected_message_seq n e.message_seq)
  unfolding observe_in
  out_of_order awaiting_snapshot n e b h = cc
  out_of_order (snapshot o) n e b h = rw (
    (ensure_stream_id_iff o.stream_id e.stream_id).1 (cc),
    ensure_message_seq_ne n e.message_seq h,
  )
  out_of_order (live s) n e b h = rw (
    (ensure_stream_id_iff s.stream_id e.stream_id).1 (cc),
    ensure_message_seq_ne n e.message_seq h,
  )

  -- Once bound to a stream, the tracker refuses every envelope of it that is not the next one: a
  -- gap, a duplicate and an older envelope alike, whatever the payload.
  pub observe_out_of_order :
      (t : Tracker) (n : ℕ) (e : Envelope T)
      → stream_of t.state ≡ some e.stream_id
      → t.next_seq ≡ some n
      → n ≢ e.message_seq
      → observe t e ≡ err (unexpected_message_seq n e.message_seq)
  unfolding observe
  observe_out_of_order t n e b x h = rw x (out_of_order t.state n e b h)

  accepted_stream :
      (t : Tracker) (e : Envelope T) (r : Outcome)
      → Accepts t e r
      → (stream_of (r.1).state ≡ some e.stream_id) × ((r.1).next_seq ≡ some (e.message_seq + 1))
  accepted_stream t e r (start p st pl distinct room out) = ground arith
  accepted_stream t e r (continue o c st pl q premises out) = ground (arith, q.same_stream)
  accepted_stream t e r (close o p st pl q premises out) = ground (arith, q.same_stream)
  accepted_stream t e r (update s u st pl q premises out) = ground (arith, q.same_stream)
  accepted_stream t e r (heartbeat s b st pl q premises out) = ground (arith, q.same_stream)
  accepted_stream t e r (progress s p st pl q premises out) = ground (arith, q.same_stream)

  skip_delta :
      (s : Subscription) (n : ℕ) (kind : MessageKind) (p : Payload T)
      → IsDelta p
      → skip_payload s n kind p ≡ ok (record { state = live s; next_seq = some n })
  unfolding skip_payload
  skip_delta s n kind (updates u) d = refl
  skip_delta s n kind (beats u) d = refl
  skip_delta s n kind (progresses u) d = refl
  skip_delta s n kind p d = absurd d

  skip_at :
      (t : Tracker) (s : Subscription) (e : Envelope T)
      → t.state ≡ live s
      → skip_live_delta t e ≡ skip_live_delta (record { state = live s; next_seq = t.next_seq }) e
  skip_at t s e h = λ i. skip_live_delta (record { state = h i; next_seq = t.next_seq }) e

  -- Where a live tracker accepts an envelope, skipping the envelope leaves the same tracker.
  pub skip_live_delta-observe :
      (t : Tracker) (s : Subscription) (e : Envelope T) (r : Outcome)
      → t.state ≡ live s
      → observe t e ≡ ok r
      → skip_live_delta t e ≡ ok r.1
  unfolding skip_live_delta
  skip_live_delta-observe t s e r l h =
      let (q, delta, out) = live_step s t e r l ((observe-Accepts t e r).0 h) in
      skip_at t s e l
      ∙ (in_sequence_iff s.stream_id e.stream_id t.next_seq e.message_seq _ r.1 (λ x. x, λ x. x)).1
          (q.same_stream, (q.next, (q.room, skip_delta s _ _ e.payload delta ∙ ap ok (sym out))))

-- A boundary that a tracker may be aligned to, and the tracker that this leaves.
pub record AlignedTo (t : Tracker) (b : ReplayBoundary) (u : Tracker) : Type 0 where
  pub subscription : Subscription
  pub was_live : t.state ≡ live subscription
  pub same_stream : subscription.stream_id ≡ b.stream_id
  pub same_snapshot : subscription.snapshot_id ≡ b.snapshot_id
  pub room : b.exclusive_message_seq < max_u64
  pub expects_next : u ≡ after (live subscription) b.exclusive_message_seq

align_iff :
    (s : Subscription) (b : ReplayBoundary) (u : Tracker)
    → (align_in (live s) b ≡ ok u) ↔ (
        (s.stream_id ≡ b.stream_id)
        × (s.snapshot_id ≡ b.snapshot_id)
        × (b.exclusive_message_seq < max_u64)
        × (u ≡ after (live s) b.exclusive_message_seq))
unfolding align_in
align_iff s b u =
    let checks = >>_iff _ _ u (ensure_stream_id_iff s.stream_id b.stream_id) (
      >>_iff _ _ u (ensure_snapshot_id_iff s.snapshot_id b.snapshot_id) (
        >>=_iff (next_message_seq b.exclusive_message_seq) _ (b.exclusive_message_seq + 1) u
          (next_message_seq_iff b.exclusive_message_seq) (ok_iff _ u))) in
    (
      λ h. let g = checks.0 h in (g.0, g.1.0, g.1.1.0, g.1.1.1),
      λ g. checks.1 (g.0, (g.1, (g.2, g.3))),
    )

align_sound :
    (st : SubscriptionState) (x : Option ℕ) (b : ReplayBoundary) (u : Tracker)
    → align_in st b ≡ ok u
    → AlignedTo (record { state = st; next_seq = x }) b u
unfolding align_in
align_sound awaiting_snapshot x b u h = cc
align_sound (snapshot o) x b u h = cc
align_sound (live s) x b u h =
    let (stream, snap, room, out) = (align_iff s b u).0 h in
    record {
      subscription = s;
      was_live = refl;
      same_stream = stream;
      same_snapshot = snap;
      room = room;
      expects_next = out;
    }

-- A tracker is aligned exactly when it is live on the stream and the snapshot of the boundary; it
-- then expects the first envelope behind the boundary, and its subscription is unchanged.
pub align_live_replay_boundary-AlignedTo :
    (t : Tracker) (b : ReplayBoundary) (u : Tracker)
    → (align_live_replay_boundary t b ≡ ok u) ↔ AlignedTo t b u
unfolding align_live_replay_boundary
align_live_replay_boundary-AlignedTo t b u = (
  align_sound t.state t.next_seq b u,
  λ a.
      (λ i. align_in (a.was_live i) b)
      ∙ unfold align_in in
        (align_iff a.subscription b u).1 (a.same_stream, a.same_snapshot, a.room, a.expects_next),
)
