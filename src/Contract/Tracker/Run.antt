-- ===== src/Contract/Tracker/Run.antt =====
-- Runs of the tracker over the envelopes of a stream: what a consumer that reached `Live` has seen.
use tycho_simulation_server.Base.{
  ℕ, suc, zero, ◌+◌, ◌-◌, ◌≤◌, ◌≡◌, refl, ap, ◌⊎◌, inl, inr, ◌∙◌, Option, some, List, [], ◌∷◌, ◌++◌,
  ok, Text, arith, ◌>>=◌, past_bind,
}
use tycho_simulation_server.Contract.External.{Tycho}
use tycho_simulation_server.Contract.Backend.{
  Backend, native, vm, rfq, BackendSet, IsSubset, extend, empty,
}
use tycho_simulation_server.Contract.Errors.{Checked}
use tycho_simulation_server.Contract.Payload.{
  Payload, chunk, ends, updates, beats, progresses, Envelope, SnapshotChunk, SnapshotEnd,
}
use tycho_simulation_server.Contract.Validate.{snapshot_backends}
use tycho_simulation_server.Contract.Validate.Backends.{extend-IsSubset}
use tycho_simulation_server.Contract.Tracker.{
  Observation, Subscription, SubscriptionState, awaiting_snapshot, snapshot, live, Tracker,
}
use tycho_simulation_server.Contract.Tracker.Observe.{Outcome, observe, completed, advanced}
use tycho_simulation_server.Contract.Tracker.Spec.{
  Accepts, start, continue, close, update, heartbeat, progress, InSequence, Continues, Closes,
  after,
}
use tycho_simulation_server.Contract.Tracker.Refinement.{observe-Accepts}

module _ {T : Tycho} where
  -- One envelope after the other, up to the first error.
  unfoldable pub observe_all : Tracker → List (Envelope T) → Checked Tracker
  observe_all t [] = ok t
  observe_all t (e ∷ es) = observe t e >>= λ r. observe_all r.1 es

  abbrev index_of : Payload T → List ℕ → List ℕ
  index_of (chunk c) rest = c.chunk_index ∷ rest
  index_of _ rest = rest

  -- The indices of the chunks, in order.
  abbrev pub chunk_indices : List (Envelope T) → List ℕ
  chunk_indices [] = []
  chunk_indices (e ∷ es) = index_of e.payload (chunk_indices es)

  abbrev backends_of : Payload T → List Backend
  backends_of (chunk c) = snapshot_backends c.partitions
  backends_of _ = []

  -- The backends that stand in some chunk.
  abbrev pub chunk_backends : List (Envelope T) → List Backend
  chunk_backends [] = []
  chunk_backends (e ∷ es) = backends_of e.payload ++ chunk_backends es

  -- All on one stream, numbered without a gap from the expected number.
  abbrev pub Consecutive : Text → Option ℕ → List (Envelope T) → Type 0
  Consecutive stream expected [] = Unit
  Consecutive stream expected (e ∷ es) =
      (stream ≡ e.stream_id)
      × (expected ≡ some e.message_seq)
      × Consecutive stream (some (e.message_seq + 1)) es

-- from, from + 1, … of the given length
abbrev pub count_up : ℕ → ℕ → List ℕ
count_up from zero = []
count_up from (suc n) = from ∷ count_up (from + 1) n

-- What an observation keeps: no more chunks than announced, and only declared backends.
abbrev pub ObservationIsValid : Observation → Type 0
ObservationIsValid o =
    (o.next_chunk_index ≤ o.total_chunks) × IsSubset o.observed_backends o.declared_backends

abbrev pub StateIsValid : SubscriptionState → Type 0
StateIsValid awaiting_snapshot = Unit
StateIsValid (snapshot o) = ObservationIsValid o
StateIsValid (live s) = Unit

empty-IsSubset : (s : BackendSet) → IsSubset empty s
empty-IsSubset s = elim [ native ↦ λ e. cc | vm ↦ λ e. cc | rfq ↦ λ e. cc ]

module _ {T : Tycho} (t : Tracker) (e : Envelope T) (r : Outcome) where
  Accepts-IsValid : Accepts t e r → StateIsValid t.state → StateIsValid (r.1).state
  Accepts-IsValid (start p st pl distinct room out) v =
      rw (ap (λ (x : Outcome). (x.1).state) out) (omega arith, empty-IsSubset _)
  Accepts-IsValid (continue o c st pl q premises out) v =
      let before : ObservationIsValid o = rw st at v in
      rw (ap (λ (x : Outcome). (x.1).state) out) (
        omega (arith, premises.wanted),
        extend-IsSubset o.observed_backends o.declared_backends (snapshot_backends c.partitions)
            before.1 premises.declared,
      )
  Accepts-IsValid (close o p st pl q premises out) v = rw (ap (λ (x : Outcome). (x.1).state) out) tt
  Accepts-IsValid (update s u st pl q premises out) v =
      rw (ap (λ (x : Outcome). (x.1).state) out) tt
  Accepts-IsValid (heartbeat s b st pl q premises out) v =
      rw (ap (λ (x : Outcome). (x.1).state) out) tt
  Accepts-IsValid (progress s p st pl q premises out) v =
      rw (ap (λ (x : Outcome). (x.1).state) out) tt

-- An accepted envelope keeps a snapshot within its announced chunks and declared backends.
pub observe-IsValid :
    {T : Tycho} (t : Tracker) (e : Envelope T) (r : Outcome)
    → StateIsValid t.state
    → observe t e ≡ ok r
    → StateIsValid (r.1).state
observe-IsValid t e r v h = Accepts-IsValid t e r ((observe-Accepts t e r).0 h) v

-- The payloads that a live consumer accepts.
abbrev pub IsDelta : {T : Tycho} → Payload T → Type 0
IsDelta (updates u) = Unit
IsDelta (beats h) = Unit
IsDelta (progresses p) = Unit
IsDelta _ = ⊥

module _ {T : Tycho} where
  IsDelta-index : (p : Payload T) (rest : List ℕ) → IsDelta p → index_of p rest ≡ rest
  IsDelta-index (updates u) rest d = refl
  IsDelta-index (beats u) rest d = refl
  IsDelta-index (progresses u) rest d = refl
  IsDelta-index p rest d = absurd d

  IsDelta-backends : (p : Payload T) → IsDelta p → backends_of p ≡ []
  IsDelta-backends (updates u) d = refl
  IsDelta-backends (beats u) d = refl
  IsDelta-backends (progresses u) d = refl
  IsDelta-backends p d = absurd d

  -- What an accepted envelope means for a live tracker.
  pub live_step :
      (s : Subscription) (t : Tracker) (e : Envelope T) (r : Outcome)
      → t.state ≡ live s
      → Accepts t e r
      → InSequence s.stream_id t.next_seq e
        × IsDelta e.payload
        × (r.1 ≡ after (live s) e.message_seq)
  live_step s t e r l (start p st pl distinct room out) = cc
  live_step s t e r l (continue o c st pl q premises out) = cc
  live_step s t e r l (close o p st pl q premises out) = cc
  live_step s t e r l (update z m st pl q premises out) =
      let same : z ≡ s = cc in (rw same at q, rw pl tt, cc)
  live_step s t e r l (heartbeat z b st pl q premises out) =
      let same : z ≡ s = cc in (rw same at q, rw pl tt, cc)
  live_step s t e r l (progress z p st pl q premises out) =
      let same : z ≡ s = cc in (rw same at q, rw pl tt, cc)

  -- What an accepted envelope means while a snapshot is open.
  pub snapshot_step :
      (o : Observation) (t : Tracker) (e : Envelope T) (r : Outcome)
      → t.state ≡ snapshot o
      → Accepts t e r
      → InSequence o.stream_id t.next_seq e
        × (((c : SnapshotChunk T) × (e.payload ≡ chunk c)
              × Continues o c
              × (r.1 ≡ after (snapshot (advanced o c)) e.message_seq))
            ⊎ ((p : SnapshotEnd) × (e.payload ≡ ends p)
                × Closes o p
                × (r.1 ≡ after (live (completed o)) e.message_seq)))
  snapshot_step o t e r l (start p st pl distinct room out) = cc
  snapshot_step o t e r l (continue z c st pl q premises out) =
      let same : z ≡ o = cc in (rw same at q, inl (c, pl, rw same at premises, cc))
  snapshot_step o t e r l (close z p st pl q premises out) =
      let same : z ≡ o = cc in (rw same at q, inr (p, pl, rw same at premises, cc))
  snapshot_step o t e r l (update z m st pl q premises out) = cc
  snapshot_step o t e r l (heartbeat z b st pl q premises out) = cc
  snapshot_step o t e r l (progress z p st pl q premises out) = cc

  -- What a live tracker accepts: deltas alone, on its stream, without a gap.
  pub record LiveRun (s : Subscription) (x : Option ℕ) (es : List (Envelope T)) (u : Tracker)
      : Type 0 where
    pub still_live : u.state ≡ live s
    pub no_index : chunk_indices es ≡ []
    pub no_backend : chunk_backends es ≡ []
    pub consecutive : Consecutive s.stream_id x es

  pub live_run :
      (s : Subscription) (t : Tracker) (es : List (Envelope T)) (u : Tracker)
      → t.state ≡ live s
      → observe_all t es ≡ ok u
      → LiveRun s t.next_seq es u
  unfolding observe_all
  live_run s t [] u l h = record {
    still_live = ground arith;
    no_index = refl;
    no_backend = refl;
    consecutive = tt;
  }
  live_run s t (e ∷ es) u l h =
      let (r, seen, rest) = past_bind (observe t e) _ h in
      let (q, delta, out) = live_step s t e r l ((observe-Accepts t e r).0 seen) in
      let ih = live_run s r.1 es u (ap (λ (x : Tracker). x.state) out) rest in
      record {
        still_live = ih.still_live;
        no_index = IsDelta-index e.payload _ delta ∙ ih.no_index;
        no_backend = rw (IsDelta-backends e.payload delta) ih.no_backend;
        consecutive =
            (q.same_stream, q.next, rw (ap (λ (x : Tracker). x.next_seq) out) at ih.consecutive);
      }

  -- What a tracker with an open snapshot has accepted when it is live: the missing chunks in
  -- order, chunks of every declared backend that was not yet observed, and then deltas.
  pub record SnapshotRun (o : Observation) (s : Subscription) (x : Option ℕ)
      (es : List (Envelope T)) : Type 0 where
    pub same : s ≡ completed o
    pub in_order :
        chunk_indices es ≡ count_up o.next_chunk_index (o.total_chunks - o.next_chunk_index)
    pub covered : IsSubset o.declared_backends (extend o.observed_backends (chunk_backends es))
    pub consecutive : Consecutive o.stream_id x es
