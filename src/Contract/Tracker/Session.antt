-- ===== src/Contract/Tracker/Session.antt =====
-- Whole sessions of the tracker, from the first envelope to `Live`, and what it refuses.
use tycho_simulation_server.Base.{
  ℕ, suc, ◌+◌, ◌-◌, ◌<◌, ◌≡◌, refl, ap, inl, inr, ◌∙◌, sym, some, List, [], ◌∷◌, ◌++◌, ok, arith,
  past_bind,
}
use tycho_simulation_server.Contract.External.{Tycho}
use tycho_simulation_server.Contract.Backend.{
  Backend, BackendSet, IsSubset, extend, from_list, insert,
}
use tycho_simulation_server.Contract.Payload.{starts, Envelope, SnapshotStart}
use tycho_simulation_server.Contract.Validate.{snapshot_backends}
use tycho_simulation_server.Contract.Tracker.{
  Observation, Subscription, snapshot, live, Tracker, new_tracker,
}
use tycho_simulation_server.Contract.Tracker.Observe.{Outcome, observe, completed, opened, advanced}
use tycho_simulation_server.Contract.Tracker.Spec.{
  Accepts, start, continue, close, update, heartbeat, progress, after,
}
use tycho_simulation_server.Contract.Tracker.Refinement.{observe-Accepts}
use tycho_simulation_server.Contract.Tracker.Run.{
  observe_all, chunk_indices, chunk_backends, Consecutive, count_up, live_run, snapshot_step,
  SnapshotRun,
}

extend-append :
    (s : BackendSet) (xs ys : List Backend) → extend s (xs ++ ys) ≡ extend (extend s xs) ys
unfolding extend
extend-append s [] ys = refl
extend-append s (x ∷ xs) ys = extend-append (insert x s) xs ys

count_up-step : (i n : ℕ) → i < n → count_up i (n - i) ≡ i ∷ count_up (i + 1) (n - (i + 1))
count_up-step i n h = let e : n - i ≡ suc (n - (i + 1)) = omega arith in rw e refl

count_up-done : (i n : ℕ) → i ≡ n → count_up i (n - i) ≡ []
count_up-done i n h = let e : n - i ≡ 0 = omega arith in rw e refl

module _ {T : Tycho} where
  pub snapshot_run :
      (o : Observation) (s : Subscription) (t : Tracker) (es : List (Envelope T)) (u : Tracker)
      → t.state ≡ snapshot o
      → u.state ≡ live s
      → observe_all t es ≡ ok u
      → SnapshotRun o s t.next_seq es
  unfolding observe_all
  snapshot_run o s t [] u l f h = ground arith
  snapshot_run o s t (e ∷ es) u l f h =
      let (r, seen, rest) = past_bind (observe t e) _ h in
      let (q, shape) = snapshot_step o t e r l ((observe-Accepts t e r).0 seen) in
      elim shape [
        | inl (c, pl, premises, out) ↦
            let ih =
              snapshot_run (advanced o c) s r.1 es u (ap (λ (x : Tracker). x.state) out) f rest in
            record {
              same = ih.same;
              in_order = rw pl (
                  cc (
                    ih.in_order,
                    premises.in_turn,
                    count_up-step o.next_chunk_index o.total_chunks premises.wanted,
                  ));
              covered = rw pl (
                  rw
                    (extend-append o.observed_backends (snapshot_backends c.partitions)
                      (chunk_backends es))
                    ih.covered);
              consecutive = (
                q.same_stream,
                q.next,
                rw (ap (λ (x : Tracker). x.next_seq) out) at ih.consecutive,
              );
            }
        | inr (p, pl, premises, out) ↦
            let run = live_run (completed o) r.1 es u (ap (λ (x : Tracker). x.state) out) rest in
            record {
              same = cc (run.still_live, f);
              in_order = rw pl (
                  run.no_index
                  ∙ sym (count_up-done o.next_chunk_index o.total_chunks premises.all_chunks));
              covered = rw pl (rw run.no_backend (unfold extend in premises.all_backends));
              consecutive = (
                q.same_stream,
                q.next,
                rw (ap (λ (x : Tracker). x.next_seq) out) at run.consecutive,
              );
            }
      ]

sub-zero : (n : ℕ) → n - 0 ≡ n
sub-zero n = omega arith

-- What a new tracker has accepted when it is live.
pub record SessionOf {T : Tycho} (first : Envelope T) (es : List (Envelope T)) (s : Subscription)
    : Type 0 where
  pub start_of : SnapshotStart
  pub starts_with : first.payload ≡ starts start_of
  pub same_stream : s.stream_id ≡ first.stream_id
  pub same_chain : s.chain_id ≡ start_of.chain_id
  pub same_snapshot : s.snapshot_id ≡ start_of.snapshot_id
  pub same_backends : s.declared_backends ≡ from_list start_of.backends
  -- Every announced chunk came, once and in order.
  pub in_order : chunk_indices es ≡ count_up 0 start_of.total_chunks
  -- Every declared backend stands in some chunk.
  pub covered : IsSubset s.declared_backends (from_list (chunk_backends es))
  -- All on the stream of the first envelope, without a gap in the numbers.
  pub consecutive : Consecutive first.stream_id (some (first.message_seq + 1)) es

first_step :
    {T : Tycho} (e : Envelope T) (r : Outcome)
    → Accepts new_tracker e r
    → (p : SnapshotStart) × (e.payload ≡ starts p)
      × (r.1 ≡ after (snapshot (opened e p)) e.message_seq)
first_step e r (start p st pl distinct room out) = (p, pl, cc)
first_step e r (continue o c st pl q premises out) = cc
first_step e r (close o p st pl q premises out) = cc
first_step e r (update s u st pl q premises out) = cc
first_step e r (heartbeat s b st pl q premises out) = cc
first_step e r (progress s p st pl q premises out) = cc

-- A tracker that went from its initial state to `Live` has seen a snapshot start, each announced
-- chunk exactly once and in order, a chunk partition of every declared backend, and no gap in the
-- sequence numbers of one stream, from the start on and through all later envelopes.
pub observe_all-SessionOf :
    {T : Tycho} (first : Envelope T) (es : List (Envelope T)) (s : Subscription) (u : Tracker)
    → u.state ≡ live s
    → observe_all new_tracker (first ∷ es) ≡ ok u
    → SessionOf first es s
unfolding observe_all from_list
observe_all-SessionOf {T} first es s u f h =
    let (r, seen, rest) = past_bind (observe new_tracker first) _ h in
    let (p, pl, out) = first_step first r ((observe-Accepts new_tracker first r).0 seen) in
    let run = snapshot_run (opened first p) s r.1 es u (ap (λ (x : Tracker). x.state) out) f rest in
    record {
      start_of = p;
      starts_with = pl;
      same_stream = ap (λ (x : Subscription). x.stream_id) run.same;
      same_chain = ap (λ (x : Subscription). x.chain_id) run.same;
      same_snapshot = ap (λ (x : Subscription). x.snapshot_id) run.same;
      same_backends = ap (λ (x : Subscription). x.declared_backends) run.same;
      in_order = run.in_order ∙ ap (count_up 0) (sub-zero p.total_chunks);
      covered = rw (ap (λ (x : Subscription). x.declared_backends) run.same) run.covered;
      consecutive = rw (ap (λ (x : Tracker). x.next_seq) out) at run.consecutive;
    }
