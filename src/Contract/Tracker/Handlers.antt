-- ===== src/Contract/Tracker/Handlers.antt =====
-- Each handler of the tracker and the premises of its transition.
use tycho_simulation_server.Base.{
  ℕ, ◌+◌, ◌<◌, ◌≡◌, ◌↔◌, not, leb, ◌==◌, Option, some, ok, Text, arith, max_u64, text_eq,
  text_eq_iff, All, List, ◌>>◌, ◌>>=◌, >>_iff, >>=_iff, ok_iff, refuse,
}
use tycho_simulation_server.Contract.External.{Tycho}
use tycho_simulation_server.Contract.Payload.{
  SnapshotPartition, SnapshotStart, SnapshotChunk, SnapshotEnd, UpdateMessage, Heartbeat, Progress,
  starts, Envelope,
}
use tycho_simulation_server.Contract.Errors.{ContractError, Checked}
use tycho_simulation_server.Contract.Validate.{
  next_message_seq, validate_snapshot_start_backends, validate_snapshot_chunk_partitions,
  validate_declared_snapshot_chunk_backends, snapshot_backends, ensure_stream_id,
  ensure_message_seq, update_backends, head_backends, validate_declared_update_backends,
  validate_heartbeat_backend_heads, validate_declared_heartbeat_backends,
  validate_progress_backends, validate_declared_progress_backends,
}
use tycho_simulation_server.Contract.Validate.Backends.{
  Distinct, validate_unique-Distinct, Declared-iff, ensure_all_observed-IsSubset,
}
use tycho_simulation_server.Contract.Validate.Contents.{
  SnapshotContents, SnapshotContents-iff, validate_update_iff,
}
use tycho_simulation_server.Contract.Validate.Identity.{
  ensure_stream_id_iff, ensure_message_seq_iff, next_message_seq_iff, ensure_snapshot_id_iff,
  ensure_chain_id_iff,
}
use tycho_simulation_server.Contract.Tracker.{
  Observation, Subscription, snapshot, live, snapshot_started, snapshot_chunk_accepted,
  snapshot_completed, update_accepted, heartbeat_accepted, progress_accepted,
}
use tycho_simulation_server.Contract.Tracker.Observe.{
  Outcome, opened, advanced, completed, await_payload, accept_chunk, accept_end, accept_update,
  accept_heartbeat, accept_progress,
}
use tycho_simulation_server.Contract.Tracker.Spec.{
  after, Continues, Closes, UpdatesFor, BeatsFor, ProgressesFor,
}

refuse_ne_iff : (e : ContractError) (s t : Text) → (refuse (not (text_eq s t)) e ≡ ok tt) ↔ (s ≡ t)
refuse_ne_iff e s t = ground (arith, text_eq_iff s t)

refuse-leb_iff : (e : ContractError) (m n : ℕ) → (refuse (leb m n) e ≡ ok tt) ↔ (n < m)
refuse-leb_iff e m n = ground arith

refuse_neq_iff : (e : ContractError) (m n : ℕ) → (refuse (not (m == n)) e ≡ ok tt) ↔ (m ≡ n)
refuse_neq_iff e m n = ground arith

-- A check with its meaning, before the rest of a handler.
abbrev step :
    {B P Q : Type 0} {m : Checked Unit} {k : Checked B} {b : B}
    → (m ≡ ok tt) ↔ P
    → (k ≡ ok b) ↔ Q
    → ((m >> k) ≡ ok b) ↔ (P × Q)
step {m} {k} {b} p q = >>_iff m k b p q

-- The checks before a payload is looked at, with their meaning.
pub in_sequence_iff :
    {B Q : Type 0} (stream_id found : Text) (expected : Option ℕ) (seq : ℕ) (handle : ℕ → Checked B)
    (r : B)
    → (handle (seq + 1) ≡ ok r) ↔ Q
    → ((do
      ensure_stream_id stream_id found
      ensure_message_seq expected seq
      next ← next_message_seq seq
      handle next)
        ≡ ok r)
      ↔ ((stream_id ≡ found) × ((expected ≡ some seq) × ((seq < max_u64) × Q)))
in_sequence_iff stream_id found expected seq handle r q =
    step (ensure_stream_id_iff stream_id found) (
      step (ensure_message_seq_iff expected seq)
        (>>=_iff (next_message_seq seq) handle (seq + 1) r (next_message_seq_iff seq) q))

chunk_partitions_iff :
    (T : Tycho) (ps : List (SnapshotPartition T))
    → (validate_snapshot_chunk_partitions T ps ≡ ok tt)
      ↔ (Distinct (snapshot_backends ps) × All SnapshotContents ps)
unfolding validate_snapshot_chunk_partitions
chunk_partitions_iff T ps =
    step (validate_unique-Distinct _ (snapshot_backends ps)) (SnapshotContents-iff T ps)

module _ {T : Tycho} (o : Observation) (seq : ℕ) (r : Outcome) where
  pub chunk_iff :
      (c : SnapshotChunk T)
      → (accept_chunk o (seq + 1) c ≡ ok r) ↔ (
          Continues o c
          × (r ≡ (
            snapshot_chunk_accepted c.snapshot_id c.chunk_index,
            after (snapshot (advanced o c)) seq,
          )))
  unfolding accept_chunk validate_declared_snapshot_chunk_backends
  chunk_iff c =
      let checks = step (refuse_ne_iff _ c.snapshot_id o.snapshot_id) (
        step (refuse-leb_iff _ o.total_chunks o.next_chunk_index) (
          step (chunk_partitions_iff T c.partitions) (
            step (Declared-iff _ (snapshot_backends c.partitions) o.declared_backends)
              (step (refuse_neq_iff _ c.chunk_index o.next_chunk_index) (ok_iff _ r))))) in
      (
        λ e.
            let h = checks.0 e in
            (
              record {
                same_snapshot = h.0;
                wanted = h.1.0;
                in_turn = h.1.1.1.1.0;
                distinct = h.1.1.0.0;
                declared = h.1.1.1.0;
                contents = h.1.1.0.1;
              },
              h.1.1.1.1.1,
            ),
        λ h. checks.1 (
          h.0.same_snapshot,
          (h.0.wanted, ((h.0.distinct, h.0.contents), (h.0.declared, (h.0.in_turn, h.1)))),
        ),
      )

pub end_iff :
    (o : Observation) (seq : ℕ) (r : Outcome) (p : SnapshotEnd)
    → (accept_end o (seq + 1) p ≡ ok r)
      ↔ (Closes o p × (r ≡ (snapshot_completed p.snapshot_id, after (live (completed o)) seq)))
unfolding accept_end
end_iff o seq r p =
    let checks = step (refuse_ne_iff _ p.snapshot_id o.snapshot_id) (
      step (refuse_neq_iff _ o.next_chunk_index o.total_chunks) (
        step (ensure_all_observed-IsSubset o.declared_backends o.observed_backends)
          (ok_iff _ r))) in
    (
      λ e.
          let h = checks.0 e in
          (record { same_snapshot = h.0; all_chunks = h.1.0; all_backends = h.1.1.0 }, h.1.1.1),
      λ h. checks.1 (h.0.same_snapshot, (h.0.all_chunks, (h.0.all_backends, h.1))),
    )

pub start_iff :
    {T : Tycho} (e : Envelope T) (p : SnapshotStart) (r : Outcome)
    → (await_payload e (starts p) ≡ ok r) ↔ (
        Distinct p.backends
        × ((e.message_seq < max_u64)
            × (r ≡ (snapshot_started p.snapshot_id, after (snapshot (opened e p)) e.message_seq))))
unfolding await_payload validate_snapshot_start_backends
start_iff e p r = step (validate_unique-Distinct _ p.backends) (
    >>=_iff (next_message_seq e.message_seq) _ (e.message_seq + 1) r
      (next_message_seq_iff e.message_seq) (ok_iff _ r))

module _ (s : Subscription) (seq : ℕ) (r : Outcome) where
  pub update_iff :
      {T : Tycho} (u : UpdateMessage T)
      → (accept_update s (seq + 1) u ≡ ok r)
        ↔ (UpdatesFor s u × (r ≡ (update_accepted, after (live s) seq)))
  unfolding accept_update validate_declared_update_backends
  update_iff {T} u =
      let checks =
        step (validate_update_iff T u.partitions)
          (step (Declared-iff _ (update_backends u.partitions) s.declared_backends) (ok_iff _ r)) in
      (
        λ e. let h = checks.0 e in (record { valid = h.0; declared = h.1.0 }, h.1.1),
        λ h. checks.1 (h.0.valid, (h.0.declared, h.1)),
      )

  pub heartbeat_iff :
      (b : Heartbeat)
      → (accept_heartbeat s (seq + 1) b ≡ ok r)
        ↔ (BeatsFor s b × (r ≡ (heartbeat_accepted, after (live s) seq)))
  unfolding accept_heartbeat validate_heartbeat_backend_heads validate_declared_heartbeat_backends
  heartbeat_iff b =
      let backends = head_backends b.backend_heads in
      let checks = step (validate_unique-Distinct _ backends) (
        step (Declared-iff _ backends s.declared_backends) (
          step (ensure_chain_id_iff s.chain_id b.chain_id)
            (step (ensure_snapshot_id_iff s.snapshot_id b.snapshot_id) (ok_iff _ r)))) in
      (
        λ e.
            let h = checks.0 e in
            (
              record {
                distinct = h.0;
                declared = h.1.0;
                same_chain = h.1.1.0;
                same_snapshot = h.1.1.1.0;
              },
              h.1.1.1.1,
            ),
        λ h. checks.1 (h.0.distinct, (h.0.declared, (h.0.same_chain, (h.0.same_snapshot, h.1)))),
      )

  pub progress_iff :
      (p : Progress)
      → (accept_progress s (seq + 1) p ≡ ok r)
        ↔ (ProgressesFor s p × (r ≡ (progress_accepted, after (live s) seq)))
  unfolding accept_progress validate_progress_backends validate_declared_progress_backends
  progress_iff p =
      let checks = step (validate_unique-Distinct _ p.backends) (
        step (Declared-iff _ p.backends s.declared_backends) (
          step (ensure_chain_id_iff s.chain_id p.chain_id)
            (step (ensure_snapshot_id_iff s.snapshot_id p.snapshot_id) (ok_iff _ r)))) in
      (
        λ e.
            let h = checks.0 e in
            (
              record {
                distinct = h.0;
                declared = h.1.0;
                same_chain = h.1.1.0;
                same_snapshot = h.1.1.1.0;
              },
              h.1.1.1.1,
            ),
        λ h. checks.1 (h.0.distinct, (h.0.declared, (h.0.same_chain, (h.0.same_snapshot, h.1)))),
      )
