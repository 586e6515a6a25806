-- ===== src/Replay/Checkpoint/Continuity.antt =====
-- When a message continues a checkpoint.
use tycho_simulation_server.Base.{
  ℕ, ◌+◌, ◌<◌, ◌≡◌, refl, ◌↔◌, Option, none, some, Text, leb, not, ◌==◌, text_eq, text_eq_iff,
  max_u64, checked_succ, ok, ok_or, refuse, >>_iff, >>=_iff, arith,
}
use tycho_simulation_server.Contract.Boundary.{redis_entry_id}
use tycho_simulation_server.Replay.Errors.{ReplayError, sequence_overflow, redis_gap}
use tycho_simulation_server.Replay.Checkpoint.{
  ReplayCheckpoint, StreamMessage, ensure_snapshot, ensure_next_message,
}

-- A message names the snapshot of the boundary, if it names one.
abbrev pub SnapshotMatches : Text → Option Text → Type 0
SnapshotMatches expected none = Unit
SnapshotMatches expected (some found) = found ≡ expected

-- The message is the next entry behind the checkpoint.
pub record IsNext (c : ReplayCheckpoint) (m : StreamMessage) : Type 0 where
  pub same_stream : m.entry.stream_id ≡ c.boundary.stream_id
  pub same_chain : m.entry.chain_id ≡ c.expected_chain_id
  pub room : c.last_message_seq < max_u64
  pub next_seq : m.entry.message_seq ≡ c.last_message_seq + 1
  pub next_id : m.entry_id ≡ redis_entry_id c.boundary.generation (c.last_message_seq + 1)
  pub same_snapshot : SnapshotMatches c.boundary.snapshot_id m.entry.snapshot_id

refuse_text_iff : (e : ReplayError) (s t : Text) → (refuse (not (text_eq s t)) e ≡ ok tt) ↔ (s ≡ t)
refuse_text_iff e s t = ground (arith, text_eq_iff s t)

refuse_num_iff : (e : ReplayError) (m n : ℕ) → (refuse (not (m == n)) e ≡ ok tt) ↔ (m ≡ n)
refuse_num_iff e m n = ground arith

refuse_stale_iff : (e : ReplayError) (m n : ℕ) → (refuse (leb m n) e ≡ ok tt) ↔ (n < m)
refuse_stale_iff e m n = ground arith

checked_succ_iff :
    (e : ReplayError) (n k : ℕ) → (ok_or (checked_succ n) e ≡ ok k) ↔ ((n < max_u64) × (k ≡ n + 1))
checked_succ_iff e n k = ground arith

ensure_snapshot_iff :
    (expected : Text) (o : Option Text)
    → (ensure_snapshot expected o ≡ ok tt) ↔ SnapshotMatches expected o
unfolding ensure_snapshot
ensure_snapshot_iff expected none = (λ h. tt, λ h. refl)
ensure_snapshot_iff expected (some found) = refuse_text_iff _ found expected

-- The check accepts exactly the next entry: of the stream, chain and snapshot of the checkpoint,
-- with the next sequence number and the entry id that belongs to it.
pub ensure_next_message-IsNext :
    (c : ReplayCheckpoint) (m : StreamMessage) → (ensure_next_message c m ≡ ok tt) ↔ IsNext c m
unfolding ensure_next_message
ensure_next_message-IsNext c m =
    let checks = >>_iff _ _ tt (refuse_text_iff _ m.entry.stream_id c.boundary.stream_id) (
      >>_iff _ _ tt (refuse_num_iff _ m.entry.chain_id c.expected_chain_id) (
        >>_iff _ _ tt (refuse_stale_iff _ m.entry.message_seq c.last_message_seq) (
          >>=_iff (ok_or (checked_succ c.last_message_seq) (redis_gap sequence_overflow)) _
            (c.last_message_seq + 1) tt (checked_succ_iff _ c.last_message_seq)
            (>>_iff _ _ tt (refuse_num_iff _ m.entry.message_seq (c.last_message_seq + 1)) (
              >>_iff _ _ tt
                (refuse_text_iff _ m.entry_id
                  (redis_entry_id c.boundary.generation (c.last_message_seq + 1)))
                (ensure_snapshot_iff c.boundary.snapshot_id m.entry.snapshot_id)))))) in
    (
      λ h.
          let g = checks.0 h in
          record {
            same_stream = g.0;
            same_chain = g.1.0;
            room = g.1.1.1.0;
            next_seq = g.1.1.1.1.0;
            next_id = g.1.1.1.1.1.0;
            same_snapshot = g.1.1.1.1.1.1;
          },
      λ n. checks.1 (
        n.same_stream,
        (
          n.same_chain,
          (omega (arith, n.next_seq), (n.room, (n.next_seq, (n.next_id, n.same_snapshot)))),
        ),
      ),
    )
