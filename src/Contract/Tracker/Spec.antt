-- ===== src/Contract/Tracker/Spec.antt =====
-- What the tracker promises, without its code: the transitions that an accepted envelope makes.
use tycho_simulation_server.Base.{ℕ, ◌+◌, ◌<◌, ◌≡◌, Option, some, All, Text, max_u64}
use tycho_simulation_server.Contract.External.{Tycho}
use tycho_simulation_server.Contract.Backend.{IsSubset}
use tycho_simulation_server.Contract.Payload.{
  SnapshotStart, SnapshotChunk, SnapshotEnd, UpdateMessage, Heartbeat, Progress, starts, chunk,
  ends, updates, beats, progresses, Envelope,
}
use tycho_simulation_server.Contract.Validate.{snapshot_backends, update_backends, head_backends}
use tycho_simulation_server.Contract.Validate.Backends.{Distinct, Declared}
use tycho_simulation_server.Contract.Validate.Contents.{SnapshotContents, UpdateIsValid}
use tycho_simulation_server.Contract.Tracker.{
  Observation, Subscription, SubscriptionState, awaiting_snapshot, snapshot, live,
  SubscriptionEvent, snapshot_started, snapshot_chunk_accepted, snapshot_completed, update_accepted,
  heartbeat_accepted, progress_accepted, Tracker,
}
use tycho_simulation_server.Contract.Tracker.Observe.{opened, advanced, completed}

module _ {T : Tycho} where
  -- A chunk continues the snapshot: its turn has come, and its partitions are of declared backends.
  pub record Continues (o : Observation) (c : SnapshotChunk T) : Type 0 where
    pub same_snapshot : c.snapshot_id ≡ o.snapshot_id
    pub wanted : o.next_chunk_index < o.total_chunks
    pub in_turn : c.chunk_index ≡ o.next_chunk_index
    pub distinct : Distinct (snapshot_backends c.partitions)
    pub declared : Declared (snapshot_backends c.partitions) o.declared_backends
    pub contents : All SnapshotContents c.partitions

-- An end closes the snapshot: all chunks came, and every declared backend was in one of them.
pub record Closes (o : Observation) (e : SnapshotEnd) : Type 0 where
  pub same_snapshot : e.snapshot_id ≡ o.snapshot_id
  pub all_chunks : o.next_chunk_index ≡ o.total_chunks
  pub all_backends : IsSubset o.declared_backends o.observed_backends

pub record BeatsFor (s : Subscription) (h : Heartbeat) : Type 0 where
  pub distinct : Distinct (head_backends h.backend_heads)
  pub declared : Declared (head_backends h.backend_heads) s.declared_backends
  pub same_chain : s.chain_id ≡ h.chain_id
  pub same_snapshot : s.snapshot_id ≡ h.snapshot_id

pub record ProgressesFor (s : Subscription) (p : Progress) : Type 0 where
  pub distinct : Distinct p.backends
  pub declared : Declared p.backends s.declared_backends
  pub same_chain : s.chain_id ≡ p.chain_id
  pub same_snapshot : s.snapshot_id ≡ p.snapshot_id

pub record UpdatesFor {T : Tycho} (s : Subscription) (u : UpdateMessage T) : Type 0 where
  pub valid : UpdateIsValid T u.partitions
  pub declared : Declared (update_backends u.partitions) s.declared_backends

-- The envelope is the next one of the stream, and another may follow.
pub record InSequence {T : Tycho} (stream_id : Text) (expected : Option ℕ) (e : Envelope T)
    : Type 0 where
  pub same_stream : stream_id ≡ e.stream_id
  pub next : expected ≡ some e.message_seq
  pub room : e.message_seq < max_u64

-- The tracker in a state that has seen a sequence number.
abbrev pub after : SubscriptionState → ℕ → Tracker
after state seq = record { state = state; next_seq = some (seq + 1) }

-- In tracker `t` the envelope `e` is accepted with an event, and leaves the tracker `u`.
pub data Accepts {T : Tycho} (t : Tracker) (e : Envelope T) (r : SubscriptionEvent × Tracker)
    : Type 0 where
  start :
      (p : SnapshotStart)
      → t.state ≡ awaiting_snapshot
      → e.payload ≡ starts p
      → Distinct p.backends
      → e.message_seq < max_u64
      → r ≡ (snapshot_started p.snapshot_id, after (snapshot (opened e p)) e.message_seq)
      → Accepts t e r
  continue :
      (o : Observation) (c : SnapshotChunk T)
      → t.state ≡ snapshot o
      → e.payload ≡ chunk c
      → InSequence o.stream_id t.next_seq e
      → Continues o c
      → r ≡ (
        snapshot_chunk_accepted c.snapshot_id c.chunk_index,
        after (snapshot (advanced o c)) e.message_seq,
      )
      → Accepts t e r
  close :
      (o : Observation) (p : SnapshotEnd)
      → t.state ≡ snapshot o
      → e.payload ≡ ends p
      → InSequence o.stream_id t.next_seq e
      → Closes o p
      → r ≡ (snapshot_completed p.snapshot_id, after (live (completed o)) e.message_seq)
      → Accepts t e r
  update :
      (s : Subscription) (u : UpdateMessage T)
      → t.state ≡ live s
      → e.payload ≡ updates u
      → InSequence s.stream_id t.next_seq e
      → UpdatesFor s u
      → r ≡ (update_accepted, after (live s) e.message_seq)
      → Accepts t e r
  heartbeat :
      (s : Subscription) (h : Heartbeat)
      → t.state ≡ live s
      → e.payload ≡ beats h
      → InSequence s.stream_id t.next_seq e
      → BeatsFor s h
      → r ≡ (heartbeat_accepted, after (live s) e.message_seq)
      → Accepts t e r
  progress :
      (s : Subscription) (p : Progress)
      → t.state ≡ live s
      → e.payload ≡ progresses p
      → InSequence s.stream_id t.next_seq e
      → ProgressesFor s p
      → r ≡ (progress_accepted, after (live s) e.message_seq)
      → Accepts t e r
