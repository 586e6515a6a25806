-- ===== src/Replay/Checkpoint/Batches.antt =====
-- Batches: what an accepted batch holds, where it leaves the checkpoint, and that it does not matter
-- how the stream is cut into batches.
use tycho_simulation_server.Base.{
  ℕ, ◌+◌, ◌≡◌, refl, ap, ◌↔◌, ◌∙◌, sym, some, List, [], ◌∷◌, ◌++◌, map, Text, get_last?, Bool,
  length, Result, ok, err, map_err, ok_iff, past_bind, past_check, arith,
}
use tycho_simulation_server.Contract.External.{Tycho}
use tycho_simulation_server.Contract.Payload.{Envelope}
use tycho_simulation_server.Contract.Boundary.{ReplayBoundary, redis_entry_id, exclusive_entry_id}
use tycho_simulation_server.Replay.Errors.{ReplayError, redis_decode}
use tycho_simulation_server.Replay.Checkpoint.{
  ReplayCheckpoint, new_checkpoint, StreamMessage, ensure_next_message, after_applied,
  ReplayMessage, ReplayBatch, replay_items, build_replay_batch, checkpoint_after,
}
use tycho_simulation_server.Replay.Checkpoint.Continuity.{IsNext, ensure_next_message-IsNext}

-- The entry id of a checkpoint belongs to its sequence number.
abbrev pub IsCanonical : ReplayCheckpoint → Type 0
IsCanonical c = c.entry_id ≡ redis_entry_id c.boundary.generation c.last_message_seq

pub new_checkpoint-IsCanonical :
    (b : ReplayBoundary) (chain : ℕ) → IsCanonical (new_checkpoint b chain)
unfolding new_checkpoint exclusive_entry_id
new_checkpoint-IsCanonical b chain = refl

decoded :
    {A : Type 0} (e : Text → ReplayError) (r : Result Text A) (a : A)
    → map_err e r ≡ ok a
    → r ≡ ok a
decoded e (ok x) a h = cc
decoded e (err x) a h = cc

-- The checkpoint at a message, on the boundary and chain of the one before.
abbrev pub behind : ReplayCheckpoint → StreamMessage → ReplayCheckpoint
behind c m = record {
  boundary = c.boundary;
  entry_id = m.entry_id;
  last_message_seq = m.entry.message_seq;
  expected_chain_id = c.expected_chain_id;
}

module _ {T : Tycho} (decode : Text → Result Text (Envelope T)) where
  -- The items of a batch: the messages in order, each the next behind the one before, with its
  -- decoded envelope and the checkpoint that it leaves.
  abbrev pub Replays : ReplayCheckpoint → List StreamMessage → List (ReplayMessage T) → Type 0
  Replays c [] [] = Unit
  Replays c [] (i ∷ is) = ⊥
  Replays c (m ∷ ms) [] = ⊥
  Replays c (m ∷ ms) (i ∷ is) =
      (decode m.entry.payload_json ≡ ok i.envelope)
      × IsNext c m
      × (i.entry_id ≡ m.entry_id)
      × (i.entry ≡ m.entry)
      × (i.checkpoint_after ≡ behind c m)
      × Replays (behind c m) ms is

  items_sound :
      (c : ReplayCheckpoint) (ms : List StreamMessage) (is : List (ReplayMessage T))
      → replay_items decode c ms ≡ ok is
      → Replays c ms is
  unfolding replay_items
  items_sound c [] [] h = tt
  items_sound c [] (i ∷ is) h = cc
  items_sound c (m ∷ ms) is h =
      let (envelope, d, h₁) =
        past_bind (map_err (redis_decode m.entry_id) (decode m.entry.payload_json)) _ h in
      let (next, h₂) = past_check (ensure_next_message c m) _ h₁ in
      let (rest, t, h₃) = past_bind (replay_items decode (after_applied c m) ms) _ h₂ in
      let ih = items_sound (after_applied c m) ms rest t in
      rw ((ok_iff _ is).0 h₃) (
        decoded _ (decode m.entry.payload_json) envelope d,
        (ensure_next_message-IsNext c m).0 next,
        refl,
        refl,
        refl,
        ih,
      )

  items_complete :
      (c : ReplayCheckpoint) (ms : List StreamMessage) (is : List (ReplayMessage T))
      → Replays c ms is
      → replay_items decode c ms ≡ ok is
  unfolding replay_items
  items_complete c [] [] h = refl
  items_complete c [] (i ∷ is) h = absurd h
  items_complete c (m ∷ ms) [] h = absurd h
  items_complete c (m ∷ ms) (i ∷ is) (d, next, id, entry, after, rest) = rw d (
      rw ((ensure_next_message-IsNext c m).1 next) (
        rw (items_complete (after_applied c m) ms is rest) (λ j. ok (
          record {
            entry_id = sym id j;
            entry = sym entry j;
            envelope = i.envelope;
            checkpoint_after = sym after j;
          }
          ∷ is))))

  -- A batch is accepted exactly when every message is the next one behind its predecessor and its
  -- payload decodes; it then holds these messages in order, each with the checkpoint behind it.
  pub build_replay_batch-Replays :
      (c : ReplayCheckpoint) (ms : List StreamMessage) (flag : Bool) (b : ReplayBatch T)
      → (build_replay_batch decode c ms flag ≡ ok b)
        ↔ (Replays c ms b.items × (b.caught_up_after_batch ≡ flag))
  unfolding build_replay_batch
  build_replay_batch-Replays c ms flag b = (
    λ h.
        let (is, seen, out) = past_bind (replay_items decode c ms) _ h in
        let same = (ok_iff _ b).0 out in
        (
          rw same (items_sound c ms is seen),
          ap (λ (x : ReplayBatch T). x.caught_up_after_batch) same,
        ),
    λ r.
        rw (items_complete c ms b.items r.0)
          (λ j. ok (record { items = b.items; caught_up_after_batch = sym r.1 j })),
  )

  -- The checkpoint behind a list of items.
  abbrev last_checkpoint : ReplayCheckpoint → List (ReplayMessage T) → ReplayCheckpoint
  last_checkpoint c [] = c
  last_checkpoint c (i ∷ is) = last_checkpoint i.checkpoint_after is

  last_checkpoint-get_last? :
      (c : ReplayCheckpoint) (i : ReplayMessage T) (is : List (ReplayMessage T))
      → get_last? (map (λ (x : ReplayMessage T). x.checkpoint_after) (i ∷ is))
        ≡ some (last_checkpoint c (i ∷ is))
  last_checkpoint-get_last? c i [] = refl
  last_checkpoint-get_last? c i (j ∷ is) = last_checkpoint-get_last? i.checkpoint_after j is

  -- Where the items of an accepted batch leave the checkpoint.
  pub record Advances (c : ReplayCheckpoint) (n : ℕ) (d : ReplayCheckpoint) : Type 0 where
    pub canonical : IsCanonical d
    pub by_count : d.last_message_seq ≡ c.last_message_seq + n
    pub same_boundary : d.boundary ≡ c.boundary
    pub same_chain : d.expected_chain_id ≡ c.expected_chain_id

  items_advance :
      (c : ReplayCheckpoint) (ms : List StreamMessage) (is : List (ReplayMessage T))
      → IsCanonical c
      → Replays c ms is
      → Advances c (length ms) (last_checkpoint c is)
  unfolding after_applied
  items_advance c [] [] k h = record {
    canonical = k;
    by_count = omega arith;
    same_boundary = refl;
    same_chain = refl;
  }
  items_advance c [] (i ∷ is) k h = absurd h
  items_advance c (m ∷ ms) [] k h = absurd h
  items_advance c (m ∷ ms) (i ∷ is) k (d, next, id, entry, after, rest) =
      let canonical : IsCanonical (after_applied c m) =
        next.next_id ∙ ap (redis_entry_id c.boundary.generation) (sym next.next_seq) in
      let ih = items_advance (after_applied c m) ms is canonical rest in
      rw after (record {
        canonical = ih.canonical;
        by_count = omega (arith, ih.by_count, next.next_seq);
        same_boundary = ih.same_boundary;
        same_chain = ih.same_chain;
      })

  last_of :
      (c : ReplayCheckpoint) (m : StreamMessage) (ms : List StreamMessage)
      (is : List (ReplayMessage T))
      → Replays c (m ∷ ms) is
      → get_last? (map (λ (x : ReplayMessage T). x.checkpoint_after) is)
        ≡ some (last_checkpoint c is)
  last_of c m ms [] r = absurd r
  last_of c m ms (i ∷ is) r = last_checkpoint-get_last? c i is

  -- From a checkpoint whose entry id belongs to its number, an accepted batch that is not empty
  -- leaves a checkpoint that is further by the number of its messages, whose entry id again belongs
  -- to its number, on the same boundary and chain.
  pub checkpoint_after-Advances :
      (c : ReplayCheckpoint) (m : StreamMessage) (ms : List StreamMessage) (flag : Bool)
      (b : ReplayBatch T)
      → IsCanonical c
      → build_replay_batch decode c (m ∷ ms) flag ≡ ok b
      → (d : ReplayCheckpoint) × (checkpoint_after b ≡ some d) × Advances c (length (m ∷ ms)) d
  unfolding checkpoint_after
  checkpoint_after-Advances c m ms flag b k h =
      let replays = ((build_replay_batch-Replays c (m ∷ ms) flag b).0 h).0 in
      (
        last_checkpoint c b.items,
        last_of c m ms b.items replays,
        items_advance c (m ∷ ms) b.items k replays,
      )

  Replays-append :
      (c : ReplayCheckpoint) (ms ns : List StreamMessage) (is js : List (ReplayMessage T))
      → Replays c ms is
      → Replays (last_checkpoint c is) ns js
      → Replays c (ms ++ ns) (is ++ js)
  Replays-append c [] ns [] js r s = s
  Replays-append c [] ns (i ∷ is) js r s = absurd r
  Replays-append c (m ∷ ms) ns [] js r s = absurd r
  Replays-append c (m ∷ ms) ns (i ∷ is) js (d, next, id, entry, after, rest) s =
      (d, next, id, entry, after, Replays-append (behind c m) ms ns is js rest (rw after at s))

  -- Two reads in a row, the second from the checkpoint that the first leaves, give the batch that
  -- one read of all the messages gives: how the stream is cut into reads does not matter.
  pub build_replay_batch-append :
      (c d : ReplayCheckpoint) (m : StreamMessage) (ms ns : List StreamMessage) (f g : Bool)
      (a b : ReplayBatch T)
      → build_replay_batch decode c (m ∷ ms) f ≡ ok a
      → checkpoint_after a ≡ some d
      → build_replay_batch decode d ns g ≡ ok b
      → build_replay_batch decode c ((m ∷ ms) ++ ns) g
        ≡ ok (record { items = a.items ++ b.items; caught_up_after_batch = g })
  unfolding checkpoint_after
  build_replay_batch-append c d m ms ns f g a b h e k =
      let first = ((build_replay_batch-Replays c (m ∷ ms) f a).0 h).0 in
      let second = ((build_replay_batch-Replays d ns g b).0 k).0 in
      let at : d ≡ last_checkpoint c a.items = cc (e, last_of c m ms a.items first) in
      (build_replay_batch-Replays c ((m ∷ ms) ++ ns) g _).1
        (Replays-append c (m ∷ ms) ns a.items b.items first (rw at at second), refl)
