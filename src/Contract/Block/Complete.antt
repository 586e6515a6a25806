-- ===== src/Contract/Block/Complete.antt =====
-- When a partition is a complete block.
use tycho_simulation_server.Base.{
  ℕ, ◌≡◌, refl, sym, ap, ◌∙◌, ◌↔◌, ◌⊎◌, inl, inr, false, some, none, List, [], ◌∷◌, All, is_empty,
  Text,
}
use tycho_simulation_server.Contract.External.{Tycho}
use tycho_simulation_server.Contract.Payload.{SyncStatus, ProtocolMessage}
use tycho_simulation_server.Contract.Block.{
  observe_each, observe_message, observe_status, complete_broadcaster_partition_block,
}
use tycho_simulation_server.Contract.Block.Loop.{past, each_from, each_to, each_first, each_all}
use tycho_simulation_server.Contract.Block.Sightings.{
  MessageAt, StatusAt, message_sound, message_complete, status_sound, status_complete,
}

module _ (T : Tycho) (n : ℕ) where
  -- All that a partition holds, which is something, was seen at one block.
  pub record SeenAt (ms : List (ProtocolMessage T)) (ss : List (Text × SyncStatus T)) (h : T.Bytes)
      : Type 0 where
    pub some_entry : (is_empty ms ≡ false) ⊎ (is_empty ss ≡ false)
    pub messages_at : All (MessageAt n h) ms
    pub statuses_at : All (StatusAt n h) ss

  entries_seen :
      (ms : List (ProtocolMessage T)) (ss : List (Text × SyncStatus T)) (k : ℕ)
      → complete_broadcaster_partition_block T n ms ss ≡ some k
      → (k ≡ n) × ((h : T.Bytes) × SeenAt ms ss h)
  unfolding complete_broadcaster_partition_block observe_each
  entries_seen [] [] k q = cc
  entries_seen [] (s ∷ ss) k q =
      let (r, all, final) = past (observe_each (observe_status T n) none (s ∷ ss)) _ q in
      let (h, _, at) =
        each_first (StatusAt n) (observe_status T n) (status_sound T n) (status_complete T n) s ss r
          all in
      (cc, (h, record { some_entry = inr refl; messages_at = tt; statuses_at = at }))
  entries_seen (m ∷ ms) ss k q =
      let (e, all, rest) = past (observe_each (observe_message T n) none (m ∷ ms)) _ q in
      let (h, expects, at) =
        each_first (MessageAt n) (observe_message T n) (message_sound T n) (message_complete T n) m
          ms e all in
      let (r, others, final) = past (observe_each (observe_status T n) e ss) _ rest in
      let also =
        each_from (StatusAt n) (observe_status T n) (status_sound T n) (status_complete T n) h ss r
          (ap (λ e. observe_each (observe_status T n) e ss) (sym expects) ∙ others) in
      (cc, (h, record { some_entry = inl refl; messages_at = at; statuses_at = also.1 }))

  seen_complete :
      (ms : List (ProtocolMessage T)) (ss : List (Text × SyncStatus T)) (h : T.Bytes)
      → SeenAt ms ss h
      → complete_broadcaster_partition_block T n ms ss ≡ some n
  unfolding complete_broadcaster_partition_block
  seen_complete [] [] h seen = elim seen.some_entry [ inl q ↦ cc | inr q ↦ cc ]
  seen_complete [] (s ∷ ss) h seen = rw (
      each_all (StatusAt n) (observe_status T n) (status_sound T n) (status_complete T n) h s ss
        seen.statuses_at)
  seen_complete (m ∷ ms) ss h seen =
      rw
        (each_all (MessageAt n) (observe_message T n) (message_sound T n) (message_complete T n) h m
          ms seen.messages_at)
        (rw (
          each_to (StatusAt n) (observe_status T n) (status_sound T n) (status_complete T n) h ss
            seen.statuses_at))

  -- A block number is the answer exactly when it is the partition's own, the partition holds a
  -- message or a status, and all of them, the synchronizers' headers included, are at that number
  -- with one hash, whole and `Ready`.
  pub complete_partition_block-SeenAt :
      (ms : List (ProtocolMessage T)) (ss : List (Text × SyncStatus T)) (k : ℕ)
      → (complete_broadcaster_partition_block T n ms ss ≡ some k)
        ↔ ((k ≡ n) × ((h : T.Bytes) × SeenAt ms ss h))
  complete_partition_block-SeenAt ms ss k =
      (entries_seen ms ss k, λ v. seen_complete ms ss v.1.0 v.1.1 ∙ ap some (sym v.0))
