-- ===== src/Contract/Validate/Contents.antt =====
-- The content checks of partitions, and what they ask for.
use tycho_simulation_server.Base.{
  ap, ◌≡◌, refl, ◌↔◌, Bool, false, List, [], ◌∷◌, All, Text, ok, err, arith, ◌>>=◌, past_check,
  before, is_empty, refuse,
}
use tycho_simulation_server.Contract.External.{Tycho}
use tycho_simulation_server.Contract.Backend.{Backend}
use tycho_simulation_server.Contract.Errors.{Checked, empty_update}
use tycho_simulation_server.Contract.Payload.{
  SyncStatus, ProtocolMessage, StateEntry, StateDelta, RemovedPair, SnapshotPartition,
  UpdatePartition, partition_is_empty,
}
use tycho_simulation_server.Contract.Validate.{
  backend_for_component, backend_for_sync_state, check_each, validate_partition_content_backend,
  check_message, check_state, check_removed, check_delta, check_sync_status,
  check_snapshot_partition, validate_snapshot_partition_contents, check_update_partition,
  validate_update_partition_contents, validate_non_empty_update_partitions, non_empty,
  validate_update_partitions, update_backends,
}
use tycho_simulation_server.Contract.Validate.Backends.{
  backend_eq_iff, Distinct, validate_unique-Distinct,
}

-- A loop of checks succeeds exactly when each does.
pub check_each_iff :
    {A : Type 0} (P : A → Type 0) (f : A → Checked Unit)
    → ((x : A) → (f x ≡ ok tt) ↔ P x)
    → (xs : List A) → (check_each f xs ≡ ok tt) ↔ All P xs
unfolding check_each
check_each_iff P f h [] = (λ e. tt, λ a. refl)
check_each_iff P f h (x ∷ xs) =
    let ih = check_each_iff P f h xs in
    (
      λ e. let parts = past_check (f x) (check_each f xs) e in ((h x).0 parts.0, ih.0 parts.1),
      λ a. rw ((h x).1 a.0) (ih.1 a.1),
    )

content_iff :
    (context entry : Text) (b c : Backend)
    → (validate_partition_content_backend context entry b c ≡ ok tt) ↔ (c ≡ b)
unfolding validate_partition_content_backend
content_iff context entry b c = ground (arith, backend_eq_iff b c)

-- The entry is classified, and as the backend of its partition.
classified_iff :
    (context entry : Text) (b : Backend) (found : Checked Backend)
    → ((found >>= validate_partition_content_backend context entry b) ≡ ok tt) ↔ (found ≡ ok b)
classified_iff context entry b (ok c) =
    (λ h. ap ok ((content_iff context entry b c).0 h), λ e. (content_iff context entry b c).1 (cc))
classified_iff context entry b (err e) = (λ h. cc, λ h. cc)

module _ {T : Tycho} where
  abbrev pub MessageOf : Backend → ProtocolMessage T → Type 0
  MessageOf b m = backend_for_sync_state m.protocol ≡ ok b

  abbrev pub StateOf : Backend → StateEntry T → Type 0
  StateOf b s = backend_for_component T s.component_id s.component ≡ ok b

  abbrev pub RemovedOf : Backend → RemovedPair T → Type 0
  RemovedOf b r = backend_for_component T r.component_id r.component ≡ ok b

  abbrev pub DeltaOf : Backend → StateDelta T → Type 0
  DeltaOf b d = d.backend ≡ b

  abbrev pub StatusOf : Backend → Text × SyncStatus T → Type 0
  StatusOf b s = backend_for_sync_state s.0 ≡ ok b

  pub record SnapshotContents (p : SnapshotPartition T) : Type 0 where
    pub of_messages : All (MessageOf p.backend) p.messages
    pub of_states : All (StateOf p.backend) p.states
    pub of_statuses : All (StatusOf p.backend) p.sync_statuses

  pub record UpdateContents (p : UpdatePartition T) : Type 0 where
    pub of_messages : All (MessageOf p.backend) p.messages
    pub of_new : All (StateOf p.backend) p.new_pairs
    pub of_updated : All (DeltaOf p.backend) p.updated_states
    pub of_removed : All (RemovedOf p.backend) p.removed_pairs
    pub of_statuses : All (StatusOf p.backend) p.sync_statuses

module _ (T : Tycho) (context : Text) (b : Backend) where
  messages_iff :
      (xs : List (ProtocolMessage T))
      → (check_each (check_message T context b) xs ≡ ok tt) ↔ All (MessageOf b) xs
  messages_iff = check_each_iff (MessageOf b) (check_message T context b) (λ m.
      unfold check_message in
      classified_iff context m.protocol b (backend_for_sync_state m.protocol))

  states_iff :
      (xs : List (StateEntry T))
      → (check_each (check_state T context b) xs ≡ ok tt) ↔ All (StateOf b) xs
  states_iff = check_each_iff (StateOf b) (check_state T context b) (λ m.
      unfold check_state in
      classified_iff context m.component_id b (backend_for_component T m.component_id m.component))

  removed_iff :
      (xs : List (RemovedPair T))
      → (check_each (check_removed T context b) xs ≡ ok tt) ↔ All (RemovedOf b) xs
  removed_iff = check_each_iff (RemovedOf b) (check_removed T context b) (λ m.
      unfold check_removed in
      classified_iff context m.component_id b (backend_for_component T m.component_id m.component))

  deltas_iff :
      (xs : List (StateDelta T))
      → (check_each (check_delta T context b) xs ≡ ok tt) ↔ All (DeltaOf b) xs
  deltas_iff =
      check_each_iff (DeltaOf b) (check_delta T context b)
        (λ m. unfold check_delta in content_iff context m.component_id b m.backend)

  statuses_iff :
      (xs : List (Text × SyncStatus T))
      → (check_each (check_sync_status T context b) xs ≡ ok tt) ↔ All (StatusOf b) xs
  statuses_iff =
      check_each_iff (StatusOf b) (check_sync_status T context b)
        (λ m. unfold check_sync_status in classified_iff context m.0 b (backend_for_sync_state m.0))

module _ (T : Tycho) where
  check_snapshot_iff :
      (p : SnapshotPartition T) → (check_snapshot_partition T p ≡ ok tt) ↔ SnapshotContents p
  unfolding check_snapshot_partition
  check_snapshot_iff p =
      let parts =
        before (before (messages_iff T _ p.backend p.messages) (states_iff T _ p.backend p.states))
          (statuses_iff T _ p.backend p.sync_statuses) in
      (
        λ e.
            let h = parts.0 e in
            record { of_messages = h.0.0; of_states = h.0.1; of_statuses = h.1 },
        λ c. parts.1 ((c.of_messages, c.of_states), c.of_statuses),
      )

  check_update_iff :
      (p : UpdatePartition T) → (check_update_partition T p ≡ ok tt) ↔ UpdateContents p
  unfolding check_update_partition
  check_update_iff p =
      let parts =
        before
          (before
            (before
              (before (messages_iff T _ p.backend p.messages)
                (states_iff T _ p.backend p.new_pairs))
              (deltas_iff T _ p.backend p.updated_states))
            (removed_iff T _ p.backend p.removed_pairs))
          (statuses_iff T _ p.backend p.sync_statuses) in
      (
        λ e.
            let h = parts.0 e in
            record {
              of_messages = h.0.0.0.0;
              of_new = h.0.0.0.1;
              of_updated = h.0.0.1;
              of_removed = h.0.1;
              of_statuses = h.1;
            },
        λ c. parts.1 ((((c.of_messages, c.of_new), c.of_updated), c.of_removed), c.of_statuses),
      )

  -- Snapshot partitions pass exactly when every entry is classified to its partition's backend.
  pub SnapshotContents-iff :
      (ps : List (SnapshotPartition T))
      → (validate_snapshot_partition_contents T ps ≡ ok tt) ↔ All SnapshotContents ps
  unfolding validate_snapshot_partition_contents
  SnapshotContents-iff = check_each_iff SnapshotContents _ check_snapshot_iff

  UpdateContents-iff :
      (ps : List (UpdatePartition T))
      → (validate_update_partition_contents T ps ≡ ok tt) ↔ All UpdateContents ps
  unfolding validate_update_partition_contents
  UpdateContents-iff = check_each_iff UpdateContents _ check_update_iff

  abbrev pub HasContent : UpdatePartition T → Type 0
  HasContent p = partition_is_empty p ≡ false

  non_empty_iff : (p : UpdatePartition T) → (non_empty p ≡ ok tt) ↔ HasContent p
  unfolding non_empty
  non_empty_iff p = ground arith

  non_empty_partitions_iff :
      (ps : List (UpdatePartition T))
      → (validate_non_empty_update_partitions T ps ≡ ok tt) ↔ All HasContent ps
  unfolding validate_non_empty_update_partitions
  non_empty_partitions_iff = check_each_iff HasContent _ non_empty_iff

  -- What an update must satisfy.
  pub record UpdateIsValid (ps : List (UpdatePartition T)) : Type 0 where
    pub some_partition : is_empty ps ≡ false
    pub distinct : Distinct (update_backends ps)
    pub non_empty : All HasContent ps
    pub contents : All UpdateContents ps

  refuse_empty_iff : (b : Bool) → (refuse b empty_update ≡ ok tt) ↔ (b ≡ false)
  refuse_empty_iff b = ground arith

  -- An update passes exactly when it has partitions, of distinct backends, none of them empty, and
  -- every entry is classified to the backend of its partition.
  pub validate_update_iff :
      (ps : List (UpdatePartition T)) → (validate_update_partitions T ps ≡ ok tt) ↔ UpdateIsValid ps
  unfolding validate_update_partitions
  validate_update_iff ps =
      let parts =
        before
          (before
            (before (refuse_empty_iff (is_empty ps))
              (validate_unique-Distinct _ (update_backends ps)))
            (non_empty_partitions_iff ps))
          (UpdateContents-iff ps) in
      (
        λ e.
            let h = parts.0 e in
            record {
              some_partition = h.0.0.0;
              distinct = h.0.0.1;
              non_empty = h.0.1;
              contents = h.1;
            },
        λ c. parts.1 (((c.some_partition, c.distinct), c.non_empty), c.contents),
      )
