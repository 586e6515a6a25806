-- ===== src/Contract/Validate.antt =====
-- The validators of broadcaster.rs: identities, sequence numbers, backends and partition contents.
pub mod Backends
pub mod Identity
pub mod Contents
use tycho_simulation_server.Base.{
  ℕ, ◌+◌, Bool, true, false, not, Option, none, some, List, [], ◌∷◌, map, ◌==◌, is_empty, option_eq,
  checked_succ, if◌then◌else◌, Text, codes, text_eq, Result, ok, err, ◌>>=◌, ◌>>◌, ensure, refuse,
  ok_or,
}
use tycho_simulation_server.Contract.External.{Tycho}
use tycho_simulation_server.Contract.Backend.{
  Backend, native, vm, rfq, backend_eq, BackendSet, empty, contains, insert, difference,
}
use tycho_simulation_server.Contract.Protocol.{
  ProtocolKind, curve, balancer_v2, maverick_v2, hashflow, bebop, liquorice, from_component,
  from_sync_state_key,
}
use tycho_simulation_server.Contract.Errors.{
  ContractError, Checked, unexpected_stream_id, unexpected_chain_id, unexpected_snapshot_id,
  unexpected_message_seq, message_sequence_overflow, unknown_component_protocol,
  unknown_sync_state_protocol, empty_update, empty_update_partition, duplicate_backend_entry,
  undeclared_backend_entry, missing_declared_snapshot_backends, partition_content_backend_mismatch,
}
use tycho_simulation_server.Contract.Payload.{
  SyncStatus, ProtocolMessage, StateEntry, StateDelta, RemovedPair, SnapshotPartition,
  UpdatePartition, partition_is_empty, BackendHead,
}

abbrev get_or : Option ℕ → ℕ → ℕ
get_or none d = d
get_or (some n) d = n

unfoldable pub ensure_stream_id : Text → Text → Checked Unit
ensure_stream_id expected found =
    ensure (text_eq expected found) (unexpected_stream_id expected found)

unfoldable pub ensure_chain_id : ℕ → ℕ → Checked Unit
ensure_chain_id expected found = ensure (expected == found) (unexpected_chain_id expected found)

unfoldable pub ensure_snapshot_id : Text → Text → Checked Unit
ensure_snapshot_id expected found =
    ensure (text_eq expected found) (unexpected_snapshot_id expected found)

unfoldable pub ensure_message_seq : Option ℕ → ℕ → Checked Unit
ensure_message_seq expected found =
    ensure (option_eq expected (some found)) (unexpected_message_seq (get_or expected found) found)

unfoldable pub next_message_seq : ℕ → Checked ℕ
next_message_seq message_seq =
    ok_or (checked_succ message_seq) (message_sequence_overflow message_seq)

unfoldable pub backend_for_kind : ProtocolKind → Backend
backend_for_kind curve = vm
backend_for_kind balancer_v2 = vm
backend_for_kind maverick_v2 = vm
backend_for_kind hashflow = rfq
backend_for_kind bebop = rfq
backend_for_kind liquorice = rfq
backend_for_kind _ = native

kind_or : Option ProtocolKind → ContractError → Checked Backend
unfolding backend_for_kind
kind_or none e = err e
kind_or (some kind) e = ok (backend_for_kind kind)

unfoldable pub backend_for_component : (T : Tycho) → Text → T.Component → Checked Backend
unfolding kind_or from_component
backend_for_component T component_id component =
    kind_or (from_component T component) (unknown_component_protocol component_id)

unfoldable pub backend_for_sync_state : Text → Checked Backend
unfolding kind_or from_sync_state_key
backend_for_sync_state protocol =
    kind_or (from_sync_state_key protocol) (unknown_sync_state_protocol protocol)

-- `for x in xs { f(x)?; }`
unfoldable pub check_each : {A : Type 0} → (A → Checked Unit) → List A → Checked Unit
check_each f [] = ok tt
check_each f (x ∷ xs) = f x >> check_each f xs

-- The loop over `seen`.
unfoldable pub unique_from : Text → BackendSet → List Backend → Checked Unit
unique_from context seen [] = ok tt
unique_from context seen (b ∷ bs) =
    refuse (contains b seen) (duplicate_backend_entry context b)
    >> unique_from context (insert b seen) bs

unfoldable pub validate_unique_backend_entries : Text → List Backend → Checked Unit
unfolding unique_from
validate_unique_backend_entries context backends = unique_from context empty backends

unfoldable pub validate_declared_backend_entries : Text → List Backend → BackendSet → Checked Unit
validate_declared_backend_entries context [] declared = ok tt
validate_declared_backend_entries context (b ∷ bs) declared =
    ensure (contains b declared) (undeclared_backend_entry context b)
    >> validate_declared_backend_entries context bs declared

unfoldable pub ensure_all_declared_backends_observed : BackendSet → BackendSet → Checked Unit
unfolding difference
ensure_all_declared_backends_observed declared observed =
    let missing = difference declared observed in
    ensure (is_empty missing) (missing_declared_snapshot_backends missing)

unfoldable pub validate_partition_content_backend : Text → Text → Backend → Backend → Checked Unit
validate_partition_content_backend context entry partition_backend entry_backend =
    ensure (backend_eq partition_backend entry_backend)
      (partition_content_backend_mismatch context entry partition_backend entry_backend)

module _ (T : Tycho) (context : Text) (backend : Backend) where
  check_message : ProtocolMessage T → Checked Unit
  unfolding backend_for_sync_state validate_partition_content_backend
  check_message message = do
    found ← backend_for_sync_state message.protocol
    validate_partition_content_backend context message.protocol backend found

  check_component : Text → T.Component → Checked Unit
  unfolding backend_for_component validate_partition_content_backend
  check_component component_id component = do
    found ← backend_for_component T component_id component
    validate_partition_content_backend context component_id backend found

  check_state : StateEntry T → Checked Unit
  unfolding check_component
  check_state entry = check_component entry.component_id entry.component

  check_removed : RemovedPair T → Checked Unit
  unfolding check_component
  check_removed entry = check_component entry.component_id entry.component

  check_delta : StateDelta T → Checked Unit
  unfolding validate_partition_content_backend
  check_delta entry =
      validate_partition_content_backend context entry.component_id backend entry.backend

  check_sync_status : Text × SyncStatus T → Checked Unit
  unfolding backend_for_sync_state validate_partition_content_backend
  check_sync_status (protocol, status) = do
    found ← backend_for_sync_state protocol
    validate_partition_content_backend context protocol backend found

-- One round of the loop of `validate_snapshot_partition_contents`.
unfoldable pub check_snapshot_partition : (T : Tycho) → SnapshotPartition T → Checked Unit
unfolding check_each check_message check_state check_sync_status
check_snapshot_partition T p =
    check_each (check_message T (codes "snapshot_chunk.partitions.messages") p.backend) p.messages
    >> check_each (check_state T (codes "snapshot_chunk.partitions.states") p.backend) p.states
    >> check_each (check_sync_status T (codes "snapshot_chunk.partitions.sync_statuses") p.backend)
        p.sync_statuses

unfoldable pub validate_snapshot_partition_contents :
    (T : Tycho) → List (SnapshotPartition T) → Checked Unit
unfolding check_each check_snapshot_partition
validate_snapshot_partition_contents T partitions =
    check_each (check_snapshot_partition T) partitions

-- One round of the loop of `validate_update_partition_contents`.
unfoldable pub check_update_partition : (T : Tycho) → UpdatePartition T → Checked Unit
unfolding check_each check_message check_state check_delta check_removed check_sync_status
check_update_partition T p =
    check_each (check_message T (codes "update.partitions.messages") p.backend) p.messages
    >> check_each (check_state T (codes "update.partitions.new_pairs") p.backend) p.new_pairs
    >> check_each (check_delta T (codes "update.partitions.updated_states") p.backend)
        p.updated_states
    >> check_each (check_removed T (codes "update.partitions.removed_pairs") p.backend)
        p.removed_pairs
    >> check_each (check_sync_status T (codes "update.partitions.sync_statuses") p.backend)
        p.sync_statuses

unfoldable pub validate_update_partition_contents :
    (T : Tycho) → List (UpdatePartition T) → Checked Unit
unfolding check_each check_update_partition
validate_update_partition_contents T partitions = check_each (check_update_partition T) partitions

non_empty : {T : Tycho} → UpdatePartition T → Checked Unit
non_empty p = refuse (partition_is_empty p) (empty_update_partition p.backend)

unfoldable pub validate_non_empty_update_partitions :
    (T : Tycho) → List (UpdatePartition T) → Checked Unit
unfolding check_each non_empty
validate_non_empty_update_partitions T partitions = check_each non_empty partitions

abbrev pub snapshot_backends : {T : Tycho} → List (SnapshotPartition T) → List Backend
snapshot_backends = map (λ p. p.backend)

abbrev pub update_backends : {T : Tycho} → List (UpdatePartition T) → List Backend
update_backends = map (λ p. p.backend)

abbrev pub head_backends : List BackendHead → List Backend
head_backends = map (λ h. h.backend)

unfoldable pub validate_snapshot_start_backends : List Backend → Checked Unit
unfolding validate_unique_backend_entries
validate_snapshot_start_backends backends =
    validate_unique_backend_entries (codes "snapshot_start.backends") backends

unfoldable pub validate_snapshot_chunk_partitions :
    (T : Tycho) → List (SnapshotPartition T) → Checked Unit
validate_snapshot_chunk_partitions T partitions =
    validate_unique_backend_entries (codes "snapshot_chunk.partitions")
      (snapshot_backends partitions)
    >> validate_snapshot_partition_contents T partitions

unfoldable pub validate_update_partitions : (T : Tycho) → List (UpdatePartition T) → Checked Unit
validate_update_partitions T partitions =
    refuse (is_empty partitions) empty_update
    >> validate_unique_backend_entries (codes "update.partitions") (update_backends partitions)
    >> validate_non_empty_update_partitions T partitions
    >> validate_update_partition_contents T partitions

unfoldable pub validate_heartbeat_backend_heads : List BackendHead → Checked Unit
validate_heartbeat_backend_heads heads =
    validate_unique_backend_entries (codes "heartbeat.backend_heads") (head_backends heads)

unfoldable pub validate_progress_backends : List Backend → Checked Unit
validate_progress_backends backends =
    validate_unique_backend_entries (codes "progress.backends") backends

unfoldable pub validate_declared_snapshot_chunk_backends :
    {T : Tycho} → List (SnapshotPartition T) → BackendSet → Checked Unit
validate_declared_snapshot_chunk_backends partitions declared =
    validate_declared_backend_entries (codes "snapshot_chunk.partitions")
      (snapshot_backends partitions) declared

unfoldable pub validate_declared_update_backends :
    {T : Tycho} → List (UpdatePartition T) → BackendSet → Checked Unit
validate_declared_update_backends partitions declared =
    validate_declared_backend_entries (codes "update.partitions") (update_backends partitions)
      declared

unfoldable pub validate_declared_heartbeat_backends : List BackendHead → BackendSet → Checked Unit
validate_declared_heartbeat_backends heads declared =
    validate_declared_backend_entries (codes "heartbeat.backend_heads") (head_backends heads)
      declared

unfoldable pub validate_declared_progress_backends : List Backend → BackendSet → Checked Unit
validate_declared_progress_backends backends declared =
    validate_declared_backend_entries (codes "progress.backends") backends declared
