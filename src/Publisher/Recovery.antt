-- ===== src/Publisher/Recovery.antt =====
-- `publish_recovery` of redis_publisher.rs up to its appends: the entries of a recovery, which are
-- prepared before the first of them is appended.
pub mod Entries
pub mod Numbers
use tycho_simulation_server.Base.{
  ℕ, zero, suc, ◌+◌, leb, ltb, ◌==◌, not, Option, none, some, List, [], ◌∷◌, ◌++◌, Bool, true,
  false, if◌then◌else◌, Text, length, map, max_u64, max_u32, Result, ok, err, ◌>>=◌, ◌>>◌, ok_or,
  map_err, ensure,
}
use tycho_simulation_server.Contract.External.{Tycho}
use tycho_simulation_server.Contract.Backend.{Backend}
use tycho_simulation_server.Contract.Payload.{
  Payload, UpdateMessage, Envelope, recovery_starts, recovers, catches_up, commits,
}
use tycho_simulation_server.Contract.Recovery.{
  new_manifest, new_start, new_chunk, new_catch_up, new_commit,
}
use tycho_simulation_server.Contract.Boundary.{StreamEntry}
use tycho_simulation_server.Contract.Entry.{from_envelope_at}
use tycho_simulation_server.Publisher.Errors.{
  Published, contract_error, recovery_sequence_overflow, number_exceeds_u32, size_did_not_converge,
  recovery_byte_count_overflow,
}
use tycho_simulation_server.Publisher.Size.{
  byte_len, replay_entry_encoded_size, ensure_redis_entry_size,
}
use tycho_simulation_server.Publisher.Append.{Environment, recovery_entry_max_bytes}
use tycho_simulation_server.Publisher.Fragments.{RecoveryFragment}

-- BroadcasterRecoveryTransaction
pub record RecoveryTransaction (T : Tycho) : Type 0 where
  pub recovery_id : Text
  pub backends : List Backend
  pub replacement_json : Text
  pub buffer_a : List (UpdateMessage T)

-- What the entries of a recovery share: the stream, its next number, and the target version.
pub record RecoveryTarget : Type 0 where
  pub stream_id : Text
  pub next_entry_seq : ℕ
  pub state_version : ℕ

-- u64::checked_add
unfoldable pub checked_add : ℕ → ℕ → Published ℕ
checked_add a b = if leb (a + b) max_u64 then ok (a + b) else err recovery_sequence_overflow

unfoldable pub fits_u32 : ℕ → Published Unit
fits_u32 n = ensure (leb n max_u32) number_exceeds_u32

-- The number of the commit entry.
unfoldable pub recovery_watermark : RecoveryTarget → ℕ → ℕ → Published ℕ
unfolding checked_add
recovery_watermark target chunk_count buffer_a_count = do
  after_chunks ← checked_add target.next_entry_seq chunk_count
  after_buffer_a ← checked_add after_chunks buffer_a_count
  checked_add after_buffer_a 1

module _ {T : Tycho} {W : Type 0} (env : Environment T W) (digest_bytes : Text → Text)
    (now : ℕ) where
  unfoldable pub recovery_entry : RecoveryTarget → ℕ → Payload T → Published StreamEntry
  recovery_entry target message_seq payload = map_err contract_error (
      from_envelope_at env.json env.chain_id
        (record { stream_id = target.stream_id; message_seq = message_seq; payload = payload }) now
        target.state_version)

  -- The same, within the limit for recovery entries.
  pub sized_entry : RecoveryTarget → ℕ → Payload T → Published StreamEntry
  unfolding recovery_entry
  sized_entry target message_seq payload = do
    entry ← recovery_entry target message_seq payload
    _ ←
        ensure_redis_entry_size env.to_fields env.stream_key env.maxlen entry
          recovery_entry_max_bytes
    ok entry

  -- The entry holds its own size, so it is built until the size is the one that it holds.
  pub chunk_rounds :
      ℕ
      → RecoveryTransaction T
      → RecoveryTarget
      → ℕ
      → ℕ
      → RecoveryFragment
      → ℕ
      → Published (StreamEntry × ℕ)
  unfolding fits_u32 recovery_entry
  chunk_rounds zero tx target message_seq index fragment encoded_bytes = err size_did_not_converge
  chunk_rounds (suc rounds) tx target message_seq index fragment encoded_bytes = do
    fits_u32 index
    chunk ← map_err contract_error (
        new_chunk tx.recovery_id target.state_version tx.backends index encoded_bytes
          fragment.digest fragment.payload)
    entry ← recovery_entry target message_seq (recovers chunk)
    measured ← replay_entry_encoded_size env.to_fields env.stream_key env.maxlen entry
    let again = chunk_rounds rounds tx target message_seq index fragment measured
    if measured == encoded_bytes
        then ensure_redis_entry_size env.to_fields env.stream_key env.maxlen entry
            recovery_entry_max_bytes
          >>= (λ _. ok (entry, measured))
        else again

  unfoldable pub build_recovery_chunk_entry :
      RecoveryTransaction T
      → RecoveryTarget
      → ℕ
      → ℕ
      → RecoveryFragment
      → Published (StreamEntry × ℕ)
  unfolding chunk_rounds
  build_recovery_chunk_entry tx target message_seq index fragment =
      chunk_rounds 4 tx target message_seq index fragment 1

  chunk_entries :
      RecoveryTransaction T
      → RecoveryTarget
      → ℕ
      → List RecoveryFragment
      → Published (List (StreamEntry × ℕ))
  unfolding checked_add build_recovery_chunk_entry
  chunk_entries tx target index [] = ok []
  chunk_entries tx target index (fragment ∷ fragments) = do
    after_start ← checked_add target.next_entry_seq 1
    message_seq ← checked_add after_start index
    entry ← build_recovery_chunk_entry tx target message_seq index fragment
    entries ← chunk_entries tx target (index + 1) fragments
    ok (entry ∷ entries)

  buffer_a_entries :
      RecoveryTransaction T
      → RecoveryTarget
      → ℕ
      → ℕ
      → List (UpdateMessage T)
      → Published (List StreamEntry)
  unfolding checked_add fits_u32 sized_entry
  buffer_a_entries tx target chunk_count index [] = ok []
  buffer_a_entries tx target chunk_count index (update ∷ updates) = do
    after_start ← checked_add target.next_entry_seq 1
    after_chunks ← checked_add after_start chunk_count
    message_seq ← checked_add after_chunks index
    fits_u32 index
    catch_up ←
        map_err contract_error (new_catch_up tx.recovery_id target.state_version index update)
    entry ← sized_entry target message_seq (catches_up catch_up)
    entries ← buffer_a_entries tx target chunk_count (index + 1) updates
    ok (entry ∷ entries)

  unfoldable pub recovery_entries :
      RecoveryTransaction T → RecoveryTarget → List RecoveryFragment → Published (List StreamEntry)
  unfolding chunk_entries buffer_a_entries recovery_watermark fits_u32 sized_entry
  recovery_entries tx target fragments = do
    watermark ← recovery_watermark target (length fragments) (length tx.buffer_a)
    chunks ← chunk_entries tx target 0 fragments
    let replacement_digest = digest_bytes tx.replacement_json
    fits_u32 (length tx.buffer_a)
    manifest ← map_err contract_error (
        new_manifest tx.recovery_id target.state_version tx.backends (byte_len tx.replacement_json)
          (map (λ c. c.1) chunks) (map (λ f. f.digest) fragments) replacement_digest
          (length tx.buffer_a) watermark)
    start ← map_err contract_error (new_start manifest)
    start_entry ← sized_entry target target.next_entry_seq (recovery_starts start)
    buffer_a ← buffer_a_entries tx target (length fragments) 0 tx.buffer_a
    commit ← map_err contract_error (
        new_commit tx.recovery_id target.state_version tx.backends replacement_digest
          (length tx.buffer_a) watermark)
    commit_entry ← sized_entry target watermark (commits commit)
    ok (start_entry ∷ (map (λ c. c.0) chunks ++ (buffer_a ++ commit_entry ∷ [])))
