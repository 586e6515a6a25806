-- ===== src/Publisher/Recovery/Entries.antt =====
-- The number, the version and the payload of each entry of a recovery in redis_publisher.rs.
use tycho_simulation_server.Base.{
  List, length, subst, past_map_err, ℕ, zero, suc, ◌+◌, ◌==◌, Text, ok, map_err, Always,
  Always-bind, Always-if, ◌≡◌, arith,
}
use tycho_simulation_server.Contract.External.{Tycho}
use tycho_simulation_server.Contract.Payload.{
  Payload, recovery_starts, recovers, catches_up, commits, UpdateMessage, Envelope,
  RecoveryManifest, RecoveryStart, RecoveryChunk, RecoveryCatchUp, RecoveryCommit,
}
use tycho_simulation_server.Contract.Boundary.{StreamEntry, required_redis_field}
use tycho_simulation_server.Contract.Recovery.{
  new_manifest, new_start, new_chunk, new_catch_up, new_commit,
}
use tycho_simulation_server.Contract.Entry.{Json, from_envelope_at}
use tycho_simulation_server.Publisher.Errors.{contract_error}
use tycho_simulation_server.Publisher.Append.{Environment, recovery_entry_max_bytes}
use tycho_simulation_server.Publisher.Size.{replay_entry_encoded_size, ensure_redis_entry_size}
use tycho_simulation_server.Publisher.Fragments.{RecoveryFragment}
use tycho_simulation_server.Publisher.Recovery.{
  RecoveryTransaction, RecoveryTarget, checked_add, fits_u32, recovery_entry, sized_entry,
  chunk_rounds,
}

-- The entry has the number, the stream and the version.
pub record HasNumber (stream : Text) (version n : ℕ) (e : StreamEntry) : Type 0 where
  pub message_seq : e.message_seq ≡ n
  pub stream_id : e.stream_id ≡ stream
  pub state_version : e.state_version ≡ version

from_envelope_at-HasNumber :
    {T : Tycho} (json : Json T) (chain_id now version : ℕ) (envelope : Envelope T) (e : StreamEntry)
    → from_envelope_at json chain_id envelope now version ≡ ok e
    → HasNumber envelope.stream_id version envelope.message_seq e
unfolding from_envelope_at required_redis_field
from_envelope_at-HasNumber json chain_id now version envelope e h = record {
  message_seq = ground (arith, h);
  stream_id = ground (arith, h);
  state_version = ground (arith, h);
}

pub checked_add_lem : (a b c : ℕ) → checked_add a b ≡ ok c → c ≡ a + b
unfolding checked_add
checked_add_lem a b c h = ground arith

-- What an entry of a recovery is: the start, a chunk with a fragment, a buffered update, or the
-- commit, with its number where it is announced.
pub data Part (T : Tycho) : Type 0 where
  the_start : ℕ → Part T
  the_chunk : ℕ → RecoveryFragment → Part T
  the_catch_up : ℕ → UpdateMessage T → Part T
  the_commit : ℕ → Part T

module _ {T : Tycho} {W : Type 0} (env : Environment T W) (digest_bytes : Text → Text) (now : ℕ)
    (tx : RecoveryTransaction T) (target : RecoveryTarget) where
  pub record StartOf (watermark : ℕ) (m : RecoveryManifest) : Type 0 where
    pub recovery_id : m.recovery_id ≡ tx.recovery_id
    pub version : m.target_state_version ≡ target.state_version
    pub digest : m.replacement_digest ≡ digest_bytes tx.replacement_json
    pub buffer_a_count : m.buffer_a_count ≡ length tx.buffer_a
    pub commit_watermark : m.commit_watermark ≡ watermark

  pub record ChunkOf (index : ℕ) (f : RecoveryFragment) (c : RecoveryChunk) : Type 0 where
    pub recovery_id : c.recovery_id ≡ tx.recovery_id
    pub version : c.target_state_version ≡ target.state_version
    pub chunk_index : c.chunk_index ≡ index
    pub digest : c.digest ≡ f.digest
    pub payload_fragment : c.payload_fragment ≡ f.payload

  pub record CatchUpOf (index : ℕ) (u : UpdateMessage T) (c : RecoveryCatchUp T) : Type 0 where
    pub recovery_id : c.recovery_id ≡ tx.recovery_id
    pub version : c.target_state_version ≡ target.state_version
    pub block_index : c.block_index ≡ index
    pub update_message : c.update_message ≡ u

  pub record CommitOf (watermark : ℕ) (c : RecoveryCommit) : Type 0 where
    pub recovery_id : c.recovery_id ≡ tx.recovery_id
    pub version : c.target_state_version ≡ target.state_version
    pub digest : c.replacement_digest ≡ digest_bytes tx.replacement_json
    pub buffer_a_count : c.buffer_a_count ≡ length tx.buffer_a
    pub commit_watermark : c.commit_watermark ≡ watermark

  abbrev pub Carries : Part T → Payload T → Type 0
  Carries (the_start w) (recovery_starts s) = StartOf w s.manifest
  Carries (the_chunk i f) (recovers c) = ChunkOf i f c
  Carries (the_catch_up i u) (catches_up c) = CatchUpOf i u c
  Carries (the_commit w) (commits c) = CommitOf w c
  Carries x p = ⊥

  -- The entry with a number, for the stream and the version, and the payload that it was made of.
  pub record IsPart (n : ℕ) (x : Part T) (e : StreamEntry) : Type 0 where
    pub numbers : HasNumber target.stream_id target.state_version n e
    pub payload : Payload T
    pub made :
        from_envelope_at env.json env.chain_id
          (record { stream_id = target.stream_id; message_seq = n; payload = payload })
          now
          target.state_version
        ≡ ok e
    pub carries : Carries x payload

  recovery_entry-IsPart :
      (n : ℕ) (x : Part T) (p : Payload T) (e : StreamEntry)
      → recovery_entry env digest_bytes now target n p ≡ ok e
      → Carries x p
      → IsPart n x e
  unfolding recovery_entry
  recovery_entry-IsPart n x p e h c =
      let q = past_map_err contract_error _ h in
      record {
        numbers = from_envelope_at-HasNumber env.json env.chain_id now target.state_version _ e q;
        payload = p;
        made = q;
        carries = c;
      }

  pub sized_entry-IsPart :
      (n : ℕ) (x : Part T) (p : Payload T) (e : StreamEntry)
      → sized_entry env digest_bytes now target n p ≡ ok e
      → Carries x p
      → IsPart n x e
  unfolding sized_entry
  sized_entry-IsPart n x p e h c = recovery_entry-IsPart n x p e (ground (arith, h)) c

  new_chunk-ChunkOf :
      (index bytes : ℕ) (f : RecoveryFragment) (c : RecoveryChunk)
      → new_chunk tx.recovery_id target.state_version tx.backends index bytes f.digest f.payload
        ≡ ok c
      → ChunkOf index f c
  unfolding new_chunk
  new_chunk-ChunkOf index bytes f c h = record {
    recovery_id = ground (arith, h);
    version = ground (arith, h);
    chunk_index = ground (arith, h);
    digest = ground (arith, h);
    payload_fragment = ground (arith, h);
  }

  pub new_catch_up-CatchUpOf :
      (index : ℕ) (u : UpdateMessage T) (c : RecoveryCatchUp T)
      → new_catch_up tx.recovery_id target.state_version index u ≡ ok c
      → CatchUpOf index u c
  unfolding new_catch_up
  new_catch_up-CatchUpOf index u c h = record {
    recovery_id = ground (arith, h);
    version = ground (arith, h);
    block_index = ground (arith, h);
    update_message = ground (arith, h);
  }

  pub new_commit-CommitOf :
      (w : ℕ) (c : RecoveryCommit)
      → new_commit tx.recovery_id target.state_version tx.backends
          (digest_bytes tx.replacement_json)
          (length tx.buffer_a)
          w
        ≡ ok c
      → CommitOf w c
  unfolding new_commit
  new_commit-CommitOf w c h = record {
    recovery_id = ground (arith, h);
    version = ground (arith, h);
    digest = ground (arith, h);
    buffer_a_count = ground (arith, h);
    commit_watermark = ground (arith, h);
  }

  pub new_manifest-StartOf :
      (bytes : ℕ) (sizes : List ℕ) (digests : List Text) (w : ℕ) (m : RecoveryManifest)
      → new_manifest tx.recovery_id target.state_version tx.backends bytes sizes digests
          (digest_bytes tx.replacement_json)
          (length tx.buffer_a)
          w
        ≡ ok m
      → StartOf w m
  unfolding new_manifest
  new_manifest-StartOf bytes sizes digests w m h = record {
    recovery_id = ground (arith, h);
    version = ground (arith, h);
    digest = ground (arith, h);
    buffer_a_count = ground (arith, h);
    commit_watermark = ground (arith, h);
  }

  pub new_start-StartOf :
      (w : ℕ) (m : RecoveryManifest) (s : RecoveryStart)
      → new_start m ≡ ok s
      → StartOf w m
      → StartOf w s.manifest
  unfolding new_start
  new_start-StartOf w m s h o = let q : m ≡ s.manifest = ground (arith, h) in subst (StartOf w) q o

  pub chunk_rounds-IsPart :
      (rounds n index : ℕ) (f : RecoveryFragment) (bytes : ℕ)
      → Always
          (λ r. IsPart n (the_chunk index f) r.0)
          (chunk_rounds env digest_bytes now rounds tx target n index f bytes)
  unfolding chunk_rounds
  chunk_rounds-IsPart zero n index f bytes = tt
  chunk_rounds-IsPart (suc rounds) n index f bytes = Always-bind _ (fits_u32 index) _ (λ _ _.
      Always-bind _
        (map_err contract_error (
          new_chunk tx.recovery_id target.state_version tx.backends index bytes f.digest f.payload))
        _
        (λ chunk c.
          Always-bind _ (recovery_entry env digest_bytes now target n (recovers chunk)) _
            (λ entry q.
              Always-bind _
                (replay_entry_encoded_size env.to_fields env.stream_key env.maxlen entry) _
                (λ measured _.
                  Always-if _ (measured == bytes) _ _
                    (Always-bind _
                      (ensure_redis_entry_size env.to_fields env.stream_key env.maxlen entry
                        recovery_entry_max_bytes)
                      _
                      (λ _ _.
                        recovery_entry-IsPart n (the_chunk index f) (recovers chunk) entry q (
                          new_chunk-ChunkOf index bytes f chunk (past_map_err contract_error _ c))))
                    (chunk_rounds-IsPart rounds n index f measured)))))
