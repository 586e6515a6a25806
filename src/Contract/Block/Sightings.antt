-- ===== src/Contract/Block/Sightings.antt =====
-- A message and a status at the block of the hash expected so far.
use tycho_simulation_server.Base.{
  ℕ, ◌≡◌, refl, sym, ap, ◌∙◌, Bool, true, false, if◌then◌else◌, not, ◌||◌, ◌==◌, ==_iff, Option,
  some, none, Text,
}
use tycho_simulation_server.Contract.External.{Tycho}
use tycho_simulation_server.Contract.Payload.{
  SyncStatusKind, started, ready, delayed, stale, advanced, ended, BlockRef, SyncStatus,
  ProtocolMessage,
}
use tycho_simulation_server.Contract.Block.{
  is_some, is_ready, observe_hash, observe_block, observe_header, observe_message, observe_status,
}
use tycho_simulation_server.Contract.Block.Loop.{past, Expects}

-- A block of a number and a hash, and not a part of it.
pub record AtBlock {B : Type 0} (n : ℕ) (h : B) (number : ℕ) (hash : B) (partial : Option ℕ)
    : Type 0 where
  pub same_number : number ≡ n
  pub same_hash : hash ≡ h
  pub is_whole : partial ≡ none

module _ (T : Tycho) where
  abbrev pub HeaderAt : ℕ → T.Bytes → T.Header → Type 0
  HeaderAt n h header =
      AtBlock n h (T.header_number header) (T.header_hash header)
        (T.header_partial_block_index header)

module _ {T : Tycho} where
  -- The message and the state of its synchronizer, which is `Ready`, are at the block.
  pub record MessageAt (n : ℕ) (h : T.Bytes) (m : ProtocolMessage T) : Type 0 where
    pub message_at : HeaderAt T n h (T.message_header m.message)
    pub sync_header : T.Header
    pub is_synced : T.ready_header m.sync_state ≡ some sync_header
    pub sync_at : HeaderAt T n h sync_header

  -- The status is `Ready`, at the block.
  pub record StatusAt (n : ℕ) (h : T.Bytes) (status : Text × SyncStatus T) : Type 0 where
    pub is_at_ready : status.1.kind ≡ ready
    pub block : BlockRef T
    pub has_block : status.1.block ≡ some block
    pub status_at : AtBlock n h block.number block.hash block.partial_block_index

pub if_some :
    {B : Type 0} (b : Bool) (x r : B) → (if b then some x else none) ≡ some r → (b ≡ true) × (r ≡ x)
if_some true x r q = (refl, cc)
if_some false x r q = cc

pub past_guard :
    {B : Type 0} (b : Bool) (p : Option ℕ) (m : Option B) (r : B)
    → (if not b || is_some p then none else m) ≡ some r
    → (b ≡ true) × (p ≡ none) × (m ≡ some r)
past_guard true none m r q = (refl, refl, q)
past_guard true (some i) m r q = cc
past_guard false p m r q = cc

pub if_ready :
    {B : Type 0} (k : SyncStatusKind) (m : Option B) (r : B)
    → (if is_ready k then m else none) ≡ some r
    → (k ≡ ready) × (m ≡ some r)
if_ready started m r q = cc
if_ready ready m r q = (refl, q)
if_ready delayed m r q = cc
if_ready stale m r q = cc
if_ready advanced m r q = cc
if_ready ended m r q = cc

module _ (T : Tycho) (n : ℕ) where
  pub hash_sound :
      (e : Option T.Bytes) (hash : T.Bytes) (r : Option T.Bytes)
      → observe_hash T e hash ≡ some r
      → Expects e hash × (r ≡ some hash)
  unfolding observe_hash
  hash_sound none hash r q = (tt, cc)
  hash_sound (some e) hash r q =
      let (t, found) = if_some (T.bytes_eq e hash) (some e) r q in
      let same = (T.bytes_eq_iff e hash).0 t in (same, found ∙ ap some same)

  pub hash_complete :
      (e : Option T.Bytes) (hash : T.Bytes)
      → Expects e hash
      → observe_hash T e hash ≡ some (some hash)
  unfolding observe_hash
  hash_complete none hash x = refl
  hash_complete (some e) hash x = rw ((T.bytes_eq_iff e hash).1 x) (ap (λ e. some (some e)) x)

  pub block_sound :
      (e : Option T.Bytes) (number : ℕ) (hash : T.Bytes) (partial : Option ℕ) (r : Option T.Bytes)
      → observe_block T n e number hash partial ≡ some r
      → AtBlock n hash number hash partial × Expects e hash × (r ≡ some hash)
  unfolding observe_block
  block_sound e number hash partial r q =
      let (t, whole, rest) = past_guard (number == n) partial (observe_hash T e hash) r q in
      let (x, at) = hash_sound e hash r rest in
      (record { same_number = (==_iff number n).0 t; same_hash = refl; is_whole = whole }, x, at)

  pub block_complete :
      (e : Option T.Bytes) (h : T.Bytes) (number : ℕ) (hash : T.Bytes) (partial : Option ℕ)
      → AtBlock n h number hash partial
      → Expects e h
      → observe_block T n e number hash partial ≡ some (some h)
  unfolding observe_block
  block_complete e h number hash partial at x =
      rw at.is_whole
        (rw at.same_number (rw ((==_iff n n).1 refl) (rw at.same_hash (hash_complete e h x))))

  -- The two sightings of a message are of one block: the second expects the hash of the first.
  pub message_sound :
      (e : Option T.Bytes) (m : ProtocolMessage T) (r : Option T.Bytes)
      → observe_message T n e m ≡ some r
      → (h : T.Bytes) × MessageAt n h m × Expects e h × (r ≡ some h)
  unfolding observe_message
  message_sound e m r q =
      let first = T.message_header m.message in
      let (s, this, rest) = past (observe_header T n e first) _ q in
      let (at, x, seen) = block_sound e _ _ _ s this in
      let (sync, synced, last) = past (T.ready_header m.sync_state) _ rest in
      let (again, same, final) =
        block_sound (some (T.header_hash first)) _ _ _ r
          (ap (λ s. observe_header T n s sync) (sym seen) ∙ last) in
      let second : HeaderAt T n (T.header_hash first) sync = record {
        same_number = again.same_number;
        same_hash = sym same;
        is_whole = again.is_whole;
      } in
      (
        T.header_hash first,
        record { message_at = at; sync_header = sync; is_synced = synced; sync_at = second },
        x,
        final ∙ ap some (sym same),
      )

  pub message_complete :
      (e : Option T.Bytes) (m : ProtocolMessage T) (h : T.Bytes)
      → MessageAt n h m
      → Expects e h
      → observe_message T n e m ≡ some (some h)
  unfolding observe_message
  message_complete e m h at x =
      rw (block_complete e h _ _ _ at.message_at x)
        (rw at.is_synced (block_complete (some h) h _ _ _ at.sync_at refl))

  pub status_sound :
      (e : Option T.Bytes) (s : Text × SyncStatus T) (r : Option T.Bytes)
      → observe_status T n e s ≡ some r
      → (h : T.Bytes) × StatusAt n h s × Expects e h × (r ≡ some h)
  unfolding observe_status
  status_sound e s r q =
      let (is_ready, body) = if_ready s.1.kind _ r q in
      let (block, has, rest) = past s.1.block _ body in
      let (at, x, final) = block_sound e _ _ _ r rest in
      (
        block.hash,
        record { is_at_ready = is_ready; block = block; has_block = has; status_at = at },
        x,
        final,
      )

  pub status_complete :
      (e : Option T.Bytes) (s : Text × SyncStatus T) (h : T.Bytes)
      → StatusAt n h s
      → Expects e h
      → observe_status T n e s ≡ some (some h)
  unfolding observe_status
  status_complete e s h at x =
      rw at.is_at_ready (rw at.has_block (block_complete e h _ _ _ at.status_at x))
