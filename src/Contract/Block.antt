-- ===== src/Contract/Block.antt =====
-- `complete_broadcaster_partition_block` of broadcaster.rs and its caller `complete_native_block`.
pub mod Loop
pub mod Sightings
pub mod Complete
use tycho_simulation_server.Base.{
  ℕ, ◌≡◌, refl, sym, ap, ◌↔◌, Bool, true, false, ◌&&◌, ◌||◌, not, ◌==◌, ==_iff, Option, some, none,
  List, [], ◌∷◌, All, is_empty, Text, if◌then◌else◌, arith,
}
use mathlib.Core.Option.{some-injective}
use tycho_simulation_server.Contract.External.{Tycho}
use tycho_simulation_server.Contract.Backend.{Backend, native, backend_eq}
use tycho_simulation_server.Contract.Payload.{
  SyncStatusKind, started, ready, delayed, stale, advanced, ended, BlockRef, SyncStatus,
  ProtocolMessage, UpdatePartition,
}

-- `?` on an option, and the loops that return early with it.
infixl 5 ◌>>=◌
abbrev pub ◌>>=◌ : {A B : Type 0} → Option A → (A → Option B) → Option B
none >>= rest = none
some a >>= rest = rest a

abbrev pub is_some : {A : Type 0} → Option A → Bool
is_some none = false
is_some (some a) = true

abbrev pub is_ready : SyncStatusKind → Bool
is_ready ready = true
is_ready _ = false

-- A loop over `xs` that updates a value and stops at the first failure.
unfoldable pub observe_each : {S A : Type 0} → (S → A → Option S) → S → List A → Option S
observe_each f s [] = some s
observe_each f s (x ∷ xs) = f s x >>= λ r. observe_each f r xs

module _ (T : Tycho) where
  unfoldable pub observe_hash : Option T.Bytes → T.Bytes → Option (Option T.Bytes)
  observe_hash (some expected) hash =
      if T.bytes_eq expected hash then some (some expected) else none
  observe_hash none hash = some (some hash)

  -- The closure `observe`: from the expected hash to the one that it leaves, `none` for `false`,
  -- on which every caller returns `None`.
  unfoldable pub observe_block :
      ℕ → Option T.Bytes → ℕ → T.Bytes → Option ℕ → Option (Option T.Bytes)
  unfolding observe_hash
  observe_block block_number expected number hash partial_block_index =
      if not (number == block_number) || is_some partial_block_index
      then none
      else observe_hash expected hash

  abbrev pub observe_header : ℕ → Option T.Bytes → T.Header → Option (Option T.Bytes)
  observe_header n expected h =
      observe_block n expected (T.header_number h) (T.header_hash h)
        (T.header_partial_block_index h)

  unfoldable pub observe_message : ℕ → Option T.Bytes → ProtocolMessage T → Option (Option T.Bytes)
  observe_message n expected m = do
    expected ← observe_header n expected (T.message_header m.message)
    sync_header ← T.ready_header m.sync_state
    observe_header n expected sync_header

  unfoldable pub observe_status : ℕ → Option T.Bytes → Text × SyncStatus T → Option (Option T.Bytes)
  observe_status n expected status =
      if is_ready status.1.kind
      then (do
        block ← status.1.block
        observe_block n expected block.number block.hash block.partial_block_index)
      else none

  unfoldable pub complete_broadcaster_partition_block :
      ℕ → List (ProtocolMessage T) → List (Text × SyncStatus T) → Option ℕ
  unfolding observe_each
  complete_broadcaster_partition_block n messages sync_statuses =
      if is_empty messages && is_empty sync_statuses then none else (do
        expected ← observe_each (observe_message n) none messages
        _ ← observe_each (observe_status n) expected sync_statuses
        some n)

  unfoldable pub complete_native_block : UpdatePartition T → Option ℕ
  complete_native_block p =
      if backend_eq p.backend native
      then complete_broadcaster_partition_block p.block_number p.messages p.sync_statuses
      else none
