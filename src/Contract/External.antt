-- ===== src/Contract/External.antt =====
-- What the contract uses of the tycho_simulation and tycho_common crates, whose sources are not in
-- this repository: the types, and of each the parts that the contract reads.
use tycho_simulation_server.Base.{ℕ, Bool, true, Option, Text, ◌↔◌, ◌≡◌}

pub record Tycho : Type 1 where
  -- Byte strings, of which only equality is used.
  pub Bytes : Type 0
  pub bytes_eq : Bytes → Bytes → Bool
  pub bytes_eq_iff : (a b : Bytes) → (bytes_eq a b ≡ true) ↔ (a ≡ b)
  -- ProtocolComponent
  pub Component : Type 0
  pub protocol_system : Component → Text
  pub protocol_type_name : Component → Text
  -- Box<dyn ProtocolSim>
  pub Sim : Type 0
  -- BlockHeader
  pub Header : Type 0
  pub header_hash : Header → Bytes
  pub header_number : Header → ℕ
  pub header_partial_block_index : Header → Option ℕ
  -- SynchronizerState, of which the contract reads the header of a `Ready` state.
  pub SynchronizerState : Type 0
  pub ready_header : SynchronizerState → Option Header
  -- StateSyncMessage<BlockHeader>
  pub StateSyncMessage : Type 0
  pub message_header : StateSyncMessage → Header
