-- ===== src/Encode/Allocation.antt =====
-- services/encode/allocation.rs: the division of an amount by shares in basis points, of which the
-- last is the remainder. A `BigUint` is a natural number.
pub mod Steps
pub mod Conservation
pub mod Safety
pub mod Swaps
use tycho_simulation_server.Base.{
  ℕ, ◌+◌, ◌-◌, ◌*◌, ◌/◌, Bool, not, ◌&&◌, ◌==◌, ltb, List, [], ◌∷◌, ◌++◌, map, length, is_empty,
  if◌then◌else◌, Text, codes, format_u64, max_u32, Option, none, some, ok, err, ◌>>=◌, ◌>>◌, refuse,
}
use tycho_simulation_server.Encode.Errors.{Encoded, invalid, internal, panicked}

abbrev pub bps_denominator : ℕ
bps_denominator = 10000

unfoldable pub mul_bps : ℕ → ℕ → ℕ
mul_bps amount bps = if bps == 0 then 0 else (amount * bps) / bps_denominator

-- u32::saturating_add
abbrev pub saturating_add : ℕ → ℕ → ℕ
saturating_add a b = if ltb max_u32 (a + b) then max_u32 else a + b

-- `total - &allocated`
abbrev pub subtract : ℕ → ℕ → Encoded ℕ
subtract total allocated = if ltb total allocated then err panicked else ok (total - allocated)

-- What the loop carries: `sum_bps` and `allocated`.
pub record Sums : Type 0 where
  pub sum_bps : ℕ
  pub allocated : ℕ

-- The prefix of the messages.
abbrev prefixed : Text → Text → Text
prefixed label field_name = label ++ codes " " ++ field_name

module _ (total : ℕ) (label field_name : Text) (last_index : ℕ) where
  -- An entry before the last.
  unfoldable pub take_share : Sums → ℕ → Encoded (ℕ × Sums)
  take_share sums share = do
    refuse (share == 0) (invalid (prefixed label field_name ++ codes " remainder must be last"))
    let sum_bps = saturating_add sums.sum_bps share
    refuse (ltb bps_denominator sum_bps)
        (invalid (prefixed label field_name ++ codes " sum exceeds 10000"))
    let amount = mul_bps total share
    refuse (ltb 0 last_index && amount == 0) (
        invalid (
          prefixed label field_name
          ++ codes " rounds down to zero for this amountIn; increase amountIn or adjust "
          ++ field_name))
    ok (amount, record { sum_bps = sum_bps; allocated = sums.allocated + amount })

  -- The last entry.
  unfoldable pub take_remainder : Sums → ℕ → Encoded (ℕ × Sums)
  take_remainder sums share = do
    refuse (not (share == 0))
        (invalid (label ++ codes " last " ++ field_name ++ codes " must be 0 to take remainder"))
    amount ← subtract total sums.allocated
    refuse (ltb 0 last_index && amount == 0)
        (invalid (prefixed label field_name ++ codes " must leave a remainder for the last entry"))
    ok (amount, sums)

  -- The body of the loop.
  unfoldable pub take_entry : ℕ → Sums → ℕ → Encoded (ℕ × Sums)
  take_entry index sums share = do
    refuse (ltb bps_denominator share)
        (invalid (prefixed label field_name ++ codes " must be <= 10000"))
    if ltb index last_index then take_share sums share else take_remainder sums share

  -- The loop from an index on, with the amounts that it pushes.
  unfoldable pub take_entries : ℕ → Sums → List ℕ → Encoded (List ℕ)
  take_entries index sums [] = ok []
  take_entries index sums (share ∷ shares) = do
    taken ← take_entry index sums share
    rest ← take_entries (index + 1) taken.1 shares
    ok (taken.0 ∷ rest)

abbrev pub no_sums : Sums
no_sums = record { sum_bps = 0; allocated = 0 }

unfoldable pub allocate_amounts_by_bps : ℕ → List ℕ → Text → Text → Encoded (List ℕ)
unfolding take_entries
allocate_amounts_by_bps total shares label field_name = do
  refuse (is_empty shares)
      (invalid (label ++ codes " " ++ field_name ++ codes " must not be empty"))
  take_entries total label field_name (length shares - 1) 0 no_sums shares

-- PoolRef
pub record PoolRef : Type 0 where
  pub protocol : Text
  pub component_id : Text
  pub pool_address : Option Text

-- NormalizedSwapDraftInternal; a token is the `Bytes` of its address.
pub record SwapDraft (Bytes : Type 0) : Type 0 where
  pub pool : PoolRef
  pub token_in : Bytes
  pub token_out : Bytes
  pub split_bps : ℕ

pub record AllocatedSwap (Bytes : Type 0) : Type 0 where
  pub pool : PoolRef
  pub token_in : Bytes
  pub token_out : Bytes
  pub split_bps : ℕ
  pub amount_in : ℕ

abbrev pub swap_label : ℕ → ℕ → Text
swap_label segment_index hop_index =
    codes "segment["
    ++ format_u64 segment_index
    ++ codes "].hop["
    ++ format_u64 hop_index
    ++ codes "].swap"

module _ {Bytes : Type 0} where
  abbrev pub with_amount : SwapDraft Bytes → ℕ → AllocatedSwap Bytes
  with_amount swap amount_in = record {
    pool = swap.pool;
    token_in = swap.token_in;
    token_out = swap.token_out;
    split_bps = swap.split_bps;
    amount_in = amount_in;
  }

  -- The loop over the swaps, which reads the amount at the same index.
  unfoldable pub pair_amounts :
      List (SwapDraft Bytes) → List ℕ → Encoded (List (AllocatedSwap Bytes))
  pair_amounts [] amounts = ok []
  pair_amounts (swap ∷ swaps) [] = err (internal (codes "Missing swap amount allocation"))
  pair_amounts (swap ∷ swaps) (amount ∷ amounts) = do
    rest ← pair_amounts swaps amounts
    ok (with_amount swap amount ∷ rest)

  unfoldable pub allocate_swaps_by_bps :
      ℕ → List (SwapDraft Bytes) → ℕ → ℕ → Encoded (List (AllocatedSwap Bytes))
  unfolding allocate_amounts_by_bps pair_amounts
  allocate_swaps_by_bps hop_amount_in swaps segment_index hop_index = do
    refuse (is_empty swaps) (invalid (codes "hop.swaps must not be empty"))
    refuse (hop_amount_in == 0) (invalid (codes "hop amountIn must be > 0"))
    amounts ←
        allocate_amounts_by_bps hop_amount_in (map (λ s. s.split_bps) swaps)
          (swap_label segment_index hop_index) (codes "splitBps")
    pair_amounts swaps amounts
