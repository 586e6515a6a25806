-- ===== src/Encode/Tests.antt =====
-- Allocations of concrete amounts, and the theorems at them.
use tycho_simulation_server.Base.{ℕ, ◌≡◌, ◌≢◌, refl, none, [], ◌∷◌, List, codes, ok, err}
use tycho_simulation_server.Encode.Errors.{panicked}
use tycho_simulation_server.Encode.Allocation.{
  mul_bps, take_share, take_remainder, take_entry, no_sums, allocate_amounts_by_bps, SwapDraft,
  AllocatedSwap, with_amount, allocate_swaps_by_bps,
}
use tycho_simulation_server.Encode.Allocation.Conservation.{Divides, allocate_amounts-Divides}
use tycho_simulation_server.Encode.Allocation.Safety.{allocate_amounts-Returns}
use tycho_simulation_server.Encode.Allocation.Swaps.{DividesHop, allocate_swaps-DividesHop}

-- The shares of the tests of the repository.
allocating : Unit {0}
unfolding mul_bps take_share take_remainder take_entry allocate_amounts_by_bps allocate_swaps_by_bps
allocating = tt

divided : allocate_amounts_by_bps 100 (3000 ∷ 0 ∷ []) (codes "s") (codes "bps") ≡ ok (30 ∷ 70 ∷ [])
unfolding allocating
divided = refl

allocate_amounts-Divides_example : Divides 100 1 no_sums (3000 ∷ 0 ∷ []) (30 ∷ 70 ∷ [])
allocate_amounts-Divides_example =
    allocate_amounts-Divides 100 (3000 ∷ 0 ∷ []) (codes "s") (codes "bps") (30 ∷ 70 ∷ []) divided

allocate_amounts-Returns_example :
    allocate_amounts_by_bps 100 (9000 ∷ 9000 ∷ 0 ∷ []) (codes "s") (codes "bps") ≢ err panicked
allocate_amounts-Returns_example =
    allocate_amounts-Returns 100 (9000 ∷ 9000 ∷ 0 ∷ []) (codes "s") (codes "bps")

abbrev draft : ℕ → SwapDraft ℕ
draft share = record {
  pool = record { protocol = codes "uniswap_v2"; component_id = codes "p1"; pool_address = none };
  token_in = 1;
  token_out = 2;
  split_bps = share;
}

abbrev two_swaps : List (SwapDraft ℕ)
two_swaps = draft 5000 ∷ draft 0 ∷ []

abbrev two_amounts : List (AllocatedSwap ℕ)
two_amounts = with_amount (draft 5000) 50 ∷ with_amount (draft 0) 51 ∷ []

hop_divided : allocate_swaps_by_bps 101 two_swaps 0 0 ≡ ok two_amounts
unfolding allocating
hop_divided = refl

allocate_swaps-DividesHop_example : DividesHop 101 two_swaps two_amounts
allocate_swaps-DividesHop_example =
    allocate_swaps-DividesHop 101 two_swaps 0 0 two_amounts hop_divided
