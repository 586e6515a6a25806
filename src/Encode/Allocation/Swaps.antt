-- ===== src/Encode/Allocation/Swaps.antt =====
-- The swaps of a hop with their amounts.
use tycho_simulation_server.Base.{
  suc, ℕ, ◌-◌, ◌<◌, ◌≡◌, refl, ap, ◌∙◌, List, [], ◌∷◌, map, All, length, is_empty, codes, ok,
  ok_iff, past_bind, past_check, refuse, ◌==◌, arith,
}
use tycho_simulation_server.Encode.Errors.{Failure}
use tycho_simulation_server.Encode.Allocation.{
  no_sums, allocate_amounts_by_bps, SwapDraft, AllocatedSwap, swap_label, pair_amounts,
  allocate_swaps_by_bps,
}
use tycho_simulation_server.Encode.Allocation.Conservation.{sum, Divides, allocate_amounts-Divides}

positive : (n : ℕ) (e : Failure) → refuse (n == 0) e ≡ ok tt → 0 < n
positive n e h = ground arith

-- No amount is 0: with one share it is the total, and otherwise the division says so.
all_positive :
    (total : ℕ) (shares amounts : List ℕ)
    → 0 < total
    → Divides total (length shares - 1) no_sums shares amounts
    → All (λ n. 0 < n) amounts
all_positive total shares [] p d = tt
all_positive total [] (a ∷ amounts) p d = absurd (omega (arith, d.one_each))
all_positive total (s ∷ []) (a ∷ []) p d = (omega (arith, d.all_of_it, p), tt)
all_positive total (s ∷ []) (a ∷ b ∷ amounts) p d = absurd (omega (arith, d.one_each))
all_positive total (s ∷ t ∷ shares) (a ∷ amounts) p d = d.none_empty (omega arith)

module _ {Bytes : Type 0} where
  -- The draft behind an allocated swap.
  abbrev pub draft_of : AllocatedSwap Bytes → SwapDraft Bytes
  draft_of s = record {
    pool = s.pool;
    token_in = s.token_in;
    token_out = s.token_out;
    split_bps = s.split_bps;
  }

  abbrev pub amounts_of : List (AllocatedSwap Bytes) → List ℕ
  amounts_of = map (λ s. s.amount_in)

  length-splits :
      (swaps : List (SwapDraft Bytes)) → length (map (λ s. s.split_bps) swaps) ≡ length swaps
  length-splits [] = refl
  length-splits (s ∷ swaps) = ap suc (length-splits swaps)

  paired :
      (swaps : List (SwapDraft Bytes)) (amounts : List ℕ) (out : List (AllocatedSwap Bytes))
      → length amounts ≡ length swaps
      → pair_amounts swaps amounts ≡ ok out
      → (map draft_of out ≡ swaps) × (amounts_of out ≡ amounts)
  unfolding pair_amounts
  paired [] [] out l h = rw ((ok_iff _ out).0 h) (refl, refl)
  paired [] (a ∷ amounts) out l h = absurd (omega (arith, l))
  paired (s ∷ swaps) [] out l h = absurd (omega (arith, l))
  paired (s ∷ swaps) (a ∷ amounts) out l h =
      let (rest, q, final) = past_bind (pair_amounts swaps amounts) _ h in
      let ih = paired swaps amounts rest (omega (arith, l)) q in
      rw ((ok_iff _ out).0 final) (ap (λ ds. s ∷ ds) ih.0, ap (λ ns. a ∷ ns) ih.1)

  -- The swaps are those of the hop, in order, and divide its amount into amounts that are not 0.
  pub record DividesHop (amount_in : ℕ) (swaps : List (SwapDraft Bytes))
      (out : List (AllocatedSwap Bytes)) : Type 0 where
    pub same_swaps : map draft_of out ≡ swaps
    pub all_of_it : sum (amounts_of out) ≡ amount_in
    pub none_empty : All (λ n. 0 < n) (amounts_of out)

  -- Where the swaps of a hop are allocated, they are those of the hop, in order, each with an amount
  -- that is not 0, and the amounts sum up to that of the hop.
  pub allocate_swaps-DividesHop :
      (amount_in : ℕ) (swaps : List (SwapDraft Bytes)) (segment_index hop_index : ℕ)
      (out : List (AllocatedSwap Bytes))
      → allocate_swaps_by_bps amount_in swaps segment_index hop_index ≡ ok out
      → DividesHop amount_in swaps out
  unfolding allocate_swaps_by_bps
  allocate_swaps-DividesHop amount_in swaps segment_index hop_index out h =
      let (_, h₁) = past_check (refuse (is_empty swaps) _) _ h in
      let (some_amount, h₂) = past_check (refuse (amount_in == 0) _) _ h₁ in
      let (amounts, allocates, pairs) =
        past_bind
          (allocate_amounts_by_bps amount_in (map (λ s. s.split_bps) swaps)
            (swap_label segment_index hop_index) (codes "splitBps"))
          (pair_amounts swaps) h₂ in
      let d =
        allocate_amounts-Divides amount_in (map (λ s. s.split_bps) swaps)
          (swap_label segment_index hop_index) (codes "splitBps") amounts allocates in
      let (same, given) = paired swaps amounts out (d.one_each ∙ length-splits swaps) pairs in
      let not_zero = all_positive amount_in _ amounts (positive amount_in _ some_amount) d in
      record {
        same_swaps = same;
        all_of_it = omega (arith, d.all_of_it, ap sum given);
        none_empty = rw given not_zero;
      }
