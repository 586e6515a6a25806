-- ===== src/Encode/Allocation/Steps.antt =====
-- What one entry of the loop takes.
use tycho_simulation_server.Base.{
  ℕ, ◌+◌, ◌-◌, ◌<◌, ◌≤◌, ◌≡◌, refl, Bool, true, false, not, ◌&&◌, ◌==◌, ltb, Text, ok, ok_iff,
  past_bind, past_check, refuse, arith,
}
use tycho_simulation_server.Encode.Errors.{Failure}
use tycho_simulation_server.Encode.Allocation.{
  bps_denominator, mul_bps, saturating_add, subtract, Sums, take_share, take_remainder,
}

accepted : (b : Bool) (e : Failure) → refuse b e ≡ ok tt → b ≡ false
accepted true e h = cc
accepted false e h = refl

nonzero : (n : ℕ) (e : Failure) → refuse (n == 0) e ≡ ok tt → 0 < n
nonzero n e h = ground arith

is_zero : (n : ℕ) (e : Failure) → refuse (not (n == 0)) e ≡ ok tt → n ≡ 0
is_zero n e h = ground arith

within :
    (a b : ℕ)
    → ltb bps_denominator (saturating_add a b) ≡ false
    → (saturating_add a b ≡ a + b) × (a + b ≤ bps_denominator)
within a b h = (ground arith, ground arith)

zero_guard : (n k : ℕ) → (ltb 0 n && k == 0) ≡ false → 0 < n → 0 < k
zero_guard n k h p = ground arith

subtracted : (a b d : ℕ) → subtract a b ≡ ok d → (b ≤ a) × (d ≡ a - b)
subtracted a b d h = (ground arith, ground arith)

module _ (total : ℕ) (last_index : ℕ) where
  -- A part of the total, by its share.
  pub record TakesShare (sums : Sums) (share : ℕ) (r : ℕ × Sums) : Type 0 where
    pub is_positive : 0 < share
    pub sums_up : r.1.sum_bps ≡ sums.sum_bps + share
    pub is_within : sums.sum_bps + share ≤ bps_denominator
    pub of_total : r.0 ≡ mul_bps total share
    pub allocates : r.1.allocated ≡ sums.allocated + r.0
    pub is_some : 0 < last_index → 0 < r.0

  -- What is left of the total.
  pub record TakesRemainder (sums : Sums) (share : ℕ) (r : ℕ × Sums) : Type 0 where
    pub no_share : share ≡ 0
    pub enough : sums.allocated ≤ total
    pub of_rest : r.0 ≡ total - sums.allocated
    pub leaves_some : 0 < last_index → 0 < r.0
    pub keeps : r.1 ≡ sums

  module _ (label field_name : Text) where
    pub take_share_sound :
        (sums : Sums) (share : ℕ) (r : ℕ × Sums)
        → take_share total label field_name last_index sums share ≡ ok r
        → TakesShare sums share r
    unfolding take_share
    take_share_sound sums share r h =
        let (positive, h₁) = past_check _ _ h in
        let (bounded, h₂) = past_check _ _ h₁ in
        let (some_amount, h₃) = past_check _ _ h₂ in
        let is = (ok_iff _ r).0 h₃ in
        let (exact, below) = within sums.sum_bps share (accepted _ _ bounded) in
        let guard = zero_guard last_index (mul_bps total share) (accepted _ _ some_amount) in
        rw is record {
          is_positive = nonzero share _ positive;
          sums_up = exact;
          is_within = below;
          of_total = refl;
          allocates = refl;
          is_some = guard;
        }

    pub take_remainder_sound :
        (sums : Sums) (share : ℕ) (r : ℕ × Sums)
        → take_remainder total label field_name last_index sums share ≡ ok r
        → TakesRemainder sums share r
    unfolding take_remainder
    take_remainder_sound sums share r h =
        let (zero_share, h₁) = past_check _ _ h in
        let (amount, subtracts, h₂) = past_bind _ _ h₁ in
        let (some_left, h₃) = past_check _ _ h₂ in
        let is = (ok_iff _ r).0 h₃ in
        let (enough, rest) = subtracted total sums.allocated amount subtracts in
        rw is record {
          no_share = is_zero share _ zero_share;
          enough = enough;
          of_rest = rest;
          leaves_some = zero_guard last_index amount (accepted _ _ some_left);
          keeps = refl;
        }
