-- ===== src/Encode/Allocation/Safety.antt =====
-- Whether the subtraction can go below 0.
use native.Mathlib.Nat.{div-mul-le_self, mul-le-mul_left, mul-add}
use tycho_simulation_server.Base.{
  ℕ, ◌+◌, ◌-◌, ◌*◌, ◌<◌, ◌≤◌, ◌≡◌, ◌≢◌, refl, Bool, true, false, ltb, ◌==◌, ◌&&◌, Bool-cases, inl,
  inr, List, [], ◌∷◌, length, is_empty, Text, ok, err, ◌>>=◌, ◌>>◌, refuse, if◌then◌else◌, arith,
}
use tycho_simulation_server.Encode.Errors.{EncodeError, failed, panicked, Encoded}
use tycho_simulation_server.Encode.Allocation.{
  bps_denominator, mul_bps, saturating_add, Sums, no_sums, subtract, take_share, take_remainder,
  take_entry, take_entries, allocate_amounts_by_bps,
}
use tycho_simulation_server.Encode.Allocation.Steps.{TakesShare}
use tycho_simulation_server.Encode.Allocation.Conservation.{earlier, last_one}

mul_bps-le : (amount bps : ℕ) → 0 < bps → mul_bps amount bps * bps_denominator ≤ amount * bps
unfolding mul_bps
mul_bps-le amount bps p = elim (Bool-cases (bps == 0)) [
  | inl z ↦ absurd (ground arith)
  | inr nz ↦ rw nz (div-mul-le_self (amount * bps) bps_denominator)
]

-- What was allocated is at most the shares of the total.
record Fits (total : ℕ) (sums : Sums) : Type 0 where
  at_most : sums.allocated * bps_denominator ≤ total * sums.sum_bps
  is_within : sums.sum_bps ≤ bps_denominator

share-Fits :
    (total last_index : ℕ) (sums : Sums) (share : ℕ) (r : ℕ × Sums)
    → Fits total sums
    → TakesShare total last_index sums share r
    → Fits total r.1
share-Fits total last_index sums share r f t =
    let part = mul_bps-le total share t.is_positive in
    let whole = mul-add total sums.sum_bps share in
    let amount : r.0 * bps_denominator ≤ total * share = rw t.of_total part in
    record {
      at_most = rw t.allocates (rw t.sums_up (omega (arith, f.at_most, amount, whole)));
      is_within = rw t.sums_up t.is_within;
    }

Fits-total : (total : ℕ) (sums : Sums) → Fits total sums → sums.allocated ≤ total
Fits-total total sums f = omega (arith, f.at_most, mul-le-mul_left total f.is_within)

-- The function returns, with a value or an error.
record Returns {A : Type 0} (m : Encoded A) : Type 0 where
  no_panic : m ≢ err panicked

refuse-Returns :
    {A : Type 0} (b : Bool) (e : EncodeError) (k : Encoded A)
    → Returns k
    → Returns (refuse b (failed e) >> k)
refuse-Returns true e k r = record { no_panic = λ h. cc }
refuse-Returns false e k r = r

bind-Returns :
    {A B : Type 0} (m : Encoded A) (f : A → Encoded B)
    → Returns m
    → ((a : A) → m ≡ ok a → Returns (f a))
    → Returns (m >>= f)
bind-Returns (ok a) f r k = k a refl
bind-Returns (err e) f r k = record { no_panic = λ h. r.no_panic cc }

ok-Returns : {A : Type 0} (a : A) → Returns (ok a)
ok-Returns a = record { no_panic = λ h. cc }

subtract-Returns : (a b : ℕ) → b ≤ a → Returns (subtract a b)
subtract-Returns a b le = record { no_panic = λ h. ground arith }

if_Returns :
    {A : Type 0} (b : Bool) (x y : Encoded A) → Returns x → Returns y → Returns (if b then x else y)
if_Returns true x y r s = r
if_Returns false x y r s = s

module _ (total last_index : ℕ) (label field_name : Text) where
  share-Returns :
      (sums : Sums) (share : ℕ) → Returns (take_share total label field_name last_index sums share)
  unfolding take_share
  share-Returns sums share = refuse-Returns (share == 0) _ _ (
      refuse-Returns (ltb bps_denominator (saturating_add sums.sum_bps share)) _ _
        (refuse-Returns (ltb 0 last_index && mul_bps total share == 0) _ _ (ok-Returns _)))

  remainder-Returns :
      (sums : Sums) (share : ℕ)
      → sums.allocated ≤ total
      → Returns (take_remainder total label field_name last_index sums share)
  unfolding take_remainder
  remainder-Returns sums share enough = refuse-Returns _ _ _ (
      bind-Returns _ _ (subtract-Returns total sums.allocated enough)
        (λ amount q. refuse-Returns _ _ _ (ok-Returns _)))

  entry-Returns :
      (index : ℕ) (sums : Sums) (share : ℕ)
      → Fits total sums
      → Returns (take_entry total label field_name last_index index sums share)
  unfolding take_entry
  entry-Returns index sums share f = refuse-Returns _ _ _ (
      if_Returns (ltb index last_index) _ _ (share-Returns sums share)
        (remainder-Returns sums share (Fits-total total sums f)))

  entry-Fits :
      (index : ℕ) (sums : Sums) (share : ℕ) (r : ℕ × Sums)
      → Fits total sums
      → take_entry total label field_name last_index index sums share ≡ ok r
      → Fits total r.1
  entry-Fits index sums share r f h = elim (Bool-cases (ltb index last_index)) [
    | inl t ↦
        share-Fits total last_index sums share r f
          (earlier total last_index label field_name index sums share t r h)
    | inr t ↦ rw (last_one total last_index label field_name index sums share t r h).keeps f
  ]

  entries-Returns :
      (index : ℕ) (sums : Sums) (shares : List ℕ)
      → Fits total sums
      → Returns (take_entries total label field_name last_index index sums shares)
  unfolding take_entries
  entries-Returns index sums [] f = ok-Returns []
  entries-Returns index sums (share ∷ shares) f =
      bind-Returns (take_entry total label field_name last_index index sums share) _
        (entry-Returns index sums share f)
        (λ taken q.
          bind-Returns (take_entries total label field_name last_index (index + 1) taken.1 shares) _
            (entries-Returns (index + 1) taken.1 shares (entry-Fits index sums share taken f q))
            (λ rest h. ok-Returns (taken.0 ∷ rest)))

-- The allocation never panics: what is allocated before the last entry is at most the total, so the
-- subtraction stays at or above 0, whatever the shares.
pub allocate_amounts-Returns :
    (total : ℕ) (shares : List ℕ) (label field_name : Text)
    → allocate_amounts_by_bps total shares label field_name ≢ err panicked
unfolding allocate_amounts_by_bps
allocate_amounts-Returns total shares label field_name =
    (refuse-Returns (is_empty shares) _ _ (
      entries-Returns total (length shares - 1) label field_name 0 no_sums shares
        (record { at_most = omega arith; is_within = omega arith }))).no_panic
