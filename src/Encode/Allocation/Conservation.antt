-- ===== src/Encode/Allocation/Conservation.antt =====
-- The sum of the amounts.
use tycho_simulation_server.Base.{
  suc, ℕ, ◌+◌, ◌-◌, ◌<◌, ◌≡◌, refl, sym, ap, ◌∙◌, true, false, ltb, List, [], ◌∷◌, All, length,
  Text, ok, ok_iff, past_bind, past_check, refuse, if◌then◌else◌, arith,
}
use tycho_simulation_server.Encode.Allocation.{
  bps_denominator, Sums, no_sums, take_share, take_remainder, take_entry, take_entries,
  allocate_amounts_by_bps,
}
use tycho_simulation_server.Encode.Allocation.Steps.{
  TakesShare, TakesRemainder, take_share_sound, take_remainder_sound,
}

abbrev pub sum : List ℕ → ℕ
sum [] = 0
sum (n ∷ ns) = n + sum ns

-- The amounts divide what is left: one for each share, all of it, and none of them 0 where the
-- list has more than one entry.
pub record Divides (total last_index : ℕ) (sums : Sums) (shares amounts : List ℕ) : Type 0 where
  pub one_each : length amounts ≡ length shares
  pub all_of_it : sums.allocated + sum amounts ≡ total
  pub none_empty : 0 < last_index → All (λ n. 0 < n) amounts

module _ (total last_index : ℕ) (label field_name : Text) where
  pub earlier :
      (index : ℕ) (sums : Sums) (share : ℕ)
      → ltb index last_index ≡ true
      → (r : ℕ × Sums) → take_entry total label field_name last_index index sums share ≡ ok r
      → TakesShare total last_index sums share r
  unfolding take_entry
  earlier index sums share place r h =
      let share_of = take_share total label field_name last_index sums share in
      let rest_of = take_remainder total label field_name last_index sums share in
      let body =
        past_check (refuse (ltb bps_denominator share) _)
          (if ltb index last_index then share_of else rest_of) h in
      take_share_sound total last_index label field_name sums share r
        (ap (λ b. if b then share_of else rest_of) (sym place) ∙ body.1)

  pub last_one :
      (index : ℕ) (sums : Sums) (share : ℕ)
      → ltb index last_index ≡ false
      → (r : ℕ × Sums) → take_entry total label field_name last_index index sums share ≡ ok r
      → TakesRemainder total last_index sums share r
  unfolding take_entry
  last_one index sums share place r h =
      let share_of = take_share total label field_name last_index sums share in
      let rest_of = take_remainder total label field_name last_index sums share in
      let body =
        past_check (refuse (ltb bps_denominator share) _)
          (if ltb index last_index then share_of else rest_of) h in
      take_remainder_sound total last_index label field_name sums share r
        (ap (λ b. if b then share_of else rest_of) (sym place) ∙ body.1)

  entries_divide :
      (index : ℕ) (sums : Sums) (shares amounts : List ℕ)
      → index + length shares ≡ last_index + 1
      → 0 < length shares
      → take_entries total label field_name last_index index sums shares ≡ ok amounts
      → Divides total last_index sums shares amounts
  unfolding take_entries
  entries_divide index sums [] amounts count some_share h = absurd (omega (arith, some_share))
  entries_divide index sums (share ∷ []) amounts count some_share h =
      let (taken, takes, h₁) =
        past_bind (take_entry total label field_name last_index index sums share) _ h in
      let r = last_one index sums share (ground (arith, count)) taken takes in
      rw ((ok_iff _ amounts).0 h₁) record {
        one_each = refl;
        all_of_it = omega (arith, r.enough, r.of_rest);
        none_empty = λ p. (r.leaves_some p, tt);
      }
  entries_divide index sums (share ∷ next ∷ shares) amounts count some_share h =
      let (taken, takes, h₁) =
        past_bind (take_entry total label field_name last_index index sums share) _ h in
      let (rest, entries, h₂) =
        past_bind
          (take_entries total label field_name last_index (index + 1) taken.1 (next ∷ shares)) _
          h₁ in
      let r = earlier index sums share (ground (arith, count)) taken takes in
      let ih =
        entries_divide (index + 1) taken.1 (next ∷ shares) rest (omega (arith, count)) (omega arith)
          entries in
      rw ((ok_iff _ amounts).0 h₂) record {
        one_each = ap suc ih.one_each;
        all_of_it = omega (arith, ih.all_of_it, r.allocates);
        none_empty = λ p. (r.is_some p, ih.none_empty p);
      }

-- Where amounts are allocated, there is one for each share, and together they are the total; and if
-- there are more shares than one, no amount is 0.
pub allocate_amounts-Divides :
    (total : ℕ) (shares : List ℕ) (label field_name : Text) (amounts : List ℕ)
    → allocate_amounts_by_bps total shares label field_name ≡ ok amounts
    → Divides total (length shares - 1) no_sums shares amounts
unfolding allocate_amounts_by_bps
allocate_amounts-Divides total [] label field_name amounts h = cc
allocate_amounts-Divides total (share ∷ shares) label field_name amounts h =
    entries_divide total (length (share ∷ shares) - 1) label field_name 0 no_sums (share ∷ shares)
      amounts (omega arith) (omega arith) h
