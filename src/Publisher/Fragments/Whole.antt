-- ===== src/Publisher/Fragments/Whole.antt =====
-- The fragments of a replacement in redis_publisher.rs, put together again.
use tycho_simulation_server.Base.{
  ℕ, zero, suc, ◌-◌, ◌≤◌, leb, List, [], ◌∷◌, ◌++◌, Text, length, length-append, ok, ◌≡◌, ◌≢◌, refl,
  ap, subst, arith, All, Bool-cases, inl, inr,
}
use tycho_simulation_server.Publisher.Errors.{Published}
use tycho_simulation_server.Publisher.Size.{utf8_width, byte_len}
use tycho_simulation_server.Publisher.Fragments.{
  RecoveryFragment, recovery_fragment_target_bytes, take_bytes, cut, fragments_within,
  prepare_recovery_fragments,
}

take_bytes-join : (budget : ℕ) (s : Text) → (take_bytes budget s).0 ++ (take_bytes budget s).1 ≡ s
unfolding take_bytes
take_bytes-join budget [] = refl
take_bytes-join budget (c ∷ s) = elim (Bool-cases (leb (utf8_width c) budget)) [
  | inl q ↦ rw q (ap (λ t. c ∷ t) (take_bytes-join (budget - utf8_width c) s))
  | inr q ↦ rw q refl
]

take_bytes-size : (budget : ℕ) (s : Text) → byte_len (take_bytes budget s).0 ≤ budget
unfolding take_bytes byte_len
take_bytes-size budget [] = omega arith
take_bytes-size budget (c ∷ s) = elim (Bool-cases (leb (utf8_width c) budget)) [
  | inl q ↦ rw q (ground (arith, q, take_bytes-size (budget - utf8_width c) s))
  | inr q ↦ rw q (omega arith)
]

width_at_most_4 : (c : ℕ) → utf8_width c ≤ 4
width_at_most_4 c = ground arith

-- The target is wider than any character, so one is always taken.
take_bytes-first :
    (c : ℕ) (s : Text)
    → take_bytes recovery_fragment_target_bytes (c ∷ s) ≡ (
      c ∷ (take_bytes (recovery_fragment_target_bytes - utf8_width c) s).0,
      (take_bytes (recovery_fragment_target_bytes - utf8_width c) s).1,
    )
unfolding take_bytes
take_bytes-first c s = elim (Bool-cases (leb (utf8_width c) recovery_fragment_target_bytes)) [
  | inl q ↦ rw q refl
  | inr q ↦ absurd (ground (arith, q, width_at_most_4 c))
]

take_bytes-shorter : (budget : ℕ) (s : Text) → length (take_bytes budget s).1 ≤ length s
take_bytes-shorter budget s = omega (
  arith,
  length-append (take_bytes budget s).0 (take_bytes budget s).1,
  ap length (take_bytes-join budget s),
)

abbrev pub joined : List RecoveryFragment → Text
joined [] = []
joined (f ∷ fs) = f.payload ++ joined fs

module _ (digest_bytes : Text → Text) where
  -- A fragment of its size, with the digest of its text.
  pub record IsFragment (f : RecoveryFragment) : Type 0 where
    pub not_empty : f.payload ≢ []
    pub fits : byte_len f.payload ≤ recovery_fragment_target_bytes
    pub same_digest : f.digest ≡ digest_bytes f.payload

  abbrev pub Whole : Text → Published (List RecoveryFragment) → Type 0
  Whole text r = (fs : List RecoveryFragment) × (r ≡ ok fs) × (joined fs ≡ text) × All IsFragment fs

  cut-Whole :
      (again : Text → Published (List RecoveryFragment)) (c : ℕ) (s rest : Text)
      → byte_len (c ∷ s) ≤ recovery_fragment_target_bytes
      → Whole rest (again rest)
      → Whole (c ∷ (s ++ rest)) (cut digest_bytes again (c ∷ s, rest))
  unfolding cut
  cut-Whole again c s rest size (fs, q, j, all) = (
    record { payload = c ∷ s; digest = digest_bytes (c ∷ s) } ∷ fs,
    rw q refl,
    ap (λ t. c ∷ (s ++ t)) j,
    (record { not_empty = λ h. cc; fits = size; same_digest = refl }, all),
  )

  fragments_within-Whole :
      (fuel : ℕ) (text : Text)
      → length text ≤ fuel
      → Whole text (fragments_within digest_bytes fuel text)
  unfolding fragments_within
  fragments_within-Whole fuel [] h = ([], refl, refl, tt)
  fragments_within-Whole zero (c ∷ s) h = absurd (omega (arith, h))
  fragments_within-Whole (suc fuel) (c ∷ s) h =
      let budget = recovery_fragment_target_bytes - utf8_width c in
      let taken = (take_bytes budget s).0 in
      let rest = (take_bytes budget s).1 in
      let size : byte_len (c ∷ taken) ≤ recovery_fragment_target_bytes =
        subst (λ r. byte_len r.0 ≤ recovery_fragment_target_bytes) (take_bytes-first c s)
          (take_bytes-size recovery_fragment_target_bytes (c ∷ s)) in
      let whole =
        cut-Whole (fragments_within digest_bytes fuel) c taken rest size
          (fragments_within-Whole fuel rest (omega (arith, h, take_bytes-shorter budget s))) in
      rw (take_bytes-first c s) (
        subst
          (λ t.
            Whole (c ∷ t) (cut digest_bytes (fragments_within digest_bytes fuel) (c ∷ taken, rest)))
          (take_bytes-join budget s) whole)

  -- A replacement that is not empty is always cut, however long it is: into fragments that together
  -- are the replacement, none of them empty or above the target of 3500000 bytes, each with the
  -- digest of its text.
  pub prepare_recovery_fragments-Whole :
      (text : Text) → text ≢ [] → Whole text (prepare_recovery_fragments digest_bytes text)
  unfolding prepare_recovery_fragments
  prepare_recovery_fragments-Whole [] h = absurd (h refl)
  prepare_recovery_fragments-Whole (c ∷ s) h =
      fragments_within-Whole (length (c ∷ s)) (c ∷ s) (omega arith)
