-- ===== src/Publisher/Fragments.antt =====
-- `prepare_recovery_fragments` of redis_publisher.rs. A string is its code points, so the last
-- character boundary within the target is where the characters that fit end.
pub mod Whole
use tycho_simulation_server.Base.{
  ℕ, zero, suc, ◌-◌, leb, List, [], ◌∷◌, Bool, if◌then◌else◌, Text, length, is_empty, Result, ok,
  err, ◌>>=◌,
}
use tycho_simulation_server.Publisher.Errors.{
  Published, replacement_is_empty, fragment_boundary_not_utf8,
}
use tycho_simulation_server.Publisher.Size.{utf8_width}

-- PreparedRecoveryFragment
pub record RecoveryFragment : Type 0 where
  pub payload : Text
  pub digest : Text

abbrev pub recovery_fragment_target_bytes : ℕ
recovery_fragment_target_bytes = 3500000

-- The characters that fit in a number of bytes, and what is behind them.
unfoldable pub take_bytes : ℕ → Text → Text × Text
take_bytes budget [] = ([], [])
take_bytes budget (c ∷ s) =
    let taken = take_bytes (budget - utf8_width c) s in
    if leb (utf8_width c) budget then (c ∷ taken.0, taken.1) else ([], c ∷ s)

-- `digest_bytes` is keccak256 of the alloy crate, in hexadecimal.
module _ (digest_bytes : Text → Text) where
  cut : (Text → Published (List RecoveryFragment)) → Text × Text → Published (List RecoveryFragment)
  cut again ([], rest) = err fragment_boundary_not_utf8
  cut again (c ∷ s, rest) = do
    fragments ← again rest
    ok (record { payload = c ∷ s; digest = digest_bytes (c ∷ s) } ∷ fragments)

  -- Each round takes a character at least.
  fragments_within : ℕ → Text → Published (List RecoveryFragment)
  unfolding take_bytes cut
  fragments_within fuel [] = ok []
  fragments_within zero (c ∷ s) = err fragment_boundary_not_utf8
  fragments_within (suc fuel) (c ∷ s) =
      cut (fragments_within fuel) (take_bytes recovery_fragment_target_bytes (c ∷ s))

  unfoldable pub prepare_recovery_fragments : Text → Published (List RecoveryFragment)
  unfolding fragments_within
  prepare_recovery_fragments replacement_json =
      if is_empty replacement_json
      then err replacement_is_empty
      else fragments_within (length replacement_json) replacement_json
