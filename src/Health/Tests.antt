-- ===== src/Health/Tests.antt =====
-- A short history of a stream, and the theorems at it.
use tycho_simulation_server.Base.{◌≡◌, [], ◌∷◌, List}
use tycho_simulation_server.Health.{new_health}
use tycho_simulation_server.Health.Bursts.{
  Call, updates, missing_block, apply_all, IsValid, apply_all-IsValid,
}
use tycho_simulation_server.Health.Progress.{progress_all, highest, progress_all-highest}

abbrev history : List Call
history = updates 1 7 ∷ missing_block 2 10 ∷ missing_block 3 10 ∷ []

apply_all-IsValid_example : IsValid (apply_all history new_health)
apply_all-IsValid_example = apply_all-IsValid history

progress_all-highest_example :
    (progress_all ((1, 7) ∷ (2, 9) ∷ (3, 8) ∷ []) new_health).last_block
    ≡ highest 0 ((1, 7) ∷ (2, 9) ∷ (3, 8) ∷ [])
progress_all-highest_example = progress_all-highest ((1, 7) ∷ (2, 9) ∷ (3, 8) ∷ []) new_health
