-- ===== src/Health/Progress.antt =====
-- The head of a stream under reports of progress.
use Prim.Native.Nat.{max}
use tycho_simulation_server.Base.{
  ℕ, ◌≡◌, refl, List, [], ◌∷◌, ltb, Bool-cases, inl, inr, arith, ◌∙◌, ap,
}
use tycho_simulation_server.Health.{Health, record_progress}

-- Progress reports, each with its time and block.
unfoldable pub progress_all : List (ℕ × ℕ) → Health → Health
progress_all [] h = h
progress_all (r ∷ rs) h = progress_all rs (record_progress r.0 r.1 h)

-- The highest block of a head and of reports.
abbrev pub highest : ℕ → List (ℕ × ℕ) → ℕ
highest head [] = head
highest head (r ∷ rs) = highest (max head r.1) rs

progress_one :
    (now block : ℕ) (h : Health) → (record_progress now block h).last_block ≡ max h.last_block block
unfolding record_progress
progress_one now block h = elim (Bool-cases (ltb h.last_block block)) [
  | inl t ↦ rw t (ground arith)
  | inr f ↦ rw f (ground arith)
]

-- After reports of progress the last block is the highest of these and of the head before them.
pub progress_all-highest :
    (rs : List (ℕ × ℕ)) (h : Health) → (progress_all rs h).last_block ≡ highest h.last_block rs
unfolding progress_all
progress_all-highest [] h = refl
progress_all-highest (r ∷ rs) h =
    progress_all-highest rs (record_progress r.0 r.1 h)
    ∙ ap (λ head. highest head rs) (progress_one r.0 r.1 h)
