-- ===== src/Publisher/Fence/Retry.antt =====
-- A promotion that is asked for twice.
use tycho_simulation_server.Base.{
  ℕ, Option, none, some, Result, ok, ◌≡◌, refl, ap, ◌∙◌, inl, inr, subst, sym, text_eq_refl, Text,
}
use tycho_simulation_server.Replay.EntryId.{EntryIdParts, parts}
use tycho_simulation_server.Publisher.Redis.{Redis, Fields}
use tycho_simulation_server.Publisher.Fence.{
  PromotionCommand, PromotionResult, FenceError, promote_writer, promoted_before, marked_generation,
  answer_promotion,
}
use tycho_simulation_server.Publisher.Fence.Outcomes.{PromoteOutcome, promote_writer-PromoteOutcome}
use tycho_simulation_server.Publisher.Fence.Stale.{promote_writer-Owns}

module _ {S : Type 0} (R : Redis S) where
  -- The marker of the promotion is on the stream.
  pub outcome-marker :
      (c : PromotionCommand) (s : S) (p : PromotionResult) (t : S)
      → PromoteOutcome R c s (ok p, t)
      → (p.entry_id ≡ parts p.generation 1)
        × ((f : Fields) × (R.entry_at (parts p.generation 1) t ≡ some f))
  unfolding PromoteOutcome
  outcome-marker c s p t (inl h) = (
    h.marker,
    (
      h.entry.0,
      ap (R.entry_at (parts p.generation 1)) h.same
          ∙ R.entry_at-expire_writer c.lease_ttl_ms (parts p.generation 1) s
          ∙ h.entry.1,
    ),
  )
  outcome-marker c s p t (inr h) = (h.started.marker, (_, h.entry))

  marked :
      (token : Text) (w : Option Text) (k : Option ℕ) (g : ℕ) (t : S) (f : Fields)
      → w ≡ some token
      → k ≡ some g
      → R.entry_at (parts g 1) t ≡ some f
      → marked_generation R token w k t ≡ some g
  unfolding marked_generation
  marked token w k g t f q r e = rw q (rw r (rw (text_eq_refl token) (rw e refl)))

  before :
      (c : PromotionCommand) (t : S) (g : ℕ)
      → c.expected ≡ none
      → marked_generation R c.writer_token (R.view t).writer (R.view t).generation t ≡ some g
      → promoted_before R c t ≡ some g
  unfolding promoted_before
  before c t g n m = rw n m

  -- A normal promotion that succeeded and is asked for again, because its reply was lost, is
  -- answered with the same generation and marker. It starts no generation and writes no entry: only
  -- the lease is renewed.
  pub promote_writer-twice :
      (c : PromotionCommand) (s : S) (p : PromotionResult) (t : S)
      → c.expected ≡ none
      → promote_writer R c s ≡ (ok p, t)
      → promote_writer R c t ≡ (ok p, R.expire_writer c.lease_ttl_ms t)
  unfolding promote_writer answer_promotion
  promote_writer-twice c s p t n h =
      let (own, key) = promote_writer-Owns R c s p t h in
      let (m, (f, e)) =
        outcome-marker c s p t
          (subst (PromoteOutcome R c s) h (promote_writer-PromoteOutcome R c s)) in
      let answer : EntryIdParts → Result FenceError PromotionResult × S = λ id. (
        ok (record { generation = p.generation; entry_id = id }),
        R.expire_writer c.lease_ttl_ms t,
      ) in
      rw (before c t p.generation n (marked c.writer_token _ _ p.generation t f own key e))
        (ap answer (sym m))
