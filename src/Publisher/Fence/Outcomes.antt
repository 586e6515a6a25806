-- ===== src/Publisher/Fence/Outcomes.antt =====
-- What each script of redis_publisher.rs has done when it returns, in terms of the ownership keys
-- and the end of the stream.
use tycho_simulation_server.Base.{
  ℕ, Text, Option, none, some, Result, ok, err, ◌≡◌, refl, sym, ap, ◌⊎◌, ◌∙◌, inl, inr, arith,
  text_eq_iff, past_check, ensure, subst, Option-cases,
}
use tycho_simulation_server.Replay.EntryId.{parts}
use tycho_simulation_server.Publisher.Redis.{Redis, Fields}
use tycho_simulation_server.Publisher.Fence.{
  Owner, PromotionCommand, PromotionResult, FenceError, start_generation, fill_generation,
  promote_writer, promoted_before, marked_generation, admit_promotion, admit, expect_generation,
  may_reclaim, stale_token, answer_promotion,
}
use tycho_simulation_server.Publisher.Fence.Generations.{
  Kept, Kept-refl, Kept-trans, Started, Started-after, StartOutcome, start_after-StartOutcome,
}

module _ {S : Type 0} (R : Redis S) where
  -- A promotion that is answered from an earlier run of it.
  pub record Answered (c : PromotionCommand) (s : S) (p : PromotionResult) (t : S) : Type 0 where
    pub normal : c.expected ≡ none
    pub writer : (R.view s).writer ≡ some c.writer_token
    pub generation : (R.view s).generation ≡ some p.generation
    pub marker : p.entry_id ≡ parts p.generation 1
    pub entry : (f : Fields) × (R.entry_at (parts p.generation 1) s ≡ some f)
    pub same : t ≡ R.expire_writer c.lease_ttl_ms s
    pub before : promoted_before R c s ≡ some p.generation

  -- A promotion that started a generation.
  pub record Promoted (c : PromotionCommand) (s : S) (p : PromotionResult) (t : S) : Type 0 where
    pub started : Started c.writer_token (R.view s) p (R.view t)
    pub entry :
        R.entry_at (parts p.generation 1) t
        ≡ some (fill_generation p.generation c.normal_marker_fields)
    pub before : promoted_before R c s ≡ none
    pub admitted : (u : S) × (admit_promotion R c s ≡ ok u)

  unfoldable pub PromoteOutcome :
      PromotionCommand → S → Result FenceError PromotionResult × S → Type 0
  PromoteOutcome c s (err e, t) = Kept (R.view s) (R.view t)
  PromoteOutcome c s (ok p, t) = Answered c s p t ⊎ Promoted c s p t

  expect_generation-Kept :
      (owner : Owner) (s t : S) (g : Option ℕ)
      → (R.view s).generation ≡ g
      → expect_generation R owner g s ≡ ok t
      → Kept (R.view s) (R.view t)
  unfolding expect_generation
  expect_generation-Kept owner s t none q h =
      let e : R.set_generation owner.generation s ≡ t = cc in
      record {
        last =
            ap (λ u. (R.view u).last) (sym e)
            ∙ ap (λ v. v.last) (R.view-set_generation owner.generation s);
        generation = λ k r. cc;
      }
  expect_generation-Kept owner s t (some g) q h = Kept-refl (ap R.view (ground (arith, h)))

  admit-Kept :
      (expected : Option Owner) (s t : S) → admit R expected s ≡ ok t → Kept (R.view s) (R.view t)
  unfolding admit
  admit-Kept none s t h = Kept-refl (ap R.view (cc))
  admit-Kept (some owner) s t h =
      expect_generation-Kept owner s t _ refl
        (past_check (ensure (may_reclaim owner (R.view s).writer) stale_token) _ h).1

  start-PromoteOutcome :
      (c : PromotionCommand) (s u : S) (r : Result FenceError PromotionResult × S)
      → promoted_before R c s ≡ none
      → admit_promotion R c s ≡ ok u
      → StartOutcome R c u r
      → PromoteOutcome c s r
  unfolding PromoteOutcome StartOutcome admit_promotion
  start-PromoteOutcome c s u (err e, t) b q h = Kept-trans (admit-Kept c.expected s u q) h
  start-PromoteOutcome c s u (ok p, t) b q h = inr (record {
    started = Started-after (admit-Kept c.expected s u q) h.0;
    entry = h.1;
    before = b;
    admitted = (u, q);
  })

  start_generation-PromoteOutcome :
      (c : PromotionCommand) (s : S) (r : Result FenceError S)
      → promoted_before R c s ≡ none
      → admit_promotion R c s ≡ r
      → PromoteOutcome c s (start_generation R c r s)
  unfolding PromoteOutcome start_generation
  start_generation-PromoteOutcome c s (err e) b q = Kept-refl refl
  start_generation-PromoteOutcome c s (ok u) b q =
      start-PromoteOutcome c s u _ b q (start_after-StartOutcome R c u _ refl)

  marked_generation_lem :
      (token : Text) (w : Option Text) (g : Option ℕ) (s : S) (k : ℕ)
      → marked_generation R token w g s ≡ some k
      → (w ≡ some token) × (g ≡ some k) × ((f : Fields) × (R.entry_at (parts k 1) s ≡ some f))
  unfolding marked_generation
  marked_generation_lem token (some t) (some g) s k h =
      let same : g ≡ k = ground arith in
      (
        ground (arith, text_eq_iff t token),
        ground arith,
        elim (Option-cases (R.entry_at (parts g 1) s)) [
          | inl q ↦ ground (arith, q)
          | inr (f, q) ↦ (f, subst (λ n. R.entry_at (parts n 1) s ≡ some f) same q)
        ],
      )
  marked_generation_lem token none g s k h = (cc, cc, cc)
  marked_generation_lem token (some t) none s k h = (cc, cc, cc)

  promoted_before_lem :
      (c : PromotionCommand) (s : S) (k : ℕ)
      → promoted_before R c s ≡ some k
      → (c.expected ≡ none)
        × (marked_generation R c.writer_token (R.view s).writer (R.view s).generation s ≡ some k)
  unfolding promoted_before
  promoted_before_lem c s k h = (ground arith, ground arith)

  answer_promotion-PromoteOutcome :
      (c : PromotionCommand) (s : S) (b : Option ℕ)
      → promoted_before R c s ≡ b
      → PromoteOutcome c s (answer_promotion R c s b)
  unfolding PromoteOutcome answer_promotion
  answer_promotion-PromoteOutcome c s none q =
      start_generation-PromoteOutcome c s (admit_promotion R c s) q refl
  answer_promotion-PromoteOutcome c s (some g) q =
      let (normal, found) = promoted_before_lem c s g q in
      let (writer, generation, entry) = marked_generation_lem _ _ _ s g found in
      inl (record {
        normal = normal;
        writer = writer;
        generation = generation;
        marker = refl;
        entry = entry;
        same = refl;
        before = q;
      })

  pub promote_writer-PromoteOutcome :
      (c : PromotionCommand) (s : S) → PromoteOutcome c s (promote_writer R c s)
  unfolding promote_writer
  promote_writer-PromoteOutcome c s =
      answer_promotion-PromoteOutcome c s (promoted_before R c s) refl
