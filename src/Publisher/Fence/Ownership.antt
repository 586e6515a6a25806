-- ===== src/Publisher/Fence/Ownership.antt =====
-- Who owns the fence after a promotion that starts a generation.
use tycho_simulation_server.Base.{
  ℕ, Text, Option, none, some, ok, ◌≡◌, refl, ap, ◌∙◌, ◌⊎◌, ◌↔◌, inl, inr, subst, sym, some_inj,
  past_check, ensure, ensure_iff, text_eq_iff, true,
}
use tycho_simulation_server.Publisher.Redis.{Redis}
use tycho_simulation_server.Publisher.Fence.{
  Owner, PromotionCommand, PromotionResult, RenewCommand, stale_token, promote_writer,
  promoted_before, admit, admit_promotion, may_reclaim, verify_writer, fence_of, check_fence,
}
use tycho_simulation_server.Publisher.Fence.Generations.{Started}
use tycho_simulation_server.Publisher.Fence.Outcomes.{
  Promoted, PromoteOutcome, promote_writer-PromoteOutcome,
}
use tycho_simulation_server.Publisher.Fence.Appends.{check_fence_iff}

-- No other writer's token is in the key.
abbrev pub Reclaims : Option Owner → Option Text → Type 0
Reclaims none writer = Unit
Reclaims (some owner) writer = (writer ≡ none) ⊎ (writer ≡ some owner.token)

may_reclaim_lem :
    (owner : Owner) (w : Option Text) → may_reclaim owner w ≡ true → Reclaims (some owner) w
may_reclaim_lem owner none h = inl refl
may_reclaim_lem owner (some t) h = inr (ap some ((text_eq_iff t owner.token).0 h))

owner_iff :
    (token d : Text) (g k : ℕ) (w : Option Text) (n : Option ℕ)
    → w ≡ some token
    → n ≡ some g
    → (check_fence d k w n ≡ ok tt) ↔ ((d ≡ token) × (k ≡ g))
owner_iff token d g k w n own key = (
  (λ h.
      let (x, y) = (check_fence_iff d k w n).0 h in
      (some_inj.0 (sym x ∙ own), some_inj.0 (sym y ∙ key))),
  (λ h. (check_fence_iff d k w n).1 (own ∙ ap some (sym h.0), key ∙ ap some (sym h.1))),
)

module _ {S : Type 0} (R : Redis S) where
  fresh :
      (c : PromotionCommand) (s : S) (p : PromotionResult) (t : S)
      → PromoteOutcome R c s (ok p, t)
      → promoted_before R c s ≡ none
      → Promoted R c s p t
  unfolding PromoteOutcome
  fresh c s p t (inl h) b = cc
  fresh c s p t (inr h) b = h

  admit-Reclaims :
      (expected : Option Owner) (s u : S)
      → admit R expected s ≡ ok u
      → Reclaims expected (R.view s).writer
  unfolding admit
  admit-Reclaims none s u h = tt
  admit-Reclaims (some owner) s u h = may_reclaim_lem owner _ (
      (ensure_iff (may_reclaim owner (R.view s).writer) stale_token).0
        (past_check (ensure (may_reclaim owner (R.view s).writer) stale_token) _ h).0)

  -- A promotion that is not answered from an earlier one starts a generation above the one in the
  -- generation key and the one of the stream's last entry, even where the key was lost, and puts its
  -- marker at the end of the stream. From then on the fence lets exactly the new token with the new
  -- generation pass. A recovery that succeeds found no other writer's token.
  pub promote_writer-Started :
      (c : PromotionCommand) (s : S) (p : PromotionResult) (t : S)
      → promote_writer R c s ≡ (ok p, t)
      → promoted_before R c s ≡ none
      → Started c.writer_token (R.view s) p (R.view t)
        × ((d : RenewCommand)
            → (verify_writer R d t ≡ ok tt)
              ↔ ((d.writer_token ≡ c.writer_token) × (d.generation ≡ p.generation)))
        × Reclaims c.expected (R.view s).writer
  unfolding verify_writer fence_of admit_promotion
  promote_writer-Started c s p t h b =
      let q =
        fresh c s p t (subst (PromoteOutcome R c s) h (promote_writer-PromoteOutcome R c s)) b in
      (
        q.started,
        λ d.
            owner_iff c.writer_token d.writer_token p.generation d.generation _ _
              (ap (λ v. v.writer) q.started.view) (ap (λ v. v.generation) q.started.view),
        admit-Reclaims c.expected s q.admitted.0 q.admitted.1,
      )
