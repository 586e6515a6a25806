-- ===== src/Publisher/Fence/Stale.antt =====
-- A writer that another one has replaced.
use tycho_simulation_server.Base.{
  ℕ, Text, ◌≤◌, ◌<◌, List, [], ◌∷◌, Option, some, Result, ok, err, ◌≡◌, refl, ap, ◌∙◌, inl, inr,
  arith, subst, sym, All, Result-cases, some_inj,
}
use tycho_simulation_server.Replay.EntryId.{EntryIdParts}
use tycho_simulation_server.Publisher.Redis.{Redis}
use tycho_simulation_server.Publisher.Fence.{
  PromotionCommand, PromotionResult, AppendCommand, RenewCommand, FenceError, promote_writer,
  append_fenced, renew_writer, append_past, fence_of, verify_writer,
}
use tycho_simulation_server.Publisher.Fence.Generations.{Started-Kept_generation}
use tycho_simulation_server.Publisher.Fence.Outcomes.{PromoteOutcome, promote_writer-PromoteOutcome}
use tycho_simulation_server.Publisher.Fence.Appends.{
  Owns, check_fence_iff, AppendOutcome, append_fenced-AppendOutcome, renew_writer-view,
}
use tycho_simulation_server.Publisher.Fence.Events.{
  Event, promotes, appends, renews, generation_is_lost, writer_expires, stream_is_lost,
  KeepsGeneration, happen, run,
}

-- The generation key holds at least `n`.
abbrev pub Reaches : ℕ → Option ℕ → Type 0
Reaches n key = (k : ℕ) × (key ≡ some k) × (n ≤ k)

module _ {S : Type 0} (R : Redis S) where
  promoted-Reaches :
      (n : ℕ) (c : PromotionCommand) (s : S) (r : Result FenceError PromotionResult × S)
      → PromoteOutcome R c s r
      → Reaches n (R.view s).generation
      → Reaches n (R.view r.1).generation
  unfolding PromoteOutcome
  promoted-Reaches n c s (err e, t) h (k, q, l) =
      let (m, r, o) = h.generation k q in (m, r, omega (arith, l, o))
  promoted-Reaches n c s (ok p, t) (inl h) (k, q, l) = (
    k,
    ap (λ u. (R.view u).generation) h.same ∙ ap (λ v. v.generation) (R.view-expire_writer _ s) ∙ q,
    l,
  )
  promoted-Reaches n c s (ok p, t) (inr h) (k, q, l) =
      let (m, r, o) = Started-Kept_generation h.started k q in (m, r, omega (arith, l, o))

  same-Reaches : (n : ℕ) (v w : Option ℕ) → w ≡ v → Reaches n v → Reaches n w
  same-Reaches n v w e (k, q, l) = (k, e ∙ q, l)

  appended-generation :
      (c : AppendCommand) (s : S) (r : Result FenceError EntryIdParts × S)
      → AppendOutcome R c s r
      → (R.view r.1).generation ≡ (R.view s).generation
  unfolding AppendOutcome
  appended-generation c s (err e, t) h = ap (λ v. v.generation) h
  appended-generation c s (ok id, t) (o, q, above, v, _) = ap (λ v. v.generation) v

  happen-Reaches :
      (n : ℕ) (e : Event) (s : S)
      → KeepsGeneration e
      → Reaches n (R.view s).generation
      → Reaches n (R.view (happen R e s)).generation
  unfolding happen
  happen-Reaches n (promotes c) s k h =
      promoted-Reaches n c s _ (promote_writer-PromoteOutcome R c s) h
  happen-Reaches n (appends c) s k h =
      same-Reaches n _ _ (appended-generation c s _ (append_fenced-AppendOutcome R c s)) h
  happen-Reaches n (renews c) s k h =
      same-Reaches n _ _ (ap (λ v. v.generation) (renew_writer-view R c s)) h
  happen-Reaches n writer_expires s k h =
      same-Reaches n _ _ (ap (λ v. v.generation) (R.view-lose_writer s)) h
  happen-Reaches n generation_is_lost s k h = elim k [ ]
  happen-Reaches n stream_is_lost s k h =
      same-Reaches n _ _ (ap (λ v. v.generation) (R.view-lose_stream s)) h

  run-Reaches :
      (n : ℕ) (es : List Event) (s : S)
      → All KeepsGeneration es
      → Reaches n (R.view s).generation
      → Reaches n (R.view (run R es s)).generation
  unfolding run
  run-Reaches n [] s k h = h
  run-Reaches n (e ∷ es) s (k, ks) h = run-Reaches n es (happen R e s) ks (happen-Reaches n e s k h)

  outcome-Owns :
      (c : PromotionCommand) (s : S) (p : PromotionResult) (t : S)
      → PromoteOutcome R c s (ok p, t)
      → Owns c.writer_token p.generation (R.view t)
  unfolding PromoteOutcome
  outcome-Owns c s p t (inl h) =
      let e : R.view t ≡ R.view s = ap R.view h.same ∙ R.view-expire_writer _ s in
      (ap (λ v. v.writer) e ∙ h.writer, ap (λ v. v.generation) e ∙ h.generation)
  outcome-Owns c s p t (inr h) =
      (ap (λ v. v.writer) h.started.view, ap (λ v. v.generation) h.started.view)

  pub promote_writer-Owns :
      (c : PromotionCommand) (s : S) (p : PromotionResult) (t : S)
      → promote_writer R c s ≡ (ok p, t)
      → Owns c.writer_token p.generation (R.view t)
  promote_writer-Owns c s p t h =
      outcome-Owns c s p t (subst (PromoteOutcome R c s) h (promote_writer-PromoteOutcome R c s))

  -- A generation below the key's passes no check.
  below-refused :
      (n g : ℕ) (token : Text) (s : S)
      → Reaches n (R.view s).generation
      → g < n
      → (e : FenceError) × (fence_of R token g s ≡ err e)
  unfolding fence_of
  below-refused n g token s (k, q, l) below = elim (Result-cases (fence_of R token g s)) [
    | inr h ↦ h
    | inl (_, h) ↦
        let same : k ≡ g = some_inj.0 (sym q ∙ ((check_fence_iff token g _ _).0 h).1) in
        absurd (omega (arith, same, l, below))
  ]

  -- The scripts refuse the writer, and leave Redis as it is.
  pub Refuses : ℕ → S → Type 0
  Refuses g s =
      ((c : AppendCommand)
        → c.generation ≡ g
        → (e : FenceError) × (append_fenced R c s ≡ (err e, s)))
      × ((c : RenewCommand)
          → c.generation ≡ g
          → ((e : FenceError) × (renew_writer R c s ≡ (err e, s)))
            × ((e : FenceError) × (verify_writer R c s ≡ err e)))

  -- Once a promotion has returned a generation, every earlier generation is refused, by any token
  -- and whatever other writers, expiries and losses of the stream come between, as long as Redis
  -- keeps the generation key: its appends, its renewals and its verifications return an error, and
  -- change nothing.
  pub promote_writer-Refuses :
      (c : PromotionCommand) (s : S) (p : PromotionResult) (t : S)
      → promote_writer R c s ≡ (ok p, t)
      → (es : List Event) → All KeepsGeneration es
      → (g : ℕ) → g < p.generation
      → Refuses g (run R es t)
  unfolding Refuses append_fenced renew_writer verify_writer append_past
  promote_writer-Refuses c s p t h es ks g below =
      let (own, key) = promote_writer-Owns c s p t h in
      let reaches = run-Reaches p.generation es t ks (p.generation, key, omega arith) in
      (
        (λ d q.
            let (e, r) =
              below-refused p.generation d.generation d.writer_token (run R es t) reaches
                (omega (arith, q, below)) in
            (e, rw r refl)),
        λ d q.
            let (e, r) =
              below-refused p.generation d.generation d.writer_token (run R es t) reaches
                (omega (arith, q, below)) in
            ((e, rw r refl), (e, r)),
      )
