-- ===== src/Publisher/Fence/Appends.antt =====
-- What APPEND_FENCED_SCRIPT, RENEW_WRITER_SCRIPT and VERIFY_WRITER_SCRIPT have done when they return,
-- and when their checks pass.
use tycho_simulation_server.Base.{
  ℕ, Text, Option, none, some, Result, ok, err, ◌≡◌, refl, subst, ◌∙◌, ◌↔◌, arith, text_eq_iff,
}
use tycho_simulation_server.Replay.EntryId.{EntryIdParts}
use tycho_simulation_server.Publisher.Redis.{Redis, View, IsAbove}
use tycho_simulation_server.Publisher.Fence.{
  AppendCommand, RenewCommand, FenceError, append_fenced, append_past, append_reply, fence_of,
  check_fence, renew_writer,
}

-- The token and the generation are the ones in the keys.
abbrev pub Owns : Text → ℕ → View → Type 0
Owns token generation v = (v.writer ≡ some token) × (v.generation ≡ some generation)

pub check_fence_iff :
    (token : Text) (g : ℕ) (w : Option Text) (k : Option ℕ)
    → (check_fence token g w k ≡ ok tt) ↔ ((w ≡ some token) × (k ≡ some g))
unfolding check_fence
check_fence_iff token g none k = ground arith
check_fence_iff token g (some t) none = ground (arith, text_eq_iff t token)
check_fence_iff token g (some t) (some k) = ground (arith, text_eq_iff t token)

module _ {S : Type 0} (R : Redis S) where
  unfoldable pub AppendOutcome : AppendCommand → S → Result FenceError EntryIdParts × S → Type 0
  AppendOutcome c s (err e, t) = R.view t ≡ R.view s
  AppendOutcome c s (ok id, t) =
      Owns c.writer_token c.generation (R.view s)
      × (id ≡ c.entry_id)
      × IsAbove c.entry_id (R.view s).last
      × (R.view t ≡ record {
        writer = (R.view s).writer;
        generation = (R.view s).generation;
        last = some c.entry_id;
      })
      × (R.entry_at c.entry_id t ≡ some c.fields)

  append_reply-AppendOutcome :
      (c : AppendCommand) (s t : S) (r : Result Text S)
      → Owns c.writer_token c.generation (R.view s)
      → R.view t ≡ R.view s
      → R.xadd c.maxlen c.entry_id c.fields t ≡ r
      → AppendOutcome c s (append_reply R c t r)
  unfolding AppendOutcome append_reply
  append_reply-AppendOutcome c s t (err e) o v q = v
  append_reply-AppendOutcome c s t (ok u) o v q = (
    o,
    refl,
    subst (λ x. IsAbove c.entry_id x.last) v (R.view-xadd _ _ _ t u q).0,
    (R.view-xadd _ _ _ t u q).1 ∙ rw v refl,
    R.entry_at-xadd _ _ _ t u q,
  )

  append_past-AppendOutcome :
      (c : AppendCommand) (s : S) (r : Result FenceError Unit)
      → fence_of R c.writer_token c.generation s ≡ r
      → AppendOutcome c s (append_past R c s r)
  unfolding AppendOutcome append_past fence_of
  append_past-AppendOutcome c s (err e) q = refl
  append_past-AppendOutcome c s (ok _) q =
      append_reply-AppendOutcome c s _ _ ((check_fence_iff _ _ _ _).0 q) (R.view-expire_writer _ s)
        refl

  pub append_fenced-AppendOutcome :
      (c : AppendCommand) (s : S) → AppendOutcome c s (append_fenced R c s)
  unfolding append_fenced
  append_fenced-AppendOutcome c s = append_past-AppendOutcome c s _ refl

  pub renew_writer-view : (c : RenewCommand) (s : S) → R.view (renew_writer R c s).1 ≡ R.view s
  unfolding renew_writer
  renew_writer-view c s = ground (arith, R.view-expire_writer c.lease_ttl_ms s)
