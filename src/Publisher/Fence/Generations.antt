-- ===== src/Publisher/Fence/Generations.antt =====
-- PROMOTE_WRITER_SCRIPT step by step: what it does to the ownership keys and to the stream.
use tycho_simulation_server.Base.{
  ℕ, ◌≤◌, ◌<◌, Option, none, some, Result, ok, err, Result-cases, ◌≡◌, refl, ap, ◌⊎◌, ◌∙◌, subst,
  Bool-cases, inl, inr, ltb, arith, Option-cases, Text,
}
use tycho_simulation_server.Replay.EntryId.{EntryIdParts, parts}
use tycho_simulation_server.Publisher.Redis.{
  Positive, Redis, View, IsAbove, or_zero, no_such_key, other_fault,
}
use tycho_simulation_server.Publisher.Fence.{
  PromotionCommand, PromotionResult, FenceError, start_after, marker_reply, stream_generation,
  raise_generation, add_marker, fill_generation,
}

-- The generation of the last entry, 0 without a stream.
abbrev pub last_generation : Option EntryIdParts → ℕ
last_generation none = 0
last_generation (some id) = id.millis

-- The stream's end stays, and a generation key stays and does not fall.
pub record Kept (v w : View) : Type 0 where
  pub last : w.last ≡ v.last
  pub generation : (k : ℕ) → v.generation ≡ some k → (l : ℕ) × (w.generation ≡ some l) × (k ≤ l)

pub Kept-refl : {v w : View} → w ≡ v → Kept v w
Kept-refl {v} {w} h = record {
  last = ap (λ u. u.last) h;
  generation = λ k q. (k, ap (λ u. u.generation) h ∙ q, omega arith);
}

pub Kept-trans : {u v w : View} → Kept u v → Kept v w → Kept u w
Kept-trans {u} {v} {w} a b = record {
  last = b.last ∙ a.last;
  generation = λ k q.
      let (l, r, below) = a.generation k q in
      let (m, t, above) = b.generation l r in (m, t, omega (arith, below, above));
}

-- A new generation: the new writer owns it, its marker ends the stream, and it is above what the
-- generation key and the stream had.
pub record Started (token : Text) (v : View) (p : PromotionResult) (w : View) : Type 0 where
  pub view : w ≡ record {
    writer = some token;
    generation = some p.generation;
    last = some (parts p.generation 1);
  }
  pub marker : p.entry_id ≡ parts p.generation 1
  pub above_key : or_zero v.generation < p.generation
  pub above_stream : last_generation v.last < p.generation
  pub above_last : IsAbove (parts p.generation 1) v.last

-- What came before a start may have raised the generation key.
pub Started-after :
    {token : Text} {u v w : View} {p : PromotionResult}
    → Kept u v
    → Started token v p w
    → Started token u p w
Started-after {u = u} {p = p} k h = record {
  view = h.view;
  marker = h.marker;
  above_key = elim (Option-cases u.generation) [
    | inl q ↦ rw q (omega (arith, h.above_key))
    | inr (n, q) ↦
        let (l, r, below) = k.generation n q in
        rw q (omega (arith, below, h.above_key, ap or_zero r))
  ];
  above_stream = subst (λ l. last_generation l < p.generation) k.last h.above_stream;
  above_last = subst (IsAbove (parts p.generation 1)) k.last h.above_last;
}

-- A start raises the generation key.
pub Started-Kept_generation :
    {token : Text} {v w : View} {p : PromotionResult}
    → Started token v p w
    → (k : ℕ) → v.generation ≡ some k
    → (l : ℕ) × (w.generation ≡ some l) × (k ≤ l)
Started-Kept_generation {p = p} h k q =
    (p.generation, ap (λ u. u.generation) h.view, omega (arith, h.above_key, ap or_zero q))

module _ {S : Type 0} (R : Redis S) where
  raise-cases :
      (n : ℕ) (s : S)
      → ((n ≤ or_zero (R.view s).generation) × (raise_generation R n s ≡ s))
        ⊎ ((or_zero (R.view s).generation < n) × (raise_generation R n s ≡ R.set_generation n s))
  unfolding raise_generation
  raise-cases n s = elim (Bool-cases (ltb (or_zero (R.view s).generation) n)) [
    | inl h ↦ inr (ground arith, rw h refl)
    | inr h ↦ inl (ground arith, rw h refl)
  ]

  -- The new number, and the keys once the writer's token is set.
  record Prepared (n : ℕ) (v : View) (token : Text) (g : ℕ) (w : View) : Type 0 where
    pub view : w ≡ record { writer = some token; generation = some g; last = v.last }
    pub above_key : or_zero v.generation < g
    pub above_stream : n < g

  prepare :
      (n : ℕ) (s : S) (token : Text) (ttl : Positive)
      → Prepared n
          (R.view s)
          token
          (or_zero (R.view (R.incr_generation (raise_generation R n s))).generation)
          (R.view (R.set_writer token ttl (R.incr_generation (raise_generation R n s))))
  prepare n s token ttl = elim (raise-cases n s) [
    | inl (h, q) ↦ rw q (record {
      view =
          rw (R.view-set_writer token ttl (R.incr_generation s))
            (rw (R.view-incr_generation s) refl);
      above_key = rw (R.view-incr_generation s) (omega arith);
      above_stream = rw (R.view-incr_generation s) (omega (arith, h));
    })
    | inr (h, q) ↦ rw q (record {
      view = rw (R.view-set_writer token ttl (R.incr_generation (R.set_generation n s))) (
          rw (R.view-incr_generation (R.set_generation n s)) (rw (R.view-set_generation n s) refl));
      above_key =
          rw (R.view-incr_generation (R.set_generation n s))
            (rw (R.view-set_generation n s) (omega (arith, h)));
      above_stream =
          rw (R.view-incr_generation (R.set_generation n s))
            (rw (R.view-set_generation n s) (omega arith));
    })
  ]

  Prepared-Kept : {n : ℕ} {v w : View} {token : Text} {g : ℕ} → Prepared n v token g w → Kept v w
  Prepared-Kept {g = g} h = record {
    last = ap (λ u. u.last) h.view;
    generation =
        λ k q. (g, ap (λ u. u.generation) h.view, omega (arith, h.above_key, ap or_zero q));
  }

  stream_generation_lem :
      (s : S) (n : ℕ) → stream_generation R s ≡ ok n → last_generation (R.view s).last ≡ n
  unfolding stream_generation
  stream_generation_lem s n h = elim (Result-cases (R.stream_info s)) [
    | inl (i, q) ↦ ground (arith, q, R.stream_info-ok s i q)
    | inr (no_such_key e, q) ↦ ground (arith, q, R.stream_info-no_such_key s e q)
    | inr (other_fault e, q) ↦ ground (arith, q)
  ]

  -- What `start_generation` has done when it returns.
  unfoldable pub StartOutcome :
      PromotionCommand → S → Result FenceError PromotionResult × S → Type 0
  StartOutcome c s (err e, t) = Kept (R.view s) (R.view t)
  StartOutcome c s (ok p, t) =
      Started c.writer_token (R.view s) p (R.view t)
      × (R.entry_at (parts p.generation 1) t
          ≡ some (fill_generation p.generation c.normal_marker_fields))

  marker_reply-StartOutcome :
      (c : PromotionCommand) (s : S) (n g : ℕ) (t : S) (r : Result Text S)
      → last_generation (R.view s).last ≡ n
      → Prepared n (R.view s) c.writer_token g (R.view t)
      → R.xadd c.maxlen (parts g 1) (fill_generation g c.normal_marker_fields) t ≡ r
      → StartOutcome c s (marker_reply R g t r)
  unfolding StartOutcome marker_reply
  marker_reply-StartOutcome c s n g t (err e) q h x = Prepared-Kept h
  marker_reply-StartOutcome c s n g t (ok u) q h x = (
    record {
      view = (R.view-xadd _ _ _ t u x).1 ∙ rw h.view refl;
      marker = refl;
      above_key = h.above_key;
      above_stream = omega (arith, q, h.above_stream);
      above_last =
          subst (IsAbove (parts g 1)) (ap (λ v. v.last) h.view) (R.view-xadd _ _ _ t u x).0;
    },
    R.entry_at-xadd _ _ _ t u x,
  )

  pub start_after-StartOutcome :
      (c : PromotionCommand) (s : S) (r : Result FenceError ℕ)
      → stream_generation R s ≡ r
      → StartOutcome c s (start_after R c s r)
  unfolding StartOutcome start_after add_marker
  start_after-StartOutcome c s (err e) q = Kept-refl refl
  start_after-StartOutcome c s (ok n) q =
      marker_reply-StartOutcome c s n _ _ _ (stream_generation_lem s n q)
        (prepare n s c.writer_token c.lease_ttl_ms) refl
