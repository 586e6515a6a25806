-- ===== src/Publisher/Writer/Replies.antt =====
-- The replies of TokioRedisStreamWriter, lost ones included.
use tycho_simulation_server.Base.{
  Bool-cases, ◌⊎◌, inl, inr, ◌&&◌, if◌then◌else◌, length, Text, Option, none, some, [], ◌∷◌, Bool,
  true, false, text_eq, text_eq_iff, text_eq_refl, Result, ok, err, ◌≡◌, ◌≢◌, refl, ap, ◌∙◌, sym,
  subst, arith, All,
}
use tycho_simulation_server.Replay.EntryId.{EntryIdParts}
use tycho_simulation_server.Publisher.Redis.{Redis, Fields}
use tycho_simulation_server.Publisher.Fence.{
  Owner, FenceError, PromotionCommand, PromotionResult, AppendCommand, promote_writer,
  append_fenced,
}
use tycho_simulation_server.Publisher.Fence.Retry.{promote_writer-twice}
use tycho_simulation_server.Publisher.Fence.Appends.{AppendOutcome, append_fenced-AppendOutcome}
use tycho_simulation_server.Publisher.Writer.{
  Delivery, delivered, reply_lost, not_sent, QueryError, query, promote, promote_again, append,
  reconcile, settle, reply_of, get_field, has_value, all_match, redis_stream_entry_matches_reply,
}

-- No two fields have the same name.
abbrev pub NamesDiffer : Fields → Type 0
NamesDiffer [] = Unit
NamesDiffer (f ∷ fields) = All (λ g. f.0 ≢ g.0) fields × NamesDiffer fields

text_eq_of_ne : (s t : Text) → s ≢ t → text_eq s t ≡ false
text_eq_of_ne s t h = ground (arith, text_eq_iff s t)

-- A field in front that has another name is not found.
all_match-skip :
    (f : Text × Text) (existing expected : Fields)
    → All (λ g. f.0 ≢ g.0) expected
    → all_match (f ∷ existing) expected ≡ all_match existing expected
unfolding all_match get_field
all_match-skip f existing [] h = refl
all_match-skip f existing (g ∷ expected) (n, h) =
    rw (text_eq_of_ne f.0 g.0 n) (rw (all_match-skip f existing expected h) refl)

all_match_refl : (fields : Fields) → NamesDiffer fields → all_match fields fields ≡ true
unfolding all_match get_field has_value
all_match_refl [] h = refl
all_match_refl (f ∷ fields) (n, h) =
    rw (text_eq_refl f.0)
      (rw (text_eq_refl f.1) (all_match-skip f fields fields n ∙ all_match_refl fields h))

matches_refl :
    (fields : Fields)
    → NamesDiffer fields
    → redis_stream_entry_matches_reply (some fields) fields ≡ true
unfolding redis_stream_entry_matches_reply
matches_refl fields h = rw (all_match_refl fields h) (ground arith)

-- The first field of the name has the value.
abbrev pub Holds : Text → Text → Fields → Type 0
Holds name value [] = ⊥
Holds name value ((field, v) ∷ fields) =
    ((field ≡ name) × (v ≡ value)) ⊎ ((field ≢ name) × Holds name value fields)

-- Exactly these fields, in any order: as many, and each with its value.
pub record SameFields (existing expected : Fields) : Type 0 where
  pub as_many : length existing ≡ length expected
  pub each : All (λ f. Holds f.0 f.1 existing) expected

get_field-Holds :
    (name value : Text) (fields : Fields)
    → has_value (get_field name fields) value ≡ true
    → Holds name value fields
unfolding get_field has_value
get_field-Holds name value [] h = cc h
get_field-Holds name value ((field, v) ∷ fields) h = elim (Bool-cases (text_eq field name)) [
  | inl q ↦ inl (
    (text_eq_iff field name).0 q,
    (text_eq_iff v value).0
        (subst (λ b. has_value (if b then some v else get_field name fields) value ≡ true) q h),
  )
  | inr q ↦ inr (
    (λ r. cc (sym q ∙ (text_eq_iff field name).1 r)),
    get_field-Holds name value fields
        (subst (λ b. has_value (if b then some v else get_field name fields) value ≡ true) q h),
  )
]

all_match-Holds :
    (existing expected : Fields)
    → all_match existing expected ≡ true
    → All (λ f. Holds f.0 f.1 existing) expected
unfolding all_match
all_match-Holds existing [] h = tt
all_match-Holds existing ((field, value) ∷ expected) h =
    elim (Bool-cases (has_value (get_field field existing) value)) [
      | inl q ↦ (
        get_field-Holds field value existing q,
        all_match-Holds existing expected
            (subst (λ b. (b && all_match existing expected) ≡ true) q h),
      )
      | inr q ↦ cc (subst (λ b. (b && all_match existing expected) ≡ true) q h)
    ]

matches-SameFields :
    (existing expected : Fields)
    → redis_stream_entry_matches_reply (some existing) expected ≡ true
    → SameFields existing expected
unfolding redis_stream_entry_matches_reply
matches-SameFields existing expected h = record {
  as_many = ground (arith, h);
  each = all_match-Holds existing expected (ground (arith, h));
}

found-SameFields :
    (expected : Fields) (found : Option Fields)
    → redis_stream_entry_matches_reply found expected ≡ true
    → (existing : Fields) × (found ≡ some existing) × SameFields existing expected
unfolding redis_stream_entry_matches_reply
found-SameFields expected none h = cc h
found-SameFields expected (some existing) h =
    (existing, refl, matches-SameFields existing expected h)

module _ {S : Type 0} (R : Redis S) where
  retried :
      (expected : Option Owner) (c : PromotionCommand) (e : QueryError) (s : S)
      (p : PromotionResult) (t : S)
      → expected ≡ none
      → promote_writer R c s ≡ (ok p, t)
      → promote_again R expected c delivered (err e, s) ≡ (ok p, t)
  unfolding promote_again query reply_of
  retried none c e s p t n h = rw h refl
  retried (some owner) c e s p t n h = cc

  -- A normal promotion that Redis accepts is returned with its generation and its marker, whether
  -- the first request came through, was lost on its way, or its reply was lost, when the second
  -- comes through.
  pub promote-delivered :
      (c : PromotionCommand) (first : Delivery) (s : S) (p : PromotionResult) (t : S)
      → c.expected ≡ none
      → promote_writer R c s ≡ (ok p, t)
      → (promote R c first delivered s).0 ≡ ok p
  unfolding promote query reply_of promote_again
  promote-delivered c delivered s p t n h = rw h refl
  promote-delivered c reply_lost s p t n h =
      ap (λ r. r.0)
        (retried c.expected c _ _ p (R.expire_writer c.lease_ttl_ms t) n (
          subst (λ u. promote_writer R c u ≡ (ok p, R.expire_writer c.lease_ttl_ms t))
            (sym (ap (λ r. r.1) h)) (promote_writer-twice R c s p t n h)))
  promote-delivered c not_sent s p t n h = ap (λ r. r.0) (retried c.expected c _ s p t n h)

  -- What an acknowledged append leaves: an entry with its fields is on the stream.
  pub Acknowledged : AppendCommand → Result QueryError EntryIdParts × S → Type 0
  Acknowledged c (err e, t) = Unit
  Acknowledged c (ok id, t) =
      (id ≡ c.entry_id)
      × ((existing : Fields) × (R.entry_at c.entry_id t ≡ some existing)
          × SameFields existing c.fields)

  outcome-Acknowledged :
      (c : AppendCommand) (s : S) (r : Result FenceError EntryIdParts × S)
      → NamesDiffer c.fields
      → AppendOutcome R c s r
      → Acknowledged c (reply_of r.0, r.1)
  unfolding Acknowledged AppendOutcome reply_of
  outcome-Acknowledged c s (err e, t) n h = tt
  outcome-Acknowledged c s (ok id, t) n (o, q, above, v, e) =
      (q, (c.fields, e, matches-SameFields c.fields c.fields (matches_refl c.fields n)))

  settle-Acknowledged :
      (c : AppendCommand) (e : QueryError) (t : S) (b : Bool)
      → redis_stream_entry_matches_reply (R.entry_at c.entry_id t) c.fields ≡ b
      → Acknowledged c (settle R c e t b)
  unfolding Acknowledged settle
  settle-Acknowledged c e t true q = (refl, found-SameFields c.fields (R.entry_at c.entry_id t) q)
  settle-Acknowledged c e t false q = tt

  reconcile-Acknowledged :
      (c : AppendCommand) (range_replies : Bool) (r : Result QueryError EntryIdParts × S)
      → Acknowledged c r
      → Acknowledged c (reconcile R c range_replies r)
  unfolding Acknowledged reconcile
  reconcile-Acknowledged c b (ok id, t) h = h
  reconcile-Acknowledged c false (err e, t) h = tt
  reconcile-Acknowledged c true (err e, t) h = settle-Acknowledged c e t _ refl

  query-Acknowledged :
      (c : AppendCommand) (delivery : Delivery) (s : S)
      → NamesDiffer c.fields
      → Acknowledged c (query delivery (append_fenced R c) s)
  unfolding query Acknowledged
  query-Acknowledged c delivered s n =
      outcome-Acknowledged c s _ n (append_fenced-AppendOutcome R c s)
  query-Acknowledged c reply_lost s n = tt
  query-Acknowledged c not_sent s n = tt

  accepted_entry :
      (c : AppendCommand) (s : S) (id : EntryIdParts) (t : S)
      → AppendOutcome R c s (ok id, t)
      → R.entry_at c.entry_id t ≡ some c.fields
  unfolding AppendOutcome
  accepted_entry c s id t (o, q, above, v, e) = e

  -- However an append and its reply travel, an append that is acknowledged left an entry with its id
  -- on the stream that has as many fields and each field of the append with its value, and one that Redis accepted is acknowledged though the reply
  -- was lost, when XRANGE replies.
  pub append-Acknowledged :
      (c : AppendCommand) (s : S)
      → NamesDiffer c.fields
      → ((delivery : Delivery) (range_replies : Bool)
          → Acknowledged c (append R c delivery range_replies s))
        × ((id : EntryIdParts) (t : S)
            → append_fenced R c s ≡ (ok id, t)
            → append R c reply_lost true s ≡ (ok c.entry_id, t))
  unfolding append reconcile query settle
  append-Acknowledged c s n = (
    (λ delivery b. reconcile-Acknowledged c b _ (query-Acknowledged c delivery s n)),
    (λ id t h.
        let e =
          accepted_entry c s id t
            (subst (AppendOutcome R c s) h (append_fenced-AppendOutcome R c s)) in
        rw h (rw e (rw (matches_refl c.fields n) refl))),
  )
