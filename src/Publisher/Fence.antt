-- ===== src/Publisher/Fence.antt =====
-- The Lua scripts that redis_publisher.rs runs inside Redis, each one Redis operation:
-- PROMOTE_WRITER_SCRIPT, APPEND_FENCED_SCRIPT, RENEW_WRITER_SCRIPT, VERIFY_WRITER_SCRIPT and
-- INSPECT_WRITER_SCRIPT. An error reply leaves what the script had written before it.
pub mod Events
pub mod Generations
pub mod Outcomes
pub mod Appends
pub mod Stale
pub mod Retry
pub mod Ownership
use tycho_simulation_server.Base.{
  ℕ, ◌-◌, zero, suc, List, [], ◌∷◌, ◌++◌, Option, none, some, Bool, true, false, not, ◌&&◌, ◌==◌,
  ltb, if◌then◌else◌, Text, codes, text_eq, format_u64, map, length, Result, ok, err, ◌>>=◌, ◌>>◌,
  ensure, refuse, ok_or, map_err,
}
use tycho_simulation_server.Replay.EntryId.{EntryIdParts, parts}
use tycho_simulation_server.Publisher.Redis.{
  Positive, Redis, Fields, StreamReply, StreamFault, no_such_key, other_fault, or_zero,
}

-- The error replies of the scripts.
pub data FenceError : Type 0 where
  missing_fence stale_token missing_generation stale_generation : FenceError
  redis_error : Text → FenceError

-- The token and the generation that a recovering writer expects to find. The caller gives both or
-- neither.
pub record Owner : Type 0 where
  pub token : Text
  pub generation : ℕ

-- RedisPromotionCommand, less the keys
pub record PromotionCommand : Type 0 where
  pub maxlen : Option Positive
  pub writer_token : Text
  pub expected : Option Owner
  pub lease_ttl_ms : Positive
  pub normal_marker_fields : Fields

pub record PromotionResult : Type 0 where
  pub generation : ℕ
  pub entry_id : EntryIdParts

-- RedisAppendCommand, less the keys, with the entry as the id and the fields that are sent
pub record AppendCommand : Type 0 where
  pub maxlen : Option Positive
  pub writer_token : Text
  pub generation : ℕ
  pub lease_ttl_ms : Positive
  pub entry_id : EntryIdParts
  pub fields : Fields

-- RedisRenewCommand and RedisVerifyCommand, less the keys
pub record RenewCommand : Type 0 where
  pub writer_token : Text
  pub generation : ℕ
  pub lease_ttl_ms : Positive

pub record WriterInspection : Type 0 where
  pub generation : ℕ
  pub first_entry_id : Option EntryIdParts
  pub last_entry_id : Option EntryIdParts

starts_with : Text → Text → Bool
starts_with s [] = true
starts_with [] (d ∷ t) = false
starts_with (c ∷ s) (d ∷ t) = c == d && starts_with s t

-- string.gsub of a plain text; `skip` characters are left of the last match.
gsub : Text → Text → ℕ → Text → Text
unfolding starts_with
gsub old new skip [] = []
gsub old new (suc skip) (c ∷ s) = gsub old new skip s
gsub old new zero (c ∷ s) =
    let replaced = gsub old new (length old - 1) s in
    let kept = gsub old new 0 s in if starts_with (c ∷ s) old then new ++ replaced else c ∷ kept

-- The marker's fields with the generation in place of the placeholder.
unfoldable pub fill_generation : ℕ → Fields → Fields
unfolding gsub
fill_generation generation =
    map (λ field. (field.0, gsub (codes "__GENERATION__") (format_u64 generation) 0 field.1))

-- The checks that the append, renew and verify scripts begin with.
unfoldable pub check_fence : Text → ℕ → Option Text → Option ℕ → Result FenceError Unit
check_fence token generation current_token current_generation = do
  current ← ok_or current_token missing_fence
  ensure (text_eq current token) stale_token
  number ← ok_or current_generation missing_generation
  ensure (number == generation) stale_generation

-- The error reply that passes on one of XINFO.
abbrev fault_error : StreamFault → FenceError
fault_error (no_such_key e) = redis_error e
fault_error (other_fault e) = redis_error e

-- A recovery may reclaim a fence that ran out, and displaces no other writer.
abbrev may_reclaim : Owner → Option Text → Bool
may_reclaim owner none = true
may_reclaim owner (some current_token) = text_eq current_token owner.token

module _ {S : Type 0} (R : Redis S) where
  -- `type(info) == "table"` without a last-generated-id does not occur: XINFO STREAM always has it.
  unfoldable pub stream_generation : S → Result FenceError ℕ
  stream_generation s = elim (R.stream_info s) [
    | ok info ↦ ok info.last_generated.millis
    | err (no_such_key e) ↦ ok 0
    | err (other_fault e) ↦ err (redis_error e)
  ]

  -- The generation of an earlier run of the same command, when its marker is still there.
  marked_generation : Text → Option Text → Option ℕ → S → Option ℕ
  marked_generation token (some current_token) (some generation) s =
      if text_eq current_token token
      then elim (R.entry_at (parts generation 1) s) [ none ↦ none | some _ ↦ some generation ]
      else none
  marked_generation token _ _ s = none

  -- A normal promotion is answered from an earlier run of it, whose reply may have been lost.
  unfoldable pub promoted_before : PromotionCommand → S → Option ℕ
  unfolding marked_generation
  promoted_before c s = elim c.expected [
    | some _ ↦ none
    | none ↦ marked_generation c.writer_token (R.view s).writer (R.view s).generation s
  ]

  expect_generation : Owner → Option ℕ → S → Result FenceError S
  expect_generation owner none s = ok (R.set_generation owner.generation s)
  expect_generation owner (some current_generation) s =
      if current_generation == owner.generation then ok s else err stale_generation

  admit : Option Owner → S → Result FenceError S
  unfolding expect_generation
  admit none s = ok s
  admit (some owner) s = do
    ensure (may_reclaim owner (R.view s).writer) stale_token
    expect_generation owner (R.view s).generation s

  unfoldable pub admit_promotion : PromotionCommand → S → Result FenceError S
  unfolding admit
  admit_promotion c s = admit c.expected s

  -- A lost generation key goes on after the stream's generation.
  raise_generation : ℕ → S → S
  raise_generation stream s =
      if ltb (or_zero (R.view s).generation) stream then R.set_generation stream s else s

  -- The marker is the first entry of the new generation.
  marker_reply : ℕ → S → Result Text S → Result FenceError PromotionResult × S
  marker_reply generation s (err e) = (err (redis_error e), s)
  marker_reply generation s (ok t) =
      (ok (record { generation = generation; entry_id = parts generation 1 }), t)

  add_marker : PromotionCommand → ℕ → S → Result FenceError PromotionResult × S
  unfolding marker_reply
  add_marker c generation s =
      marker_reply generation s
        (R.xadd c.maxlen (parts generation 1) (fill_generation generation c.normal_marker_fields) s)

  -- What follows once the stream's generation is known.
  unfoldable pub start_after :
      PromotionCommand → S → Result FenceError ℕ → Result FenceError PromotionResult × S
  unfolding raise_generation add_marker
  start_after c s (err e) = (err e, s)
  start_after c s (ok stream) =
      let t = R.incr_generation (raise_generation stream s) in
      add_marker c (or_zero (R.view t).generation) (R.set_writer c.writer_token c.lease_ttl_ms t)

  start_generation :
      PromotionCommand → Result FenceError S → S → Result FenceError PromotionResult × S
  unfolding stream_generation start_after
  start_generation c (err e) s = (err e, s)
  start_generation c (ok t) s = start_after c t (stream_generation t)

  answer_promotion : PromotionCommand → S → Option ℕ → Result FenceError PromotionResult × S
  unfolding admit_promotion start_generation
  answer_promotion c s (some generation) = (
    ok (record { generation = generation; entry_id = parts generation 1 }),
    R.expire_writer c.lease_ttl_ms s,
  )
  answer_promotion c s none = start_generation c (admit_promotion c s) s

  unfoldable pub promote_writer : PromotionCommand → S → Result FenceError PromotionResult × S
  unfolding promoted_before answer_promotion
  promote_writer c s = answer_promotion c s (promoted_before c s)

  fence_of : Text → ℕ → S → Result FenceError Unit
  unfolding check_fence
  fence_of token generation s = check_fence token generation (R.view s).writer (R.view s).generation

  append_reply : AppendCommand → S → Result Text S → Result FenceError EntryIdParts × S
  append_reply c s (err e) = (err (redis_error e), s)
  append_reply c s (ok t) = (ok c.entry_id, t)

  append_past : AppendCommand → S → Result FenceError Unit → Result FenceError EntryIdParts × S
  unfolding append_reply
  append_past c s (err e) = (err e, s)
  append_past c s (ok _) =
      let t = R.expire_writer c.lease_ttl_ms s in
      append_reply c t (R.xadd c.maxlen c.entry_id c.fields t)

  unfoldable pub append_fenced : AppendCommand → S → Result FenceError EntryIdParts × S
  unfolding fence_of append_past
  append_fenced c s = append_past c s (fence_of c.writer_token c.generation s)

  renew_past : RenewCommand → S → Result FenceError Unit → Result FenceError Unit × S
  renew_past c s (err e) = (err e, s)
  renew_past c s (ok _) = (ok tt, R.expire_writer c.lease_ttl_ms s)

  unfoldable pub renew_writer : RenewCommand → S → Result FenceError Unit × S
  unfolding fence_of renew_past
  renew_writer c s = renew_past c s (fence_of c.writer_token c.generation s)

  unfoldable pub verify_writer : RenewCommand → S → Result FenceError Unit
  unfolding fence_of
  verify_writer c s = fence_of c.writer_token c.generation s

  -- A stream that is not there is an error here.
  unfoldable pub inspect_writer : Text → ℕ → S → Result FenceError WriterInspection
  inspect_writer token generation s = do
    ensure (elim (R.view s).writer [ none ↦ false | some t ↦ text_eq t token ]) stale_token
    ensure (elim (R.view s).generation [ none ↦ false | some g ↦ g == generation ]) stale_generation
    info ← map_err fault_error (R.stream_info s)
    ok (record {
      generation = generation;
      first_entry_id = info.first_entry;
      last_entry_id = some info.last_generated;
    })
