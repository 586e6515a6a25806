-- ===== src/Publisher/Writer.antt =====
-- TokioRedisStreamWriter of redis_publisher.rs: a script's reply may be lost on its way back, and
-- `promote` and `append_fenced` say what they make of that.
pub mod Replies
use tycho_simulation_server.Base.{
  ℕ, Text, Option, none, some, List, [], ◌∷◌, Bool, true, false, ◌&&◌, ◌==◌, if◌then◌else◌, length,
  text_eq, Result, ok, err,
}
use tycho_simulation_server.Replay.EntryId.{EntryIdParts}
use tycho_simulation_server.Publisher.Redis.{Redis, Fields}
use tycho_simulation_server.Publisher.Fence.{
  Owner, FenceError, PromotionCommand, PromotionResult, AppendCommand, promote_writer,
  append_fenced,
}

-- What happens to one command on its way to Redis and back.
pub data Delivery : Type 0 where
  delivered reply_lost not_sent : Delivery

-- The error of a query: Redis refused, or the connection failed.
pub data QueryError : Type 0 where
  refused : FenceError → QueryError
  connection_failed : QueryError

reply_of : {A : Type 0} → Result FenceError A → Result QueryError A
reply_of (ok a) = ok a
reply_of (err e) = err (refused e)

-- One query of a script.
unfoldable pub query :
    {S A : Type 0} → Delivery → (S → Result FenceError A × S) → S → Result QueryError A × S
unfolding reply_of
query delivered script s = (reply_of (script s).0, (script s).1)
query reply_lost script s = (err connection_failed, (script s).1)
query not_sent script s = (err connection_failed, s)

-- HashMap::get on the entry that XRANGE returned.
unfoldable pub get_field : Text → Fields → Option Text
get_field name [] = none
get_field name ((field, value) ∷ fields) =
    let rest = get_field name fields in if text_eq field name then some value else rest

has_value : Option Text → Text → Bool
has_value none expected = false
has_value (some value) expected = text_eq value expected

unfoldable pub all_match : Fields → Fields → Bool
unfolding get_field has_value
all_match existing [] = true
all_match existing ((field, value) ∷ expected) =
    has_value (get_field field existing) value && all_match existing expected

-- `existing` is the one entry that XRANGE found at the id.
unfoldable pub redis_stream_entry_matches_reply : Option Fields → Fields → Bool
unfolding all_match
redis_stream_entry_matches_reply none expected = false
redis_stream_entry_matches_reply (some existing) expected =
    length existing == length expected && all_match existing expected

module _ {S : Type 0} (R : Redis S) where
  promote_again :
      Option Owner
      → PromotionCommand
      → Delivery
      → Result QueryError PromotionResult × S
      → Result QueryError PromotionResult × S
  promote_again expected c second (ok p, t) = (ok p, t)
  promote_again none c second (err e, t) = query second (promote_writer R c) t
  promote_again (some owner) c second (err e, t) = (err e, t)

  -- A normal promotion is asked for once more after any error.
  unfoldable pub promote :
      PromotionCommand → Delivery → Delivery → S → Result QueryError PromotionResult × S
  unfolding promote_again
  promote c first second s = promote_again c.expected c second (query first (promote_writer R c) s)

  settle : AppendCommand → QueryError → S → Bool → Result QueryError EntryIdParts × S
  settle c e t true = (ok c.entry_id, t)
  settle c e t false = (err e, t)

  -- XRANGE looks for the entry after an error; it may fail itself.
  reconcile :
      AppendCommand → Bool → Result QueryError EntryIdParts × S → Result QueryError EntryIdParts × S
  unfolding settle
  reconcile c found (ok id, t) = (ok id, t)
  reconcile c false (err e, t) = (err connection_failed, t)
  reconcile c true (err e, t) =
      settle c e t (redis_stream_entry_matches_reply (R.entry_at c.entry_id t) c.fields)

  unfoldable pub append : AppendCommand → Delivery → Bool → S → Result QueryError EntryIdParts × S
  unfolding reconcile
  append c delivery range_replies s =
      reconcile c range_replies (query delivery (append_fenced R c) s)
