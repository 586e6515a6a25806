-- ===== src/Publisher/Tests.antt =====
-- The publisher's theorems at work on a Redis in memory.
mod Memory
mod Publishing
mod Recoveries
use tycho_simulation_server.Base.{
  ℕ, Text, text_eq, ◌<◌, Option, none, some, List, [], ◌∷◌, Bool, true, false, Result, ok, err, ◌≡◌,
  refl, codes, arith, All, ◌↔◌,
}
use tycho_simulation_server.Replay.EntryId.{EntryIdParts, parts}
use tycho_simulation_server.Publisher.Redis.{Redis, Fields, View}
use tycho_simulation_server.Publisher.Fence.{
  Owner, PromotionCommand, PromotionResult, AppendCommand, RenewCommand, FenceError, promote_writer,
  append_fenced, verify_writer, promoted_before,
}
use tycho_simulation_server.Publisher.Fence.Generations.{Started}
use tycho_simulation_server.Publisher.Fence.Events.{
  Event, promotes, appends, renews, writer_expires, generation_is_lost, stream_is_lost, run,
  entries,
}
use tycho_simulation_server.Publisher.Fence.Stale.{Refuses, promote_writer-Refuses}
use tycho_simulation_server.Publisher.Fence.Retry.{promote_writer-twice}
use tycho_simulation_server.Publisher.Fence.Ownership.{Reclaims, promote_writer-Started}
use tycho_simulation_server.Publisher.Writer.{Delivery, delivered, reply_lost, promote, append}
use tycho_simulation_server.Publisher.Writer.Replies.{
  promote-delivered, Acknowledged, append-Acknowledged,
}
use tycho_simulation_server.Publisher.Tests.Memory.{Store, view_of, memory, empty}

abbrev promotion : Text → Option Owner → PromotionCommand
promotion token expected = record {
  maxlen = none;
  writer_token = token;
  expected = expected;
  lease_ttl_ms = record { value = 30000; positive = omega arith };
  normal_marker_fields = (codes "stream_id", codes "s-__GENERATION__") ∷ [];
}

abbrev append_of : Text → ℕ → ℕ → AppendCommand
append_of token generation seq = record {
  maxlen = none;
  writer_token = token;
  generation = generation;
  lease_ttl_ms = record { value = 30000; positive = omega arith };
  entry_id = parts generation seq;
  fields = (codes "kind", codes "update") ∷ [];
}

-- `a` promotes, `b` takes over.
abbrev first : Store
first = (promote_writer memory (promotion (codes "a") none) empty).1

abbrev second : Store
second = (promote_writer memory (promotion (codes "b") none) first).1

abbrev result_of : ℕ → PromotionResult
result_of g = record { generation = g; entry_id = parts g 1 }

second_view :
    view_of second
    ≡ record { writer = some (codes "b"); generation = some 2; last = some (parts 2 1) }
unfolding promote_writer text_eq
second_view = refl

second_promoted :
    promote_writer memory (promotion (codes "b") none) first ≡ (ok (result_of 2), second)
unfolding promote_writer text_eq
second_promoted = refl

-- `a` was promoted, `b` takes over while `a` still appends, the writer key runs out and the
-- generation key is lost, and `a` recovers.
abbrev contest : List Event
contest =
    promotes (promotion (codes "a") none)
    ∷ appends (append_of (codes "a") 1 2)
    ∷ promotes (promotion (codes "b") none)
    ∷ appends (append_of (codes "a") 1 3)
    ∷ appends (append_of (codes "b") 2 2)
    ∷ writer_expires
    ∷ generation_is_lost
    ∷ promotes (promotion (codes "a") (some (record { token = codes "a"; generation = 1 })))
    ∷ []

contest-entries :
    entries memory contest empty ≡ parts 1 1 ∷ parts 1 2 ∷ parts 2 1 ∷ parts 2 2 ∷ parts 3 1 ∷ []
unfolding entries promote_writer append_fenced text_eq
contest-entries = refl

promote_writer-Refuses_example :
    Refuses memory 1 (
      run memory
        (writer_expires ∷ stream_is_lost ∷ appends (append_of (codes "a") 1 3) ∷ [])
        second)
promote_writer-Refuses_example =
    promote_writer-Refuses memory (promotion (codes "b") none) first (result_of 2) second
      second_promoted (writer_expires ∷ stream_is_lost ∷ appends (append_of (codes "a") 1 3) ∷ [])
      (tt, (tt, (tt, tt))) 1 (omega arith)

promote_writer-twice_example :
    promote_writer memory (promotion (codes "b") none) second ≡ (ok (result_of 2), second)
promote_writer-twice_example =
    promote_writer-twice memory (promotion (codes "b") none) first (result_of 2) second refl
      second_promoted

not_before : promoted_before memory (promotion (codes "b") none) first ≡ none
unfolding promoted_before promote_writer text_eq
not_before = refl

promote_writer-Started_example :
    Started (codes "b") (view_of first) (result_of 2) (view_of second)
    × ((d : RenewCommand)
        → (verify_writer memory d second ≡ ok tt)
          ↔ ((d.writer_token ≡ codes "b") × (d.generation ≡ 2)))
    × Reclaims none (view_of first).writer
promote_writer-Started_example =
    promote_writer-Started memory (promotion (codes "b") none) first (result_of 2) second
      second_promoted not_before

promote-delivered_example :
    (promote memory (promotion (codes "b") none) reply_lost delivered first).0 ≡ ok (result_of 2)
promote-delivered_example =
    promote-delivered memory (promotion (codes "b") none) reply_lost first (result_of 2) second refl
      second_promoted

append-Acknowledged_example :
    ((delivery : Delivery) (range_replies : Bool)
      → Acknowledged memory
          (append_of (codes "b") 2 2)
          (append memory (append_of (codes "b") 2 2) delivery range_replies second))
    × ((id : EntryIdParts) (t : Store)
        → append_fenced memory (append_of (codes "b") 2 2) second ≡ (ok id, t)
        → append memory (append_of (codes "b") 2 2) reply_lost true second ≡ (ok (parts 2 2), t))
append-Acknowledged_example = append-Acknowledged memory (append_of (codes "b") 2 2) second (tt, tt)
