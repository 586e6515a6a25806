-- ===== src/Publisher/Fence/Events.antt =====
-- Several writers at one Redis: the scripts of redis_publisher.rs in any order, with the losses
-- between them.
use tycho_simulation_server.Base.{ℕ, List, [], ◌∷◌, Option, none, Result, ok, err, ◌++◌}
use tycho_simulation_server.Replay.EntryId.{EntryIdParts}
use tycho_simulation_server.Publisher.Redis.{Redis}
use tycho_simulation_server.Publisher.Fence.{
  PromotionCommand, PromotionResult, FenceError, AppendCommand, RenewCommand, promote_writer,
  promoted_before, append_fenced, renew_writer,
}

pub data Event : Type 0 where
  promotes : PromotionCommand → Event
  appends : AppendCommand → Event
  renews : RenewCommand → Event
  writer_expires generation_is_lost stream_is_lost : Event

-- Redis keeps the generation key.
abbrev pub KeepsGeneration : Event → Type 0
KeepsGeneration generation_is_lost = ⊥
KeepsGeneration _ = Unit

-- An answer from an earlier run wrote nothing.
abbrev pub marker_entry : Option ℕ → Result FenceError PromotionResult → List EntryIdParts
marker_entry none (ok p) = p.entry_id ∷ []
marker_entry _ _ = []

abbrev pub appended_entry : Result FenceError EntryIdParts → List EntryIdParts
appended_entry (ok id) = id ∷ []
appended_entry (err e) = []

module _ {S : Type 0} (R : Redis S) where
  unfoldable pub happen : Event → S → S
  happen (promotes c) s = (promote_writer R c s).1
  happen (appends c) s = (append_fenced R c s).1
  happen (renews c) s = (renew_writer R c s).1
  happen writer_expires s = R.lose_writer s
  happen generation_is_lost s = R.lose_generation s
  happen stream_is_lost s = R.lose_stream s

  unfoldable pub run : List Event → S → S
  unfolding happen
  run [] s = s
  run (e ∷ es) s = run es (happen e s)

  -- The id that one event put on the stream, if it did.
  unfoldable pub written : Event → S → List EntryIdParts
  written (promotes c) s = marker_entry (promoted_before R c s) (promote_writer R c s).0
  written (appends c) s = appended_entry (append_fenced R c s).0
  written _ s = []

  -- The ids that the events put on the stream, in their order.
  unfoldable pub entries : List Event → S → List EntryIdParts
  unfolding written happen
  entries [] s = []
  entries (e ∷ es) s = written e s ++ entries es (happen e s)
