-- ===== src/Publisher/Redis.antt =====
-- What the publisher uses of the Redis server, whose code is not in this repository: two ownership
-- keys and one stream, the commands on them, and what Redis documents of those commands.
use tycho_simulation_server.Base.{
  ℕ, ◌+◌, ◌<◌, Option, none, some, List, Text, true, Result, ok, err, ◌≡◌,
}
use tycho_simulation_server.Replay.EntryId.{EntryIdParts, parts_lt}

-- The field names and values of a stream entry.
abbrev pub Fields : Type 0
Fields = List (Text × Text)

-- A count or a time that is configured above 0; at 0, PX and MAXLEN would delete what they are for.
pub record Positive : Type 0 where
  pub value : ℕ
  pub positive : 0 < value

-- GET of the writer key and of the generation key, and the id of the last XADD on the stream.
pub record View : Type 0 where
  pub writer : Option Text
  pub generation : Option ℕ
  pub last : Option EntryIdParts

-- The part of the reply of XINFO STREAM that the scripts read.
pub record StreamReply : Type 0 where
  pub first_entry : Option EntryIdParts
  pub last_generated : EntryIdParts

pub data StreamFault : Type 0 where
  no_such_key : Text → StreamFault
  other_fault : Text → StreamFault

-- The number that INCR and `tonumber(GET or "0")` start from.
abbrev pub or_zero : Option ℕ → ℕ
or_zero none = 0
or_zero (some n) = n

-- XADD takes an id only above the last one.
abbrev pub IsAbove : EntryIdParts → Option EntryIdParts → Type 0
IsAbove id none = Unit
IsAbove id (some last) = parts_lt last id ≡ true

pub record Redis (S : Type 0) : Type 0 where
  pub view : S → View
  -- SET of the generation key, INCR of it, SET of the writer key with PX, PEXPIRE of it.
  pub set_generation : ℕ → S → S
  pub incr_generation : S → S
  pub set_writer : Text → Positive → S → S
  pub expire_writer : Positive → S → S
  pub stream_info : S → Result StreamFault StreamReply
  -- XRANGE from an id to the same id.
  pub entry_at : EntryIdParts → S → Option Fields
  -- XADD with an optional MAXLEN ~.
  pub xadd : Option Positive → EntryIdParts → Fields → S → Result Text S
  -- The writer key runs out; the generation key or the stream is lost with Redis' memory.
  pub lose_writer : S → S
  pub lose_generation : S → S
  pub lose_stream : S → S
  pub view-set_generation :
      (n : ℕ) (s : S)
      → view (set_generation n s)
        ≡ record { writer = (view s).writer; generation = some n; last = (view s).last }
  pub view-incr_generation :
      (s : S)
      → view (incr_generation s) ≡ record {
        writer = (view s).writer;
        generation = some (or_zero (view s).generation + 1);
        last = (view s).last;
      }
  pub view-set_writer :
      (token : Text) (ttl : Positive) (s : S)
      → view (set_writer token ttl s)
        ≡ record { writer = some token; generation = (view s).generation; last = (view s).last }
  pub view-expire_writer : (ttl : Positive) (s : S) → view (expire_writer ttl s) ≡ view s
  pub view-lose_writer :
      (s : S)
      → view (lose_writer s)
        ≡ record { writer = none; generation = (view s).generation; last = (view s).last }
  pub view-lose_generation :
      (s : S)
      → view (lose_generation s)
        ≡ record { writer = (view s).writer; generation = none; last = (view s).last }
  pub view-lose_stream :
      (s : S)
      → view (lose_stream s)
        ≡ record { writer = (view s).writer; generation = (view s).generation; last = none }
  pub view-xadd :
      (maxlen : Option Positive) (id : EntryIdParts) (fields : Fields) (s t : S)
      → xadd maxlen id fields s ≡ ok t
      → IsAbove id (view s).last
        × (view t
            ≡ record { writer = (view s).writer; generation = (view s).generation; last = some id })
  pub stream_info-ok :
      (s : S) (i : StreamReply) → stream_info s ≡ ok i → (view s).last ≡ some i.last_generated
  pub stream_info-no_such_key :
      (s : S) (e : Text) → stream_info s ≡ err (no_such_key e) → (view s).last ≡ none
  pub entry_at-xadd :
      (maxlen : Option Positive) (id : EntryIdParts) (fields : Fields) (s t : S)
      → xadd maxlen id fields s ≡ ok t
      → entry_at id t ≡ some fields
  pub entry_at-expire_writer :
      (ttl : Positive) (id : EntryIdParts) (s : S)
      → entry_at id (expire_writer ttl s) ≡ entry_at id s
