-- ===== src/Publisher/Tests/Memory.antt =====
-- A Redis in memory.
use tycho_simulation_server.Base.{
  ℕ, Text, ◌+◌, Option, none, some, List, [], ◌∷◌, Bool, true, false, Result, ok, err, ◌≡◌, refl,
  ap, sym, ◌∙◌, if◌then◌else◌, codes, arith,
}
use tycho_simulation_server.Replay.EntryId.{EntryIdParts, parts_lt, parts_eq}
use tycho_simulation_server.Publisher.Redis.{
  Redis, Fields, View, IsAbove, or_zero, StreamReply, StreamFault, no_such_key,
}

pub record Store : Type 0 where
  pub writer : Option Text
  pub generation : Option ℕ
  -- The newest first.
  pub stream : List (EntryIdParts × Fields)

abbrev pub last_of : List (EntryIdParts × Fields) → Option EntryIdParts
last_of [] = none
last_of ((id, fields) ∷ rest) = some id

abbrev pub first_of : List (EntryIdParts × Fields) → Option EntryIdParts
first_of [] = none
first_of ((id, fields) ∷ []) = some id
first_of (x ∷ y ∷ rest) = first_of (y ∷ rest)

abbrev pub find : EntryIdParts → List (EntryIdParts × Fields) → Option Fields
find id [] = none
find id ((i, fields) ∷ rest) =
    let later = find id rest in if parts_eq id i then some fields else later

abbrev pub is_above : EntryIdParts → Option EntryIdParts → Bool
is_above id none = true
is_above id (some last) = parts_lt last id

pub is_above_lem :
    (id : EntryIdParts) (l : Option EntryIdParts) → is_above id l ≡ true → IsAbove id l
is_above_lem id none h = tt
is_above_lem id (some last) h = h

abbrev pub view_of : Store → View
view_of s = record { writer = s.writer; generation = s.generation; last = last_of s.stream }

abbrev pub info_of : List (EntryIdParts × Fields) → Result StreamFault StreamReply
info_of [] = err (no_such_key (codes "ERR no such key"))
info_of ((id, fields) ∷ rest) =
    ok (record { first_entry = first_of ((id, fields) ∷ rest); last_generated = id })

pub info_of-ok :
    (l : List (EntryIdParts × Fields)) (i : StreamReply)
    → info_of l ≡ ok i
    → last_of l ≡ some i.last_generated
info_of-ok [] i h = cc
info_of-ok ((id, fields) ∷ rest) i h =
    let same : record { first_entry = first_of ((id, fields) ∷ rest); last_generated = id } ≡ i =
      cc in
    ap (λ j. some j.last_generated) same

pub info_of-none :
    (l : List (EntryIdParts × Fields)) (e : Text)
    → info_of l ≡ err (no_such_key e)
    → last_of l ≡ none
info_of-none [] e h = refl
info_of-none ((id, fields) ∷ rest) e h = cc

abbrev pub push : EntryIdParts → Fields → Store → Store
push id fields s = record {
  writer = s.writer;
  generation = s.generation;
  stream = (id, fields) ∷ s.stream;
}

abbrev pub push_if : Bool → EntryIdParts → Fields → Store → Result Text Store
push_if true id fields s = ok (push id fields s)
push_if false id fields s = err (codes "ERR id")

pub push_if_lem :
    (b : Bool) (id : EntryIdParts) (fields : Fields) (s t : Store)
    → push_if b id fields s ≡ ok t
    → (b ≡ true) × (push id fields s ≡ t)
push_if_lem true id fields s t h = (refl, cc)
push_if_lem false id fields s t h = (cc, cc)

parts_eq_refl : (id : EntryIdParts) → parts_eq id id ≡ true
parts_eq_refl id = ground arith

pub find-push :
    (id : EntryIdParts) (fields : Fields) (s : Store)
    → find id (push id fields s).stream ≡ some fields
find-push id fields s = rw (parts_eq_refl id) refl

abbrev pub memory : Redis Store
memory = record {
  view = view_of;
  set_generation = λ n s. record { writer = s.writer; generation = some n; stream = s.stream };
  incr_generation = λ s. record {
    writer = s.writer;
    generation = some (or_zero s.generation + 1);
    stream = s.stream;
  };
  set_writer =
      λ token ttl s. record { writer = some token; generation = s.generation; stream = s.stream };
  expire_writer = λ ttl s. s;
  stream_info = λ s. info_of s.stream;
  entry_at = λ id s. find id s.stream;
  xadd = λ maxlen id fields s. push_if (is_above id (last_of s.stream)) id fields s;
  lose_writer = λ s. record { writer = none; generation = s.generation; stream = s.stream };
  lose_generation = λ s. record { writer = s.writer; generation = none; stream = s.stream };
  lose_stream = λ s. record { writer = s.writer; generation = s.generation; stream = [] };
  view-set_generation = λ n s. refl;
  view-incr_generation = λ s. refl;
  view-set_writer = λ token ttl s. refl;
  view-expire_writer = λ ttl s. refl;
  view-lose_writer = λ s. refl;
  view-lose_generation = λ s. refl;
  view-lose_stream = λ s. refl;
  view-xadd = λ maxlen id fields s t h.
      let (q, r) = push_if_lem (is_above id (last_of s.stream)) id fields s t h in
      (is_above_lem id (last_of s.stream) q, ap view_of (sym r));
  stream_info-ok = λ s. info_of-ok s.stream;
  stream_info-no_such_key = λ s. info_of-none s.stream;
  entry_at-xadd = λ maxlen id fields s t h.
      let (q, r) = push_if_lem (is_above id (last_of s.stream)) id fields s t h in
      ap (λ u. find id u.stream) (sym r) ∙ find-push id fields s;
  entry_at-expire_writer = λ ttl id s. refl;
}

abbrev pub empty : Store
empty = record { writer = none; generation = none; stream = [] }
