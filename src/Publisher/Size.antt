-- ===== src/Publisher/Size.antt =====
-- The size of a stream entry as redis_publisher.rs counts it: the bytes of its XADD command in the
-- protocol of Redis. A `usize` has 64 bits.
pub mod Wire
use tycho_simulation_server.Base.{
  ℕ, zero, suc, ◌+◌, ◌/◌, ltb, leb, ◌==◌, map_err, Option, none, some, List, [], ◌∷◌, ◌++◌,
  if◌then◌else◌, Text, codes, length, format_u64, parse_u64, max_u64, Result, ok, err, ◌>>=◌, ok_or,
}
use tycho_simulation_server.Contract.Boundary.{StreamEntry, redis_entry_id}
use tycho_simulation_server.Publisher.Errors.{
  Published, serialization_failed, invalid_entry_stream_id, oversized_entry,
}
use tycho_simulation_server.Publisher.Redis.{Fields}

-- The bytes of a code point in UTF-8.
abbrev pub utf8_width : ℕ → ℕ
utf8_width c = if ltb c 128 then 1 else (if ltb c 2048 then 2 else (if ltb c 65536 then 3 else 4))

-- str::len
unfoldable pub byte_len : Text → ℕ
byte_len [] = 0
byte_len (c ∷ s) = utf8_width c + byte_len s

count_digits : ℕ → ℕ → ℕ → ℕ
count_digits zero value digits = digits
count_digits (suc fuel) value digits =
    let rest = count_digits fuel (value / 10) (digits + 1) in if leb 10 value then rest else digits

-- The loop divides by 10, so a number takes fewer rounds than `value + 1`.
unfoldable pub decimal_digits : ℕ → ℕ
unfolding count_digits
decimal_digits value = count_digits (suc value) value 1

unfoldable pub resp_bulk_string_size : ℕ → ℕ
unfolding decimal_digits
resp_bulk_string_size length = 1 + decimal_digits length + 2 + length + 2

-- usize::saturating_add
abbrev pub saturating_add : ℕ → ℕ → ℕ
saturating_add a b = if leb (a + b) max_u64 then a + b else max_u64

add_sizes : ℕ → List Text → ℕ
unfolding resp_bulk_string_size byte_len
add_sizes total [] = total
add_sizes total (argument ∷ arguments) =
    add_sizes (saturating_add total (resp_bulk_string_size (byte_len argument))) arguments

unfoldable pub resp_array_size : List Text → ℕ
unfolding add_sizes decimal_digits
resp_array_size arguments = add_sizes (1 + decimal_digits (length arguments) + 2) arguments

-- The arguments of the XADD that the size is of.
unfoldable pub xadd_arguments : Text → Option ℕ → Text → Fields → List Text
xadd_arguments stream_key maxlen entry_id fields =
    codes "XADD" ∷ stream_key ∷ (maxlen_arguments maxlen ++ entry_id ∷ field_arguments fields)
  where
    maxlen_arguments : Option ℕ → List Text
    maxlen_arguments none = []
    maxlen_arguments (some n) = codes "MAXLEN" ∷ codes "~" ∷ format_u64 n ∷ []

    field_arguments : Fields → List Text
    field_arguments [] = []
    field_arguments ((field, value) ∷ fields) = field ∷ value ∷ field_arguments fields

-- str::rsplit_once(sep), of which only the text behind the last `sep` is used.
after_last : ℕ → Text → Option Text
after_last sep [] = none
after_last sep (c ∷ s) = elim (after_last sep s) [
  | some rest ↦ some rest
  | none ↦ if c == sep then some s else none
]

-- `redis_entry_id`: the generation is the end of the entry's stream id.
unfoldable pub entry_id_of : StreamEntry → Published Text
unfolding after_last
entry_id_of entry = do
  text ← ok_or (after_last b'-' entry.stream_id) (invalid_entry_stream_id entry.stream_id)
  generation ← ok_or (parse_u64 text) (invalid_entry_stream_id entry.stream_id)
  ok (redis_entry_id generation entry.message_seq)

-- `to_fields` is `redis_entry_fields`, which is made of serde_json's functions.
module _ (to_fields : StreamEntry → Result Text Fields) where
  unfoldable pub replay_entry_encoded_size : Text → Option ℕ → StreamEntry → Published ℕ
  unfolding entry_id_of resp_array_size xadd_arguments
  replay_entry_encoded_size stream_key maxlen entry = do
    entry_id ← entry_id_of entry
    fields ← map_err serialization_failed (to_fields entry)
    ok (resp_array_size (xadd_arguments stream_key maxlen entry_id fields))

  unfoldable pub ensure_redis_entry_size : Text → Option ℕ → StreamEntry → ℕ → Published ℕ
  unfolding replay_entry_encoded_size
  ensure_redis_entry_size stream_key maxlen entry limit_bytes = do
    encoded_bytes ← replay_entry_encoded_size stream_key maxlen entry
    if ltb limit_bytes encoded_bytes
        then err (oversized_entry entry.kind encoded_bytes limit_bytes)
        else ok encoded_bytes
