-- ===== src/Replay/EntryId.antt =====
-- Redis entry ids: `parse_redis_entry_id`, the derived order, and reading back what is written.
use tycho_simulation_server.Base.{
  ℕ, ◌≤◌, ◌≡◌, Bool, ◌&&◌, ◌||◌, ltb, ◌==◌, Text, split_once, parse_u64, max_u64, arith, ok, ◌>>=◌,
  ok_or, split_once-append, parse_u64-format_u64, format_u64-ne, format_u64,
}
use tycho_simulation_server.Contract.Boundary.{redis_entry_id}
use tycho_simulation_server.Replay.Errors.{Replay, redis_gap, invalid_entry_id}

pub record EntryIdParts : Type 0 where
  pub millis : ℕ
  pub sequence : ℕ

unfoldable pub parse_redis_entry_id : Text → Replay EntryIdParts
parse_redis_entry_id entry_id = do
  halves ← ok_or (split_once b'-' entry_id) (redis_gap (invalid_entry_id entry_id))
  millis ← ok_or (parse_u64 halves.0) (redis_gap (invalid_entry_id entry_id))
  sequence ← ok_or (parse_u64 halves.1) (redis_gap (invalid_entry_id entry_id))
  ok (record { millis = millis; sequence = sequence })

-- The derived order compares the milliseconds first.
abbrev pub parts_lt : EntryIdParts → EntryIdParts → Bool
parts_lt a b = ltb a.millis b.millis || (a.millis == b.millis && ltb a.sequence b.sequence)

abbrev pub parts_eq : EntryIdParts → EntryIdParts → Bool
parts_eq a b = a.millis == b.millis && a.sequence == b.sequence

abbrev pub parts : ℕ → ℕ → EntryIdParts
parts generation message_seq = record { millis = generation; sequence = message_seq }

-- An entry id written from two `u64` is read back as those.
pub parse_redis_entry_id-redis_entry_id :
    (generation message_seq : ℕ)
    → generation ≤ max_u64
    → message_seq ≤ max_u64
    → parse_redis_entry_id (redis_entry_id generation message_seq)
      ≡ ok (parts generation message_seq)
unfolding parse_redis_entry_id redis_entry_id
parse_redis_entry_id-redis_entry_id g s hg hs =
    rw (split_once-append b'-' (format_u64 g) (format_u64 s) (format_u64-ne b'-' g (omega arith)))
      (rw (parse_u64-format_u64 g hg) (rw (parse_u64-format_u64 s hs)))
