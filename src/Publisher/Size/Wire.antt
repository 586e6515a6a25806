-- ===== src/Publisher/Size/Wire.antt =====
-- The size of a command, and the command as it is written to Redis.
use tycho_simulation_server.Base.{
  ℕ, zero, suc, ◌+◌, ◌/◌, ◌%◌, ◌≤◌, ◌<◌, List, [], ◌∷◌, ◌++◌, Text, codes, length, digits,
  format_u64, max_u64, ◌≡◌, ◌∙◌, arith,
}
use native.Mathlib.Decide.{dec_lt}
use tycho_simulation_server.Publisher.Size.{
  utf8_width, saturating_add, byte_len, count_digits, decimal_digits, resp_bulk_string_size,
  add_sizes, resp_array_size,
}

-- A bulk string and an array of them in RESP, the protocol of Redis.
unfoldable pub resp_bulk_string : Text → Text
resp_bulk_string s = codes "$" ++ format_u64 (byte_len s) ++ 13 ∷ 10 ∷ (s ++ 13 ∷ 10 ∷ [])

unfoldable pub resp_bulk_strings : List Text → Text
unfolding resp_bulk_string
resp_bulk_strings [] = []
resp_bulk_strings (s ∷ ss) = resp_bulk_string s ++ resp_bulk_strings ss

unfoldable pub resp_array : List Text → Text
unfolding resp_bulk_strings
resp_array arguments =
    codes "*" ++ format_u64 (length arguments) ++ 13 ∷ 10 ∷ resp_bulk_strings arguments

byte_len-append : (s t : Text) → byte_len (s ++ t) ≡ byte_len s + byte_len t
unfolding byte_len
byte_len-append [] t = omega arith
byte_len-append (c ∷ s) t = omega (arith, byte_len-append s t)

digit_width : (n : ℕ) → n < 10 → utf8_width (b'0' + n) ≡ 1
digit_width n h = ground arith

saturating_add_lem : (a b : ℕ) → a + b ≤ max_u64 → saturating_add a b ≡ a + b
saturating_add_lem a b h = ground arith

byte_len-digits :
    (f n : ℕ) (out : Text) (d : ℕ)
    → n < f
    → byte_len (digits f n out) + d ≡ count_digits f n d + byte_len out + 1
unfolding digits byte_len count_digits
byte_len-digits zero n out d h = absurd (omega arith)
byte_len-digits (suc f) n out d h = elim (dec_lt n 10) [
  | yes small ↦ ground (arith, digit_width n small)
  | no large ↦
      let digit = digit_width (n % 10) (omega arith) in
      let rest = byte_len-digits f (n / 10) ((b'0' + n % 10) ∷ out) (d + 1) (omega arith) in
      ground (arith, digit, rest)
]

decimal_digits_lem : (n : ℕ) → byte_len (format_u64 n) ≡ decimal_digits n
unfolding format_u64 decimal_digits byte_len
decimal_digits_lem n = omega (arith, byte_len-digits (suc n) n [] 1 (omega arith))

bulk_size : (s : Text) → byte_len (resp_bulk_string s) ≡ resp_bulk_string_size (byte_len s)
unfolding resp_bulk_string resp_bulk_string_size byte_len
bulk_size s = omega (
  arith,
  byte_len-append (format_u64 (byte_len s)) (13 ∷ 10 ∷ (s ++ 13 ∷ 10 ∷ [])),
  byte_len-append s (13 ∷ 10 ∷ []),
  decimal_digits_lem (byte_len s),
)

add_sizes_lem :
    (arguments : List Text) (total : ℕ)
    → total + byte_len (resp_bulk_strings arguments) ≤ max_u64
    → add_sizes total arguments ≡ total + byte_len (resp_bulk_strings arguments)
unfolding add_sizes resp_bulk_strings byte_len
add_sizes_lem [] total h = omega arith
add_sizes_lem (s ∷ ss) total h =
    let parts = byte_len-append (resp_bulk_string s) (resp_bulk_strings ss) in
    let bulk = bulk_size s in
    let next =
      saturating_add_lem total (resp_bulk_string_size (byte_len s))
        (omega (arith, parts, bulk, h)) in
    rw next (
      add_sizes_lem ss (total + resp_bulk_string_size (byte_len s)) (omega (arith, parts, bulk, h))
      ∙ omega (arith, parts, bulk))

-- Where the command fits a `usize`, `resp_array_size` is the number of its bytes on the wire.
pub resp_array_size_lem :
    (arguments : List Text)
    → byte_len (resp_array arguments) ≤ max_u64
    → resp_array_size arguments ≡ byte_len (resp_array arguments)
unfolding resp_array_size resp_array byte_len
resp_array_size_lem arguments h =
    let parts =
      byte_len-append (format_u64 (length arguments)) (13 ∷ 10 ∷ resp_bulk_strings arguments) in
    let count = decimal_digits_lem (length arguments) in
    add_sizes_lem arguments _ (omega (arith, parts, count, h)) ∙ omega (arith, parts, count)
