-- ===== src/Base/Decimal.antt =====
-- `u64` to and from decimal text: `format!("{n}")` and `str::parse::<u64>`.
use Prim.Native.Nat.{ℕ, zero, suc, ◌+◌, ◌-◌, ◌*◌, ◌/◌, ◌%◌, ◌≤◌, ◌<◌}
use mathlib.Core.Path.{◌≡◌, refl, ◌∙◌}
use mathlib.Core.Logic.{◌≢◌, inl, inr}
use mathlib.Core.Bool.{◌||◌}
use mathlib.Core.List.{[], ◌∷◌}
use mathlib.Core.Option.{Option, none, some}
use native.Mathlib.Omega.{arith}
use tycho_simulation_server.Base.Tests.{ltb, ◌==◌, if◌then◌else◌, max_u64, Bool-cases}
use tycho_simulation_server.Base.Lists.{All}
use tycho_simulation_server.Base.Strings.{Text}

-- One digit for each unit of fuel, the last digit first.
unfoldable pub digits : ℕ → ℕ → Text → Text
digits zero n out = out
digits (suc f) n out =
    let rest = digits f (n / 10) ((b'0' + n % 10) ∷ out) in
    if ltb n 10 then (b'0' + n) ∷ out else rest

-- A number has fewer digits than `n + 1`, so this fuel is enough.
unfoldable pub format_u64 : ℕ → Text
unfolding digits
format_u64 n = digits (suc n) n []

-- Reads digits and checks every step against u64::MAX.
scan : Text → ℕ → Option ℕ
scan [] n = some n
scan (c ∷ s) n =
    let rest = scan s (n * 10 + (c - b'0')) in
    if ltb c b'0' || ltb b'9' c
    then none
    else if ltb max_u64 (n * 10 + (c - b'0'))
    then none
    else rest

-- A `+` sign is accepted before the digits; a lone sign and the empty text are refused.
unfoldable pub parse_u64 : Text → Option ℕ
unfolding scan
parse_u64 [] = none
parse_u64 (c ∷ []) = scan (c ∷ []) 0
parse_u64 (c ∷ d ∷ s) = if c == b'+' then scan (d ∷ s) 0 else scan (c ∷ d ∷ s) 0

abbrev IsDigit : ℕ → Type 0
IsDigit c = (b'0' ≤ c) × (c ≤ b'9')

digits-IsDigit : (f n : ℕ) (out : Text) → All IsDigit out → All IsDigit (digits f n out)
unfolding digits
digits-IsDigit zero n out h = h
digits-IsDigit (suc f) n out h =
    ground
      (arith, digits-IsDigit f (n / 10) ((b'0' + n % 10) ∷ out) ((omega arith, omega arith), h))

All-ne_of_digit : (c : ℕ) (s : Text) → c < b'0' → All IsDigit s → All (λ d. d ≢ c) s
All-ne_of_digit c [] h d = tt
All-ne_of_digit c (x ∷ s) h d = (omega arith, All-ne_of_digit c s h d.1)

-- Formatted numbers hold neither a dash nor a sign.
pub format_u64-ne : (c n : ℕ) → c < b'0' → All (λ d. d ≢ c) (format_u64 n)
unfolding format_u64
format_u64-ne c n h = All-ne_of_digit c (digits (suc n) n []) h (digits-IsDigit (suc n) n [] tt)

scan-digits : (f n : ℕ) (out : Text) → n < f → n ≤ max_u64 → scan (digits f n out) 0 ≡ scan out n
unfolding digits scan
scan-digits zero n out h m = absurd (omega arith)
scan-digits (suc f) n out h m = elim (Bool-cases (ltb n 10)) [
  | inl one ↦ rw one (ground arith)
  | inr more ↦
      rw more
        (scan-digits f (n / 10) ((b'0' + n % 10) ∷ out) (ground arith) (omega arith) ∙ ground arith)
]

parse_u64-eq-scan : (s : Text) → All (λ d. d ≢ b'+') s → s ≢ [] → parse_u64 s ≡ scan s 0
unfolding parse_u64
parse_u64-eq-scan [] h e = absurd (e refl)
parse_u64-eq-scan (c ∷ []) h e = refl
parse_u64-eq-scan (c ∷ d ∷ s) h e = ground arith

digits-ne-nil : (f n : ℕ) (out : Text) → out ≢ [] → digits f n out ≢ []
unfolding digits
digits-ne-nil zero n out h = h
digits-ne-nil (suc f) n out h = ground (arith, digits-ne-nil f (n / 10) ((b'0' + n % 10) ∷ out))

format_u64-ne-nil : (n : ℕ) → format_u64 n ≢ []
unfolding format_u64
format_u64-ne-nil n = ground (arith, digits-ne-nil n (n / 10) ((b'0' + n % 10) ∷ []))

-- Every `u64` is read back from its decimal text.
pub parse_u64-format_u64 : (n : ℕ) → n ≤ max_u64 → parse_u64 (format_u64 n) ≡ some n
parse_u64-format_u64 n h =
    parse_u64-eq-scan (format_u64 n) (format_u64-ne b'+' n (omega arith)) (format_u64-ne-nil n)
    ∙ unfold format_u64 scan in scan-digits (suc n) n [] (omega arith) h
