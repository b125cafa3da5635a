-- ===== src/Prelude/Numbers.antt =====
-- Reading numbers: `from_str_radix` and `str::parse`. Each takes an optional sign, then at least one
-- digit, and refuses a value outside the type.
use unlimited_ocr_server.Prelude.Tests.{if◌then◌else◌, ◌==◌, leb, ltb}
use unlimited_ocr_server.Prelude.Chars.{Text}
use unlimited_ocr_server.Prelude.Int.{ℤ, pos, neg}
use Prim.Native.Nat.{ℕ, ◌+◌, ◌-◌, ◌*◌, ◌^◌}
use mathlib.Core.Bool.{◌&&◌}
use mathlib.Core.List.{[], ◌∷◌}
use mathlib.Core.Option.{Option, none, some}
use mathlib.Core.Option

-- `char::to_digit`
abbrev pub to_digit : (radix c : ℕ) → Option ℕ
to_digit radix c =
    let value : ℕ =
      if leb b'0' c && leb c b'9'
      then c - b'0'
      else if leb b'a' c && leb c b'z'
      then c - b'a' + 10
      else if leb b'A' c && leb c b'Z'
      then c - b'A' + 10
      else radix in
    if ltb value radix then some value else none

abbrev pub read_digits : (radix value : ℕ) → Text → Option ℕ
read_digits radix value [] = some value
read_digits radix value (c ∷ s) = elim (to_digit radix c) [
  | none ↦ none
  | some d ↦ read_digits radix (value * radix + d) s
]

abbrev pub read_number : (radix : ℕ) → Text → Option ℕ
read_number radix [] = none
read_number radix (c ∷ s) = read_digits radix 0 (c ∷ s)

abbrev pub unless_above : (bound : ℕ) → Option ℕ → Option ℕ
unless_above bound none = none
unless_above bound (some n) = if leb n bound then some n else none

-- `u32::from_str_radix`
unfoldable pub parse_u32 : (radix : ℕ) → Text → Option ℕ
parse_u32 radix [] = none
parse_u32 radix (c ∷ s) =
    unless_above (2 ^ 32 - 1) (if c == b'+' then read_number radix s else read_number radix (c ∷ s))

-- `str::parse::<i64>`
unfoldable pub parse_i64 : Text → Option ℤ
parse_i64 [] = none
parse_i64 (c ∷ s) =
    if c == b'-'
    then Option.map neg (unless_above (2 ^ 63) (read_number 10 s))
    else if c == b'+'
    then Option.map pos (unless_above (2 ^ 63 - 1) (read_number 10 s))
    else Option.map pos (unless_above (2 ^ 63 - 1) (read_number 10 (c ∷ s)))
