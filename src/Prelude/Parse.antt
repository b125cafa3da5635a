-- ===== src/Prelude/Parse.antt =====
-- More of `str`: lines, splitting, and reading of numbers.
use Prim.Native.Nat.{ℕ, ◌+◌, ◌-◌, ◌*◌, ◌^◌}
use mathlib.Core.Bool.{◌&&◌}
use mathlib.Core.List.{List, [], ◌∷◌, reverse}
use mathlib.Core.Option.{Option, none, some}
use mathlib.Core.Option
use unlimited_ocr_server.Prelude.Tests.{if◌then◌else◌, ◌==◌, leb, ltb}
use unlimited_ocr_server.Prelude.Chars.{Text, strip_prefix}

-- `str::split_once` at a character
abbrev pub split_once : ℕ → Text → Option (Text × Text)
split_once c [] = none
split_once c (x ∷ s) =
    let later = split_once c s in
    if x == c then some ([], s) else Option.map (λ (before, after). (x ∷ before, after)) later

abbrev without_return : Text → Text
without_return [] = []
without_return (c ∷ s) = if c == 13 then reverse s else reverse (c ∷ s)

-- `current` is the line so far, backwards. `str::lines` drops a carriage return before a line feed.
abbrev lines_from : Text → Text → List Text
lines_from [] [] = []
lines_from (c ∷ current) [] = reverse (c ∷ current) ∷ []
lines_from current (c ∷ s) =
    let here = lines_from (c ∷ current) s in
    let next = lines_from [] s in if c == 10 then without_return current ∷ next else here

unfoldable pub lines : Text → List Text
lines s = lines_from [] s

-- `str::strip_suffix`
abbrev pub strip_suffix : Text → Text → Option Text
strip_suffix suffix s = Option.map reverse (strip_prefix (reverse suffix) (reverse s))

abbrev read_usize : ℕ → Text → Option ℕ
read_usize value [] = if ltb value (2 ^ 64) then some value else none
read_usize value (c ∷ s) =
    let more = read_usize (value * 10 + (c - b'0')) s in
    if leb b'0' c && leb c b'9' then more else none

-- `str::parse::<usize>`: an optional `+`, then digits; a value past the end of `usize` is refused.
unfoldable pub parse_usize : Text → Option ℕ
parse_usize [] = none
parse_usize (c ∷ []) = if c == b'+' then none else read_usize 0 (c ∷ [])
parse_usize (c ∷ d ∷ s) = if c == b'+' then read_usize 0 (d ∷ s) else read_usize 0 (c ∷ d ∷ s)
