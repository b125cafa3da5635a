-- ===== src/Prelude/Search.antt =====
-- Searching in texts: `str::find`, `str::rfind` and `str::split`, with positions in characters.
use unlimited_ocr_server.Prelude.Tests.{if◌then◌else◌, ◌==◌, is_some, Bool-cases, Option-cases}
use unlimited_ocr_server.Prelude.Chars.{Text, strip_prefix, is_empty}
use Prim.Native.Nat.{ℕ, suc, ◌+◌, ◌≤◌, ◌<◌}
use mathlib.Core.Bool.{Bool, true, false}
use mathlib.Core.List.{List, [], ◌∷◌}
use mathlib.Core.Option.{Option, none, some}
use mathlib.Core.Option
use mathlib.Core.Path.{◌≡◌}
use mathlib.Core.Logic.{inl, inr}
use native.Mathlib.Omega.{arith}
use unlimited_ocr_server.Prelude.Lists.{length}

-- `str::find` of a string
abbrev pub find : (pattern s : Text) → Option ℕ
find pattern [] = if is_empty pattern then some 0 else none
find pattern (c ∷ s) =
    let later = find pattern s in
    if is_some (strip_prefix pattern (c ∷ s)) then some 0 else Option.map suc later

-- `str::find` of the first character that passes a test
abbrev pub find_char : (ℕ → Bool) → Text → Option ℕ
find_char p [] = none
find_char p (c ∷ s) = let later = find_char p s in if p c then some 0 else Option.map suc later

abbrev pub last_of : Bool → Option ℕ → Option ℕ
last_of here (some i) = some (suc i)
last_of true none = some 0
last_of false none = none

-- `str::rfind` of a character
abbrev pub rfind_char : ℕ → Text → Option ℕ
rfind_char x [] = none
rfind_char x (c ∷ s) = last_of (c == x) (rfind_char x s)

abbrev pub prepend : ℕ → List Text → List Text
prepend c [] = (c ∷ []) ∷ []
prepend c (piece ∷ pieces) = (c ∷ piece) ∷ pieces

-- `str::split` at a character: one piece more than there are separators
abbrev pub split : ℕ → Text → List Text
split x [] = [] ∷ []
split x (c ∷ s) = let rest = split x s in if c == x then [] ∷ rest else prepend c rest

length-strip_prefix :
    (pattern s rest : Text) → strip_prefix pattern s ≡ some rest → length pattern ≤ length s
length-strip_prefix [] s rest h = omega arith
length-strip_prefix (p ∷ ps) [] rest h = absurd (ground arith)
length-strip_prefix (p ∷ ps) (c ∷ s) rest h = elim (Bool-cases (p == c)) [
  | inl t ↦ omega (arith, length-strip_prefix ps s rest (ground arith))
  | inr f ↦ absurd (ground arith)
]

-- An occurrence lies within the text.
pub find-bound :
    (pattern s : Text) (i : ℕ) → find pattern s ≡ some i → i + length pattern ≤ length s
find-bound [] [] i h = ground arith
find-bound (p ∷ ps) [] i h = absurd (ground arith)
find-bound pattern (c ∷ s) i h = elim (Option-cases (strip_prefix pattern (c ∷ s))) [
  | inl n ↦ elim (Option-cases (find pattern s)) [
    | inl m ↦ absurd (ground arith)
    | inr (j, e) ↦ ground (arith, find-bound pattern s j e)
  ]
  | inr (rest, e) ↦ ground (arith, length-strip_prefix pattern (c ∷ s) rest e)
]

pub find_char-bound : (p : ℕ → Bool) (s : Text) (i : ℕ) → find_char p s ≡ some i → i < length s
find_char-bound p [] i h = absurd (ground arith)
find_char-bound p (c ∷ s) i h = elim (Option-cases (find_char p s)) [
  | inl n ↦ ground arith
  | inr (j, e) ↦ ground (arith, find_char-bound p s j e)
]
