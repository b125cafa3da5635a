-- ===== src/Prelude/Trim.antt =====
-- What `str::trim` leaves alone.
use unlimited_ocr_server.Prelude.Tests.{Bool-cases}
use unlimited_ocr_server.Prelude.Lists.{length, All, length-reverse, All-reverse}
use unlimited_ocr_server.Prelude.Chars.{Text, is_whitespace, trim_start, trim_end, trim}
use Prim.Native.Nat.{ℕ, ◌≤◌}
use mathlib.Core.Path.{◌≡◌, refl, ap, sym, ◌∙◌, subst}
use mathlib.Core.Logic.{inl, inr}
use mathlib.Core.Bool.{false}
use mathlib.Core.List.{[], ◌∷◌, ◌++◌, reverse, append_assoc, reverse-append, reverse-reverse}
use native.Mathlib.Omega.{arith}

abbrev pub IsSolid : ℕ → Type 0
IsSolid c = is_whitespace c ≡ false

length-trim_start : (s : Text) → length (trim_start s) ≤ length s
unfolding trim_start
length-trim_start [] = omega arith
length-trim_start (c ∷ s) = ground (arith, length-trim_start s)

length-trim_end : (s : Text) → length (trim_end s) ≤ length s
unfolding trim_end
length-trim_end s =
    let a = length-trim_start (reverse s) in
    let b = length-reverse s in let c = length-reverse (trim_start (reverse s)) in omega arith

trim_start-fixed : (s : Text) → length s ≤ length (trim_start s) → trim_start s ≡ s
unfolding trim_start
trim_start-fixed [] h = refl
trim_start-fixed (c ∷ s) h = ground (arith, length-trim_start s)

-- A text that `trim` leaves alone loses nothing at its start.
pub trim-trim_start : (s : Text) → trim s ≡ s → trim_start s ≡ s
unfolding trim
trim-trim_start s h =
    let a = length-trim_end (trim_start s) in
    let e = ap length h in trim_start-fixed s (omega arith)

pub trim-trim_end : (s : Text) → trim s ≡ s → trim_end s ≡ s
unfolding trim
trim-trim_end s h = ap trim_end (sym (trim-trim_start s h)) ∙ h

pub trim_start-solid : (c : ℕ) (s : Text) → IsSolid c → trim_start (c ∷ s) ≡ c ∷ s
unfolding trim_start
trim_start-solid c s h = rw h refl

-- The first character of a text that loses nothing at its start.
pub IsSolid-trim_start : (c : ℕ) (s : Text) → trim_start (c ∷ s) ≡ c ∷ s → IsSolid c
unfolding trim_start
IsSolid-trim_start c s h = elim (Bool-cases (is_whitespace c)) [
  | inr f ↦ f
  | inl t ↦ absurd (let a = length-trim_start s in let e = ap length h in ground (arith, a, e))
]

pub trim_end-solid : (s : Text) (c : ℕ) → IsSolid c → trim_end (s ++ c ∷ []) ≡ s ++ c ∷ []
unfolding trim_end
trim_end-solid s c h =
    rw (reverse-append s (c ∷ []), trim_start-solid c (reverse s) h)
      (ap reverse (sym (reverse-append s (c ∷ []))) ∙ reverse-reverse (s ++ c ∷ []))

-- A blank behind a text that loses nothing at its end.
pub trim_end-blank : (s : Text) → trim_end s ≡ s → trim_end (s ++ 32 ∷ []) ≡ s
unfolding trim_end trim_start
trim_end-blank s h = rw (reverse-append s (32 ∷ [])) h

trim_start-All : (s : Text) → All IsSolid s → trim_start s ≡ s
unfolding trim_start
trim_start-All [] h = refl
trim_start-All (c ∷ s) h = trim_start-solid c s h.0

pub trim-All : (s : Text) → All IsSolid s → trim s ≡ s
unfolding trim trim_end
trim-All s h =
    rw (trim_start-All s h, trim_start-All (reverse s) (All-reverse IsSolid s h))
      (reverse-reverse s)

pub trim-ends : (s : Text) → trim_start s ≡ s → trim_end s ≡ s → trim s ≡ s
unfolding trim
trim-ends s h k = ap trim_end h ∙ k

-- A text that ends with a character that is not blank loses nothing at its end.
pub trim_end-append :
    (s t : Text) (c : ℕ) → IsSolid c → trim_end (s ++ (t ++ c ∷ [])) ≡ s ++ (t ++ c ∷ [])
trim_end-append s t c h =
    subst (λ u. trim_end u ≡ u) (append_assoc s t (c ∷ [])) (trim_end-solid (s ++ t) c h)
