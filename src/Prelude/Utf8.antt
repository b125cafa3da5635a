-- ===== src/Prelude/Utf8.antt =====
-- The UTF-8 encoding of a text.
use Prim.Native.Nat.{ℕ, ◌+◌, ◌/◌, ◌%◌, ◌^◌, ◌<◌}
use mathlib.Core.Path.{◌≡◌, refl}
use mathlib.Core.Logic.{inl, inr}
use mathlib.Core.List.{List, [], ◌∷◌}
use native.Mathlib.Omega.{arith}
use unlimited_ocr_server.Prelude.Tests.{ltb, if◌then◌else◌, Bool-cases}
use unlimited_ocr_server.Prelude.Lists.{All}
use unlimited_ocr_server.Prelude.Chars.{Text}

abbrev pub encode : ℕ → List ℕ → List ℕ
encode c rest =
    if ltb c 0x80
    then c ∷ rest
    else if ltb c 0x800
    then (0xc0 + c / 64) ∷ (0x80 + c % 64) ∷ rest
    else if ltb c 0x1_0000
    then (0xe0 + c / 4096) ∷ (0x80 + c / 64 % 64) ∷ (0x80 + c % 64) ∷ rest
    else (0xf0 + c / 26_2144)
      ∷ (0x80 + c / 4096 % 64)
      ∷ (0x80 + c / 64 % 64)
      ∷ (0x80 + c % 64)
      ∷ rest

-- `str::as_bytes`
unfoldable pub as_bytes : Text → List ℕ
as_bytes [] = []
as_bytes (c ∷ text) = encode c (as_bytes text)

abbrev pub IsText : Text → Type 0
IsText text = All (λ c. c < 0x11_0000) text

encode_injective :
    (c d : ℕ) (s t : List ℕ)
    → c < 0x11_0000
    → d < 0x11_0000
    → encode c s ≡ encode d t
    → (c ≡ d) × (s ≡ t)
encode_injective c d s t h k e = ground arith

encode_bytes :
    (c : ℕ) (s : List ℕ)
    → c < 0x11_0000
    → All (λ b. b < 2 ^ 8) s
    → All (λ b. b < 2 ^ 8) (encode c s)
encode_bytes c s h k = elim (Bool-cases (ltb c 0x80)) [
  | inl t ↦ rw t (ground arith, k)
  | inr f ↦ elim (Bool-cases (ltb c 0x800)) [
    | inl t ↦ rw (f, t) (ground arith, (ground arith, k))
    | inr g ↦ elim (Bool-cases (ltb c 0x1_0000)) [
      | inl t ↦ rw (f, g, t) (ground arith, (ground arith, (ground arith, k)))
      | inr n ↦ rw (f, g, n) (ground arith, (ground arith, (ground arith, (ground arith, k))))
    ]
  ]
]

pub as_bytes_injective : (s t : Text) → IsText s → IsText t → as_bytes s ≡ as_bytes t → s ≡ t
unfolding as_bytes
as_bytes_injective [] [] h k e = refl
as_bytes_injective [] (d ∷ t) h k e = absurd (ground arith)
as_bytes_injective (c ∷ s) [] h k e = absurd (ground arith)
as_bytes_injective (c ∷ s) (d ∷ t) h k e =
    let (here, there) = encode_injective c d (as_bytes s) (as_bytes t) h.0 k.0 e in
    let rest = as_bytes_injective s t h.1 k.1 there in cc

pub as_bytes-IsBytes : (s : Text) → IsText s → All (λ b. b < 2 ^ 8) (as_bytes s)
unfolding as_bytes
as_bytes-IsBytes [] h = tt
as_bytes-IsBytes (c ∷ s) h = encode_bytes c (as_bytes s) h.0 (as_bytes-IsBytes s h.1)
