-- ===== src/Inference/Parse/Header.antt =====
-- A detection header of src/inference/parse.rs that is printed and read again.
use unlimited_ocr_server.Prelude.{
  ℕ, suc, ◌+◌, ◌-◌, ◌≤◌, ◌<◌, ◌≡◌, refl, ap, ◌∙◌, ◌≢◌, ◌⊎◌, inl, inr, false, some, List, [], ◌∷◌,
  ◌++◌, arith, Text, trim_start, trim_end, trim, is_empty, decimal, ℤ, pos, negsuc, length, All,
  All-append, All-map, ◌==◌,
}
use unlimited_ocr_server.Prelude.Search.{find_char, rfind_char, split}
use unlimited_ocr_server.Prelude.Append.{
  IsWithout, take-append_at, drop-append_after, drop-append_left, find_char-append,
  rfind_char-append, split-append, split-IsWithout,
}
use unlimited_ocr_server.Prelude.Trim.{
  IsSolid, trim-trim_start, trim-trim_end, trim_start-solid, IsSolid-trim_start, trim_end-append,
  trim-ends, trim_end-blank, trim-All,
}
use unlimited_ocr_server.Prelude.Digits.{IsDigit, decimal-All, int_text, IsI64, parse_i64-int_text}
use unlimited_ocr_server.Types.{BoundingBox}
use unlimited_ocr_server.Inference.Parse.Detections.{
  parse_coords, header_parts, parse_detection_header,
}

-- A box as the model writes it, without its brackets.
abbrev pub coords_text : BoundingBox → Text
coords_text bbox =
    int_text bbox.x_min
    ++ (b',' ∷ 32 ∷ int_text bbox.y_min
        ++ (b',' ∷ 32 ∷ int_text bbox.x_max ++ (b',' ∷ 32 ∷ int_text bbox.y_max)))

abbrev pub header_text : Text → BoundingBox → Text
header_text label bbox = (label ++ 32 ∷ []) ++ (b'[' ∷ (coords_text bbox ++ b']' ∷ []))

abbrev pub IsBox : BoundingBox → Type 0
IsBox bbox = IsI64 bbox.x_min × (IsI64 bbox.y_min × (IsI64 bbox.x_max × IsI64 bbox.y_max))

-- The characters of a printed number lie between these.
abbrev IsNumeral : ℕ → Type 0
IsNumeral c = (45 ≤ c) × (c ≤ 57)

abbrev IsApart : ℕ → Type 0
IsApart x = (x < 45) ⊎ (57 < x)

int_text-All : (z : ℤ) → All IsNumeral (int_text z)
int_text-All (pos n) =
    All-map IsDigit IsNumeral (λ c d. (omega (arith, d.0), d.1)) (decimal n) (decimal-All n)
int_text-All (negsuc n) = (
  (omega arith, omega arith),
  All-map IsDigit IsNumeral (λ c d. (omega (arith, d.0), d.1)) (decimal (n + 1))
      (decimal-All (n + 1)),
)

pub int_text-IsWithout : (x : ℕ) (z : ℤ) → IsApart x → IsWithout x (int_text z)
int_text-IsWithout x z h =
    All-map IsNumeral (λ c. (c == x) ≡ false) (λ c n. ground (arith, n.0, n.1)) (int_text z)
      (int_text-All z)

trim-int_text : (z : ℤ) → trim (int_text z) ≡ int_text z
trim-int_text z =
    trim-All (int_text z)
      (All-map IsNumeral IsSolid (λ c n. ground (arith, n.0, n.1)) (int_text z) (int_text-All z))

trim-blank_int_text : (z : ℤ) → trim (32 ∷ int_text z) ≡ int_text z
unfolding trim trim_start
trim-blank_int_text z = trim-int_text z

blank-IsWithout : (s : Text) → IsWithout 44 s → IsWithout 44 (32 ∷ s)
blank-IsWithout s h = (refl, h)

-- The pieces between the commas.
coords_text-pieces :
    (bbox : BoundingBox)
    → split b',' (coords_text bbox)
      ≡ int_text bbox.x_min
        ∷ (32 ∷ int_text bbox.y_min)
        ∷ (32 ∷ int_text bbox.x_max)
        ∷ (32 ∷ int_text bbox.y_max)
        ∷ []
coords_text-pieces bbox =
    let without : (z : ℤ) → IsWithout 44 (int_text z) =
      λ z. int_text-IsWithout 44 z (inl (omega arith)) in
    let x_max = 32 ∷ int_text bbox.x_max in
    let y_min = 32 ∷ int_text bbox.y_min in
    let y_max = 32 ∷ int_text bbox.y_max in
    rw
      (
        split-append 44 (int_text bbox.x_min) (y_min ++ (44 ∷ x_max ++ (44 ∷ y_max)))
            (without bbox.x_min),
        split-append 44 y_min (x_max ++ (44 ∷ y_max)) (refl, without bbox.y_min),
        split-append 44 x_max y_max (refl, without bbox.x_max),
        split-IsWithout 44 y_max (refl, without bbox.y_max),
      )
      refl

parse_coords-cons :
    (value : Text) (z : ℤ) (values : List Text) (zs : List ℤ)
    → trim value ≡ int_text z
    → IsI64 z
    → parse_coords values ≡ some zs
    → parse_coords (value ∷ values) ≡ some (z ∷ zs)
unfolding parse_coords
parse_coords-cons value z values zs t h e = rw (t, parse_i64-int_text z h, e) refl

parse_coords-nil : parse_coords [] ≡ some []
unfolding parse_coords
parse_coords-nil = refl

parse_coords-pieces :
    (bbox : BoundingBox)
    → IsBox bbox
    → parse_coords (split b',' (coords_text bbox))
      ≡ some (bbox.x_min ∷ bbox.y_min ∷ bbox.x_max ∷ bbox.y_max ∷ [])
parse_coords-pieces bbox (a, (b, (c, d))) = rw (coords_text-pieces bbox) (
    parse_coords-cons _ bbox.x_min _ _ (trim-int_text bbox.x_min) a (
      parse_coords-cons _ bbox.y_min _ _ (trim-blank_int_text bbox.y_min) b (
        parse_coords-cons _ bbox.x_max _ _ (trim-blank_int_text bbox.x_max) c (
          parse_coords-cons _ bbox.y_max _ _ (trim-blank_int_text bbox.y_max) d parse_coords-nil))))

IsWithout-append : (x : ℕ) (s t : Text) → IsWithout x s → IsWithout x t → IsWithout x (s ++ t)
IsWithout-append x s t h k = All-append (λ c. (c == x) ≡ false) s t h k

pub coords_text-IsWithout : (x : ℕ) (bbox : BoundingBox) → 57 < x → IsWithout x (coords_text bbox)
coords_text-IsWithout x bbox h =
    let number : (z : ℤ) → IsWithout x (int_text z) = λ z. int_text-IsWithout x z (inr h) in
    let comma : (44 == x) ≡ false = ground arith in
    let blank : (32 == x) ≡ false = ground arith in
    IsWithout-append x (int_text bbox.x_min) _ (number bbox.x_min) (
      comma,
      (
        blank,
        IsWithout-append x (int_text bbox.y_min) _ (number bbox.y_min) (
          comma,
          (
            blank,
            IsWithout-append x (int_text bbox.x_max) _ (number bbox.x_max)
                (comma, (blank, number bbox.y_max)),
          ),
        ),
      ),
    )

-- A header that is printed has no blanks at its ends.
trim-header_text :
    (label : Text) (bbox : BoundingBox)
    → label ≢ []
    → trim label ≡ label
    → trim (header_text label bbox) ≡ header_text label bbox
trim-header_text [] bbox h k = absurd (h refl)
trim-header_text (c ∷ label) bbox h k =
    trim-ends (header_text (c ∷ label) bbox)
      (trim_start-solid c ((label ++ 32 ∷ []) ++ (b'[' ∷ (coords_text bbox ++ b']' ∷ [])))
        (IsSolid-trim_start c label (trim-trim_start (c ∷ label) k)))
      (trim_end-append (c ∷ label ++ 32 ∷ []) (b'[' ∷ coords_text bbox) b']' refl)

trim-label : (label : Text) → label ≢ [] → trim label ≡ label → trim (label ++ 32 ∷ []) ≡ label
unfolding trim
trim-label [] h k = absurd (h refl)
trim-label (c ∷ label) h k =
    ap trim_end (
      trim_start-solid c (label ++ 32 ∷ [])
        (IsSolid-trim_start c label (trim-trim_start (c ∷ label) k)))
    ∙ trim_end-blank (c ∷ label) (trim-trim_end (c ∷ label) k)

is_empty-cases : (s : Text) → (s ≡ []) ⊎ (is_empty s ≡ false)
is_empty-cases [] = inl refl
is_empty-cases (c ∷ s) = inr refl

header_parts-header_text :
    (label : Text) (bbox : BoundingBox) (bbox_start bbox_end : ℕ)
    → label ≢ []
    → trim label ≡ label
    → IsBox bbox
    → bbox_start ≡ length (label ++ 32 ∷ [])
    → bbox_end ≡ bbox_start + suc (length (coords_text bbox))
    → header_parts (header_text label bbox) bbox_start bbox_end ≡ some (label, bbox)
unfolding header_parts
header_parts-header_text label bbox bbox_start bbox_end h k b s e =
    let after = coords_text bbox ++ b']' ∷ [] in
    let named : (label ≡ []) ⊎ (is_empty label ≡ false) = is_empty-cases label in
    elim named [
      | inl n ↦ absurd (h n)
      | inr n ↦
          rw
            (
              header_parts,
              take-append_at bbox_start (label ++ 32 ∷ []) (b'[' ∷ after) s,
              trim-label label h k,
              n,
              drop-append_after (bbox_start + 1) (label ++ 32 ∷ []) b'[' after (omega (arith, s)),
              take-append_at (bbox_end - (bbox_start + 1)) (coords_text bbox) (b']' ∷ [])
                  (omega (arith, e)),
              parse_coords-pieces bbox b,
            )
            (ap (λ t. some (trim t, bbox))
                (take-append_at bbox_start (label ++ 32 ∷ []) (b'[' ∷ after) s)
              ∙ ap (λ t. some (t, bbox)) (trim-label label h k))
    ]

pub parse_detection_header-header_text :
    (label : Text) (bbox : BoundingBox)
    → label ≢ []
    → trim label ≡ label
    → IsBox bbox
    → parse_detection_header (header_text label bbox) ≡ some (label, bbox)
unfolding parse_detection_header
parse_detection_header-header_text label bbox h k b =
    let before = label ++ 32 ∷ [] in
    let after = coords_text bbox ++ b']' ∷ [] in
    let opened : rfind_char b'[' (header_text label bbox) ≡ some (length before) =
      rfind_char-append b'[' before after (
        IsWithout-append b'[' (coords_text bbox) (b']' ∷ [])
          (coords_text-IsWithout b'[' bbox (omega arith)) (refl, tt)) in
    let closed : find_char (λ c. c == b']') (b'[' ∷ after)
        ≡ some (suc (length (coords_text bbox))) =
      find_char-append (λ c. c == b']') (b'[' ∷ coords_text bbox) b']' []
        (refl, coords_text-IsWithout b']' bbox (omega arith)) refl in
    rw (trim-header_text label bbox h k, opened, drop-append_left before (b'[' ∷ after), closed)
      (header_parts-header_text label bbox (length before)
        (suc (length (coords_text bbox)) + length before) h k b refl (omega arith))
