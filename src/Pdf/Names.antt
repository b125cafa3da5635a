-- ===== src/Pdf/Names.antt =====
-- The names of the page files that `rendered_page_number` of src/pdf.rs reads.
use mathlib.Core.List.{reverse, reverse-append, reverse-reverse}
use unlimited_ocr_server.Prelude.{
  some_injective, Option-cases, Bool-cases, and_then, ℕ, ◌≡◌, refl, sym, ap, ◌∙◌, inl, inr, Text,
  codes, [], ◌∷◌, ◌++◌, Option, none, some, arith, ◌==◌, ==_iff, strip_prefix,
}
use unlimited_ocr_server.Prelude.Parse.{strip_suffix, parse_usize}
use unlimited_ocr_server.Pdf.{rendered_page_number}

and_then-some :
    {A B : Type 0} (o : Option A) (f : A → Option B) {b : B}
    → and_then o f ≡ some b
    → (a : A) × (o ≡ some a) × (f a ≡ some b)
and_then-some none f h = absurd (ground arith)
and_then-some (some a) f h = (a, refl, h)

strip_prefix-some : (p s rest : Text) → strip_prefix p s ≡ some rest → s ≡ p ++ rest
strip_prefix-some [] s rest h = some_injective h
strip_prefix-some (p ∷ ps) [] rest h = absurd (ground arith)
strip_prefix-some (p ∷ ps) (c ∷ s) rest h = elim (Bool-cases (p == c)) [
  | inl t ↦
      ap (λ x. x ∷ s) (sym ((==_iff p c).0 t))
      ∙ ap (λ r. p ∷ r) (strip_prefix-some ps s rest (rw t at h))
  | inr f ↦ absurd (ground (arith, f))
]

strip_suffix-some : (suffix s rest : Text) → strip_suffix suffix s ≡ some rest → s ≡ rest ++ suffix
strip_suffix-some suffix s rest h =
    elim (Option-cases (strip_prefix (reverse suffix) (reverse s))) [
      | inl gone ↦ absurd (ground (arith, gone))
      | inr (front, found) ↦
          let same : reverse front ≡ rest = some_injective (rw found at h) in
          sym (reverse-reverse s)
          ∙ ap reverse (strip_prefix-some (reverse suffix) (reverse s) front found)
          ∙ reverse-append (reverse suffix) front
          ∙ ap (λ t. t ++ reverse (reverse suffix)) same
          ∙ ap (λ t. rest ++ t) (reverse-reverse suffix)
    ]

-- A name that has a page number is the stem, a dash, the digits of the number, and `.png`.
pub rendered_page_number-some :
    (filename stem : Text) (n : ℕ)
    → rendered_page_number filename stem ≡ some n
    → (digits : Text) × (filename ≡ stem ++ (codes "-" ++ (digits ++ codes ".png")))
      × (parse_usize digits ≡ some n)
unfolding rendered_page_number
rendered_page_number-some filename stem n h =
    let (rest, first, after) = and_then-some (strip_prefix stem filename) _ h in
    let (rest', second, after') = and_then-some (strip_prefix (codes "-") rest) _ after in
    let (digits, third, number) = and_then-some (strip_suffix (codes ".png") rest') _ after' in
    (
      digits,
      strip_prefix-some stem filename rest first
          ∙ ap (λ t. stem ++ t)
              (strip_prefix-some (codes "-") rest rest' second
                ∙ ap (λ t. codes "-" ++ t) (strip_suffix-some (codes ".png") rest' digits third)),
      number,
    )
