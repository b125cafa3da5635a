-- ===== src/Inference/Parse/Escape.antt =====
-- What a cell of src/inference/parse.rs says: text that was escaped for HTML is read back.
use unlimited_ocr_server.Prelude.{
  ℕ, zero, suc, ◌<◌, ◌≡◌, refl, ap, ◌∙◌, inl, inr, false, none, [], ◌∷◌, ◌++◌, arith, Text, codes,
  trim, length, ◌==◌, if◌then◌else◌, ==_iff, Bool-cases, Option-cases,
}
use unlimited_ocr_server.Prelude.Search.{find_char}
use unlimited_ocr_server.Inference.Parse.Entities.{
  decode_entities_from, decode_html_entities, decode_html_entity, strip_tags_from, strip_html_tags,
  table_cell_text,
}

-- The usual escape of a character in HTML text.
abbrev pub escape_char : ℕ → Text
escape_char c =
    if c == b'&'
    then codes "&amp;"
    else if c == b'<'
    then codes "&lt;"
    else if c == b'>'
    then codes "&gt;"
    else if c == b'"'
    then codes "&quot;"
    else if c == 39
    then codes "&apos;"
    else c ∷ []

abbrev pub escape : Text → Text
escape [] = []
escape (c ∷ s) = escape_char c ++ escape s

decode-cons :
    (cut : Text) (n c : ℕ) (s : Text)
    → (c == b'&') ≡ false
    → decode_entities_from cut (suc n) (c ∷ s) ≡ c ∷ decode_entities_from cut (suc n) s
unfolding decode_entities_from
decode-cons cut n c s h = elim (Option-cases (find_char (λ x. x == b'&') s)) [
  | inl e ↦ cc
  | inr (start, e) ↦ rw (decode_entities_from, h, e) refl
]

-- A round on an escaped character gives the character, and leaves enough rounds for the rest.
decode-escape_char :
    (cut : Text) (n c : ℕ) (r : Text)
    → length (escape_char c ++ r) < suc n
    → (m : ℕ) × ((length r < m)
        × (decode_entities_from cut (suc n) (escape_char c ++ r)
            ≡ c ∷ decode_entities_from cut m r))
unfolding decode_entities_from decode_html_entity
decode-escape_char cut n c r h = elim (Bool-cases (c == b'&')) [
  | inl t ↦ (n, (ground arith, rw t (let e = (==_iff c b'&').0 t in rw e refl)))
  | inr f ↦ elim (Bool-cases (c == b'<')) [
    | inl t ↦ (n, (ground arith, rw (f, t) (let e = (==_iff c b'<').0 t in rw e refl)))
    | inr g ↦ elim (Bool-cases (c == b'>')) [
      | inl t ↦ (n, (ground arith, rw (f, g, t) (let e = (==_iff c b'>').0 t in rw e refl)))
      | inr i ↦ elim (Bool-cases (c == b'"')) [
        | inl t ↦ (n, (ground arith, rw (f, g, i, t) (let e = (==_iff c b'"').0 t in rw e refl)))
        | inr j ↦ elim (Bool-cases (c == 39)) [
          | inl t ↦ (n, (ground arith, rw (f, g, i, j, t) (let e = (==_iff c 39).0 t in rw e refl)))
          | inr k ↦ (suc n, (ground arith, rw (f, g, i, j, k) (decode-cons cut n c r f)))
        ]
      ]
    ]
  ]
]

decode-escape :
    (cut : Text) (n : ℕ) (s : Text)
    → length (escape s) < n
    → decode_entities_from cut n (escape s) ≡ s
unfolding decode_entities_from
decode-escape cut zero s h = absurd (omega arith)
decode-escape cut (suc n) [] h = refl
decode-escape cut (suc n) (c ∷ s) h =
    let (m, (l, e)) = decode-escape_char cut n c (escape s) h in
    e ∙ ap (λ t. c ∷ t) (decode-escape cut m s l)

pub decode_html_entities-escape : (s : Text) → decode_html_entities (escape s) ≡ s
unfolding decode_html_entities
decode_html_entities-escape s = decode-escape [] (suc (length (escape s))) s (omega arith)

find_char-escape_char :
    (c : ℕ) (r : Text)
    → find_char (λ x. x == b'<') r ≡ none
    → find_char (λ x. x == b'<') (escape_char c ++ r) ≡ none
find_char-escape_char c r h = ground arith

find_char-escape : (s : Text) → find_char (λ x. x == b'<') (escape s) ≡ none
find_char-escape [] = refl
find_char-escape (c ∷ s) = find_char-escape_char c (escape s) (find_char-escape s)

strip_html_tags-escape : (s : Text) → strip_html_tags (escape s) ≡ escape s
unfolding strip_html_tags strip_tags_from
strip_html_tags-escape s = rw (strip_tags_from, find_char-escape s) refl

-- A cell whose content is a text escaped for HTML says that text, without the blanks around it.
pub table_cell_text-escape : (s : Text) → table_cell_text (escape s) ≡ trim s
unfolding table_cell_text
table_cell_text-escape s = rw (strip_html_tags-escape s, decode_html_entities-escape s) refl
