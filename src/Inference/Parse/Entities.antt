-- ===== src/Inference/Parse/Entities.antt =====
-- Character references and tags inside a table cell: src/inference/parse.rs.
use unlimited_ocr_server.Prelude.{
  ℕ, zero, suc, ◌+◌, Bool, true, false, ◌&&◌, ◌||◌, Option, none, some, [], ◌∷◌, ◌++◌, Text, codes,
  text_eq, is_whitespace, trim_start, trim_end, trim, strip_prefix, eq_ignore_ascii_case, length,
  take, drop, ltb, leb, ◌==◌, if◌then◌else◌, and_then,
}
use unlimited_ocr_server.Prelude.Search.{find_char}
use unlimited_ocr_server.Prelude.Numbers.{parse_u32}

-- `char::from_u32`: no surrogates, nothing past the last scalar value.
abbrev pub from_u32 : ℕ → Option ℕ
from_u32 n =
    if ltb n 0xd800 then some n else if leb 0xe000 n && ltb n 0x11_0000 then some n else none

abbrev decode_hex : Option Text → Option Text → Option ℕ
decode_hex (some hex) decimal_text = parse_u32 16 hex
decode_hex none (some number) = parse_u32 10 number
decode_hex none none = none

abbrev or_else : Option Text → Option Text → Option Text
or_else (some s) other = some s
or_else none other = other

unfoldable pub decode_numeric_html_entity : Text → Option ℕ
unfolding parse_u32
decode_numeric_html_entity entity =
    and_then
      (decode_hex (or_else (strip_prefix (codes "#x") entity) (strip_prefix (codes "#X") entity))
        (strip_prefix (codes "#") entity))
      from_u32

unfoldable pub decode_html_entity : Text → Option ℕ
unfolding decode_numeric_html_entity
decode_html_entity entity =
    if text_eq entity (codes "amp")
    then some b'&'
    else if text_eq entity (codes "lt")
    then some b'<'
    else if text_eq entity (codes "gt")
    then some b'>'
    else if text_eq entity (codes "quot")
    then some b'"'
    else if text_eq entity (codes "apos")
    then some 39
    else if text_eq entity (codes "nbsp")
    then some b' '
    else decode_numeric_html_entity entity

abbrev pub entity_or_text : Option ℕ → Text → Text
entity_or_text (some decoded) entity = decoded ∷ []
entity_or_text none entity = b'&' ∷ entity ++ b';' ∷ []

-- One round a reference; each round leaves a shorter text. Without rounds the loop gives `cut`.
unfoldable pub decode_entities_from : (cut : Text) (rounds : ℕ) (remaining : Text) → Text
unfolding decode_html_entity
decode_entities_from cut zero remaining = cut
decode_entities_from cut (suc rounds) remaining = elim (find_char (λ c. c == b'&') remaining) [
  | none ↦ remaining
  | some start ↦
      let rest = drop (suc start) remaining in
      take start remaining ++ elim (find_char (λ c. c == b';') rest) [
        | none ↦ drop start remaining
        | some end ↦
            let entity = take end rest in
            entity_or_text (decode_html_entity entity) entity
            ++ decode_entities_from cut rounds (drop (end + 1) rest)
      ]
]

unfoldable pub decode_html_entities : Text → Text
unfolding decode_entities_from
decode_html_entities value = decode_entities_from [] (suc (length value)) value

-- `split_whitespace().next()`
abbrev first_word : Text → Text
first_word [] = []
first_word (c ∷ s) = let rest = first_word s in if is_whitespace c then [] else c ∷ rest

-- No word of a text without one is "br", so the empty word stands for `None`.
abbrev pub is_line_break : Text → Bool
is_line_break tag =
    let name = first_word (trim_start tag) in
    eq_ignore_ascii_case name (codes "br") || eq_ignore_ascii_case name (codes "br/")

abbrev pub break_text : Bool → Text
break_text true = 10 ∷ []
break_text false = []

-- One round a tag; each round leaves a shorter text. Without rounds the loop gives `cut`.
unfoldable pub strip_tags_from : (cut : Text) (rounds : ℕ) (remaining : Text) → Text
unfolding trim trim_start trim_end
strip_tags_from cut zero remaining = cut
strip_tags_from cut (suc rounds) remaining = elim (find_char (λ c. c == b'<') remaining) [
  | none ↦ remaining
  | some start ↦ take start remaining ++ elim (find_char (λ c. c == b'>') (drop start remaining)) [
    | none ↦ drop start remaining
    | some end ↦
        let tag = trim (drop 1 (take end (drop start remaining))) in
        break_text (is_line_break tag)
        ++ strip_tags_from cut rounds (drop (start + end + 1) remaining)
  ]
]

unfoldable pub strip_html_tags : Text → Text
unfolding strip_tags_from
strip_html_tags html = strip_tags_from [] (suc (length html)) html

unfoldable pub table_cell_text : Text → Text
unfolding strip_html_tags decode_html_entities trim
table_cell_text html = trim (decode_html_entities (strip_html_tags html))
