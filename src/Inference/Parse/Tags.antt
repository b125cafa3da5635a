-- ===== src/Inference/Parse/Tags.antt =====
-- Finding tags and reading their attributes: src/inference/parse.rs. The search is in a lowercase
-- copy, which is as long as the text, so a position in one is a position in the other.
use unlimited_ocr_server.Prelude.{
  ℕ, zero, suc, ◌+◌, Bool, true, false, ◌||◌, Option, none, some, [], ◌∷◌, ◌++◌, Text, codes,
  trim_start, trim_end, trim, strip_prefix, lowercase, length, get_elem?, take, drop, ltb, leb,
  ◌==◌, if◌then◌else◌, unwrap_or, and_then,
}
use unlimited_ocr_server.Prelude.Search.{find, find_char}
use unlimited_ocr_server.Prelude.Parse.{split_once, parse_usize}

-- A tag that opens: its start, the position after its `>`, and its attributes.
abbrev pub OpenTag : Type 0
OpenTag = ℕ × (ℕ × Text)

-- `u8::is_ascii_whitespace`
abbrev pub is_ascii_whitespace : ℕ → Bool
is_ascii_whitespace c = c == 9 || c == 10 || c == 12 || c == 13 || c == 32

abbrev pub has_tag_boundary : Option ℕ → Bool
has_tag_boundary none = false
has_tag_boundary (some c) = c == b'>' || c == b'/' || is_ascii_whitespace c

-- One round a candidate; each round starts later in the text. Without rounds the loop gives `cut`.
unfoldable pub open_tag_from :
    (cut : Option OpenTag) (rounds : ℕ) (html tag : Text) (search_from : ℕ) → Option OpenTag
unfolding trim trim_start trim_end
open_tag_from cut zero html tag search_from = cut
open_tag_from cut (suc rounds) html tag search_from = elim (ltb search_from (length html)) [
  | false ↦ none
  | true ↦ elim (find (b'<' ∷ tag) (drop search_from (lowercase html))) [
    | none ↦ none
    | some relative_start ↦
        let start = search_from + relative_start in
        let boundary_idx = start + length (b'<' ∷ tag) in
        elim (has_tag_boundary (get_elem? (lowercase html) boundary_idx)) [
          | false ↦ open_tag_from cut rounds html tag boundary_idx
          | true ↦ elim (find_char (λ c. c == b'>') (drop boundary_idx html)) [
            | none ↦ none
            | some len ↦
                some (start, (boundary_idx + len + 1, trim (take len (drop boundary_idx html))))
          ]
        ]
  ]
]

unfoldable pub find_open_tag : (html tag : Text) (cursor : ℕ) → Option OpenTag
unfolding open_tag_from
find_open_tag html tag cursor = open_tag_from none (suc (length html)) html tag cursor

unfoldable pub find_close_tag : (html tag : Text) (cursor : ℕ) → Option ℕ
find_close_tag html tag cursor =
    elim (find (codes "</" ++ tag ++ codes ">") (drop cursor (lowercase html))) [
      | none ↦ none
      | some idx ↦ some (cursor + idx)
    ]

abbrev pub tag_close_len : Text → ℕ
tag_close_len tag = length tag + 3

-- The earlier of the two tags, `td` if they start at one place.
abbrev pub earlier_cell : Option OpenTag → Option OpenTag → Option (Text × (ℕ × Text))
earlier_cell (some (td_start, td)) (some (th_start, th)) =
    if leb td_start th_start then some (codes "td", td) else some (codes "th", th)
earlier_cell (some (_, td)) none = some (codes "td", td)
earlier_cell none (some (_, th)) = some (codes "th", th)
earlier_cell none none = none

unfoldable pub find_next_cell_tag : (html : Text) (cursor : ℕ) → Option (Text × (ℕ × Text))
unfolding find_open_tag
find_next_cell_tag html cursor =
    earlier_cell (find_open_tag html (codes "td") cursor) (find_open_tag html (codes "th") cursor)

-- The attribute's value: quoted, or up to a blank or `>`.
abbrev pub raw_value : Text → Option Text
raw_value rest = elim (strip_prefix (b'"' ∷ []) rest) [
  | some value ↦ elim (split_once b'"' value) [ none ↦ none | some (raw, _) ↦ some raw ]
  | none ↦ elim (strip_prefix (39 ∷ []) rest) [
    | some value ↦ elim (split_once 39 value) [ none ↦ none | some (raw, _) ↦ some raw ]
    | none ↦ some (
        take (unwrap_or (find_char (λ c. is_ascii_whitespace c || c == b'>') rest) (length rest))
          rest)
  ]
]

abbrev pub unless_zero : Option ℕ → Option ℕ
unless_zero none = none
unless_zero (some n) = if n == 0 then none else some n

unfoldable pub parse_span_attr : (attrs name : Text) → Option ℕ
unfolding trim_start parse_usize
parse_span_attr attrs name = and_then (find name (lowercase attrs)) (λ start.
    and_then (strip_prefix (b'=' ∷ []) (trim_start (drop (start + length name) attrs)))
      (λ rest. and_then (raw_value (trim_start rest)) (λ raw. unless_zero (parse_usize raw))))
