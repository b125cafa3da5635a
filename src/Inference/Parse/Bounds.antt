-- ===== src/Inference/Parse/Bounds.antt =====
-- Where the searches of src/inference/parse.rs stop: every position lies within the text, behind the
-- one where the search began.
use unlimited_ocr_server.Prelude.{
  ℕ, zero, suc, ◌+◌, ◌≤◌, ◌<◌, ◌≡◌, inl, inr, Bool, true, false, Option, none, some, ◌∷◌, ◌++◌,
  arith, Text, codes, to_ascii_lowercase, lowercase, length, get_elem?, drop, length-append,
  length-drop, length-map, ltb, leb, ◌==◌, if◌then◌else◌, Bool-cases, Option-cases,
}
use unlimited_ocr_server.Prelude.Search.{find, find_char, find-bound, find_char-bound}
use unlimited_ocr_server.Inference.Parse.Tags.{
  OpenTag, open_tag_from, find_open_tag, find_close_tag, has_tag_boundary, find_next_cell_tag,
  earlier_cell, tag_close_len,
}

-- The bounds of a tag that a search from `from` finds.
abbrev pub IsTagAfter : (html : Text) (from : ℕ) → Option OpenTag → Type 0
IsTagAfter html from none = Unit
IsTagAfter html from (some (start, (content_start, attrs))) =
    (from ≤ start) × ((start < content_start) × (content_start ≤ length html))

IsTagAfter-le :
    (html : Text) (a b : ℕ) (o : Option OpenTag) → a ≤ b → IsTagAfter html b o → IsTagAfter html a o
IsTagAfter-le html a b none h k = tt
IsTagAfter-le html a b (some (s, (c, attrs))) h k = (omega (arith, h, k.0), (k.1.0, k.1.1))

open_tag_from-IsTagAfter :
    (rounds : ℕ) (html tag : Text) (from : ℕ)
    → IsTagAfter html from (open_tag_from none rounds html tag from)
unfolding open_tag_from
open_tag_from-IsTagAfter zero html tag from = tt
open_tag_from-IsTagAfter (suc rounds) html tag from = elim (Bool-cases (ltb from (length html))) [
  | inr f ↦ rw (open_tag_from, f) tt
  | inl t ↦ elim (Option-cases (find (b'<' ∷ tag) (drop from (lowercase html)))) [
    | inl e ↦ rw (open_tag_from, t, e) tt
    | inr (relative_start, e) ↦
        let start = from + relative_start in
        let boundary_idx = start + length (b'<' ∷ tag) in
        let b = find-bound (b'<' ∷ tag) (drop from (lowercase html)) relative_start e in
        let l = length-drop from (lowercase html) in
        let w = length-map to_ascii_lowercase html in
        elim (Bool-cases (has_tag_boundary (get_elem? (lowercase html) boundary_idx))) [
          | inr g ↦
              rw (open_tag_from, t, e, g)
                (IsTagAfter-le html from boundary_idx
                  (open_tag_from none rounds html tag boundary_idx) (omega arith)
                  (open_tag_from-IsTagAfter rounds html tag boundary_idx))
          | inl g ↦ elim (Option-cases (find_char (λ c. c == b'>') (drop boundary_idx html))) [
            | inl i ↦ rw (open_tag_from, t, e, g, i) tt
            | inr (len, i) ↦
                let c = find_char-bound (λ c. c == b'>') (drop boundary_idx html) len i in
                let r = length-drop boundary_idx html in
                rw (open_tag_from, t, e, g, i) (omega arith, (omega arith, omega arith))
          ]
        ]
  ]
]

pub find_open_tag-IsTagAfter :
    (html tag : Text) (cursor : ℕ) → IsTagAfter html cursor (find_open_tag html tag cursor)
unfolding find_open_tag
find_open_tag-IsTagAfter html tag cursor =
    open_tag_from-IsTagAfter (suc (length html)) html tag cursor

pub find_close_tag-bound :
    (html tag : Text) (cursor i : ℕ)
    → cursor ≤ length html
    → find_close_tag html tag cursor ≡ some i
    → (cursor ≤ i) × (i + tag_close_len tag ≤ length html)
unfolding find_close_tag
find_close_tag-bound html tag cursor i h k =
    elim (Option-cases (find (codes "</" ++ tag ++ codes ">") (drop cursor (lowercase html)))) [
      | inl e ↦ absurd (ground arith)
      | inr (idx, e) ↦
          let b =
            find-bound (codes "</" ++ tag ++ codes ">") (drop cursor (lowercase html)) idx e in
          let l = length-drop cursor (lowercase html) in
          let w = length-map to_ascii_lowercase html in
          let p = length-append tag (codes ">") in (ground arith, ground arith)
    ]

-- The bounds of a cell's content that a search from `cursor` finds.
abbrev pub IsCellAfter : (html : Text) (cursor : ℕ) → Option (Text × (ℕ × Text)) → Type 0
IsCellAfter html cursor none = Unit
IsCellAfter html cursor (some (tag, (content_start, attrs))) =
    (cursor < content_start) × (content_start ≤ length html)

IsCellAfter-if :
    (html : Text) (cursor : ℕ) (b : Bool) (x y : Text × (ℕ × Text))
    → IsCellAfter html cursor (some x)
    → IsCellAfter html cursor (some y)
    → IsCellAfter html cursor (if b then some x else some y)
IsCellAfter-if html cursor true x y h k = h
IsCellAfter-if html cursor false x y h k = k

earlier_cell-IsCellAfter :
    (html : Text) (cursor : ℕ) (td th : Option OpenTag)
    → IsTagAfter html cursor td
    → IsTagAfter html cursor th
    → IsCellAfter html cursor (earlier_cell td th)
earlier_cell-IsCellAfter html cursor none none h k = tt
earlier_cell-IsCellAfter html cursor none (some (s, (c, a))) h k =
    (omega (arith, k.0, k.1.0), k.1.1)
earlier_cell-IsCellAfter html cursor (some (s, (c, a))) none h k =
    (omega (arith, h.0, h.1.0), h.1.1)
earlier_cell-IsCellAfter html cursor (some (s, (c, a))) (some (s', (c', a'))) h k =
    IsCellAfter-if html cursor (leb s s') (codes "td", (c, a)) (codes "th", (c', a'))
      (omega (arith, h.0, h.1.0), h.1.1) (omega (arith, k.0, k.1.0), k.1.1)

pub find_next_cell_tag-IsCellAfter :
    (html : Text) (cursor : ℕ) → IsCellAfter html cursor (find_next_cell_tag html cursor)
unfolding find_next_cell_tag
find_next_cell_tag-IsCellAfter html cursor =
    earlier_cell-IsCellAfter html cursor (find_open_tag html (codes "td") cursor)
      (find_open_tag html (codes "th") cursor) (find_open_tag-IsTagAfter html (codes "td") cursor)
      (find_open_tag-IsTagAfter html (codes "th") cursor)
