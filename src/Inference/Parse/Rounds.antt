-- ===== src/Inference/Parse/Rounds.antt =====
-- The loops of src/inference/parse.rs end: what they give does not depend on the rounds that are
-- allowed, nor on the value they would give without one, once there are more rounds than characters.
use unlimited_ocr_server.Prelude.{
  ℕ, zero, suc, ◌+◌, ◌≤◌, ◌<◌, ◌≡◌, inl, inr, Option, none, some, List, [], ◌∷◌, arith, Text, codes,
  to_ascii_lowercase, lowercase, length, get_elem?, take, drop, length-drop, length-map, ltb, leb,
  ◌==◌, ltb→lt, Bool-cases, Option-cases, unwrap_or,
}
use unlimited_ocr_server.Prelude.Search.{find, find_char, find-bound, find_char-bound}
use unlimited_ocr_server.Types.{OcrDetection, OcrTableCell}
use unlimited_ocr_server.Inference.Parse.Entities.{
  decode_entities_from, decode_html_entities, strip_tags_from, strip_html_tags,
}
use unlimited_ocr_server.Inference.Parse.Tags.{
  OpenTag, open_tag_from, find_open_tag, find_close_tag, has_tag_boundary,
}
use unlimited_ocr_server.Inference.Parse.Tags.{tag_close_len, find_next_cell_tag}
use unlimited_ocr_server.Inference.Parse.Tables.{cells_from, rows_from, parse_table_cells}
use unlimited_ocr_server.Inference.Parse.Bounds.{
  IsTagAfter, IsCellAfter, find_open_tag-IsTagAfter, find_close_tag-bound,
  find_next_cell_tag-IsCellAfter,
}
use mathlib.Core.Path.{subst}
use unlimited_ocr_server.Inference.Parse.Detections.{
  det_start, det_end, detections_from, parse_detections, parse_detection_header,
}

decode_entities_from-rounds :
    (cut cut' : Text) (m n : ℕ) (s : Text)
    → length s < m
    → length s < n
    → decode_entities_from cut m s ≡ decode_entities_from cut' n s
unfolding decode_entities_from
decode_entities_from-rounds cut cut' zero n s h k = absurd (omega arith)
decode_entities_from-rounds cut cut' (suc m) zero s h k = absurd (omega arith)
decode_entities_from-rounds cut cut' (suc m) (suc n) s h k =
    elim (Option-cases (find_char (λ c. c == b'&') s)) [
      | inl e ↦ cc
      | inr (start, e) ↦
          let rest = drop (suc start) s in
          elim (Option-cases (find_char (λ c. c == b';') rest)) [
            | inl f ↦ cc
            | inr (end, f) ↦
                let b = find_char-bound (λ c. c == b';') rest end f in
                let l = length-drop (suc start) s in
                let r = length-drop (end + 1) rest in
                let more =
                  decode_entities_from-rounds cut cut' m n (drop (end + 1) rest) (omega arith)
                    (omega arith) in
                cc
          ]
    ]

strip_tags_from-rounds :
    (cut cut' : Text) (m n : ℕ) (s : Text)
    → length s < m
    → length s < n
    → strip_tags_from cut m s ≡ strip_tags_from cut' n s
unfolding strip_tags_from
strip_tags_from-rounds cut cut' zero n s h k = absurd (omega arith)
strip_tags_from-rounds cut cut' (suc m) zero s h k = absurd (omega arith)
strip_tags_from-rounds cut cut' (suc m) (suc n) s h k =
    elim (Option-cases (find_char (λ c. c == b'<') s)) [
      | inl e ↦ cc
      | inr (start, e) ↦ elim (Option-cases (find_char (λ c. c == b'>') (drop start s))) [
        | inl f ↦ cc
        | inr (end, f) ↦
            let b = find_char-bound (λ c. c == b'<') s start e in
            let r = length-drop (start + end + 1) s in
            let more =
              strip_tags_from-rounds cut cut' m n (drop (start + end + 1) s) (omega arith)
                (omega arith) in
            cc
      ]
    ]

detections_from-rounds :
    (cut cut' : List OcrDetection) (m n : ℕ) (s : Text)
    → length s < m
    → length s < n
    → detections_from cut m s ≡ detections_from cut' n s
unfolding detections_from
detections_from-rounds cut cut' zero n s h k = absurd (omega arith)
detections_from-rounds cut cut' (suc m) zero s h k = absurd (omega arith)
detections_from-rounds cut cut' (suc m) (suc n) s h k = elim (Option-cases (find det_start s)) [
  | inl e ↦ cc
  | inr (start, e) ↦
      let after_start = drop (start + length det_start) s in
      elim (Option-cases (find det_end after_start)) [
        | inl f ↦ cc
        | inr (end, f) ↦
            let after_end = drop (end + length det_end) after_start in
            let b = find-bound det_start s start e in
            let l = length-drop (start + length det_start) s in
            let r = length-drop (end + length det_end) after_start in
            elim (Option-cases (parse_detection_header (take end after_start))) [
              | inl g ↦
                  let more =
                    detections_from-rounds cut cut' m n after_end (omega arith) (omega arith) in
                  cc
              | inr ((label, bbox), g) ↦
                  let next_start = unwrap_or (find det_start after_end) (length after_end) in
                  let t = length-drop next_start after_end in
                  let more =
                    detections_from-rounds cut cut' m n (drop next_start after_end) (omega arith)
                      (omega arith) in
                  cc
            ]
      ]
]

open_tag_from-rounds :
    (cut cut' : Option OpenTag) (m n : ℕ) (html tag : Text) (from : ℕ)
    → length html < from + m
    → length html < from + n
    → 0 < m
    → 0 < n
    → open_tag_from cut m html tag from ≡ open_tag_from cut' n html tag from
unfolding open_tag_from
open_tag_from-rounds cut cut' zero n html tag from h k p q = absurd (omega arith)
open_tag_from-rounds cut cut' (suc m) zero html tag from h k p q = absurd (omega arith)
open_tag_from-rounds cut cut' (suc m) (suc n) html tag from h k p q =
    elim (Bool-cases (ltb from (length html))) [
      | inr f ↦ cc
      | inl t ↦ elim (Option-cases (find (b'<' ∷ tag) (drop from (lowercase html)))) [
        | inl e ↦ cc
        | inr (relative_start, e) ↦
            let start = from + relative_start in
            let boundary_idx = start + length (b'<' ∷ tag) in
            let boundary = has_tag_boundary (get_elem? (lowercase html) boundary_idx) in
            elim (Bool-cases boundary) [
              | inl g ↦ cc
              | inr g ↦
                  let lt = ltb→lt from (length html) t in
                  let b = find-bound (b'<' ∷ tag) (drop from (lowercase html)) relative_start e in
                  let l = length-drop from (lowercase html) in
                  let w = length-map to_ascii_lowercase html in
                  let more : open_tag_from cut m html tag boundary_idx
                      ≡ open_tag_from cut' n html tag boundary_idx =
                    open_tag_from-rounds cut cut' m n html tag boundary_idx (omega arith)
                      (omega arith) (omega arith) (omega arith) in
                  cc
            ]
      ]
    ]

cells_from-rounds :
    (cut cut' : List OcrTableCell) (m n : ℕ) (row_html : Text) (cursor : ℕ)
    → length row_html < cursor + m
    → length row_html < cursor + n
    → 0 < m
    → 0 < n
    → cells_from cut m row_html cursor ≡ cells_from cut' n row_html cursor
unfolding cells_from
cells_from-rounds cut cut' zero n row_html cursor h k p q = absurd (omega arith)
cells_from-rounds cut cut' (suc m) zero row_html cursor h k p q = absurd (omega arith)
cells_from-rounds cut cut' (suc m) (suc n) row_html cursor h k p q =
    elim (Bool-cases (ltb cursor (length row_html))) [
      | inr f ↦ cc
      | inl t ↦ elim (Option-cases (find_next_cell_tag row_html cursor)) [
        | inl e ↦ cc
        | inr ((tag, (content_start, attrs)), e) ↦
            elim (Option-cases (find_close_tag row_html tag content_start)) [
              | inl g ↦ cc
              | inr (content_end, g) ↦
                  let a : IsCellAfter row_html cursor (some (tag, (content_start, attrs))) =
                    subst (IsCellAfter row_html cursor) e
                      (find_next_cell_tag-IsCellAfter row_html cursor) in
                  let b = find_close_tag-bound row_html tag content_start content_end a.1 g in
                  let next = content_end + tag_close_len tag in
                  let more : cells_from cut m row_html next ≡ cells_from cut' n row_html next =
                    cells_from-rounds cut cut' m n row_html next (omega (arith, a.0, a.1, b.0, b.1))
                      (omega (arith, a.0, a.1, b.0, b.1)) (omega (arith, a.0, a.1, b.0, b.1, h))
                      (omega (arith, a.0, a.1, b.0, b.1, k)) in
                  cc
            ]
      ]
    ]

rows_from-rounds :
    (cut cut' : List (List OcrTableCell)) (m n : ℕ) (html : Text) (end cursor : ℕ)
    → end ≤ length html
    → length html < cursor + m
    → length html < cursor + n
    → 0 < m
    → 0 < n
    → rows_from cut m html end cursor ≡ rows_from cut' n html end cursor
unfolding rows_from
rows_from-rounds cut cut' zero n html end cursor l h k p q = absurd (omega arith)
rows_from-rounds cut cut' (suc m) zero html end cursor l h k p q = absurd (omega arith)
rows_from-rounds cut cut' (suc m) (suc n) html end cursor l h k p q =
    elim (Bool-cases (ltb cursor end)) [
      | inr f ↦ cc
      | inl t ↦ elim (Option-cases (find_open_tag html (codes "tr") cursor)) [
        | inl e ↦ cc
        | inr ((row_start, (row_content_start, attrs)), e) ↦ elim (Bool-cases (leb end row_start)) [
          | inl u ↦ cc
          | inr u ↦ elim (Option-cases (find_close_tag html (codes "tr") row_content_start)) [
            | inl g ↦ cc
            | inr (row_content_end, g) ↦ elim (Bool-cases (ltb end row_content_end)) [
              | inl v ↦ cc
              | inr v ↦
                  let a : IsTagAfter html cursor (some (row_start, (row_content_start, attrs))) =
                    subst (IsTagAfter html cursor) e
                      (find_open_tag-IsTagAfter html (codes "tr") cursor) in
                  let b =
                    find_close_tag-bound html (codes "tr") row_content_start row_content_end a.1.1
                      g in
                  let next = row_content_end + length (codes "</tr>") in
                  let more : rows_from cut m html end next ≡ rows_from cut' n html end next =
                    rows_from-rounds cut cut' m n html end next l (omega (arith, a.0, a.1.0, b.0))
                      (omega (arith, a.0, a.1.0, b.0)) (omega (arith, a.0, a.1, b.0, b.1, h))
                      (omega (arith, a.0, a.1, b.0, b.1, k)) in
                  cc
            ]
          ]
        ]
      ]
    ]

-- Every loop of the parser ends: with more rounds than the text has characters, whatever the loop
-- would give without rounds, it gives what the parser gives; the loop over rows for any end within
-- the text and any start.
pub parse-rounds :
    (n : ℕ) (s : Text) (cut : Text) (detections : List OcrDetection) (cells : List OcrTableCell)
    (rows : List (List OcrTableCell)) (tag : Text) (found : Option OpenTag) (cursor end : ℕ)
    → length s < n
    → end ≤ length s
    → (detections_from detections n s ≡ parse_detections s)
      × ((strip_tags_from cut n s ≡ strip_html_tags s)
          × ((decode_entities_from cut n s ≡ decode_html_entities s)
              × ((open_tag_from found n s tag cursor ≡ find_open_tag s tag cursor)
                  × ((cells_from cells n s 0 ≡ parse_table_cells s)
                      × (rows_from rows n s end cursor
                          ≡ rows_from [] (suc (length s)) s end cursor)))))
unfolding parse_detections strip_html_tags decode_html_entities find_open_tag parse_table_cells
parse-rounds n s cut detections cells rows tag found cursor end h l = (
  detections_from-rounds detections [] n (suc (length s)) s h (omega arith),
  (
    strip_tags_from-rounds cut [] n (suc (length s)) s h (omega arith),
    (
      decode_entities_from-rounds cut [] n (suc (length s)) s h (omega arith),
      (
        open_tag_from-rounds found none n (suc (length s)) s tag cursor (omega arith) (omega arith)
            (omega arith) (omega arith),
        (
          cells_from-rounds cells [] n (suc (length s)) s 0 (omega arith) (omega arith)
              (omega arith) (omega arith),
          rows_from-rounds rows [] n (suc (length s)) s end cursor l (omega arith) (omega arith)
              (omega arith) (omega arith),
        ),
      ),
    ),
  ),
)
