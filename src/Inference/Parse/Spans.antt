-- ===== src/Inference/Parse/Spans.antt =====
-- What the tables of src/inference/parse.rs look like: their rows, cells and spans, and the
-- detections they come from.
use unlimited_ocr_server.Prelude.{
  some_injective, ℕ, zero, suc, ◌+◌, ◌-◌, ◌<◌, ◌≡◌, refl, inl, inr, true, Option, none, some, List,
  [], ◌∷◌, arith, Text, codes, trim_start, strip_prefix, lowercase, eq_ignore_ascii_case, length,
  take, drop, All, All-map, ltb, leb, Bool-cases, Option-cases, unwrap_or,
}
use unlimited_ocr_server.Prelude.Parse.{parse_usize}
use unlimited_ocr_server.Prelude.Membership.{In}
use mathlib.Core.Path.{subst}
use unlimited_ocr_server.Prelude.Search.{find}
use unlimited_ocr_server.Types.{OcrDetection, OcrTable, OcrTableCell}
use unlimited_ocr_server.Inference.Parse.Tags.{
  parse_span_attr, raw_value, unless_zero, find_open_tag, find_close_tag, find_next_cell_tag,
  tag_close_len,
}
use unlimited_ocr_server.Inference.Parse.Tables.{
  cell_of, cells_from, parse_table_cells, push_unless_empty, rows_from, parse_table_rows, table_of,
  parse_table_detection, parse_tables,
}

abbrev pub IsCell : OcrTableCell → Type 0
IsCell cell = (0 < cell.row_span) × (0 < cell.col_span)

-- A row has cells, and they span at least one row and one column.
abbrev pub IsRow : List OcrTableCell → Type 0
IsRow cells = (0 < length cells) × All IsCell cells

-- A table has rows, and it is that of one of the detections, which says so in its label.
abbrev pub IsTableOf : List OcrDetection → OcrTable → Type 0
IsTableOf detections table =
    (0 < length table.rows)
    × (All IsRow table.rows
        × ((detection : OcrDetection) × (In detection detections
              × ((eq_ignore_ascii_case detection.label (codes "table") ≡ true)
                  × ((table.bbox ≡ detection.bbox) × (table.html ≡ detection.text))))))

unless_zero-pos : (o : Option ℕ) → 0 < unwrap_or (unless_zero o) 1
unless_zero-pos none = omega arith
unless_zero-pos (some n) = ground arith

parse_span_attr-pos : (attrs name : Text) → 0 < unwrap_or (parse_span_attr attrs name) 1
unfolding parse_span_attr
parse_span_attr-pos attrs name = elim (Option-cases (find name (lowercase attrs))) [
  | inl e ↦ rw (parse_span_attr, e) (omega arith)
  | inr (start, e) ↦
      rw (parse_span_attr, e)
        (elim (Option-cases
          (strip_prefix (b'=' ∷ []) (trim_start (drop (start + length name) attrs)))) [
            | inl f ↦ rw f (omega arith)
            | inr (rest, f) ↦ rw f (elim (Option-cases (raw_value (trim_start rest))) [
              | inl g ↦ rw g (omega arith)
              | inr (raw, g) ↦ rw g (unless_zero-pos (parse_usize raw))
            ])
          ])
]

cell_of-IsCell : (attrs html : Text) → IsCell (cell_of attrs html)
unfolding cell_of
cell_of-IsCell attrs html =
    (parse_span_attr-pos attrs (codes "rowspan"), parse_span_attr-pos attrs (codes "colspan"))

cells_from-All :
    (rounds : ℕ) (row_html : Text) (cursor : ℕ) → All IsCell (cells_from [] rounds row_html cursor)
unfolding cells_from
cells_from-All zero row_html cursor = tt
cells_from-All (suc rounds) row_html cursor = elim (Bool-cases (ltb cursor (length row_html))) [
  | inr f ↦ rw (cells_from, f) tt
  | inl t ↦ elim (Option-cases (find_next_cell_tag row_html cursor)) [
    | inl e ↦ rw (cells_from, t, e) tt
    | inr ((tag, (content_start, attrs)), e) ↦
        elim (Option-cases (find_close_tag row_html tag content_start)) [
          | inl g ↦ rw (cells_from, t, e, g) tt
          | inr (content_end, g) ↦
              rw (cells_from, t, e, g)
                (
                  cell_of-IsCell attrs
                      (take (content_end - content_start) (drop content_start row_html)),
                  cells_from-All rounds row_html (content_end + tag_close_len tag),
                )
        ]
  ]
]

push_unless_empty-All :
    (cells : List OcrTableCell) (rows : List (List OcrTableCell))
    → All IsCell cells
    → All IsRow rows
    → All IsRow (push_unless_empty cells rows)
push_unless_empty-All [] rows h k = k
push_unless_empty-All (cell ∷ cells) rows h k = ((omega arith, h), k)

parse_table_cells-All : (row_html : Text) → All IsCell (parse_table_cells row_html)
unfolding parse_table_cells
parse_table_cells-All row_html = cells_from-All (suc (length row_html)) row_html 0

rows_from-All :
    (rounds : ℕ) (html : Text) (end cursor : ℕ) → All IsRow (rows_from [] rounds html end cursor)
unfolding rows_from
rows_from-All zero html end cursor = tt
rows_from-All (suc rounds) html end cursor = elim (Bool-cases (ltb cursor end)) [
  | inr f ↦ rw (rows_from, f) tt
  | inl t ↦ elim (Option-cases (find_open_tag html (codes "tr") cursor)) [
    | inl e ↦ rw (rows_from, t, e) tt
    | inr ((row_start, (content_start, attrs)), e) ↦ elim (Bool-cases (leb end row_start)) [
      | inl u ↦ rw (rows_from, t, e, u) tt
      | inr u ↦ elim (Option-cases (find_close_tag html (codes "tr") content_start)) [
        | inl g ↦ rw (rows_from, t, e, u, g) tt
        | inr (content_end, g) ↦ elim (Bool-cases (ltb end content_end)) [
          | inl v ↦ rw (rows_from, t, e, u, g, v) tt
          | inr v ↦
              let row = take (content_end - content_start) (drop content_start html) in
              rw (rows_from, t, e, u, g, v)
                (push_unless_empty-All (parse_table_cells row)
                  (rows_from [] rounds html end (content_end + length (codes "</tr>")))
                  (parse_table_cells-All row)
                  (rows_from-All rounds html end (content_end + length (codes "</tr>"))))
        ]
      ]
    ]
  ]
]

parse_table_rows-All : (html : Text) → All IsRow (parse_table_rows html)
unfolding parse_table_rows
parse_table_rows-All html = elim (Option-cases (find_open_tag html (codes "table") 0)) [
  | inl e ↦ rw (parse_table_rows, e) tt
  | inr ((start, (content_start, attrs)), e) ↦
      elim (Option-cases (find_close_tag html (codes "table") content_start)) [
        | inl g ↦ rw (parse_table_rows, e, g) tt
        | inr (content_end, g) ↦
            rw (parse_table_rows, e, g)
              (rows_from-All (suc (length html)) html content_end content_start)
      ]
]

IsTableOf-cons :
    (detection : OcrDetection) (detections : List OcrDetection) (table : OcrTable)
    → IsTableOf detections table
    → IsTableOf (detection ∷ detections) table
IsTableOf-cons detection detections table (n, (rows, (d, (i, same)))) =
    (n, (rows, (d, (inr i, same))))

table_of-IsTableOf :
    (detection : OcrDetection) (detections : List OcrDetection) (table : OcrTable)
    (rows : List (List OcrTableCell))
    → eq_ignore_ascii_case detection.label (codes "table") ≡ true
    → All IsRow rows
    → table_of detection rows ≡ some table
    → IsTableOf (detection ∷ detections) table
table_of-IsTableOf detection detections table [] t h e = absurd (ground arith)
table_of-IsTableOf detection detections table (row ∷ rows) t h e =
    subst (IsTableOf (detection ∷ detections)) (some_injective e)
      (omega arith, (h, (detection, (inl refl, (t, (refl, refl))))))

parse_table_detection-IsTableOf :
    (detection : OcrDetection) (detections : List OcrDetection) (table : OcrTable)
    → eq_ignore_ascii_case detection.label (codes "table") ≡ true
    → parse_table_detection detection ≡ some table
    → IsTableOf (detection ∷ detections) table
unfolding parse_table_detection
parse_table_detection-IsTableOf detection detections table h e =
    table_of-IsTableOf detection detections table (parse_table_rows detection.text) h
      (parse_table_rows-All detection.text) e

-- Every table has rows, every row has cells, and every cell spans at least one row and one column;
-- the box and the text of a table are those of a detection with the label "table" in any case.
pub parse_tables-IsTableOf :
    (detections : List OcrDetection) → All (IsTableOf detections) (parse_tables detections)
unfolding parse_tables
parse_tables-IsTableOf [] = tt
parse_tables-IsTableOf (detection ∷ detections) =
    let rest : All (IsTableOf (detection ∷ detections)) (parse_tables detections) =
      All-map (IsTableOf detections) (IsTableOf (detection ∷ detections))
        (IsTableOf-cons detection detections) (parse_tables detections)
        (parse_tables-IsTableOf detections) in
    elim (Bool-cases (eq_ignore_ascii_case detection.label (codes "table"))) [
      | inr f ↦ rw (parse_tables, f) rest
      | inl t ↦ elim (Option-cases (parse_table_detection detection)) [
        | inl e ↦ rw (parse_tables, t, e) rest
        | inr (table, e) ↦
            rw (parse_tables, t, e)
              (parse_table_detection-IsTableOf detection detections table t e, rest)
      ]
    ]
