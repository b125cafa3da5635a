-- ===== src/Inference/Parse/Tables.antt =====
-- The tables of a result: src/inference/parse.rs.
use unlimited_ocr_server.Prelude.{
  ℕ, zero, suc, ◌+◌, ◌-◌, true, false, Option, none, some, List, [], ◌∷◌, Text, codes,
  eq_ignore_ascii_case, length, take, drop, ltb, leb, if◌then◌else◌, unwrap_or,
}
use unlimited_ocr_server.Types.{OcrDetection, OcrTable, OcrTableCell}
use unlimited_ocr_server.Inference.Parse.Entities.{table_cell_text}
use unlimited_ocr_server.Inference.Parse.Tags.{
  find_open_tag, find_close_tag, tag_close_len, find_next_cell_tag, parse_span_attr,
}

unfoldable pub cell_of : (attrs html : Text) → OcrTableCell
unfolding parse_span_attr table_cell_text
cell_of attrs html = record {
  text = table_cell_text html;
  row_span = unwrap_or (parse_span_attr attrs (codes "rowspan")) 1;
  col_span = unwrap_or (parse_span_attr attrs (codes "colspan")) 1;
}

-- One round a cell; each round starts later in the row. Without rounds the loop gives `cut`.
unfoldable pub cells_from :
    (cut : List OcrTableCell) (rounds : ℕ) (row_html : Text) (cursor : ℕ) → List OcrTableCell
unfolding find_next_cell_tag find_close_tag cell_of
cells_from cut zero row_html cursor = cut
cells_from cut (suc rounds) row_html cursor = elim (ltb cursor (length row_html)) [
  | false ↦ []
  | true ↦ elim (find_next_cell_tag row_html cursor) [
    | none ↦ []
    | some (tag, (cell_content_start, attrs)) ↦
        elim (find_close_tag row_html tag cell_content_start) [
          | none ↦ []
          | some cell_content_end ↦
              cell_of attrs
                (take (cell_content_end - cell_content_start) (drop cell_content_start row_html))
              ∷ cells_from cut rounds row_html (cell_content_end + tag_close_len tag)
        ]
  ]
]

unfoldable pub parse_table_cells : Text → List OcrTableCell
unfolding cells_from
parse_table_cells row_html = cells_from [] (suc (length row_html)) row_html 0

abbrev pub push_unless_empty :
    List OcrTableCell → List (List OcrTableCell) → List (List OcrTableCell)
push_unless_empty [] rows = rows
push_unless_empty (cell ∷ cells) rows = (cell ∷ cells) ∷ rows

-- One round a row; each round starts later in the table. Without rounds the loop gives `cut`.
unfoldable pub rows_from :
    (cut : List (List OcrTableCell)) (rounds : ℕ) (html : Text) (table_content_end cursor : ℕ)
    → List (List OcrTableCell)
unfolding find_open_tag find_close_tag parse_table_cells
rows_from cut zero html table_content_end cursor = cut
rows_from cut (suc rounds) html table_content_end cursor = elim (ltb cursor table_content_end) [
  | false ↦ []
  | true ↦ elim (find_open_tag html (codes "tr") cursor) [
    | none ↦ []
    | some (row_start, (row_content_start, _)) ↦ elim (leb table_content_end row_start) [
      | true ↦ []
      | false ↦ elim (find_close_tag html (codes "tr") row_content_start) [
        | none ↦ []
        | some row_content_end ↦ elim (ltb table_content_end row_content_end) [
          | true ↦ []
          | false ↦
              push_unless_empty
                (parse_table_cells
                  (take (row_content_end - row_content_start) (drop row_content_start html)))
                (rows_from cut rounds html table_content_end
                  (row_content_end + length (codes "</tr>")))
        ]
      ]
    ]
  ]
]

unfoldable pub parse_table_rows : Text → List (List OcrTableCell)
unfolding find_open_tag find_close_tag rows_from
parse_table_rows html = elim (find_open_tag html (codes "table") 0) [
  | none ↦ []
  | some (_, (table_content_start, _)) ↦
      elim (find_close_tag html (codes "table") table_content_start) [
        | none ↦ []
        | some table_content_end ↦
            rows_from [] (suc (length html)) html table_content_end table_content_start
      ]
]

abbrev pub table_of : OcrDetection → List (List OcrTableCell) → Option OcrTable
table_of detection [] = none
table_of detection (row ∷ rows) =
    some (record { bbox = detection.bbox; html = detection.text; rows = row ∷ rows })

unfoldable pub parse_table_detection : OcrDetection → Option OcrTable
unfolding parse_table_rows
parse_table_detection detection = table_of detection (parse_table_rows detection.text)

abbrev pub cons_some {ℓ} : {A : Type ℓ} → Option A → List A → List A
cons_some none xs = xs
cons_some (some a) xs = a ∷ xs

unfoldable pub parse_tables : List OcrDetection → List OcrTable
unfolding parse_table_detection
parse_tables [] = []
parse_tables (detection ∷ detections) =
    let rest = parse_tables detections in
    let table = parse_table_detection detection in
    if eq_ignore_ascii_case detection.label (codes "table") then cons_some table rest else rest
