-- ===== src/Inference/Parse/Tests.antt =====
-- Runs of the parser of src/inference/parse.rs, and its theorems at concrete texts.
use unlimited_ocr_server.Prelude.{
  ℕ, suc, ◌+◌, ◌≡◌, refl, ◌≢◌, none, List, [], ◌∷◌, map, arith, Text, codes, trim_start, trim_end,
  trim, pos, negsuc, length, All,
}
use unlimited_ocr_server.Prelude.Append.{IsWithout}
use unlimited_ocr_server.Types.{BoundingBox, OcrDetection, OcrTableCell}
use unlimited_ocr_server.Inference.Parse.Entities.{
  decode_entities_from, decode_html_entities, strip_tags_from, strip_html_tags, table_cell_text,
}
use unlimited_ocr_server.Inference.Parse.Tags.{open_tag_from, find_open_tag}
use unlimited_ocr_server.Inference.Parse.Tables.{
  cells_from, parse_table_cells, rows_from, parse_tables,
}
use unlimited_ocr_server.Inference.Parse.Detections.{detections_from, parse_detections}
use unlimited_ocr_server.Inference.Parse.Escape.{escape, table_cell_text-escape}
use unlimited_ocr_server.Inference.Parse.Spans.{IsTableOf, parse_tables-IsTableOf}
use unlimited_ocr_server.Inference.Parse.RoundTrip.{
  detections_text, IsPrintable, parse_detections-text,
}
use unlimited_ocr_server.Inference.Parse.Rounds.{parse-rounds}

abbrev box : ℕ → BoundingBox
box n = record { x_min = pos n; y_min = negsuc n; x_max = pos (n + 10); y_max = pos 554 }

abbrev title : OcrDetection
title = record { label = codes "title"; bbox = box 7; text = codes "Report" }

abbrev table_html : Text
table_html =
    codes
      "<table><tr><th colspan=\"2\">Group</th></tr><tr><td rowspan='2'>A<br>B</td><td>&lt; 0.5</td></tr></table>"

abbrev table : OcrDetection
table = record { label = codes "Table"; bbox = box 1; text = table_html }

abbrev page : List OcrDetection
page = title ∷ table ∷ []

test_title :
    parse_detections (codes "x<|det|>title [443, 67, 554, 87]<|/det|> Head \n")
    ≡ record {
      label = codes "title";
      bbox = record { x_min = pos 443; y_min = pos 67; x_max = pos 554; y_max = pos 87 };
      text = codes "Head";
    }
      ∷ []
unfolding parse_detections
test_title = refl

test_malformed :
    parse_detections (codes "<|det|>text [1, 2, 3]<|/det|>bad<|det|>text [4, 5, 6]") ≡ []
unfolding parse_detections
test_malformed = refl

abbrev cell : Text → ℕ → ℕ → OcrTableCell
cell text row_span col_span = record { text = text; row_span = row_span; col_span = col_span }

test_tables :
    map (λ t. t.rows) (parse_tables page)
    ≡ ((cell (codes "Group") 1 2 ∷ [])
        ∷ (cell (codes "A\nB") 2 1 ∷ cell (codes "< 0.5") 1 1 ∷ [])
        ∷ [])
      ∷ []
unfolding parse_tables
test_tables = refl

table_cell_text-escape_example :
    table_cell_text (escape (codes " a < b & \"c\" ")) ≡ trim (codes " a < b & \"c\" ")
table_cell_text-escape_example = table_cell_text-escape (codes " a < b & \"c\" ")

parse_tables-IsTableOf_example : All (IsTableOf page) (parse_tables page)
parse_tables-IsTableOf_example = parse_tables-IsTableOf page

named : (c : ℕ) (s : Text) → (c ∷ s) ≢ []
named c s e = absurd (ground arith)

page-IsPrintable : All IsPrintable page
unfolding trim trim_start trim_end
page-IsPrintable =
    let five : IsWithout b'<' (codes "title") = (refl, (refl, (refl, (refl, (refl, tt))))) in
    let table_five : IsWithout b'<' (codes "Table") = (refl, (refl, (refl, (refl, (refl, tt))))) in
    (
      (
        named _ _,
        (refl, (five, ((omega arith, (omega arith, (omega arith, omega arith))), (refl, refl)))),
      ),
      (
        (
          named _ _,
          (
            refl,
            (table_five, ((omega arith, (omega arith, (omega arith, omega arith))), (refl, refl))),
          ),
        ),
        tt,
      ),
    )

parse_detections-text_example : parse_detections (detections_text page) ≡ page
parse_detections-text_example = parse_detections-text page page-IsPrintable

parse-rounds_example :
    (detections_from [] 200 table_html ≡ parse_detections table_html)
    × ((strip_tags_from [] 200 table_html ≡ strip_html_tags table_html)
        × ((decode_entities_from [] 200 table_html ≡ decode_html_entities table_html)
            × ((open_tag_from none 200 table_html (codes "td") 7
                  ≡ find_open_tag table_html (codes "td") 7)
                × ((cells_from [] 200 table_html 0 ≡ parse_table_cells table_html)
                    × (rows_from [] 200 table_html 90 7
                        ≡ rows_from [] (suc (length table_html)) table_html 90 7)))))
parse-rounds_example =
    parse-rounds 200 table_html [] [] [] [] (codes "td") none 7 90 (omega arith) (omega arith)
