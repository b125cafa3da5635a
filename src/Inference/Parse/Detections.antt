-- ===== src/Inference/Parse/Detections.antt =====
-- The detections of a result: src/inference/parse.rs.
use unlimited_ocr_server.Prelude.{
  ℕ, zero, suc, ◌+◌, ◌-◌, true, false, Option, none, some, List, [], ◌∷◌, Text, codes, trim_start,
  trim_end, trim, is_empty, ℤ, length, take, drop, ◌==◌, unwrap_or, and_then,
}
use unlimited_ocr_server.Prelude.Search.{find, find_char, rfind_char, split}
use unlimited_ocr_server.Prelude.Numbers.{parse_i64}
use unlimited_ocr_server.Types.{BoundingBox, OcrDetection}

abbrev pub det_start : Text
det_start = codes "<|det|>"

abbrev pub det_end : Text
det_end = codes "<|/det|>"

-- All numbers, or nothing if one piece is none.
unfoldable pub parse_coords : List Text → Option (List ℤ)
unfolding parse_i64 trim trim_start trim_end
parse_coords [] = some []
parse_coords (value ∷ values) =
    let rest = parse_coords values in
    and_then (parse_i64 (trim value)) (λ n. and_then rest (λ ns. some (n ∷ ns)))

abbrev pub bbox_of : List ℤ → Option BoundingBox
bbox_of (a ∷ b ∷ c ∷ d ∷ []) = some (record { x_min = a; y_min = b; x_max = c; y_max = d })
bbox_of _ = none

-- The header's label and box from where the last `[` and the `]` after it stand.
unfoldable pub header_parts :
    (header : Text) (bbox_start bbox_end : ℕ) → Option (Text × BoundingBox)
unfolding trim trim_start trim_end parse_coords
header_parts header bbox_start bbox_end =
    let label = trim (take bbox_start header) in
    elim (is_empty label) [
      | true ↦ none
      | false ↦
          and_then
            (parse_coords
              (split b',' (take (bbox_end - (bbox_start + 1)) (drop (bbox_start + 1) header))))
            (λ coords. and_then (bbox_of coords) (λ bbox. some (label, bbox)))
    ]

unfoldable pub parse_detection_header : Text → Option (Text × BoundingBox)
unfolding trim trim_start trim_end header_parts
parse_detection_header header =
    let trimmed = trim header in
    and_then (rfind_char b'[' trimmed) (λ bbox_start.
      and_then (find_char (λ c. c == b']') (drop bbox_start trimmed))
        (λ len. header_parts trimmed bbox_start (len + bbox_start)))

-- One round a start marker; each round leaves a shorter text. Without rounds the loop gives `cut`.
unfoldable pub detections_from :
    (cut : List OcrDetection) (rounds : ℕ) (remaining : Text) → List OcrDetection
unfolding trim trim_start trim_end parse_detection_header
detections_from cut zero remaining = cut
detections_from cut (suc rounds) remaining = elim (find det_start remaining) [
  | none ↦ []
  | some start ↦
      let after_start = drop (start + length det_start) remaining in
      elim (find det_end after_start) [
        | none ↦ []
        | some end ↦
            let after_end = drop (end + length det_end) after_start in
            elim (parse_detection_header (take end after_start)) [
              | none ↦ detections_from cut rounds after_end
              | some (label, bbox) ↦
                  let next_start = unwrap_or (find det_start after_end) (length after_end) in
                  record { label = label; bbox = bbox; text = trim (take next_start after_end) }
                  ∷ detections_from cut rounds (drop next_start after_end)
            ]
      ]
]

unfoldable pub parse_detections : Text → List OcrDetection
unfolding detections_from
parse_detections generated_text = detections_from [] (suc (length generated_text)) generated_text
