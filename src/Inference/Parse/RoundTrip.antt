-- ===== src/Inference/Parse/RoundTrip.antt =====
-- Detections that are printed as the model writes them and parsed by src/inference/parse.rs.
use unlimited_ocr_server.Prelude.{
  ℕ, zero, suc, ◌+◌, ◌<◌, ◌≡◌, refl, sym, ap, ◌∙◌, ◌≢◌, false, none, some, List, [], ◌∷◌, ◌++◌,
  arith, Text, codes, trim, length, drop, All, length-append, All-append, ◌==◌, unwrap_or,
}
use unlimited_ocr_server.Prelude.Search.{find}
use unlimited_ocr_server.Prelude.Append.{
  IsWithout, take-append_left, drop-append_left, drop-append_at, find-append, find-IsWithout,
}
use unlimited_ocr_server.Types.{BoundingBox, OcrDetection}
use unlimited_ocr_server.Inference.Parse.Detections.{
  det_start, det_end, detections_from, parse_detections,
}
use unlimited_ocr_server.Inference.Parse.Header.{
  header_text, coords_text, coords_text-IsWithout, IsBox, parse_detection_header-header_text,
}
use mathlib.Core.List.{append_assoc, append-nil}

abbrev pub detection_text : OcrDetection → Text
detection_text d = det_start ++ (header_text d.label d.bbox ++ (det_end ++ d.text))

abbrev pub detections_text : List OcrDetection → Text
detections_text [] = []
detections_text (d ∷ ds) =
    det_start ++ (header_text d.label d.bbox ++ (det_end ++ (d.text ++ detections_text ds)))

-- A detection that its text stands for: a label that is not empty and has no `<`, numbers that fit,
-- a text that no detection starts in, and no blanks around either.
abbrev pub IsPrintable : OcrDetection → Type 0
IsPrintable d =
    (d.label ≢ [])
    × ((trim d.label ≡ d.label)
        × (IsWithout b'<' d.label
            × (IsBox d.bbox × ((trim d.text ≡ d.text) × (find det_start d.text ≡ none)))))

header_text-IsWithout :
    (label : Text) (bbox : BoundingBox)
    → IsWithout b'<' label
    → IsWithout b'<' (header_text label bbox)
header_text-IsWithout label bbox h =
    All-append (λ c. (c == b'<') ≡ false) (label ++ 32 ∷ []) _
      (All-append (λ c. (c == b'<') ≡ false) label (32 ∷ []) h (refl, tt))
      (
        refl,
        All-append (λ c. (c == b'<') ≡ false) (coords_text bbox) (b']' ∷ [])
            (coords_text-IsWithout b'<' bbox (omega arith)) (refl, tt),
      )

find-det_end :
    (label : Text) (bbox : BoundingBox) (rest : Text)
    → IsWithout b'<' label
    → find det_end (header_text label bbox ++ (det_end ++ rest))
      ≡ some (length (header_text label bbox))
find-det_end label bbox rest h =
    find-append b'<' (codes "|/det|>") (refl, (refl, (refl, (refl, (refl, (refl, (refl, tt)))))))
      (header_text label bbox) rest
      (find-IsWithout b'<' (codes "|/det|>")
        (refl, (refl, (refl, (refl, (refl, (refl, (refl, tt))))))) (header_text label bbox)
        (header_text-IsWithout label bbox h))

-- The next detection starts where the text of this one ends.
next_start :
    (text : Text) (ds : List OcrDetection)
    → find det_start text ≡ none
    → unwrap_or (find det_start (text ++ detections_text ds)) (length (text ++ detections_text ds))
      ≡ length text
next_start text [] h = rw (append-nil text, h) refl
next_start text (d ∷ ds) h =
    rw
      (find-append b'<' (codes "|det|>") (refl, (refl, (refl, (refl, (refl, (refl, tt)))))) text
        (header_text d.label d.bbox ++ (det_end ++ (d.text ++ detections_text ds))) h)
      refl

drop-det_end :
    (header more : Text)
    → drop (length header + length det_end) (header ++ (det_end ++ more)) ≡ more
drop-det_end header more =
    ap (drop (length header + length det_end)) (sym (append_assoc header det_end more))
    ∙ drop-append_at (length header + length det_end) (header ++ det_end) more
        (sym (length-append header det_end))

detections_from-text :
    (n : ℕ) (ds : List OcrDetection)
    → All IsPrintable ds
    → length (detections_text ds) < n
    → detections_from [] n (detections_text ds) ≡ ds
unfolding detections_from
detections_from-text zero ds h k = absurd (omega arith)
detections_from-text (suc n) [] h k = refl
detections_from-text (suc n) (d ∷ ds) ((l, (lt, (lw, (b, (t, tn))))), h) k =
    let header = header_text d.label d.bbox in
    let more = d.text ++ detections_text ds in
    let ended = find-det_end d.label d.bbox more lw in
    let first = take-append_left header (det_end ++ more) in
    let later = drop-det_end header more in
    let parsed = parse_detection_header-header_text d.label d.bbox l lt b in
    let next = next_start d.text ds tn in
    let text = take-append_left d.text (detections_text ds) in
    let rest = drop-append_left d.text (detections_text ds) in
    let shorter : length (detections_text ds) < n = omega (
      arith,
      k,
      length-append header (det_end ++ more),
      length-append d.text (detections_text ds),
    ) in
    let induction = detections_from-text n ds h shorter in
    rw (detections_from, ended, first, parsed, later, next, text, rest, t, induction) refl

-- Detections are read back from their text: those whose labels are not empty and have no `<`, whose
-- numbers fit an i64, whose texts start no detection, all without blanks around them.
pub parse_detections-text :
    (ds : List OcrDetection) → All IsPrintable ds → parse_detections (detections_text ds) ≡ ds
unfolding parse_detections
parse_detections-text ds h =
    detections_from-text (suc (length (detections_text ds))) ds h (omega arith)
