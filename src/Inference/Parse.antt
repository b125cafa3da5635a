-- ===== src/Inference/Parse.antt =====
-- The parser of the model's output: src/inference/parse.rs. Its loops run on rounds; the length of
-- the text is enough of them (Parse.Rounds).
pub mod Entities
pub mod Tags
pub mod Tables
pub mod Detections
mod Bounds
mod Rounds
mod Escape
pub mod Spans
mod Header
mod RoundTrip
mod Tests
use unlimited_ocr_server.Prelude.{Text}
use unlimited_ocr_server.Types.{OcrResult}
use unlimited_ocr_server.Inference.Parse.Tables.{parse_tables}
use unlimited_ocr_server.Inference.Parse.Detections.{parse_detections}

unfoldable pub parse_ocr_result : Text → OcrResult
unfolding parse_detections parse_tables
parse_ocr_result generated_text =
    let detections = parse_detections generated_text in
    record { text = generated_text; detections = detections; tables = parse_tables detections }
