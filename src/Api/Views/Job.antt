-- ===== src/Api/Views/Job.antt =====
-- A job's page: render_job_html of src/api.rs. The stored result is the parsed one.
use unlimited_ocr_server.Prelude.{
  ℕ, Bool, true, false, not, ◌&&◌, Option, none, some, List, [], ◌∷◌, ◌++◌, map, Text, codes,
  text_eq, is_empty, eq_ignore_ascii_case, decimal, int_eq, length, replicate, ltb, if◌then◌else◌,
}
use unlimited_ocr_server.Prelude.Digits.{int_text}
use unlimited_ocr_server.Types.{
  Uuid, BoundingBox, OcrDetection, OcrTable, OcrTableCell, OcrResult, SubmissionResponse, image,
  pdf, StatusUrl,
}

pub record JobHtmlTableCellView : Type 0 where
  pub text : Text
  pub row_span : ℕ
  pub col_span : ℕ
  pub has_row_span : Bool
  pub has_col_span : Bool

pub record JobHtmlTableView : Type 0 where
  pub rows : List (List JobHtmlTableCellView)

pub record JobHtmlDetectionView : Type 0 where
  pub label : Text
  pub bbox : Text
  pub text : Text
  pub tables : List JobHtmlTableView
  pub has_tables : Bool

unfoldable pub format_bbox : BoundingBox → Text
format_bbox bbox =
    b'[' ∷ int_text bbox.x_min
    ++ (codes ", "
        ++ (int_text bbox.y_min
            ++ (codes ", "
                ++ (int_text bbox.x_max ++ (codes ", " ++ (int_text bbox.y_max ++ codes "]"))))))

abbrev bbox_eq : BoundingBox → BoundingBox → Bool
bbox_eq a b =
    int_eq a.x_min b.x_min
    && int_eq a.y_min b.y_min
    && int_eq a.x_max b.x_max
    && int_eq a.y_max b.y_max

abbrev cell_view : OcrTableCell → JobHtmlTableCellView
cell_view cell = record {
  text = cell.text;
  row_span = cell.row_span;
  col_span = cell.col_span;
  has_row_span = ltb 1 cell.row_span;
  has_col_span = ltb 1 cell.col_span;
}

abbrev pub table_view : OcrTable → JobHtmlTableView
table_view table = record { rows = map (map cell_view) table.rows }

abbrev pub shows : OcrDetection → OcrTable → Bool
shows detection table = bbox_eq table.bbox detection.bbox && text_eq table.html detection.text

-- The first table that is not used and that the detection shows, and the flags with that one set.
unfoldable pub take_table :
    OcrDetection → List OcrTable → (used_tables : List Bool) → Option OcrTable × List Bool
take_table detection [] used = (none, used)
take_table detection (table ∷ tables) [] = (none, [])
take_table detection (table ∷ tables) (flag ∷ used) =
    let (later, flags) = take_table detection tables used in
    if not flag && shows detection table then (some table, true ∷ used) else (later, flag ∷ flags)

abbrev pub table_views : Option OcrTable → List JobHtmlTableView
table_views none = []
table_views (some table) = table_view table ∷ []

unfoldable pub matching_table_views :
    OcrDetection → List OcrTable → (used_tables : List Bool) → List JobHtmlTableView × List Bool
unfolding take_table
matching_table_views detection tables used =
    if eq_ignore_ascii_case detection.label (codes "table")
    then (let (table, flags) = take_table detection tables used in (table_views table, flags))
    else ([], used)

unfoldable pub detection_views_from :
    List OcrDetection → List OcrTable → (used_tables : List Bool) → List JobHtmlDetectionView
unfolding matching_table_views format_bbox
detection_views_from [] tables used = []
detection_views_from (detection ∷ detections) tables used =
    let (views, flags) = matching_table_views detection tables used in
    record {
      label = detection.label;
      bbox = format_bbox detection.bbox;
      text = detection.text;
      tables = views;
      has_tables = not (is_empty views);
    }
    ∷ detection_views_from detections tables flags

unfoldable pub job_html_detection_views : OcrResult → List JobHtmlDetectionView
unfolding detection_views_from
job_html_detection_views result =
    detection_views_from result.detections result.tables (replicate (length result.tables) false)

unfoldable pub queued_submission_view :
    Option SubmissionResponse
    → (uuid_text : Uuid → Text) (url_text : StatusUrl → Text) → Text × Text
queued_submission_view none uuid_text url_text = ([], [])
queued_submission_view (some (image response)) uuid_text url_text =
    (codes "Job queued: " ++ uuid_text response.id, url_text response.status_url)
queued_submission_view (some (pdf response)) uuid_text url_text = (
  codes "PDF queued: " ++ (decimal response.page_count ++ codes " page jobs"),
  elim response.jobs [ [] ↦ [] | job ∷ jobs ↦ url_text job.status_url ],
)
