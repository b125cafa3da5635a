-- ===== src/Api/Views.antt =====
-- What src/api.rs shows: the index of jobs, here; a job's page and the state of the service, in the
-- child modules. The templates are filled by `askama`, so a page is the record that fills it.
pub mod Job
pub mod Health
mod Order
mod Pages
mod Slices
mod Tests
use unlimited_ocr_server.Prelude.{
  ℕ, zero, suc, ◌+◌, ◌-◌, ◌*◌, ◌/◌, ◌%◌, ◌^◌, ◌≤◌, ◌<◌, min, max, ◌≡◌, refl, sym, ap, ◌∙◌, ◌≢◌, ◌↔◌,
  ◌⊎◌, inl, inr, Bool, true, false, not, ◌&&◌, ◌||◌, Option, none, some, List, [], ◌∷◌, ◌++◌, map,
  arith, Text, codes, text_eq, text_eq_iff, is_whitespace, trim_start, trim_end, trim, strip_prefix,
  is_empty, to_ascii_lowercase, lowercase, eq_ignore_ascii_case, decimal, ℤ, pos, negsuc, int_eq,
  neg, length, get_elem?, take, drop, replicate, any, all, retain, All, length-append, length-take,
  length-drop, length-map, length-retain, All-append, All-map, take-append-drop, All-append_right,
  All-reverse, All-take, length-reverse, ltb, leb, ◌==◌, if◌then◌else◌, ltb→lt, lt→ltb, leb→le,
  ==_iff, ==_refl, tests, Bool-cases, Option-cases, is_some, unwrap_or, and_then,
}
use unlimited_ocr_server.Inference.Ort.{get_range}
use unlimited_ocr_server.Types.{
  Uuid, Time, FilePath, InputKind, JobRecord, JobStatus, queued, running, succeeded, failed,
}

-- How identifiers, times, paths and kinds are written
pub record Display : Type 0 where
  pub uuid_text : Uuid → Text
  pub time_text : Time → Text
  pub path_text : FilePath → Text
  pub kind_text : InputKind → Text

pub record JobsIndexQuery : Type 0 where
  pub page : Option ℕ
  pub per_page : Option ℕ

pub record JobsIndexRowView : Type 0 where
  pub id : Text
  pub status : Text
  pub input : Text
  pub kind : Text
  pub page : Text
  pub has_page : Bool
  pub updated_at : Text
  pub created_at : Text
  pub html_url : Text
  pub json_url : Text
  pub has_error : Bool

pub record JobsIndexTemplate : Type 0 where
  pub rows : List JobsIndexRowView
  pub has_jobs : Bool
  pub total_jobs : ℕ
  pub page : ℕ
  pub total_pages : ℕ
  pub start_item : ℕ
  pub end_item : ℕ
  pub has_prev : Bool
  pub has_next : Bool
  pub prev_url : Text
  pub next_url : Text

unfoldable pub job_status_label : JobStatus → Text
job_status_label queued = codes "queued"
job_status_label running = codes "running"
job_status_label succeeded = codes "succeeded"
job_status_label failed = codes "failed"

unfoldable pub jobs_page_url : (page per_page : ℕ) → Text
jobs_page_url page per_page =
    codes "/jobs?page=" ++ (decimal page ++ (codes "&per_page=" ++ decimal per_page))

-- Later updates come first, and of two at one time the greater identifier.
abbrev pub comes_first : JobRecord → JobRecord → Bool
comes_first left right =
    ltb right.updated_at left.updated_at
    || (left.updated_at == right.updated_at && leb right.id left.id)

unfoldable pub insert_record : JobRecord → List JobRecord → List JobRecord
insert_record record_in [] = record_in ∷ []
insert_record record_in (next ∷ records) =
    let later = insert_record record_in records in
    if comes_first record_in next then record_in ∷ next ∷ records else next ∷ later

unfoldable pub sort_records : List JobRecord → List JobRecord
unfolding insert_record
sort_records [] = []
sort_records (first ∷ records) = insert_record first (sort_records records)

abbrev pub clamp : (n low high : ℕ) → ℕ
clamp n low high = if ltb n low then low else if ltb high n then high else n

-- `div_ceil`
abbrev pub div_ceil : ℕ → ℕ → ℕ
div_ceil n d = (n + d - 1) / d

abbrev pub page_size : JobsIndexQuery → ℕ
page_size query = clamp (unwrap_or query.per_page 25) 1 100

abbrev pub page_count : (total_jobs per_page : ℕ) → ℕ
page_count total_jobs per_page = max (div_ceil total_jobs per_page) 1

abbrev page_text : Option ℕ → Option ℕ → Text
page_text none pages = []
page_text (some page) none = decimal page
page_text (some page) (some pages) = decimal page ++ (b'/' ∷ decimal pages)

module _ (display : Display) where
  unfoldable pub job_input_label : JobRecord → Text
  job_input_label job = elim job.filename [
    | some name ↦ name
    | none ↦ unwrap_or job.document_filename (display.path_text job.image_path)
  ]

  unfoldable pub jobs_index_row_view : JobRecord → JobsIndexRowView
  unfolding job_status_label job_input_label
  jobs_index_row_view job =
      let id = display.uuid_text job.id in
      let page = page_text job.document_page job.document_pages in
      record {
        id = id;
        status = job_status_label job.status;
        input = job_input_label job;
        kind = display.kind_text job.input_kind;
        page = page;
        has_page = not (is_empty page);
        updated_at = display.time_text job.updated_at;
        created_at = display.time_text job.created_at;
        html_url = codes "/v1/jobs/" ++ (id ++ codes "/html");
        json_url = codes "/v1/jobs/" ++ id;
        has_error = is_some job.error;
      }

  -- What fills the page, given the records that it shows
  unfoldable pub index_template :
      (total_jobs per_page page : ℕ) (shown : List JobRecord) → JobsIndexTemplate
  unfolding jobs_index_row_view jobs_page_url
  index_template total_jobs per_page page shown =
      let total_pages = page_count total_jobs per_page in
      let start = (page - 1) * per_page in
      let rows = map jobs_index_row_view shown in
      record {
        rows = rows;
        has_jobs = not (is_empty rows);
        total_jobs = total_jobs;
        page = page;
        total_pages = total_pages;
        start_item = if not (is_empty rows) then start + 1 else 0;
        end_item = min (start + per_page) total_jobs;
        has_prev = ltb 1 page;
        has_next = ltb page total_pages;
        prev_url = jobs_page_url (max (page - 1) 1) per_page;
        next_url = jobs_page_url (min (page + 1) total_pages) per_page;
      }

  -- The page, or `none` where the range `start..end` is not within the records: a panic.
  unfoldable pub render_jobs_index : List JobRecord → JobsIndexQuery → Option JobsIndexTemplate
  unfolding sort_records index_template
  render_jobs_index records query =
      let sorted = sort_records records in
      let total_jobs = length sorted in
      let per_page = page_size query in
      let page = clamp (unwrap_or query.page 1) 1 (page_count total_jobs per_page) in
      let start = (page - 1) * per_page in
      and_then (get_range sorted start (min (start + per_page) total_jobs))
        (λ shown. some (index_template total_jobs per_page page shown))
