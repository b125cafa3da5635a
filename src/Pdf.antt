-- ===== src/Pdf.antt =====
-- src/pdf.rs. The programs `pdfinfo` and `pdftoppm` and the listing of the output directory are what
-- the record `Poppler` says.
mod Names
pub mod Rendered
mod Tests
use unlimited_ocr_server.Prelude.{
  ℕ, ◌==◌, ltb, Text, codes, decimal, trim, is_empty, strip_prefix, eq_ignore_ascii_case, Bool,
  true, false, List, [], ◌∷◌, ◌++◌, length, Option, none, some, and_then, if◌then◌else◌,
}
use unlimited_ocr_server.Prelude.Parse.{split_once, lines, strip_suffix, parse_usize}
use unlimited_ocr_server.Prelude.Sort.{sort_by_key}
use unlimited_ocr_server.Types.{FilePath}

pub record RenderedPdfPage : Type 0 where
  pub page_number : ℕ
  pub image_path : FilePath

pub data PdfRenderError : Type 0 where
  renderer_unavailable : PdfRenderError
  inspect : Text → PdfRenderError
  too_many_pages : (pages max_pages : ℕ) → PdfRenderError
  render : Text → PdfRenderError
  io : Text → PdfRenderError

pub data Result (A : Type 0) : Type 0 where
  ok : A → Result A
  err : PdfRenderError → Result A

infixl 5 ◌>>=◌
abbrev pub ◌>>=◌ : {A B : Type 0} → Result A → (A → Result B) → Result B
ok value >>= rest = rest value
err error >>= rest = err error

-- What comes of running a command; the output is decoded lossily.
pub data Command : Type 0 where
  exited : (success : Bool) (stdout stderr : Text) → Command
  program_missing : Command
  not_run : Text → Command

-- An entry of a directory, with its name if that is valid Unicode, or the error in its place.
pub data Entry : Type 0 where
  entry : FilePath → Option Text → Entry
  entry_error : Text → Entry

pub record Poppler : Type 0 where
  pub pdfinfo : Command
  pub pdftoppm : (pages : ℕ) → Command
  pub read_dir : Option Text
  pub entries : List Entry

unfoldable pub command_stderr : Text → Text
command_stderr stderr =
    let message = trim stderr in
    if is_empty message then codes "renderer exited without an error message" else message

-- The output of a command that succeeded.
abbrev pub run : Command → (Text → PdfRenderError) → Result Text
run (exited true stdout stderr) failure = ok stdout
run (exited false stdout stderr) failure = err (failure (command_stderr stderr))
run program_missing failure = err renderer_unavailable
run (not_run e) failure = err (io e)

abbrev page_count_of_line : Text → Option ℕ
page_count_of_line line = and_then (split_once b':' line) (λ (key, value).
    if eq_ignore_ascii_case (trim key) (codes "Pages") then parse_usize (trim value) else none)

abbrev find_map : (Text → Option ℕ) → List Text → Option ℕ
find_map f [] = none
find_map f (x ∷ xs) = let later = find_map f xs in elim (f x) [ some n ↦ some n | none ↦ later ]

unfoldable pub parse_pdfinfo_pages : Text → Option ℕ
parse_pdfinfo_pages output = find_map page_count_of_line (lines output)

abbrev ok_or : Option ℕ → PdfRenderError → Result ℕ
ok_or none e = err e
ok_or (some n) e = ok n

unfoldable pub inspect_page_count : Poppler → Result ℕ
inspect_page_count poppler = run poppler.pdfinfo inspect >>= λ stdout.
    ok_or (parse_pdfinfo_pages stdout)
      (inspect (codes "pdfinfo output did not include a page count"))

unfoldable pub rendered_page_number : Text → Text → Option ℕ
rendered_page_number filename output_stem = and_then (strip_prefix output_stem filename) (λ rest.
    and_then (strip_prefix (codes "-") rest)
      (λ rest. and_then (strip_suffix (codes ".png") rest) parse_usize))

abbrev pub page_of : Text → FilePath → Option Text → Option RenderedPdfPage
page_of output_stem path none = none
page_of output_stem path (some filename) =
    and_then (rendered_page_number filename output_stem)
      (λ n. some (record { page_number = n; image_path = path }))

abbrev pub with_page : Option RenderedPdfPage → List RenderedPdfPage → List RenderedPdfPage
with_page none pages = pages
with_page (some page) pages = page ∷ pages

-- The loop over the entries.
unfoldable pub collect : Text → List Entry → Result (List RenderedPdfPage)
collect output_stem [] = ok []
collect output_stem (entry_error e ∷ entries) = err (io e)
collect output_stem (entry path filename ∷ entries) = collect output_stem entries >>= λ pages.
    ok (with_page (page_of output_stem path filename) pages)

abbrev pub check_count : ℕ → List RenderedPdfPage → Result (List RenderedPdfPage)
check_count page_count pages =
    if length pages == page_count
    then ok pages
    else err (
        render (
          codes "expected "
          ++ decimal page_count
          ++ codes " rendered pages, found "
          ++ decimal (length pages)))

abbrev pub page_key : RenderedPdfPage → ℕ
page_key page = page.page_number

abbrev pub read_entries : Poppler → Text → Result (List RenderedPdfPage)
read_entries poppler output_stem = elim poppler.read_dir [
  | some e ↦ err (io e)
  | none ↦ collect output_stem poppler.entries
]

unfoldable pub collect_rendered_pages : Poppler → Text → ℕ → Result (List RenderedPdfPage)
collect_rendered_pages poppler output_stem page_count =
    read_entries poppler output_stem >>= λ pages.
    check_count page_count (sort_by_key page_key pages)

abbrev pub check_limit : ℕ → ℕ → Result ℕ
check_limit max_pages page_count =
    if page_count == 0
    then err (inspect (codes "PDF does not contain any pages"))
    else if ltb max_pages page_count
    then err (too_many_pages page_count max_pages)
    else ok page_count

unfoldable pub render_pdf_pages :
    Poppler → (output_stem : Text) → (max_pages : ℕ) → Result (List RenderedPdfPage)
render_pdf_pages poppler output_stem max_pages = do
  page_count ← inspect_page_count poppler >>= check_limit max_pages
  _ ← run (poppler.pdftoppm page_count) render
  collect_rendered_pages poppler output_stem page_count
