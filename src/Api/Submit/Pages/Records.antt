-- ===== src/Api/Submit/Pages/Records.antt =====
-- What the records of src/api/submit.rs say, and what an error leaves on disk.
use mathlib.Core.Path.{subst}
use unlimited_ocr_server.Prelude.{
  ℕ, ◌≡◌, ◌≢◌, refl, sym, ap, ◌∙◌, ◌⊎◌, inl, inr, Bool, true, false, not, List, [], ◌∷◌, map,
  length, some, arith, All, Bool-cases, retain, if◌then◌else◌,
}
use unlimited_ocr_server.Prelude.Membership.{In}
use unlimited_ocr_server.Types.{FilePath, JobRecord, queued}
use unlimited_ocr_server.Config.{Config}
use unlimited_ocr_server.Jobs.Worker.{path_eq}
use unlimited_ocr_server.Jobs.Worker.Cleanup.{path_eq_iff}
use unlimited_ocr_server.Util.{Bytes}
use unlimited_ocr_server.Pdf.{RenderedPdfPage}
use unlimited_ocr_server.Api.Http.{value_of_step, ok_injective, ApiError, Result, ok, err}
use unlimited_ocr_server.Api.Submit.{cleanup_paths}
use unlimited_ocr_server.Api.Submit.Validation.{validate_image_bytes}
use unlimited_ocr_server.Api.Submit.Validation.Hosts.{>>-ok}
use unlimited_ocr_server.Api.Submit.Pages.{
  Site, PdfRecordContext, page_record, page_records, page_records_from_rendered_pdf,
  read_rendered_page,
}

cons_eq : {A : Type 0} {x y : A} {xs ys : List A} → x ≡ y → xs ≡ ys → x ∷ xs ≡ y ∷ ys
cons_eq e f = cc

-- A record of a page that waits for its turn.
abbrev pub IsPageRecord : PdfRecordContext → ℕ → JobRecord → Type 0
IsPageRecord context page_count r =
    (r.status ≡ queued)
    × (r.input_kind ≡ context.input_kind)
    × (r.document_pages ≡ some page_count)
    × (r.webhook_url ≡ context.webhook_url)

page_record-IsPageRecord :
    (site : Site) (context : PdfRecordContext) (page_count : ℕ) (page : RenderedPdfPage)
    (bytes : Bytes)
    → IsPageRecord context page_count (page_record site context page_count page bytes)
      × ((page_record site context page_count page bytes).image_path ≡ page.image_path)
unfolding page_record
page_record-IsPageRecord site context page_count page bytes = ((refl, refl, refl, refl), refl)

-- If all pages of a PDF become records, then each page becomes one, in order, which is queued and
-- says how many pages there are.
page_records-ok :
    (site : Site) (config : Config) (context : PdfRecordContext) (page_count : ℕ)
    (pages : List RenderedPdfPage) (records : List JobRecord)
    → page_records site config context page_count pages ≡ ok records
    → (map (λ r. r.image_path) records ≡ map (λ p. p.image_path) pages)
      × All (IsPageRecord context page_count) records
unfolding page_records
page_records-ok site config context page_count [] records h =
    subst (λ rs. (map (λ r. r.image_path) rs ≡ []) × All (IsPageRecord context page_count) rs)
      (ok_injective h) (refl, tt)
page_records-ok site config context page_count (page ∷ pages) records h =
    let (bytes, read, rest) = value_of_step (read_rendered_page site page.image_path) _ h in
    let (valid, rest) = >>-ok (validate_image_bytes site.decoder config _ bytes) _ rest in
    let (more, later, same) =
      value_of_step (page_records site config context page_count pages) _ rest in
    let (paths, are_pages) = page_records-ok site config context page_count pages more later in
    let (is_page, path) = page_record-IsPageRecord site context page_count page bytes in
    subst
      (λ rs.
        (map (λ r. r.image_path) rs ≡ page.image_path ∷ map (λ p. p.image_path) pages)
        × All (IsPageRecord context page_count) rs)
      (ok_injective same) (cons_eq path paths, (is_page, are_pages))

In-retain_other :
    (p q : FilePath) (files : List FilePath)
    → In p (retain (λ f. not (path_eq f q)) files)
    → In p files × (p ≢ q)
In-retain_other p q [] m = absurd m
In-retain_other p q (f ∷ files) m = elim (Bool-cases (path_eq f q)) [
  | inl t ↦ let (more, other) = In-retain_other p q files (rw t at m) in (inr more, other)
  | inr differs ↦ elim (first_or_later f differs m) [
    | inl same ↦ (inl same, λ e. ground (arith, path_eq_iff f q))
    | inr later ↦ let (more, other) = In-retain_other p q files later in (inr more, other)
  ]
]
  where
    first_or_later :
        (f : FilePath)
        → path_eq f q ≡ false
        → In p (
            if not (path_eq f q)
            then f ∷ retain (λ f. not (path_eq f q)) files
            else retain (λ f. not (path_eq f q)) files)
        → (f ≡ p) ⊎ In p (retain (λ f. not (path_eq f q)) files)
    first_or_later f differs m = rw differs at m

-- The files after one removal, failed or not.
abbrev after_removal : Bool → FilePath → List FilePath → List FilePath
after_removal fails q files = if fails then files else retain (λ f. not (path_eq f q)) files

In-after_removal :
    (fails : Bool) (q p : FilePath) (files : List FilePath)
    → In p (after_removal fails q files)
    → In p files × (fails ≡ false → p ≢ q)
In-after_removal true q p files m = (m, λ no. absurd (ground arith))
In-after_removal false q p files m =
    let (more, other) = In-retain_other p q files m in (more, λ _. other)

cleanup_paths-In :
    (stuck : FilePath → Bool) (paths files : List FilePath) (p : FilePath)
    → In p (cleanup_paths stuck paths files)
    → In p files
unfolding cleanup_paths
cleanup_paths-In stuck [] files p m = m
cleanup_paths-In stuck (q ∷ paths) files p m =
    (In-after_removal (stuck q) q p files
      (cleanup_paths-In stuck paths (after_removal (stuck q) q files) p m)).0

cleanup_paths-removed :
    (stuck : FilePath → Bool) (paths files : List FilePath) (p : FilePath)
    → In p paths
    → stuck p ≡ false
    → In p (cleanup_paths stuck paths files)
    → ⊥
unfolding cleanup_paths
cleanup_paths-removed stuck [] files p here free m = absurd here
cleanup_paths-removed stuck (q ∷ paths) files p (inl same) free m =
    (In-after_removal (stuck q) q p files
        (cleanup_paths-In stuck paths (after_removal (stuck q) q files) p m)).1
      (ap stuck same ∙ free) (sym same)
cleanup_paths-removed stuck (q ∷ paths) files p (inr later) free m =
    cleanup_paths-removed stuck paths (after_removal (stuck q) q files) p later free m

Result-cases : {A : Type 0} (r : Result A) → ((a : A) × (r ≡ ok a)) ⊎ ((e : ApiError) × (r ≡ err e))
Result-cases (ok a) = inl (a, refl)
Result-cases (err e) = inr (e, refl)

files_after_error :
    (site : Site) (config : Config) (context : PdfRecordContext) (pages : List RenderedPdfPage)
    (images : List FilePath) (e : ApiError)
    → (page_records_from_rendered_pdf site config context pages images).1 ≡ err e
    → (page_records_from_rendered_pdf site config context pages images).0
      ≡ cleanup_paths site.stuck (map (λ page. page.image_path) pages) images
unfolding page_records_from_rendered_pdf
files_after_error site config context pages images e h =
    elim (Result-cases (page_records site config context (length pages) pages)) [
      | inl (records, good) ↦ absurd (ground (arith, good))
      | inr (x, bad) ↦ ground (arith, bad)
    ]

-- If a page of a PDF cannot be read or is no valid image, the files of all its pages are gone
-- afterwards, but those that cannot be removed, and no file is new.
pub page_records_from_rendered_pdf-err :
    (site : Site) (config : Config) (context : PdfRecordContext) (pages : List RenderedPdfPage)
    (images : List FilePath) (e : ApiError)
    → (page_records_from_rendered_pdf site config context pages images).1 ≡ err e
    → let after = (page_records_from_rendered_pdf site config context pages images).0 in
      ((p : FilePath) → In p after → In p images)
      × ((p : FilePath)
          → In p (map (λ page. page.image_path) pages)
          → site.stuck p ≡ false
          → In p after
          → ⊥)
page_records_from_rendered_pdf-err site config context pages images e h =
    subst
      (λ after.
        ((p : FilePath) → In p after → In p images)
        × ((p : FilePath)
            → In p (map (λ page. page.image_path) pages)
            → site.stuck p ≡ false
            → In p after
            → ⊥))
      (sym (files_after_error site config context pages images e h))
      (
        cleanup_paths-In site.stuck (map (λ page. page.image_path) pages) images,
        cleanup_paths-removed site.stuck (map (λ page. page.image_path) pages) images,
      )
