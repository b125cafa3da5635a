-- ===== src/Pdf/Rendered.antt =====
-- What a rendered PDF of src/pdf.rs is.
use mathlib.Core.Path.{subst}
use unlimited_ocr_server.Prelude.{
  some_injective, All, All-map, Option-cases, and_then, ℕ, ◌≡◌, ◌≢◌, ◌≤◌, refl, sym, ap, ◌∙◌, inl,
  inr, Text, codes, List, [], ◌∷◌, ◌++◌, length, Option, none, some, arith,
}
use unlimited_ocr_server.Prelude.Membership.{In}
use unlimited_ocr_server.Prelude.Parse.{parse_usize}
use unlimited_ocr_server.Prelude.Sort.{sort_by_key, IsSorted, sort_by_key-IsSorted, sort_by_key-All}
use unlimited_ocr_server.Types.{FilePath}
use unlimited_ocr_server.Pdf.{
  RenderedPdfPage, Result, ok, err, ◌>>=◌, Poppler, Entry, entry, entry_error, page_of, with_page,
  page_key, check_limit, check_count, collect, rendered_page_number, inspect_page_count, run,
  render, collect_rendered_pages, render_pdf_pages, read_entries,
}
use unlimited_ocr_server.Pdf.Names.{rendered_page_number-some}

value_of_step :
    {A B : Type 0} (step : Result A) (rest : A → Result B) {result : B}
    → (step >>= rest) ≡ ok result
    → (value : A) × (step ≡ ok value) × (rest value ≡ ok result)
value_of_step (ok value) rest e = (value, refl, e)
value_of_step (err error) rest e = absurd (ground arith)

some_ne_none : {A : Type 0} {a : A} → some a ≢ none
some_ne_none e = cc

ok_injective : {A : Type 0} {a b : A} → ok a ≡ ok b → a ≡ b
ok_injective {a = a} e = ap (λ r. elim r [ ok x ↦ x | err _ ↦ a ]) e

check_limit-ok :
    (max_pages count result : ℕ)
    → check_limit max_pages count ≡ ok result
    → (1 ≤ result) × (result ≤ max_pages)
check_limit-ok max_pages count result h = ground arith

check_count-ok :
    (count : ℕ) (pages result : List RenderedPdfPage)
    → check_count count pages ≡ ok result
    → (result ≡ pages) × (length pages ≡ count)
check_count-ok count pages result h = ground arith

-- A page stands for an entry of the directory whose name is the stem, a dash, digits that are the
-- page's number, and `.png`.
abbrev pub IsListed : Text → List Entry → RenderedPdfPage → Type 0
IsListed output_stem entries page =
    (filename : Text) × In (entry page.image_path (some filename)) entries
    × (digits : Text) × (filename ≡ output_stem ++ (codes "-" ++ (digits ++ codes ".png")))
    × (parse_usize digits ≡ some page.page_number)

abbrev numbered : FilePath → ℕ → Option RenderedPdfPage
numbered path n = some (record { page_number = n; image_path = path })

page_of-some :
    (output_stem : Text) (path : FilePath) (name : Option Text) (page : RenderedPdfPage)
    → page_of output_stem path name ≡ some page
    → (filename : Text) × (name ≡ some filename)
      × (path ≡ page.image_path)
      × (rendered_page_number filename output_stem ≡ some page.page_number)
page_of-some output_stem path none page h = absurd (ground arith)
page_of-some output_stem path (some filename) page h =
    elim (Option-cases (rendered_page_number filename output_stem)) [
      | inl gone ↦ absurd (some_ne_none (sym h ∙ ap (λ o. and_then o (numbered path)) gone))
      | inr (n, found) ↦
          let same = some_injective (sym (ap (λ o. and_then o (numbered path)) found) ∙ h) in
          (filename, refl, ap (λ p. p.image_path) same, found ∙ ap (λ p. some p.page_number) same)
    ]

add_page :
    (output_stem : Text) (entries : List Entry) (path : FilePath) (name : Option Text)
    (found : Option RenderedPdfPage) (pages : List RenderedPdfPage)
    → page_of output_stem path name ≡ found
    → All (IsListed output_stem entries) pages
    → All (IsListed output_stem (entry path name ∷ entries)) (with_page found pages)
add_page output_stem entries path name none pages e h =
    All-map _ _ (λ page (f, m, digits, named, n). (f, inr m, digits, named, n)) pages h
add_page output_stem entries path name (some page) pages e h =
    let (filename, named, at, number) = page_of-some output_stem path name page e in
    let (digits, written, parsed) =
      rendered_page_number-some filename output_stem page.page_number number in
    (
      (
        filename,
        inl (ap (λ p. entry p name) at ∙ ap (entry page.image_path) named),
        digits,
        written,
        parsed,
      ),
      All-map _ _ (λ page (f, m, digits, named, n). (f, inr m, digits, named, n)) pages h,
    )

collect-All :
    (output_stem : Text) (entries : List Entry) (pages : List RenderedPdfPage)
    → collect output_stem entries ≡ ok pages
    → All (IsListed output_stem entries) pages
unfolding collect
collect-All output_stem [] pages h = subst (All (IsListed output_stem [])) (ok_injective h) tt
collect-All output_stem (entry_error e ∷ entries) pages h = absurd (ground arith)
collect-All output_stem (entry path name ∷ entries) pages h =
    let (rest, before, same) = value_of_step (collect output_stem entries) _ h in
    subst (All (IsListed output_stem (entry path name ∷ entries))) (ok_injective same) (
      add_page output_stem entries path name (page_of output_stem path name) rest refl
        (collect-All output_stem entries rest before))

read_entries-collect :
    (poppler : Poppler) (output_stem : Text) (pages : List RenderedPdfPage)
    → read_entries poppler output_stem ≡ ok pages
    → collect output_stem poppler.entries ≡ ok pages
read_entries-collect poppler output_stem pages h = ground arith

-- The pages of a PDF that is rendered are at least one and at most `max_pages`, in the order of
-- their numbers, and each is a file of the output directory whose name is the stem, a dash, the
-- page's number and `.png`.
pub render_pdf_pages-ok :
    (poppler : Poppler) (output_stem : Text) (max_pages : ℕ) (pages : List RenderedPdfPage)
    → render_pdf_pages poppler output_stem max_pages ≡ ok pages
    → (1 ≤ length pages)
      × (length pages ≤ max_pages)
      × IsSorted page_key pages
      × All (IsListed output_stem poppler.entries) pages
unfolding render_pdf_pages collect_rendered_pages
render_pdf_pages-ok poppler output_stem max_pages pages h =
    let (count, limited, rest) =
      value_of_step (inspect_page_count poppler >>= check_limit max_pages) _ h in
    let (reported, _, small) =
      value_of_step (inspect_page_count poppler) (check_limit max_pages) limited in
    let (least, most) = check_limit-ok max_pages reported count small in
    let (_, _, collected) = value_of_step (run (poppler.pdftoppm count) render) _ rest in
    let (found, read, checked) = value_of_step (read_entries poppler output_stem) _ collected in
    let (same, counted) = check_count-ok count (sort_by_key page_key found) pages checked in
    let lengths : length pages ≡ count = ap length same ∙ counted in
    let listed =
      collect-All output_stem poppler.entries found
        (read_entries-collect poppler output_stem found read) in
    (
      omega (arith, lengths, least),
      omega (arith, lengths, most),
      subst (IsSorted page_key) (sym same) (sort_by_key-IsSorted page_key found),
      subst (All (IsListed output_stem poppler.entries)) (sym same)
          (sort_by_key-All page_key (IsListed output_stem poppler.entries) found listed),
    )
