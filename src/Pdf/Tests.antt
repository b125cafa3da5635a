-- ===== src/Pdf/Tests.antt =====
-- A PDF of two pages whose directory lists the second page first (src/pdf.rs).
use unlimited_ocr_server.Prelude.{
  ◌≡◌, ◌≤◌, refl, codes, true, List, [], ◌∷◌, length, some, none, All, trim, trim_start, trim_end,
}
use unlimited_ocr_server.Prelude.Parse.{lines, parse_usize}
use unlimited_ocr_server.Prelude.Sort.{IsSorted, sort_by_key}
use unlimited_ocr_server.Pdf.{
  RenderedPdfPage, Poppler, exited, entry, ok, page_key, render_pdf_pages, collect_rendered_pages,
  collect, inspect_page_count, parse_pdfinfo_pages, rendered_page_number,
}
use unlimited_ocr_server.Pdf.Rendered.{IsListed, render_pdf_pages-ok}

abbrev poppler : Poppler
poppler = record {
  pdfinfo = exited true (codes "Title: x\nPages:   2\n") [];
  pdftoppm = λ pages. exited true [] [];
  read_dir = none;
  entries =
      entry (codes "b-page-2.png" ∷ []) (some (codes "b-page-2.png"))
      ∷ entry (codes "old.png" ∷ []) (some (codes "old.png"))
      ∷ entry (codes "b-page-1.png" ∷ []) (some (codes "b-page-1.png"))
      ∷ [];
}

abbrev two_pages : List RenderedPdfPage
two_pages =
    record { page_number = 1; image_path = codes "b-page-1.png" ∷ [] }
    ∷ record { page_number = 2; image_path = codes "b-page-2.png" ∷ [] }
    ∷ []

rendered : render_pdf_pages poppler (codes "b-page") 10 ≡ ok two_pages
unfolding render_pdf_pages collect_rendered_pages collect inspect_page_count parse_pdfinfo_pages
    rendered_page_number lines parse_usize sort_by_key trim trim_start trim_end
rendered = refl

render_pdf_pages-ok_example :
    (1 ≤ length two_pages)
    × (length two_pages ≤ 10)
    × IsSorted page_key two_pages
    × All (IsListed (codes "b-page") poppler.entries) two_pages
render_pdf_pages-ok_example = render_pdf_pages-ok poppler (codes "b-page") 10 two_pages rendered
