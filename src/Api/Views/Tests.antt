-- ===== src/Api/Views/Tests.antt =====
-- The index of three jobs, two to a page (src/api.rs).
use unlimited_ocr_server.Prelude.{◌≡◌, refl, none, some, List, [], ◌∷◌, map, decimal}
use unlimited_ocr_server.Types.{JobRecord, succeeded, queued}
use unlimited_ocr_server.Jobs.Samples.{job}
use unlimited_ocr_server.Api.Views.{Display, sort_records, jobs_index_row_view, render_jobs_index}
use mathlib.Core.List.{Perm}
use unlimited_ocr_server.Api.Views.Order.{IsShownInOrder}
use unlimited_ocr_server.Api.Views.Pages.{pages_from, pages, pages_from-all}

abbrev display : Display
display = record {
  uuid_text = λ id. decimal id;
  time_text = λ time. decimal time;
  path_text = λ path. [];
  kind_text = λ kind. [];
}

abbrev three : List JobRecord
three = job 1 succeeded 5 ∷ job 2 queued 9 ∷ job 3 queued 5 ∷ []

order : map (λ j. j.id) (sort_records three) ≡ 2 ∷ 3 ∷ 1 ∷ []
unfolding sort_records
order = refl

second_page :
    map
      (λ row. row.id)
      (elim (render_jobs_index display three (record { page = some 2; per_page = some 2 })) [
        | none ↦ []
        | some template ↦ template.rows
      ])
    ≡ decimal 1 ∷ []
unfolding render_jobs_index
second_page = refl

pages_from-all_example :
    (shown : List JobRecord) × Perm shown three
    × IsShownInOrder shown
    × (pages_from display three (some 2) (pages display three (some 2)) 1
        ≡ map (jobs_index_row_view display) shown)
pages_from-all_example = pages_from-all display three (some 2)
