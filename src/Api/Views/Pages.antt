-- ===== src/Api/Views/Pages.antt =====
-- The pages of the index of src/api.rs together show every job once, in order.
use unlimited_ocr_server.Prelude.{
  ℕ, zero, suc, ◌+◌, ◌-◌, ◌*◌, ◌≤◌, ◌≡◌, refl, sym, ap, ◌∙◌, Option, none, some, List, [], ◌∷◌,
  ◌++◌, map, arith, length, take, drop, take-append-drop, unwrap_or,
}
use mathlib.Core.Path.{subst}
use mathlib.Core.List.{Perm}
use unlimited_ocr_server.Types.{JobRecord}
use unlimited_ocr_server.Api.Views.{
  Display, JobsIndexQuery, JobsIndexTemplate, JobsIndexRowView, sort_records, page_size, page_count,
  jobs_index_row_view, render_jobs_index,
}
use unlimited_ocr_server.Api.Views.Order.{
  IsShownInOrder, sort_records-Perm, sort_records-IsShownInOrder,
}
use unlimited_ocr_server.Api.Views.Slices.{
  clamp-bounds, clamp-within, page_count-covers, records_of_page, render_jobs_index-rows,
}

drop-drop : {A : Type 0} (m n k : ℕ) (xs : List A) → k ≡ n + m → drop m (drop n xs) ≡ drop k xs
drop-drop m zero k xs h = ap (λ j. drop j xs) (omega (arith, h))
drop-drop m (suc n) zero xs h = absurd (omega arith)
drop-drop zero (suc n) (suc k) [] h = refl
drop-drop (suc m) (suc n) (suc k) [] h = refl
drop-drop m (suc n) (suc k) (x ∷ xs) h = drop-drop m n k xs (omega arith)

drop-all : {A : Type 0} (n : ℕ) (xs : List A) → length xs ≤ n → drop n xs ≡ []
drop-all zero [] h = refl
drop-all zero (x ∷ xs) h = absurd (omega arith)
drop-all (suc n) [] h = refl
drop-all (suc n) (x ∷ xs) h = drop-all n xs (omega arith)

map-append : {A B : Type 0} (f : A → B) (xs ys : List A) → map f (xs ++ ys) ≡ map f xs ++ map f ys
map-append f [] ys = refl
map-append f (x ∷ xs) ys = ap (λ r. f x ∷ r) (map-append f xs ys)

module _ (display : Display) (records : List JobRecord) (per_page : Option ℕ) where
  abbrev query_of : ℕ → JobsIndexQuery
  query_of page = record { page = some page; per_page = per_page }

  abbrev rows_of : Option JobsIndexTemplate → List JobsIndexRowView
  rows_of none = []
  rows_of (some template) = template.rows

  -- The rows of the pages from `page` on, `left` of them.
  abbrev pub pages_from : (left page : ℕ) → List JobsIndexRowView
  pages_from zero page = []
  pages_from (suc left) page =
      rows_of (render_jobs_index display records (query_of page)) ++ pages_from left (suc page)

  abbrev pub pages : ℕ
  pages = page_count (length (sort_records records)) (page_size (query_of 1))

  abbrev size : ℕ
  size = page_size (query_of 1)

  rows_of-page :
      (page : ℕ)
      → 1 ≤ page
      → page ≤ pages
      → rows_of (render_jobs_index display records (query_of page))
        ≡ map (jobs_index_row_view display) (records_of_page (sort_records records) size page)
  rows_of-page page h k =
      let (template, (e, r)) = render_jobs_index-rows display records (query_of page) in
      let same = clamp-within page 1 pages h k in
      rw e (
        r
        ∙ ap
            (λ p. map (jobs_index_row_view display) (records_of_page (sort_records records) size p))
            same)

  pages_from-drop :
      (left page : ℕ)
      → page + left ≡ pages
      → pages_from left (suc page)
        ≡ map (jobs_index_row_view display) (drop (page * size) (sort_records records))
  pages_from-drop zero page h =
      let sorted = sort_records records in
      let positive = (clamp-bounds (unwrap_or per_page 25) 1 100 (omega arith)).0 in
      let all : length sorted ≤ page * size =
        subst (λ p. length sorted ≤ p * size) (sym (omega arith))
          (page_count-covers (length sorted) size positive) in
      ap (map (jobs_index_row_view display)) (sym (drop-all (page * size) sorted all))
  pages_from-drop (suc left) page h =
      let sorted = sort_records records in
      let view = jobs_index_row_view display in
      let before : suc page - 1 ≡ page = omega arith in
      let next : suc page * size ≡ page * size + size = omega arith in
      let here : rows_of (render_jobs_index display records (query_of (suc page)))
          ≡ map view (take size (drop (page * size) sorted)) =
        rows_of-page (suc page) (omega arith) (omega arith)
        ∙ ap (λ p. map view (take size (drop (p * size) sorted))) before in
      let rest : pages_from left (suc (suc page))
          ≡ map view (drop size (drop (page * size) sorted)) =
        pages_from-drop left (suc page) (omega arith)
        ∙ ap (map view) (sym (drop-drop size (page * size) (suc page * size) sorted next)) in
      rw (here, rest)
        (sym (
            map-append view (take size (drop (page * size) sorted))
              (drop size (drop (page * size) sorted)))
          ∙ ap (map view) (take-append-drop size (drop (page * size) sorted)))

  -- Read from the first to the last, the pages show each job once, in an order in which every job
  -- was updated later than those that come after it, or at the same time with no smaller
  -- identifier; whatever page size is asked for.
  pub pages_from-all :
      (shown : List JobRecord) × Perm shown records
      × IsShownInOrder shown
      × (pages_from pages 1 ≡ map (jobs_index_row_view display) shown)
  pages_from-all =
      let nothing : 0 * size ≡ 0 = omega arith in
      (
        sort_records records,
        sort_records-Perm records,
        sort_records-IsShownInOrder records,
        pages_from-drop pages 0 (omega arith)
            ∙ ap (λ n. map (jobs_index_row_view display) (drop n (sort_records records))) nothing,
      )
