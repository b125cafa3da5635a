-- ===== src/Api/Views/Slices.antt =====
-- The range of jobs that a page of the index of src/api.rs shows.
use unlimited_ocr_server.Prelude.{
  ℕ, zero, suc, ◌+◌, ◌-◌, ◌*◌, ◌/◌, ◌≤◌, ◌<◌, min, max, ◌≡◌, refl, ap, true, some, List, [], ◌∷◌,
  map, arith, length, take, drop, length-drop, leb, unwrap_or,
}
use native.Mathlib.Nat.{mul-le-mul_right, div-add-mod', mod-lt}
use unlimited_ocr_server.Inference.Ort.{get_range}
use unlimited_ocr_server.Types.{JobRecord}
use unlimited_ocr_server.Api.Views.{
  Display, JobsIndexQuery, JobsIndexTemplate, sort_records, clamp, page_size, page_count,
  jobs_index_row_view, index_template, render_jobs_index,
}

pub clamp-bounds :
    (n low high : ℕ) → low ≤ high → (low ≤ clamp n low high) × (clamp n low high ≤ high)
clamp-bounds n low high h = (ground arith, ground arith)

pub clamp-within : (n low high : ℕ) → low ≤ n → n ≤ high → clamp n low high ≡ n
clamp-within n low high h k = ground arith

-- The pages hold all jobs, and all but the last of them hold fewer.
pub page_count-covers :
    (total per_page : ℕ) → 0 < per_page → total ≤ page_count total per_page * per_page
page_count-covers total per_page h =
    let whole = div-add-mod' (total + per_page - 1) per_page in
    let part = mod-lt (total + per_page - 1) h in
    let more : (total + per_page - 1) / per_page * per_page ≤ page_count total per_page * per_page =
      mul-le-mul_right per_page (omega arith) in
    omega arith

pred-bound :
    (q total per_page : ℕ)
    → 0 < per_page
    → q * per_page ≤ total + per_page - 1
    → (max q 1 - 1) * per_page ≤ total
pred-bound zero total per_page h k =
    let none_before : max 0 1 - 1 ≡ 0 = omega arith in
    let nothing : 0 * per_page ≡ 0 = omega arith in rw (none_before, nothing) (omega arith)
pred-bound (suc p) total per_page h k =
    let before : max (suc p) 1 - 1 ≡ p = omega arith in
    let split : suc p * per_page ≡ p * per_page + per_page = omega arith in rw before (omega arith)

pub page_count-pred :
    (total per_page : ℕ) → 0 < per_page → (page_count total per_page - 1) * per_page ≤ total
page_count-pred total per_page h =
    let whole = div-add-mod' (total + per_page - 1) per_page in
    pred-bound ((total + per_page - 1) / per_page) total per_page h (omega arith)

pub page-start :
    (total per_page page : ℕ)
    → 0 < per_page
    → page ≤ page_count total per_page
    → (page - 1) * per_page ≤ total
page-start total per_page page h k =
    let pred = page_count-pred total per_page h in
    let mono : (page - 1) * per_page ≤ (page_count total per_page - 1) * per_page =
      mul-le-mul_right per_page (omega arith) in
    omega arith

-- The page of a query, once it is between the first and the last.
abbrev pub page_of : (total : ℕ) → JobsIndexQuery → ℕ
page_of total query = clamp (unwrap_or query.page 1) 1 (page_count total (page_size query))

-- The jobs of a page.
abbrev pub records_of_page : (records : List JobRecord) (per_page page : ℕ) → List JobRecord
records_of_page records per_page page = take per_page (drop ((page - 1) * per_page) records)

take-min : {A : Type 0} (n : ℕ) (xs : List A) → take (min n (length xs)) xs ≡ take n xs
take-min zero xs = rw (zero_min (length xs)) refl
  where
    zero_min : (n : ℕ) → min 0 n ≡ 0
    zero_min n = omega arith
take-min (suc n) [] = rw (min_zero (suc n)) refl
  where
    min_zero : (n : ℕ) → min n 0 ≡ 0
    min_zero n = omega arith
take-min (suc n) (x ∷ xs) = rw (min_suc n (length xs)) (ap (λ r. x ∷ r) (take-min n xs))
  where
    min_suc : (m n : ℕ) → min (suc m) (suc n) ≡ suc (min m n)
    min_suc m n = omega arith

get_range-page :
    (records : List JobRecord) (start per_page : ℕ)
    → start ≤ length records
    → get_range records start (min (start + per_page) (length records))
      ≡ some (take per_page (drop start records))
get_range-page records start per_page h =
    let end = min (start + per_page) (length records) in
    let lower : leb start end ≡ true = ground arith in
    let upper : leb end (length records) ≡ true = ground arith in
    let size : end - start ≡ min per_page (length (drop start records)) =
      omega (arith, length-drop start records) in
    rw (lower, upper, size) (ap some (take-min per_page (drop start records)))

-- A page is never a panic: it shows the jobs of its range, 100 of them at most.
pub render_jobs_index-rows :
    (display : Display) (records : List JobRecord) (query : JobsIndexQuery)
    → (template : JobsIndexTemplate) × ((render_jobs_index display records query ≡ some template)
        × (template.rows
            ≡ map (jobs_index_row_view display) (
                records_of_page
                  (sort_records records)
                  (page_size query)
                  (page_of (length (sort_records records)) query))))
unfolding render_jobs_index index_template
render_jobs_index-rows display records query =
    let sorted = sort_records records in
    let per_page = page_size query in
    let page = page_of (length sorted) query in
    let start = (page - 1) * per_page in
    let size = clamp-bounds (unwrap_or query.per_page 25) 1 100 (omega arith) in
    let inside =
      clamp-bounds (unwrap_or query.page 1) 1 (page_count (length sorted) per_page) (omega arith) in
    let shown =
      get_range-page sorted start per_page
        (page-start (length sorted) per_page page size.0 inside.1) in
    (
      index_template display (length sorted) per_page page (take per_page (drop start sorted)),
      (rw (render_jobs_index, shown) refl, refl),
    )
