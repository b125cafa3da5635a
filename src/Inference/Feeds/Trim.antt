-- ===== src/Inference/Feeds/Trim.antt =====
-- Trimming a cache tensor of src/inference/feeds.rs: which items stay, and where.
use unlimited_ocr_server.Prelude.{
  ℕ, zero, suc, ◌+◌, ◌-◌, ◌*◌, ◌^◌, ◌≤◌, ◌<◌, ◌≡◌, refl, sym, ap, ◌∙◌, true, false, some, List, [],
  ◌∷◌, ◌++◌, arith, Text, ℤ, pos, length, get_elem?, take, drop, length-append, length-take,
  length-drop, ltb, leb, lt→ltb, ltb, false, pos,
}
use mathlib.Core.List.{append_assoc}
use native.Mathlib.Nat.{mul-le-mul_right, mul-le-mul_left}
use unlimited_ocr_server.Inference.Ort.{
  Anyhow, fine, ◌>>=◌, as_i64, get_range, checked_mul, checked_add,
}
use unlimited_ocr_server.Inference.Feeds.Cache.{
  trim_head, trim_heads, trim_batches, trim_typed_cache_tensor,
}

zero_mul : (n : ℕ) → 0 * n ≡ 0
zero_mul n = omega arith

zero_plus : (n : ℕ) → 0 + n ≡ n
zero_plus n = omega arith

plus_zero : (n : ℕ) → n + 0 ≡ n
plus_zero n = omega arith

both-bind :
    {A : Type 0} {step rest : Anyhow (List A)} {xs ys : List A}
    → step ≡ fine xs
    → rest ≡ fine ys
    → (step >>= (λ first. rest >>= (λ more. fine (first ++ more)))) ≡ fine (xs ++ ys)
both-bind e f = rw (e, f) refl

checked_mul-fits : (a b : ℕ) → a * b < 2 ^ 64 → checked_mul a b ≡ some (a * b)
checked_mul-fits a b h = rw (lt→ltb (a * b) (2 ^ 64) h) refl

checked_add-fits : (a b : ℕ) → a + b < 2 ^ 64 → checked_add a b ≡ some (a + b)
checked_add-fits a b h = rw (lt→ltb (a + b) (2 ^ 64) h) refl

module _ {A : Type 0} where
  get_range-fits :
      (values : List A) (start width : ℕ)
      → start + width ≤ length values
      → get_range values start (start + width) ≡ some (take width (drop start values))
  get_range-fits values start width h =
      let lower : leb start (start + width) ≡ true = ground arith in
      let upper : leb (start + width) (length values) ≡ true = ground arith in
      let size : start + width - start ≡ width = omega arith in rw (lower, upper, size) refl

  get_elem?-append_left :
      (xs ys : List A) (i : ℕ) → i < length xs → get_elem? (xs ++ ys) i ≡ get_elem? xs i
  get_elem?-append_left [] ys i h = absurd (omega arith)
  get_elem?-append_left (x ∷ xs) ys zero h = refl
  get_elem?-append_left (x ∷ xs) ys (suc i) h = get_elem?-append_left xs ys i (omega arith)

  get_elem?-append_right :
      (xs ys : List A) (i j : ℕ) → i ≡ length xs + j → get_elem? (xs ++ ys) i ≡ get_elem? ys j
  get_elem?-append_right [] ys i j h = ap (get_elem? ys) (omega (arith, h))
  get_elem?-append_right (x ∷ xs) ys zero j h = absurd (omega arith)
  get_elem?-append_right (x ∷ xs) ys (suc i) j h = get_elem?-append_right xs ys i j (omega arith)

  get_elem?-take : (n : ℕ) (xs : List A) (i : ℕ) → i < n → get_elem? (take n xs) i ≡ get_elem? xs i
  get_elem?-take zero xs i h = absurd (omega arith)
  get_elem?-take (suc n) [] i h = refl
  get_elem?-take (suc n) (x ∷ xs) zero h = refl
  get_elem?-take (suc n) (x ∷ xs) (suc i) h = get_elem?-take n xs i (omega arith)

  get_elem?-drop :
      (n : ℕ) (xs : List A) (i j : ℕ) → j ≡ n + i → get_elem? (drop n xs) i ≡ get_elem? xs j
  get_elem?-drop zero xs i j h = ap (get_elem? xs) (omega (arith, h))
  get_elem?-drop (suc n) [] i j h = refl
  get_elem?-drop (suc n) (x ∷ xs) i zero h = absurd (omega arith)
  get_elem?-drop (suc n) (x ∷ xs) i (suc j) h = get_elem?-drop n xs i j (omega arith)

module _ {A : Type 0} (items : List A) (stride width : ℕ) where
  -- The first `width` items of each of `n` rows of `stride` items, from row `first` on.
  abbrev pub row_starts : (n first : ℕ) → List A
  row_starts zero first = []
  row_starts (suc n) first = take width (drop (first * stride) items) ++ row_starts n (suc first)

  row_starts-append :
      (m n first : ℕ) → row_starts (m + n) first ≡ row_starts m first ++ row_starts n (first + m)
  row_starts-append zero n first = rw (zero_plus n, plus_zero first) refl
  row_starts-append (suc m) n first =
      let counted : suc m + n ≡ suc (m + n) = omega arith in
      let next : first + suc m ≡ suc first + m = omega arith in
      rw (counted, row_starts-append m n (suc first), next)
        (sym (
          append_assoc (take width (drop (first * stride) items)) (row_starts m (suc first))
            (row_starts n (suc first + m))))

  module _ (rows : ℕ) (sizes : length items ≡ rows * stride) (fits : length items < 2 ^ 64)
      (few : rows < 2 ^ 64) (narrow : width ≤ stride) where
    row-bound : (row : ℕ) → row < rows → row * stride + stride ≤ length items
    row-bound row h =
        let below : suc row * stride ≤ rows * stride = mul-le-mul_right stride h in
        omega (arith, below, sizes)

    trim_head-row :
        (name : Text) (shape : List ℤ) (heads batch_idx head_idx : ℕ)
        → batch_idx * heads + head_idx < rows
        → trim_head items name shape heads stride width batch_idx head_idx
          ≡ fine (take width (drop ((batch_idx * heads + head_idx) * stride) items))
    trim_head-row name shape heads batch_idx head_idx h =
        let b = row-bound (batch_idx * heads + head_idx) h in
        rw
          (
            checked_mul-fits batch_idx heads (omega arith),
            checked_add-fits (batch_idx * heads) head_idx (omega arith),
            checked_mul-fits (batch_idx * heads + head_idx) stride (omega arith),
            checked_add-fits ((batch_idx * heads + head_idx) * stride) width (omega arith),
            get_range-fits items ((batch_idx * heads + head_idx) * stride) width (omega arith),
          )
          refl

    length-row : (row : ℕ) → row < rows → length (take width (drop (row * stride) items)) ≡ width
    length-row row h = omega (
      arith,
      row-bound row h,
      length-take width (drop (row * stride) items),
      length-drop (row * stride) items,
    )

    length-row_starts : (n first : ℕ) → first + n ≤ rows → length (row_starts n first) ≡ n * width
    length-row_starts zero first h = omega arith
    length-row_starts (suc n) first h =
        let head = length-row first (omega arith) in
        let rest = length-row_starts n (suc first) (omega arith) in
        let parts =
          length-append (take width (drop (first * stride) items)) (row_starts n (suc first)) in
        omega arith

    -- Item `offset` of a row stays item `offset` of that row.
    get_elem?-row_starts :
        (n first row offset : ℕ)
        → first + n ≤ rows
        → row < n
        → offset < width
        → get_elem? (row_starts n first) (row * width + offset)
          ≡ get_elem? items ((first + row) * stride + offset)
    get_elem?-row_starts zero first row offset h k l = absurd (omega arith)
    get_elem?-row_starts (suc n) first zero offset h k l =
        let head = take width (drop (first * stride) items) in
        let size = length-row first (omega arith) in
        let at : 0 * width + offset ≡ offset = omega arith in
        let row_is : (first + 0) * stride + offset ≡ first * stride + offset =
          ap (λ r. r * stride + offset) (omega arith) in
        rw at (
          get_elem?-append_left head (row_starts n (suc first)) offset (omega arith)
          ∙ (get_elem?-take width (drop (first * stride) items) offset l
              ∙ get_elem?-drop (first * stride) items offset ((first + 0) * stride + offset)
                  row_is))
    get_elem?-row_starts (suc n) first (suc row) offset h k l =
        let head = take width (drop (first * stride) items) in
        let size = length-row first (omega arith) in
        let at : suc row * width + offset ≡ length head + (row * width + offset) =
          omega (arith, size) in
        let same : first + suc row ≡ suc first + row = omega arith in
        get_elem?-append_right head (row_starts n (suc first)) (suc row * width + offset)
          (row * width + offset) at
        ∙ (get_elem?-row_starts n (suc first) row offset (omega arith) (omega arith) l
            ∙ ap (λ r. get_elem? items (r * stride + offset)) (sym same))

    trim_heads-rows :
        (name : Text) (shape : List ℤ) (heads batch_idx left head_idx : ℕ)
        → batch_idx * heads + head_idx + left ≤ rows
        → trim_heads items name shape heads stride width batch_idx left head_idx
          ≡ fine (row_starts left (batch_idx * heads + head_idx))
    unfolding trim_heads
    trim_heads-rows name shape heads batch_idx zero head_idx h = refl
    trim_heads-rows name shape heads batch_idx (suc left) head_idx h =
        let next : batch_idx * heads + suc head_idx ≡ suc (batch_idx * heads + head_idx) =
          omega arith in
        let first = trim_head-row name shape heads batch_idx head_idx (omega arith) in
        let rest : trim_heads items name shape heads stride width batch_idx left (suc head_idx)
            ≡ fine (row_starts left (suc (batch_idx * heads + head_idx))) =
          trim_heads-rows name shape heads batch_idx left (suc head_idx) (omega arith)
          ∙ ap (λ r. fine (row_starts left r)) next in
        both-bind first rest

    trim_batches-rows :
        (name : Text) (shape : List ℤ) (heads left batch_idx : ℕ)
        → (batch_idx + left) * heads ≤ rows
        → trim_batches items name shape heads stride width left batch_idx
          ≡ fine (row_starts (left * heads) (batch_idx * heads))
    unfolding trim_batches
    trim_batches-rows name shape heads zero batch_idx h =
        ap (λ n. fine (row_starts n (batch_idx * heads))) (sym (zero_mul heads))
    trim_batches-rows name shape heads (suc left) batch_idx h =
        let start : batch_idx * heads + 0 ≡ batch_idx * heads = omega arith in
        let room : batch_idx * heads + heads + left * heads ≤ rows = omega arith in
        let next : suc batch_idx * heads ≡ batch_idx * heads + heads = omega arith in
        let count : suc left * heads ≡ heads + left * heads = omega arith in
        let first : trim_heads items name shape heads stride width batch_idx heads 0
            ≡ fine (row_starts heads (batch_idx * heads)) =
          trim_heads-rows name shape heads batch_idx heads 0 (omega arith)
          ∙ ap (λ r. fine (row_starts heads r)) start in
        let rest : trim_batches items name shape heads stride width left (suc batch_idx)
            ≡ fine (row_starts (left * heads) (batch_idx * heads + heads)) =
          trim_batches-rows name shape heads left (suc batch_idx) (omega arith)
          ∙ ap (λ r. fine (row_starts (left * heads) r)) next in
        both-bind first rest
        ∙ ap fine (
            sym (row_starts-append heads (left * heads) (batch_idx * heads))
            ∙ ap (λ n. row_starts n (batch_idx * heads)) (sym count))

-- Trimming gives, for every batch and head, the items of the first `sequence_len` positions, each at
-- its offset within the row of that head; the shape changes in the sequence only. It does so for
-- every tensor whose data has the size of its shape, within the numbers of a machine word.
pub trim_typed_cache_tensor-rows :
    {A : Type 0} (items : List A) (name : Text) (batch heads total head_dim sequence_len : ℕ)
    → length items ≡ batch * heads * (total * head_dim)
    → length items < 2 ^ 64
    → batch * heads < 2 ^ 64
    → total * head_dim < 2 ^ 64
    → sequence_len ≤ total
    → (trimmed : List A) × ((trim_typed_cache_tensor
            (pos batch ∷ pos heads ∷ pos total ∷ pos head_dim ∷ [])
            items
            name
            sequence_len
          ≡ fine (pos batch ∷ pos heads ∷ as_i64 sequence_len ∷ pos head_dim ∷ [], trimmed))
        × ((length trimmed ≡ batch * heads * (sequence_len * head_dim))
            × ((row offset : ℕ)
                → row < batch * heads
                → offset < sequence_len * head_dim
                → get_elem? trimmed (row * (sequence_len * head_dim) + offset)
                  ≡ get_elem? items (row * (total * head_dim) + offset))))
unfolding trim_typed_cache_tensor
trim_typed_cache_tensor-rows items name batch heads total head_dim sequence_len sizes fits few wide
      short =
    let rows = batch * heads in
    let stride = total * head_dim in
    let width = sequence_len * head_dim in
    let shape = pos batch ∷ pos heads ∷ pos total ∷ pos head_dim ∷ [] in
    let narrow : width ≤ stride = mul-le-mul_right head_dim short in
    let volume : rows * width ≤ rows * stride = mul-le-mul_left rows narrow in
    let start : 0 * heads ≡ 0 = zero_mul heads in
    let kept : ltb total sequence_len ≡ false = ground arith in
    let all : trim_batches items name shape heads stride width batch 0
        ≡ fine (row_starts items stride width rows 0) =
      trim_batches-rows items stride width rows sizes fits few narrow name shape heads batch 0
        (omega arith)
      ∙ ap (λ r. fine (row_starts items stride width rows r)) start in
    (
      row_starts items stride width rows 0,
      (
        rw
            (
              kept,
              checked_mul-fits total head_dim wide,
              checked_mul-fits sequence_len head_dim (omega arith),
              checked_mul-fits batch heads few,
              checked_mul-fits rows width (omega arith),
              all,
            )
            refl,
        (
          length-row_starts items stride width rows sizes fits few narrow rows 0 (omega arith),
          λ row offset r o.
              get_elem?-row_starts items stride width rows sizes fits few narrow rows 0 row offset
                (omega arith) r o
              ∙ ap (λ n. get_elem? items (n * stride + offset)) (zero_plus row),
        ),
      ),
    )
