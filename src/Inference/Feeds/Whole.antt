-- ===== src/Inference/Feeds/Whole.antt =====
-- The cache of src/inference/feeds.rs when a graph gives it for the whole sequence: nothing is
-- trimmed, and the outputs are collected as they are.
use native.Mathlib.Nat.{mul-le-mul_right}
use native.Mathlib.Decide.{dec_le}
use unlimited_ocr_server.Prelude.{
  ℕ, zero, suc, ◌+◌, ◌*◌, ◌^◌, ◌≤◌, ◌<◌, ◌≡◌, refl, sym, ap, ◌∙◌, false, none, some, List, [], ◌∷◌,
  Text, codes, text_eq, text_eq_iff, ℤ, pos, length, get_elem?, All, arith, some_injective,
}
use unlimited_ocr_server.Inference.Ort.{
  fine, DynValue, f32_tensor, f16_tensor, bf16_tensor, i64_tensor, bool_tensor, other_value, Named,
  Ort, as_i64, get_output, remove_output,
}
use unlimited_ocr_server.Inference.Feeds.Metadata.{KvCacheMetadata}
use unlimited_ocr_server.Inference.Feeds.Cache.{
  trim_typed_cache_tensor, trim_cache_tensor, collect_outputs, collect_present_cache,
  collect_present_cache_trimmed, collect_present_cache_with_limit, zip_feeds,
}
use unlimited_ocr_server.Inference.Feeds.Trim.{trim_typed_cache_tensor-rows}

list_ext :
    {A : Type 0} (xs ys : List A)
    → length xs ≡ length ys
    → ((i : ℕ) → i < length xs → get_elem? xs i ≡ get_elem? ys i)
    → xs ≡ ys
list_ext [] [] same h = refl
list_ext [] (y ∷ ys) same h = absurd (omega arith)
list_ext (x ∷ xs) [] same h = absurd (omega arith)
list_ext (x ∷ xs) (y ∷ ys) same h =
    ap (λ z. z ∷ xs) (some_injective (h 0 (omega arith)))
    ∙ ap (λ zs. y ∷ zs)
        (list_ext xs ys (omega (arith, same)) (λ i small. h (suc i) (omega (arith, small))))

-- A position in rows of the same width.
split_index :
    (width i : ℕ)
    → 0 < width
    → (row : ℕ) × (offset : ℕ) × (i ≡ row * width + offset) × (offset < width)
split_index width zero wide = (0, 0, omega arith, wide)
split_index width (suc i) wide =
    let (row, offset, at, small) = split_index width i wide in
    let next : suc row * width ≡ row * width + width = omega arith in
    elim (dec_le width (suc offset)) [
      | yes full ↦ (suc row, 0, omega (arith, at, small, full, next), wide)
      | no more ↦ (row, suc offset, omega (arith, at), omega (arith, more))
    ]

rows_ext :
    {A : Type 0} (rows width : ℕ) (xs ys : List A)
    → length xs ≡ rows * width
    → length ys ≡ rows * width
    → ((row offset : ℕ)
        → row < rows
        → offset < width
        → get_elem? xs (row * width + offset) ≡ get_elem? ys (row * width + offset))
    → xs ≡ ys
rows_ext rows zero xs ys here there h =
    let empty : rows * 0 ≡ 0 = omega arith in
    list_ext xs ys (here ∙ sym there) (λ i small. absurd (omega (arith, here, empty, small)))
rows_ext rows (suc w) xs ys here there h = list_ext xs ys (here ∙ sym there) (λ i small.
    let (row, offset, at, short) = split_index (suc w) i (omega arith) in
    elim (dec_le rows row) [
      | yes past ↦
          let wide : rows * suc w ≤ row * suc w = mul-le-mul_right (suc w) past in
          absurd (omega (arith, at, wide, here, small))
      | no within ↦
          ap (get_elem? xs) at
          ∙ h row offset (omega (arith, within)) short
          ∙ ap (get_elem? ys) (sym at)
    ])

-- The data has the size of the shape, within the numbers of a machine word.
abbrev pub Fills : {A : Type 0} → (sequence_len : ℕ) → List ℤ → List A → Type 0
Fills sequence_len shape items =
    (batch : ℕ) × (heads : ℕ) × (head_dim : ℕ) × (shape
      ≡ pos batch ∷ pos heads ∷ pos sequence_len ∷ pos head_dim ∷ [])
    × (length items ≡ batch * heads * (sequence_len * head_dim))
    × (length items < 2 ^ 64)
    × (batch * heads < 2 ^ 64)
    × (sequence_len * head_dim < 2 ^ 64)
    × (sequence_len < 2 ^ 63)

-- A cache tensor of floats that holds that many positions and no more.
abbrev pub IsCacheOf : (sequence_len : ℕ) → DynValue → Type 0
IsCacheOf sequence_len (f32_tensor shape items) = Fills sequence_len shape items
IsCacheOf sequence_len (f16_tensor shape items) = Fills sequence_len shape items
IsCacheOf sequence_len (bf16_tensor shape items) = Fills sequence_len shape items
IsCacheOf sequence_len (i64_tensor shape items) = ⊥
IsCacheOf sequence_len (bool_tensor shape items) = ⊥
IsCacheOf sequence_len (other_value dtype) = ⊥

trim_typed_whole :
    {A : Type 0} (shape : List ℤ) (items : List A) (name : Text) (sequence_len : ℕ)
    → Fills sequence_len shape items
    → trim_typed_cache_tensor shape items name sequence_len ≡ fine (shape, items)
trim_typed_whole shape items name n (batch, heads, d, at, size, fits, few, wide, short) =
    let (kept, (trims, (kept_size, same))) =
      trim_typed_cache_tensor-rows items name batch heads n d n size fits few wide (omega arith) in
    let all : kept ≡ items = rows_ext (batch * heads) (n * d) kept items kept_size size same in
    let signed : as_i64 n ≡ pos n = ground (arith, short) in
    ap (λ s. trim_typed_cache_tensor s items name n) at
    ∙ trims
    ∙ ap (λ k. fine (pos batch ∷ pos heads ∷ k ∷ pos d ∷ [], kept)) signed
    ∙ ap (λ k. fine (pos batch ∷ pos heads ∷ pos n ∷ pos d ∷ [], k)) all
    ∙ ap (λ s. fine (s, items)) (sym at)

-- A runtime that makes and reads every tensor.
pub record IsWilling (ort : Ort) : Type 0 where
  pub makes : (value : DynValue) → ort.from_array value ≡ none
  pub reads : (value : DynValue) → ort.try_extract value ≡ none

-- The outputs of a graph: the logits, then the cache.
abbrev pub outputs_of : Ort → DynValue → List Text → List DynValue → Named
outputs_of ort logits names values = (codes "logits", logits) ∷ zip_feeds ort names values

abbrev pub IsOther : Text → Type 0
IsOther name = text_eq (codes "logits") name ≡ false

module _ (ort : Ort) (willing : IsWilling ort) where
  trim_whole :
      (value : DynValue) (name : Text) (sequence_len : ℕ)
      → IsCacheOf sequence_len value
      → trim_cache_tensor ort value name sequence_len ≡ fine value
  unfolding trim_cache_tensor
  trim_whole (f32_tensor shape items) name n h =
      rw
        (
          willing.reads (f32_tensor shape items),
          trim_typed_whole shape items name n h,
          willing.makes (f32_tensor shape items),
        )
        refl
  trim_whole (f16_tensor shape items) name n h =
      rw
        (
          willing.reads (f16_tensor shape items),
          trim_typed_whole shape items name n h,
          willing.makes (f16_tensor shape items),
        )
        refl
  trim_whole (bf16_tensor shape items) name n h =
      rw
        (
          willing.reads (bf16_tensor shape items),
          trim_typed_whole shape items name n h,
          willing.makes (bf16_tensor shape items),
        )
        refl
  trim_whole (i64_tensor shape items) name n h = absurd h
  trim_whole (bool_tensor shape items) name n h = absurd h
  trim_whole (other_value dtype) name n h = absurd h

  collect-zip :
      (logits : DynValue) (names : List Text) (values : List DynValue)
      → length names ≡ length values
      → All IsOther names
      → collect_outputs ort names (outputs_of ort logits names values) none ≡ fine values
  unfolding collect_outputs get_output remove_output
  collect-zip logits [] [] same others = refl
  collect-zip logits [] (value ∷ values) same others = absurd (omega arith)
  collect-zip logits (name ∷ names) [] same others = absurd (omega arith)
  collect-zip logits (name ∷ names) (value ∷ values) same others =
      rw
        (
          others.0,
          (text_eq_iff name name).1 refl,
          collect-zip logits names values (omega (arith, same)) others.1,
        )
        refl

  collect-zip_whole :
      (logits : DynValue) (names : List Text) (values : List DynValue) (sequence_len : ℕ)
      → length names ≡ length values
      → All IsOther names
      → All (IsCacheOf sequence_len) values
      → collect_outputs ort names (outputs_of ort logits names values) (some sequence_len)
        ≡ fine values
  unfolding collect_outputs get_output remove_output
  collect-zip_whole logits [] [] n same others whole = refl
  collect-zip_whole logits [] (value ∷ values) n same others whole = absurd (omega arith)
  collect-zip_whole logits (name ∷ names) [] n same others whole = absurd (omega arith)
  collect-zip_whole logits (name ∷ names) (value ∷ values) n same others whole =
      rw
        (
          others.0,
          (text_eq_iff name name).1 refl,
          trim_whole value name n whole.0,
          collect-zip_whole logits names values n (omega (arith, same)) others.1 whole.1,
        )
        refl

  pub collect_present_cache-zip :
      (logits : DynValue) (metadata : KvCacheMetadata) (values : List DynValue)
      → length metadata.present_outputs ≡ length values
      → All IsOther metadata.present_outputs
      → collect_present_cache ort (outputs_of ort logits metadata.present_outputs values) metadata
        ≡ fine (record { values = values })
  unfolding collect_present_cache collect_present_cache_with_limit
  collect_present_cache-zip logits metadata values same others =
      rw (collect-zip logits metadata.present_outputs values same others) refl

  pub collect_present_cache_trimmed-zip :
      (logits : DynValue) (metadata : KvCacheMetadata) (values : List DynValue) (sequence_len : ℕ)
      → length metadata.present_outputs ≡ length values
      → All IsOther metadata.present_outputs
      → All (IsCacheOf sequence_len) values
      → collect_present_cache_trimmed ort
          (outputs_of ort logits metadata.present_outputs values)
          metadata
          sequence_len
        ≡ fine (record { values = values })
  unfolding collect_present_cache_trimmed collect_present_cache_with_limit
  collect_present_cache_trimmed-zip logits metadata values n same others whole =
      rw (collect-zip_whole logits metadata.present_outputs values n same others whole) refl
