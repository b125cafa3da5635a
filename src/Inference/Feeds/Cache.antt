-- ===== src/Inference/Feeds/Cache.antt =====
-- The key-value cache between the graphs: collect_present_cache and make_decode_feeds of
-- src/inference/feeds.rs.
use unlimited_ocr_server.Prelude.{
  ℕ, zero, suc, not, Option, none, some, List, [], ◌∷◌, ◌++◌, Text, codes, decimal, ℤ, length, ltb,
  ◌==◌, if◌then◌else◌, and_then,
}
use unlimited_ocr_server.Inference.Ort.{
  Anyhow, fine, bail, ◌>>=◌, ◌>>◌, ok_or, bail_if, DynValue, f32_tensor, f16_tensor, bf16_tensor,
  i64_tensor, bool_tensor, other_value, Named, Ort, make_tensor, contains, as_i64, to_usize,
  checked_mul, checked_add, get_range, get_output, remove_output, shape_text,
}
use unlimited_ocr_server.Inference.Feeds.Metadata.{KvCacheMetadata, DecodeInputMetadata}
use unlimited_ocr_server.Inference.Feeds.Inputs.{sequence_shape}

pub record KvCache : Type 0 where
  pub values : List DynValue

pub record DecodeFeedInputs : Type 0 where
  pub input_id : ℤ
  pub position_id : ℤ
  pub cache : KvCache

abbrev pub cache_message : (name text : Text) → Text
cache_message name text = codes "cache tensor `" ++ (name ++ (codes "` " ++ text))

abbrev pub too_large : Text → Text
too_large name = cache_message name (codes "shape is too large")

-- The start of one head's rows in the data.
abbrev pub head_start : (name : Text) (heads stride batch_idx head_idx : ℕ) → Anyhow ℕ
head_start name heads stride batch_idx head_idx =
    ok_or (and_then (checked_mul batch_idx heads) (λ value. checked_add value head_idx))
      (too_large name)
    >>= (λ row. ok_or (checked_mul row stride) (too_large name))

-- The part of one head that is kept.
abbrev pub trim_head :
    {A : Type 0}
    → List A
    → (name : Text) (shape : List ℤ) (heads stride trimmed_stride batch_idx head_idx : ℕ)
    → Anyhow (List A)
trim_head items name shape heads stride trimmed_stride batch_idx head_idx = do
  start ← head_start name heads stride batch_idx head_idx
  end ← ok_or (checked_add start trimmed_stride) (too_large name)
  ok_or (get_range items start end)
      (cache_message name (codes "data length does not match shape " ++ shape_text shape))

-- The loop over the heads from `head_idx`, `left` of them.
unfoldable pub trim_heads :
    {A : Type 0}
    → List A
    → (name : Text) (shape : List ℤ) (heads stride trimmed_stride batch_idx : ℕ) (left head_idx : ℕ)
    → Anyhow (List A)
trim_heads items name shape heads stride trimmed_stride batch_idx zero head_idx = fine []
trim_heads items name shape heads stride trimmed_stride batch_idx (suc left) head_idx = do
  rows ← trim_head items name shape heads stride trimmed_stride batch_idx head_idx
  rest ← trim_heads items name shape heads stride trimmed_stride batch_idx left (suc head_idx)
  fine (rows ++ rest)

-- The loop over the batches from `batch_idx`, `left` of them.
unfoldable pub trim_batches :
    {A : Type 0}
    → List A
    → (name : Text) (shape : List ℤ) (heads stride trimmed_stride : ℕ) (left batch_idx : ℕ)
    → Anyhow (List A)
unfolding trim_heads
trim_batches items name shape heads stride trimmed_stride zero batch_idx = fine []
trim_batches items name shape heads stride trimmed_stride (suc left) batch_idx = do
  rows ← trim_heads items name shape heads stride trimmed_stride batch_idx heads 0
  rest ← trim_batches items name shape heads stride trimmed_stride left (suc batch_idx)
  fine (rows ++ rest)

abbrev pub dimension : (name what : Text) → ℤ → Anyhow ℕ
dimension name what n =
    ok_or (to_usize n) (cache_message name (what ++ codes " dimension is invalid"))

-- The shape and the data of the trimmed tensor.
unfoldable pub trim_typed_cache_tensor :
    {A : Type 0}
    → (shape : List ℤ) → List A
    → (name : Text) (sequence_len : ℕ) → Anyhow (List ℤ × List A)
unfolding trim_batches
trim_typed_cache_tensor (b ∷ h ∷ s ∷ d ∷ []) items name sequence_len = do
  let shape = b ∷ h ∷ s ∷ d ∷ []
  batch ← dimension name (codes "batch") b
  heads ← dimension name (codes "heads") h
  total_sequence ← dimension name (codes "sequence") s
  head_dim ← dimension name (codes "head") d
  bail_if (ltb total_sequence sequence_len) (
      cache_message name (
        codes "has sequence length "
        ++ (decimal total_sequence ++ (codes ", cannot trim to " ++ decimal sequence_len))))
  stride ← ok_or (checked_mul total_sequence head_dim) (too_large name)
  trimmed_stride ← ok_or (checked_mul sequence_len head_dim) (too_large name)
  capacity ←
      ok_or (and_then (checked_mul batch heads) (λ value. checked_mul value trimmed_stride))
        (too_large name)
  trimmed ← trim_batches items name shape heads stride trimmed_stride batch 0
  fine (b ∷ h ∷ as_i64 sequence_len ∷ d ∷ [], trimmed)
trim_typed_cache_tensor shape items name sequence_len =
    bail (cache_message name (codes "has invalid shape " ++ shape_text shape))

module _ (ort : Ort) where
  abbrev extracted : DynValue → (name : Text) → Option Text → Anyhow (Unit {0})
  extracted value name none = fine tt
  extracted value name (some message) =
      bail (cache_message name (codes "extraction failed: " ++ message))

  abbrev created : (name : Text) → DynValue → Anyhow DynValue
  created name =
      make_tensor ort (codes "failed to create trimmed cache tensor `" ++ (name ++ codes "`: "))

  unfoldable pub trim_cache_tensor : DynValue → (name : Text) (sequence_len : ℕ) → Anyhow DynValue
  unfolding trim_typed_cache_tensor
  trim_cache_tensor (f32_tensor shape values) name sequence_len = do
    extracted (f32_tensor shape values) name (ort.try_extract (f32_tensor shape values))
    (kept, items) ← trim_typed_cache_tensor shape values name sequence_len
    created name (f32_tensor kept items)
  trim_cache_tensor (f16_tensor shape values) name sequence_len = do
    extracted (f16_tensor shape values) name (ort.try_extract (f16_tensor shape values))
    (kept, items) ← trim_typed_cache_tensor shape values name sequence_len
    created name (f16_tensor kept items)
  trim_cache_tensor (bf16_tensor shape values) name sequence_len = do
    extracted (bf16_tensor shape values) name (ort.try_extract (bf16_tensor shape values))
    (kept, items) ← trim_typed_cache_tensor shape values name sequence_len
    created name (bf16_tensor kept items)
  trim_cache_tensor (i64_tensor shape values) name sequence_len =
      bail (cache_message name (codes "has unsupported dtype: i64"))
  trim_cache_tensor (bool_tensor shape values) name sequence_len =
      bail (cache_message name (codes "has unsupported dtype: bool"))
  trim_cache_tensor (other_value dtype) name sequence_len =
      bail (cache_message name (codes "has unsupported dtype: " ++ dtype))

  abbrev trim_if : Option ℕ → DynValue → (name : Text) → Anyhow DynValue
  trim_if none value name = fine value
  trim_if (some sequence_len) value name = trim_cache_tensor value name sequence_len

  -- The outputs of these names, in this order, each taken out of the run's outputs.
  unfoldable pub collect_outputs :
      (present_outputs : List Text) → Named → Option ℕ → Anyhow (List DynValue)
  unfolding get_output remove_output trim_cache_tensor
  collect_outputs [] outputs sequence_len = fine []
  collect_outputs (name ∷ present_outputs) outputs sequence_len = do
    value ←
        ok_or (get_output outputs name) (codes "ONNX output `" ++ (name ++ codes "` is missing"))
    kept ← trim_if sequence_len value name
    rest ← collect_outputs present_outputs (remove_output outputs name) sequence_len
    fine (kept ∷ rest)

  unfoldable pub collect_present_cache_with_limit :
      Named → KvCacheMetadata → Option ℕ → Anyhow KvCache
  unfolding collect_outputs
  collect_present_cache_with_limit outputs metadata sequence_len =
      collect_outputs metadata.present_outputs outputs sequence_len
      >>= (λ values. fine (record { values = values }))

  unfoldable pub collect_present_cache : Named → KvCacheMetadata → Anyhow KvCache
  unfolding collect_present_cache_with_limit
  collect_present_cache outputs metadata = collect_present_cache_with_limit outputs metadata none

  unfoldable pub collect_present_cache_trimmed : Named → KvCacheMetadata → ℕ → Anyhow KvCache
  unfolding collect_present_cache_with_limit
  collect_present_cache_trimmed outputs metadata sequence_len =
      collect_present_cache_with_limit outputs metadata (some sequence_len)

  abbrev decode_input : (names : List Text) (what name : Text) → ℤ → Named → Anyhow Named
  decode_input names what name value feeds =
      if contains names name
      then (make_tensor ort (codes "failed to create " ++ (what ++ codes " tensor: "))
            (i64_tensor (sequence_shape 1) (value ∷ []))
          >>= (λ v. fine (feeds ++ (name, v) ∷ [])))
      else fine feeds

  abbrev pub zip_feeds : List Text → List DynValue → Named
  zip_feeds [] values = []
  zip_feeds (name ∷ names) [] = []
  zip_feeds (name ∷ names) (value ∷ values) = (name, value) ∷ zip_feeds names values

  unfoldable pub make_decode_feeds : DecodeInputMetadata → DecodeFeedInputs → Anyhow Named
  make_decode_feeds metadata inputs = do
    let past_inputs = metadata.kv_cache.past_inputs
    feeds ←
        decode_input metadata.names (codes "decode input_ids") (codes "input_ids") inputs.input_id
          []
        >>= decode_input metadata.names (codes "position_ids") (codes "position_ids")
            inputs.position_id
    bail_if (not (length past_inputs == length inputs.cache.values)) (
        codes "decode graph expects "
        ++ (decimal (length past_inputs)
            ++ (codes " cache tensors, but runtime has " ++ decimal (length inputs.cache.values))))
    fine (feeds ++ zip_feeds past_inputs inputs.cache.values)
