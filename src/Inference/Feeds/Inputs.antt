-- ===== src/Inference/Feeds/Inputs.antt =====
-- The inputs of the prefill graph: make_feeds of src/inference/feeds.rs.
use unlimited_ocr_server.Prelude.{
  ℕ, ◌-◌, ◌*◌, Bool, false, Option, none, some, List, [], ◌∷◌, ◌++◌, map, Text, codes, decimal, ℤ,
  pos, length, replicate, ltb, if◌then◌else◌,
}
use unlimited_ocr_server.Inference.Ort.{
  Anyhow, fine, bail, ◌>>=◌, TensorElementType, float32, float16, bfloat16, other_element, DynValue,
  f32_tensor, f16_tensor, bf16_tensor, i64_tensor, bool_tensor, Named, Ort, make_tensor, contains,
  as_i64,
}
use unlimited_ocr_server.Inference.Feeds.Metadata.{InputMetadata}

pub record FeedInputs : Type 0 where
  pub input_ids : List ℤ
  pub images_seq_mask : List Bool
  pub image_array : List ℕ

abbrev pub sequence_shape : ℕ → List ℤ
sequence_shape values_len = pos 1 ∷ as_i64 values_len ∷ []

-- The values, padded to the fixed length of the graph if it has one.
unfoldable pub prepare_1d :
    {A : Type 0}
    → List A
    → (fixed_length : Option ℕ) → (pad_value : A) → (input_name : Text) → Anyhow (List A)
prepare_1d values none pad_value input_name = fine values
prepare_1d values (some fixed_length) pad_value input_name =
    if ltb fixed_length (length values)
    then bail (
        codes "input `"
        ++ (input_name
            ++ (codes "` has "
                ++ (decimal (length values)
                    ++ (codes " tokens, but the ONNX graph is fixed to "
                        ++ decimal fixed_length)))))
    else fine (values ++ replicate (fixed_length - length values) pad_value)

module _ (ort : Ort) where
  unfoldable pub image_tensor :
      (values : List ℕ) (image_size : ℕ) → TensorElementType → Anyhow DynValue
  image_tensor values image_size float32 =
      make_tensor ort (codes "failed to create f32 image tensor: ")
        (f32_tensor (pos 1 ∷ pos 3 ∷ pos image_size ∷ pos image_size ∷ []) values)
  image_tensor values image_size float16 =
      make_tensor ort (codes "failed to create f16 image tensor: ") (
        f16_tensor (pos 1 ∷ pos 3 ∷ pos image_size ∷ pos image_size ∷ [])
          (map ort.f16_from_f32 values))
  image_tensor values image_size bfloat16 =
      make_tensor ort (codes "failed to create bf16 image tensor: ") (
        bf16_tensor (pos 1 ∷ pos 3 ∷ pos image_size ∷ pos image_size ∷ [])
          (map ort.bf16_from_f32 values))
  image_tensor values image_size (other_element name) = bail (
      codes "unsupported images_ori input dtype `"
      ++ (name ++ codes "`; expected f32, f16, or bf16"))

  -- The feeds with one more if the graph has an input of that name.
  abbrev append : (names : List Text) (name : Text) → Anyhow DynValue → Named → Anyhow Named
  append names name value feeds =
      if contains names name then (value >>= (λ v. fine (feeds ++ (name, v) ∷ []))) else fine feeds

  unfoldable pub append_input_ids : InputMetadata → List ℤ → Named → Anyhow Named
  unfolding prepare_1d
  append_input_ids metadata input_ids = append metadata.names (codes "input_ids") (
      prepare_1d input_ids metadata.fixed_sequence_length (pos 0) (codes "input_ids") >>= (λ values.
        make_tensor ort (codes "failed to create input_ids tensor: ")
          (i64_tensor (sequence_shape (length values)) values)))

  unfoldable pub append_attention_mask : InputMetadata → List ℤ → Named → Anyhow Named
  unfolding prepare_1d
  append_attention_mask metadata input_ids = append metadata.names (codes "attention_mask") (
      prepare_1d (replicate (length input_ids) (pos 1)) metadata.fixed_sequence_length (pos 0)
        (codes "attention_mask")
      >>= (λ values.
          make_tensor ort (codes "failed to create attention_mask tensor: ")
            (i64_tensor (sequence_shape (length values)) values)))

  unfoldable pub append_image : InputMetadata → (image_size : ℕ) → List ℕ → Named → Anyhow Named
  unfolding image_tensor
  append_image metadata image_size image_array =
      append metadata.names (codes "images_ori")
        (image_tensor image_array image_size metadata.image_dtype)

  unfoldable pub append_image_crop : InputMetadata → (image_size : ℕ) → Named → Anyhow Named
  unfolding image_tensor
  append_image_crop metadata image_size =
      append metadata.names (codes "images_crop")
        (image_tensor (replicate (3 * image_size * image_size) 0) image_size metadata.image_dtype)

  unfoldable pub append_image_sequence_mask : InputMetadata → List Bool → Named → Anyhow Named
  unfolding prepare_1d
  append_image_sequence_mask metadata images_seq_mask =
      append metadata.names (codes "images_seq_mask") (
        prepare_1d images_seq_mask metadata.fixed_sequence_length false (codes "images_seq_mask")
        >>= (λ values.
            make_tensor ort (codes "failed to create images_seq_mask tensor: ")
              (bool_tensor (sequence_shape (length values)) values)))

  unfoldable pub append_spatial_crop : InputMetadata → Named → Anyhow Named
  append_spatial_crop metadata = append metadata.names (codes "images_spatial_crop") (
      make_tensor ort (codes "failed to create images_spatial_crop tensor: ")
        (i64_tensor (pos 1 ∷ pos 2 ∷ []) (pos 1 ∷ pos 1 ∷ [])))

  unfoldable pub make_feeds : InputMetadata → (image_size : ℕ) → FeedInputs → Anyhow Named
  unfolding append_input_ids append_attention_mask append_image append_image_crop
      append_image_sequence_mask append_spatial_crop
  make_feeds metadata image_size inputs =
      append_input_ids metadata inputs.input_ids []
      >>= append_attention_mask metadata inputs.input_ids
      >>= append_image metadata image_size inputs.image_array
      >>= append_image_crop metadata image_size
      >>= append_image_sequence_mask metadata inputs.images_seq_mask
      >>= append_spatial_crop metadata
