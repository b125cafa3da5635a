-- ===== src/Inference/Output.antt =====
-- What an inference reports: generation_metadata and output_metadata of src/inference.rs and
-- tensor_metadata_f32 of src/inference/tensor.rs.
use unlimited_ocr_server.Prelude.{
  ℕ, ◌+◌, ◌^◌, none, some, List, [], ◌∷◌, Text, codes, is_empty, ℤ, pos, length, if◌then◌else◌,
}
use unlimited_ocr_server.Types.{GenerationMetadata, TensorMetadata}
use unlimited_ocr_server.Inference.Ort.{as_i64}
use unlimited_ocr_server.Inference.Parse.{parse_ocr_result}
use unlimited_ocr_server.Inference.Tensor.{f32_infinity}

-- Arithmetic of floats: the lesser and the greater of two, the sum of an f64 and an f32, and the
-- quotient of an f64 and a number as an f32.
pub record Statistics : Type 0 where
  pub min_f32 : ℕ → ℕ → ℕ
  pub max_f32 : ℕ → ℕ → ℕ
  pub add_f32 : (sum value : ℕ) → ℕ
  pub mean_f32 : (sum count : ℕ) → ℕ

unfoldable pub generation_metadata :
    (prompt_text generated_text : Text) (generated_tokens : ℕ) → GenerationMetadata
unfolding parse_ocr_result
generation_metadata prompt_text generated_text generated_tokens = record {
  task_token = codes "unlimited_ocr";
  prompt_text = prompt_text;
  generated_text = generated_text;
  generated_tokens = generated_tokens;
  result = parse_ocr_result generated_text;
}

-- The infinity with the sign bit
abbrev f32_neg_infinity : ℕ
f32_neg_infinity = f32_infinity + 2 ^ 31

module _ (floats : Statistics) where
  -- The loop over the data
  unfoldable pub tensor_stats : (least greatest sum : ℕ) → List ℕ → ℕ × (ℕ × ℕ)
  tensor_stats least greatest sum [] = (least, (greatest, sum))
  tensor_stats least greatest sum (value ∷ values) =
      tensor_stats (floats.min_f32 least value) (floats.max_f32 greatest value)
        (floats.add_f32 sum value) values

  unfoldable pub tensor_metadata_f32 : (name : Text) (shape : List ℤ) → List ℕ → TensorMetadata
  unfolding tensor_stats
  tensor_metadata_f32 name shape values =
      let (least, (greatest, sum)) = tensor_stats f32_infinity f32_neg_infinity 0 values in
      record {
        name = name;
        shape = shape;
        elements = length values;
        mean = if is_empty values then none else some (floats.mean_f32 sum (length values));
        min = if is_empty values then none else some least;
        max = if is_empty values then none else some greatest;
      }

  unfoldable pub output_metadata :
      (image_size : ℕ) → List ℕ → (generated_tokens : ℕ) → List TensorMetadata
  unfolding tensor_metadata_f32
  output_metadata image_size image_array generated_tokens =
      tensor_metadata_f32 (codes "images_ori")
        (pos 1 ∷ pos 3 ∷ pos image_size ∷ pos image_size ∷ []) image_array
      ∷ record {
        name = codes "generated_token_ids";
        shape = pos 1 ∷ as_i64 generated_tokens ∷ [];
        elements = generated_tokens;
        mean = none;
        min = none;
        max = none;
      }
      ∷ []
