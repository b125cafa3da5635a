-- ===== src/Inference/Tensor.antt =====
-- The choice of the next token: src/inference/tensor.rs. Floats are their bit patterns; the
-- arithmetic of the weights is a parameter, the tests and the order `total_cmp` are written out.
pub mod Alone
pub mod Greatest
pub mod Vocabulary
use unlimited_ocr_server.Prelude.{
  ℕ, suc, ◌+◌, ◌-◌, ◌/◌, ◌%◌, ◌^◌, min, max, Bool, not, ◌&&◌, ◌||◌, Option, none, some, List, [],
  ◌∷◌, ◌++◌, map, Text, codes, decimal, ℤ, length, retain, ltb, leb, ◌==◌, if◌then◌else◌,
}
use unlimited_ocr_server.Inference.Ort.{
  Anyhow, fine, bail, ◌>>=◌, ◌>>◌, ok_or, bail_if, DynValue, f32_tensor, f16_tensor, bf16_tensor,
  i64_tensor, bool_tensor, other_value, Ort, as_i64, to_usize, checked_mul, checked_add, get_range,
  shape_text,
}

-- f32 and f64 arithmetic: the weight `((logit - max) / temperature).exp() as f64`, the operations
-- on f64, `clamp(0.0, 1.0)`, and `(sample * count as f64).floor() as usize`.
pub record Floats : Type 0 where
  pub weight : (logit max temperature : ℕ) → ℕ
  pub add_f64 : ℕ → ℕ → ℕ
  pub sub_f64 : ℕ → ℕ → ℕ
  pub mul_f64 : ℕ → ℕ → ℕ
  pub lt_f64 : ℕ → ℕ → Bool
  pub clamp_unit : ℕ → ℕ
  pub scaled_index : (sample count : ℕ) → ℕ

-- `f32::is_finite`
abbrev pub is_finite : ℕ → Bool
is_finite bits = not ((bits / 2 ^ 23) % 2 ^ 8 == 255)

abbrev pub f32_infinity : ℕ
f32_infinity = 0x7f80_0000

-- `== 0.0`, of either sign
abbrev pub is_zero : ℕ → Bool
is_zero bits = bits == 0 || bits == 2 ^ 31

-- A key in the order of `f32::total_cmp`: negative numbers count down.
abbrev pub total_key : ℕ → ℕ
total_key bits = if ltb bits (2 ^ 31) then bits + 2 ^ 31 else 2 ^ 32 - 1 - bits

-- `is_finite() && > 0.0` of an f64
abbrev pub is_weight : ℕ → Bool
is_weight bits = ltb 0 bits && ltb bits 0x7ff0_0000_0000_0000

-- `max_by` of `enumerate`: the last of the greatest.
unfoldable pub argmax_from : (best_idx best idx : ℕ) → List ℕ → ℕ
argmax_from best_idx best idx [] = best_idx
argmax_from best_idx best idx (value ∷ row) =
    let keep = argmax_from best_idx best (suc idx) row in
    let take_it = argmax_from idx value (suc idx) row in
    if ltb (total_key value) (total_key best) then keep else take_it

abbrev pub no_token : Text
no_token = codes "failed to select next token from logits"

unfoldable pub argmax_token_from_logits_row : List ℕ → Anyhow ℤ
unfolding argmax_from
argmax_token_from_logits_row [] = bail no_token
argmax_token_from_logits_row (value ∷ row) = fine (as_i64 (argmax_from 0 value 1 row))

-- The index of the `n`-th infinite logit.
unfoldable pub nth_infinity : (n idx : ℕ) → List ℕ → Option ℕ
nth_infinity n idx [] = none
nth_infinity n idx (value ∷ row) =
    let here = nth_infinity (n - 1) (suc idx) row in
    let later = nth_infinity n (suc idx) row in
    if value == f32_infinity then (if n == 0 then some idx else here) else later

-- `max_by(f32::total_cmp)` of the finite logits
unfoldable pub max_finite : List ℕ → Option ℕ
max_finite [] = none
max_finite (value ∷ row) = elim (max_finite row) [
  | none ↦ if is_finite value then some value else none
  | some best ↦
      if is_finite value && ltb (total_key best) (total_key value) then some value else some best
]

abbrev pub as_token : Option ℕ → Text → Anyhow ℤ
as_token none message = bail message
as_token (some idx) message = fine (as_i64 idx)

module _ (floats : Floats) where
  abbrev pub weight_of : (max temperature logit : ℕ) → ℕ
  weight_of max temperature logit = floats.weight logit max temperature

  -- The logits that the loops do not pass over.
  abbrev pub counts : (max temperature logit : ℕ) → Bool
  counts max temperature logit = is_finite logit && is_weight (weight_of max temperature logit)

  unfoldable pub total_weight : (max temperature total : ℕ) → List ℕ → ℕ
  total_weight max temperature total [] = total
  total_weight max temperature total (logit ∷ logits) =
      let skipped = total_weight max temperature total logits in
      let added =
        total_weight max temperature (floats.add_f64 total (weight_of max temperature logit))
          logits in
      if counts max temperature logit then added else skipped

  unfoldable pub walk_weights :
      (max temperature remaining : ℕ) (fallback : Option ℕ) (idx : ℕ) → List ℕ → Option ℕ
  walk_weights max temperature remaining fallback idx [] = fallback
  walk_weights max temperature remaining fallback idx (logit ∷ logits) =
      let weight = weight_of max temperature logit in
      let skipped = walk_weights max temperature remaining fallback (suc idx) logits in
      let later =
        walk_weights max temperature (floats.sub_f64 remaining weight) (some idx) (suc idx)
          logits in
      if counts max temperature logit
      then (if floats.lt_f64 remaining weight then some idx else later)
      else skipped

  abbrev pub select_weighted : (logits : List ℕ) (temperature sample : ℕ) → Anyhow ℤ
  select_weighted logits temperature sample = ok_or (max_finite logits) no_token >>= (λ max.
      let total = total_weight max temperature 0 logits in
      if is_weight total
      then as_token
          (walk_weights max temperature (floats.mul_f64 (floats.clamp_unit sample) total) none 0
            logits)
          no_token
      else bail no_token)

  unfoldable pub select_token_from_logits_row : (row : List ℕ) (temperature sample : ℕ) → Anyhow ℤ
  unfolding argmax_token_from_logits_row nth_infinity max_finite total_weight walk_weights
  select_token_from_logits_row row temperature sample =
      let infinite = length (retain (λ value. value == f32_infinity) row) in
      if is_zero temperature
      then argmax_token_from_logits_row row
      else if ltb 0 infinite
      then as_token
          (nth_infinity
            (min (floats.scaled_index (floats.clamp_unit sample) infinite) (infinite - 1)) 0 row)
          (codes "failed to select next token from infinite logits")
      else select_weighted row temperature sample

  -- The row of logits at the position, once the shape has three dimensions.
  abbrev pub row_at :
      (shape : List ℤ) (values : List ℕ) (position seq_len vocab_size : ℕ) → Anyhow (List ℕ)
  row_at shape values position seq_len vocab_size = do
    bail_if (leb seq_len position || vocab_size == 0) (
        codes "logits tensor shape "
        ++ (shape_text shape ++ (codes " cannot select position " ++ decimal position)))
    start ← ok_or (checked_mul position vocab_size) (codes "logits shape is too large")
    end ← ok_or (checked_add start vocab_size) (codes "logits shape is too large")
    ok_or (get_range values start end)
        (codes "logits data length does not match shape " ++ shape_text shape)

  unfoldable pub sample_token_at_position :
      (shape : List ℤ) (values : List ℕ) (position temperature sample : ℕ) (to_f32 : ℕ → ℕ)
      → Anyhow ℤ
  unfolding select_token_from_logits_row
  sample_token_at_position (b ∷ s ∷ v ∷ []) values position temperature sample to_f32 = do
    seq_len ←
        ok_or (to_usize s) (codes "logits sequence length is invalid: " ++ shape_text (s ∷ []))
    vocab_size ←
        ok_or (to_usize v) (codes "logits vocabulary size is invalid: " ++ shape_text (v ∷ []))
    row ← row_at (b ∷ s ∷ v ∷ []) values position seq_len vocab_size
    select_token_from_logits_row (map to_f32 row) temperature sample
  sample_token_at_position shape values position temperature sample to_f32 =
      bail (codes "logits tensor has invalid shape " ++ shape_text shape)

  module _ (ort : Ort) where
    abbrev pub readable : (name what : Text) → DynValue → Anyhow (Unit {0})
    readable name what value = elim (ort.try_extract value) [
      | none ↦ fine tt
      | some message ↦ bail (
          codes "output `"
          ++ (name ++ (codes "` is not " ++ (what ++ (codes " tensor: " ++ message)))))
    ]

    abbrev pub is_temperature : ℕ → Bool
    is_temperature temperature =
        is_finite temperature && (ltb temperature (2 ^ 31) || is_zero temperature)

    abbrev pub sample_dtype : DynValue → (name : Text) (position temperature sample : ℕ) → Anyhow ℤ
    sample_dtype (f32_tensor shape values) name position temperature sample =
        readable name (codes "an f32") (f32_tensor shape values)
        >>= (λ _. sample_token_at_position shape values position temperature sample (λ bits. bits))
    sample_dtype (f16_tensor shape values) name position temperature sample =
        readable name (codes "an f16") (f16_tensor shape values)
        >>= (λ _. sample_token_at_position shape values position temperature sample ort.f16_to_f32)
    sample_dtype (bf16_tensor shape values) name position temperature sample =
        readable name (codes "a bf16") (bf16_tensor shape values)
        >>= (λ _. sample_token_at_position shape values position temperature sample ort.bf16_to_f32)
    sample_dtype (i64_tensor shape values) name position temperature sample =
        bail (codes "output `" ++ (name ++ codes "` has unsupported dtype: i64"))
    sample_dtype (bool_tensor shape values) name position temperature sample =
        bail (codes "output `" ++ (name ++ codes "` has unsupported dtype: bool"))
    sample_dtype (other_value dtype) name position temperature sample =
        bail (codes "output `" ++ (name ++ (codes "` has unsupported dtype: " ++ dtype)))

    -- `sample` is the number that the random generator gives.
    unfoldable pub sample_token_from_output_at_position :
        DynValue → (name : Text) (position temperature sample : ℕ) → Anyhow ℤ
    unfolding sample_token_at_position
    sample_token_from_output_at_position value name position temperature sample =
        if is_temperature temperature
        then sample_dtype value name position temperature sample
        else bail (codes "temperature must be a finite number 0 or greater")
