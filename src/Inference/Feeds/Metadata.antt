-- ===== src/Inference/Feeds/Metadata.antt =====
-- What the graphs declare: InputMetadata, DecodeInputMetadata and KvCacheMetadata of
-- src/inference/feeds.rs. A set of names is the list of them.
use unlimited_ocr_server.Prelude.{
  ℕ, ◌^◌, Bool, true, false, not, ◌&&◌, ◌||◌, Option, none, some, List, [], ◌∷◌, ◌++◌, map, Text,
  codes, text_eq, strip_prefix, is_empty, lowercase, decimal, ℤ, pos, negsuc, length, get_elem?,
  retain, ltb, ◌==◌, if◌then◌else◌, is_some,
}
use unlimited_ocr_server.Inference.Ort.{
  Anyhow, fine, bail, ◌>>=◌, ok_or, TensorElementType, ValueType, tensor, not_tensor, Outlet,
  Session,
}

pub record KvCacheMetadata : Type 0 where
  pub past_inputs : List Text
  pub present_outputs : List Text

pub record InputMetadata : Type 0 where
  pub names : List Text
  pub image_dtype : TensorElementType
  pub fixed_sequence_length : Option ℕ
  pub kv_cache : KvCacheMetadata
  pub fixed_image_size : Option ℕ

pub record DecodeInputMetadata : Type 0 where
  pub names : List Text
  pub kv_cache : KvCacheMetadata

-- The order of `String`, which is that of the characters
abbrev text_le : Text → Text → Bool
text_le [] t = true
text_le (a ∷ s) [] = false
text_le (a ∷ s) (b ∷ t) = ltb a b || (a == b && text_le s t)

unfoldable pub insert_text : Text → List Text → List Text
insert_text x [] = x ∷ []
insert_text x (y ∷ ys) =
    let later = insert_text x ys in if text_le x y then x ∷ y ∷ ys else y ∷ later

-- `sort` of a vector of strings
unfoldable pub sort_texts : List Text → List Text
unfolding insert_text
sort_texts [] = []
sort_texts (x ∷ xs) = insert_text x (sort_texts xs)

unfoldable pub new : (past_inputs present_outputs : List Text) → KvCacheMetadata
unfolding sort_texts
new past_inputs present_outputs = record {
  past_inputs = sort_texts past_inputs;
  present_outputs = sort_texts present_outputs;
}

unfoldable pub is_supported : KvCacheMetadata → Bool
is_supported kv =
    not (is_empty kv.past_inputs) && length kv.past_inputs == length kv.present_outputs

unfoldable pub can_seed_decode_cache : (prefill decode : KvCacheMetadata) → Bool
can_seed_decode_cache prefill decode =
    not (is_empty prefill.present_outputs)
    && length prefill.present_outputs == length decode.past_inputs

unfoldable pub has_present_outputs : KvCacheMetadata → Bool
has_present_outputs kv = not (is_empty kv.present_outputs)

abbrev has_prefix : Text → Text → Bool
has_prefix prefix s = is_some (strip_prefix prefix s)

unfoldable pub is_past_cache_name : Text → Bool
is_past_cache_name name =
    let normalized = lowercase name in
    has_prefix (codes "past_key_values.") normalized
    || has_prefix (codes "past_key_values_") normalized
    || has_prefix (codes "past.") normalized
    || has_prefix (codes "past_") normalized

unfoldable pub is_present_cache_name : Text → Bool
is_present_cache_name name =
    let normalized = lowercase name in
    has_prefix (codes "present.") normalized
    || has_prefix (codes "present_") normalized
    || has_prefix (codes "present_key_values.") normalized
    || has_prefix (codes "present_key_values_") normalized

abbrev positive : Option ℤ → Option ℤ
positive none = none
positive (some (pos n)) = if n == 0 then none else some (pos n)
positive (some (negsuc n)) = none

unfoldable pub fixed_axis : List ℤ → ℕ → Option ℤ
fixed_axis shape axis = positive (get_elem? shape axis)

-- `map(T::try_from).transpose()` into an unsigned type whose values are below a bound
abbrev transposed : (bound : ℕ) → Option ℤ → Text → Anyhow (Option ℕ)
transposed bound none message = fine none
transposed bound (some (pos n)) message = if ltb n bound then fine (some n) else bail message
transposed bound (some (negsuc n)) message = bail message

-- What the loop over the inputs has found so far.
pub record Inspection : Type 0 where
  pub image_dtype : Option TensorElementType
  pub fixed_sequence_length : Option ℕ
  pub fixed_image_size : Option ℕ

abbrev inspect_image :
    (name : Text) (ty : TensorElementType) (shape : List ℤ) → Inspection → Anyhow Inspection
inspect_image name ty shape found =
    if text_eq name (codes "images_ori")
    then (transposed (2 ^ 32) (positive (get_elem? shape 2))
          (codes "images_ori fixed image size is invalid")
        >>= (λ size. fine (record found { image_dtype = some ty; fixed_image_size = size })))
    else fine found

abbrev inspect_ids : (name : Text) (shape : List ℤ) → Inspection → Anyhow Inspection
inspect_ids name shape found =
    if text_eq name (codes "input_ids")
    then (transposed (2 ^ 64) (positive (get_elem? shape 1))
          (codes "input_ids fixed sequence length is invalid")
        >>= (λ len. fine (record found { fixed_sequence_length = len })))
    else fine found

abbrev inspect_dtype : (name : Text) → ValueType → Inspection → Anyhow Inspection
inspect_dtype name not_tensor found = fine found
inspect_dtype name (tensor ty shape) found =
    inspect_image name ty shape found >>= inspect_ids name shape

unfoldable pub inspect_inputs : List Outlet → Inspection → Anyhow Inspection
inspect_inputs [] found = fine found
inspect_inputs (input ∷ inputs) found =
    inspect_dtype input.name input.dtype found >>= inspect_inputs inputs

abbrev outlet_name : Outlet → Text
outlet_name outlet = outlet.name

-- The message, without the names that were found
abbrev require_image : Option TensorElementType → Anyhow TensorElementType
require_image dtype = ok_or dtype (codes "ONNX graph does not expose required input `images_ori`")

unfoldable pub inspect_input_metadata : Session → Anyhow InputMetadata
unfolding inspect_inputs is_past_cache_name is_present_cache_name new
inspect_input_metadata session = do
  let names = map outlet_name session.inputs
  found ←
      inspect_inputs session.inputs
        (record { image_dtype = none; fixed_sequence_length = none; fixed_image_size = none })
  image_dtype ← require_image found.image_dtype
  fine (record {
    names = names;
    image_dtype = image_dtype;
    fixed_sequence_length = found.fixed_sequence_length;
    kv_cache =
        new (retain is_past_cache_name names)
          (retain is_present_cache_name (map outlet_name session.outputs));
    fixed_image_size = found.fixed_image_size;
  })

unfoldable pub inspect_decode_input_metadata : Session → Anyhow DecodeInputMetadata
unfolding is_past_cache_name is_present_cache_name new
inspect_decode_input_metadata session =
    let names = map outlet_name session.inputs in
    fine (record {
      names = names;
      kv_cache =
          new (retain is_past_cache_name names)
            (retain is_present_cache_name (map outlet_name session.outputs));
    })

abbrev check_size : Option ℕ → ℕ → Anyhow (Unit {0})
check_size none configured = fine tt
check_size (some expected) configured =
    if expected == configured
    then fine tt
    else bail (
        codes "ONNX graph expects image_size="
        ++ (decimal expected ++ (codes ", but config uses image_size=" ++ decimal configured)))

unfoldable pub validate_image_size : InputMetadata → ℕ → Anyhow (Unit {0})
validate_image_size metadata configured = check_size metadata.fixed_image_size configured
