-- ===== src/Inference/Samples.antt =====
-- A runtime, small graphs and a worker for runs of the engine of src/inference.rs. The graphs' next
-- token is 2 after two tokens and the end token after three.
use unlimited_ocr_server.Prelude.{
  ℕ, ◌+◌, ◌-◌, ◌*◌, true, Option, none, some, List, [], ◌∷◌, ◌++◌, codes, pos, length, replicate,
  ltb, ◌==◌, if◌then◌else◌,
}
use unlimited_ocr_server.Types.{custom}
use unlimited_ocr_server.Inference.Ort.{
  Anyhow, fine, bail, Ort, Session, Named, DynValue, f32_tensor, i64_tensor, float32, get_output,
}
use unlimited_ocr_server.Inference.Feeds.Metadata.{DecodeInputMetadata}
use unlimited_ocr_server.Inference.Tensor.{Floats}
use unlimited_ocr_server.Inference.Generate.{UnlimitedOcrWorker}

abbrev pub ort : Ort
ort = record {
  from_array = λ value. none;
  try_extract = λ value. none;
  f16_from_f32 = λ bits. bits;
  bf16_from_f32 = λ bits. bits;
  f16_to_f32 = λ bits. bits;
  bf16_to_f32 = λ bits. bits;
}

abbrev pub floats : Floats
floats = record {
  weight = λ logit max temperature. 0;
  add_f64 = λ a b. a;
  sub_f64 = λ a b. a;
  mul_f64 = λ a b. a;
  lt_f64 = λ a b. true;
  clamp_unit = λ a. a;
  scaled_index = λ sample count. 0;
}

abbrev pub samples : ℕ → ℕ
samples n = n

abbrev pub one : ℕ
one = 0x3f80_0000

-- The logits behind a number of tokens
abbrev pub next_row : ℕ → List ℕ
next_row n = if n == 2 then 0 ∷ 0 ∷ one ∷ [] else 0 ∷ one ∷ 0 ∷ []

abbrev pub cache_tensor : ℕ → DynValue
cache_tensor n = f32_tensor (pos 1 ∷ pos 1 ∷ pos n ∷ pos 1 ∷ []) (replicate n one)

abbrev pub prefill_outputs : ℕ → Anyhow Named
prefill_outputs n =
    if ltb 3 n
    then bail (codes "too long")
    else fine (
        (
          codes "logits",
          f32_tensor (pos 1 ∷ pos n ∷ pos 3 ∷ []) (replicate (3 * (n - 1)) 0 ++ next_row n),
        )
        ∷ (codes "present.0", cache_tensor n)
        ∷ [])

abbrev ids_length : Option DynValue → ℕ
ids_length (some (i64_tensor shape values)) = length values
ids_length other = 0

abbrev pub prefill : Session
prefill = record {
  inputs = [];
  outputs = [];
  run = λ feeds. prefill_outputs (ids_length (get_output feeds (codes "input_ids")));
}

abbrev cache_length : Option DynValue → ℕ
cache_length (some (f32_tensor shape values)) = length values
cache_length other = 0

abbrev pub decode_outputs : ℕ → Anyhow Named
decode_outputs n = fine (
    (codes "logits", f32_tensor (pos 1 ∷ pos 1 ∷ pos 3 ∷ []) (next_row n))
    ∷ (codes "present.0", cache_tensor n)
    ∷ [])

-- A cache of `n` positions gives what follows `n + 1` tokens.
abbrev pub decode_graph : Session
decode_graph = record {
  inputs = [];
  outputs = [];
  run = λ feeds. decode_outputs (cache_length (get_output feeds (codes "past.0")) + 1);
}

abbrev pub decode_metadata : DecodeInputMetadata
decode_metadata = record {
  names = codes "input_ids" ∷ codes "position_ids" ∷ codes "past.0" ∷ [];
  kv_cache = record { past_inputs = codes "past.0" ∷ []; present_outputs = codes "present.0" ∷ [] };
}

abbrev pub worker : UnlimitedOcrWorker
worker = record {
  id = 1;
  model_path = [];
  decode_model_path = none;
  model_variant = custom;
  session = some prefill;
  decode_session = some decode_graph;
  tokenizer = record { encode = λ text. fine []; decode = λ ids. fine [] };
  backend = [];
  input_metadata = record {
    names = codes "input_ids" ∷ [];
    image_dtype = float32;
    fixed_sequence_length = none;
    kv_cache = record { past_inputs = []; present_outputs = codes "present.0" ∷ [] };
    fixed_image_size = none;
  };
  decode_input_metadata = some decode_metadata;
  max_new_tokens = 5;
  temperature = 0;
  image_size = 1;
  execution_providers = [];
  inference_device_id = none;
}
