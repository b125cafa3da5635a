-- ===== src/Inference/Generate.antt =====
-- The generation of tokens: src/inference.rs. The runs of the graphs are those of their sessions;
-- the numbers that the random generator gives are `samples`, one for each token.
pub mod Stops
pub mod Agree
pub mod Parts
pub mod Refine
use unlimited_ocr_server.Prelude.{
  ℕ, zero, suc, ◌+◌, ◌-◌, min, Bool, true, false, ◌&&◌, Option, none, some, List, [], ◌∷◌, ◌++◌,
  Text, codes, decimal, ℤ, int_eq, length, ltb, if◌then◌else◌, is_some,
}
use unlimited_ocr_server.Prelude.Search.{find}
use unlimited_ocr_server.Types.{FilePath, ModelVariant}
use unlimited_ocr_server.Inference.Ort.{
  Anyhow, fine, bail, ◌>>=◌, ◌>>◌, ok_or, bail_if, DynValue, Named, Ort, Session, as_i64,
  get_output,
}
use unlimited_ocr_server.Inference.Feeds.Metadata.{
  InputMetadata, DecodeInputMetadata, can_seed_decode_cache,
}
use unlimited_ocr_server.Inference.Feeds.Inputs.{make_feeds}
use unlimited_ocr_server.Inference.Feeds.Cache.{
  KvCache, collect_present_cache, collect_present_cache_trimmed, make_decode_feeds,
}
use unlimited_ocr_server.Inference.Tensor.{Floats, sample_token_from_output_at_position}
use unlimited_ocr_server.Inference.Prompt.{Tokenizer, eos_token_id}

pub record UnlimitedOcrWorker : Type 0 where
  pub id : ℕ
  pub model_path : FilePath
  pub decode_model_path : Option FilePath
  pub model_variant : ModelVariant
  pub session : Option Session
  pub decode_session : Option Session
  pub tokenizer : Tokenizer
  pub backend : Text
  pub input_metadata : InputMetadata
  pub decode_input_metadata : Option DecodeInputMetadata
  pub max_new_tokens : ℕ
  pub temperature : ℕ
  pub image_size : ℕ
  pub execution_providers : List Text
  pub inference_device_id : Option ℤ

pub record GenerationState : Type 0 where
  pub input_ids : List ℤ
  pub images_seq_mask : List Bool
  pub image_array : List ℕ

-- The worker whose sessions are taken, and the one that has them.
unfoldable pub take_for_blocking : UnlimitedOcrWorker → UnlimitedOcrWorker × UnlimitedOcrWorker
take_for_blocking worker = (record worker { session = none; decode_session = none }, worker)

abbrev prompt_too_long : (prompt_tokens fixed_sequence_length : ℕ) → Text
prompt_too_long prompt_tokens fixed_sequence_length =
    codes "prompt uses "
    ++ (decimal prompt_tokens
        ++ (codes " tokens, but the ONNX graph is fixed to "
            ++ (decimal fixed_sequence_length
                ++ codes
                    "; shorten text_input or use a model exported with a longer sequence length")))

unfoldable pub generation_step_limit :
    (prompt_tokens requested_max_new_tokens : ℕ) → Option ℕ → Anyhow ℕ
generation_step_limit prompt_tokens requested none = fine requested
generation_step_limit prompt_tokens requested (some fixed) =
    if ltb fixed prompt_tokens
    then bail (prompt_too_long prompt_tokens fixed)
    else fine (min requested (fixed - prompt_tokens + 1))

unfoldable pub validate_prompt_for_prefill_cache :
    (prompt_tokens : ℕ) → Option ℕ → Anyhow (Unit {0})
validate_prompt_for_prefill_cache prompt_tokens none = fine tt
validate_prompt_for_prefill_cache prompt_tokens (some fixed) =
    bail_if (ltb fixed prompt_tokens) (prompt_too_long prompt_tokens fixed)

unfoldable pub cache_input_error : Text → Text
cache_input_error err =
    if is_some (find (codes "fixed to") err)
    then err ++ codes ". Re-export with --dynamic-image or increase --image-sequence-length."
    else err

-- `map_err`
abbrev pub map_message : {A : Type 0} → (Text → Text) → Anyhow A → Anyhow A
map_message f (fine a) = fine a
map_message f (bail message) = bail (f message)

-- `checked_sub(1)` of the length
abbrev pub last_position : List ℤ → Anyhow ℕ
last_position [] = bail (codes "input_ids cannot be empty")
last_position (id ∷ ids) = fine (length ids)

abbrev pub push_token : ℤ → GenerationState → GenerationState
push_token token state = record state {
  input_ids = state.input_ids ++ token ∷ [];
  images_seq_mask = state.images_seq_mask ++ false ∷ [];
}

unfoldable pub can_generate_with_kv_cache : UnlimitedOcrWorker → Bool
unfolding can_seed_decode_cache
can_generate_with_kv_cache worker = elim worker.decode_input_metadata [
  | none ↦ false
  | some decode_metadata ↦
      is_some worker.decode_session
      && can_seed_decode_cache worker.input_metadata.kv_cache decode_metadata.kv_cache
]

module _ (ort : Ort) (floats : Floats) (samples : ℕ → ℕ) where
  abbrev pub feeds_of : UnlimitedOcrWorker → GenerationState → Anyhow Named
  feeds_of worker state = map_message cache_input_error (
      make_feeds ort worker.input_metadata worker.image_size (record {
        input_ids = state.input_ids;
        images_seq_mask = state.images_seq_mask;
        image_array = state.image_array;
      }))

  abbrev unavailable : UnlimitedOcrWorker → (what : Text) → Text
  unavailable worker what =
      codes "worker " ++ (decimal worker.id ++ (codes " " ++ (what ++ codes " is unavailable")))

  abbrev run_session : Session → (failed : Text) → Named → Anyhow Named
  run_session session failed feeds = map_message (λ err. failed ++ err) (session.run feeds)

  -- `outputs[0]`, which panics for a graph without outputs: an error here
  abbrev first_output : Named → Anyhow DynValue
  first_output [] = bail (codes "output index out of range")
  first_output ((name, value) ∷ outputs) = fine value

  -- The graph runs on the whole sequence; `draw` counts the tokens so far.
  unfoldable pub run_model : UnlimitedOcrWorker → GenerationState → (position draw : ℕ) → Anyhow ℤ
  unfolding make_feeds cache_input_error sample_token_from_output_at_position
  run_model worker state position draw = do
    feeds ← feeds_of worker state
    session ← ok_or worker.session (unavailable worker (codes "ONNX session"))
    outputs ← run_session session (codes "Unlimited-OCR ONNX inference failed: ") feeds
    logits ← first_output outputs
    sample_token_from_output_at_position floats ort logits (codes "logits") position
        worker.temperature (samples draw)

  unfoldable pub run_prefill_model :
      UnlimitedOcrWorker → GenerationState → (position draw : ℕ) → Anyhow (ℤ × KvCache)
  unfolding make_feeds cache_input_error sample_token_from_output_at_position get_output
      collect_present_cache_trimmed
  run_prefill_model worker state position draw = do
    feeds ← feeds_of worker state
    session ← ok_or worker.session (unavailable worker (codes "ONNX session"))
    outputs ← run_session session (codes "Unlimited-OCR prefill ONNX inference failed: ") feeds
    logits ← ok_or (get_output outputs (codes "logits")) (codes "ONNX output `logits` is missing")
    next_token_id ←
        sample_token_from_output_at_position floats ort logits (codes "logits") position
          worker.temperature (samples draw)
    cache ←
        collect_present_cache_trimmed ort outputs worker.input_metadata.kv_cache
          (length state.input_ids)
    fine (next_token_id, cache)

  unfoldable pub run_decode_model :
      UnlimitedOcrWorker
      → (input_id : ℤ) (position : ℕ) → KvCache
      → (draw : ℕ) → Anyhow (ℤ × KvCache)
  unfolding make_decode_feeds sample_token_from_output_at_position get_output collect_present_cache
  run_decode_model worker input_id position cache draw = do
    metadata ← ok_or worker.decode_input_metadata (unavailable worker (codes "decode metadata"))
    feeds ←
        make_decode_feeds ort metadata
          (record { input_id = input_id; position_id = as_i64 position; cache = cache })
    session ← ok_or worker.decode_session (unavailable worker (codes "decode ONNX session"))
    outputs ← run_session session (codes "Unlimited-OCR decode ONNX inference failed: ") feeds
    logits ← ok_or (get_output outputs (codes "logits")) (codes "ONNX output `logits` is missing")
    next_token_id ←
        sample_token_from_output_at_position floats ort logits (codes "logits") 0 worker.temperature
          (samples draw)
    next_cache ← collect_present_cache ort outputs metadata.kv_cache
    fine (next_token_id, next_cache)

  -- The tokens of the loop over the whole sequence, `steps` at most.
  unfoldable pub full_steps :
      UnlimitedOcrWorker → (steps : ℕ) → GenerationState → (draw : ℕ) → Anyhow (List ℤ)
  unfolding run_model
  full_steps worker zero state draw = fine []
  full_steps worker (suc steps) state draw = do
    position ← last_position state.input_ids
    token ← run_model worker state position draw
    elim (int_eq token eos_token_id) [
      | true ↦ fine (token ∷ [])
      | false ↦ do
        rest ← full_steps worker steps (push_token token state) (suc draw)
        fine (token ∷ rest)
    ]

  -- The tokens of the decode loop after `token`, `left` at most.
  unfoldable pub decode_steps :
      UnlimitedOcrWorker
      → (left : ℕ) (token : ℤ) → KvCache
      → GenerationState
      → (draw : ℕ) → Anyhow (List ℤ)
  unfolding run_decode_model
  decode_steps worker zero token cache state draw = fine []
  decode_steps worker (suc left) token cache state draw = elim (int_eq token eos_token_id) [
    | true ↦ fine []
    | false ↦ do
      position ← last_position state.input_ids
      (next, next_cache) ← run_decode_model worker token position cache draw
      rest ← decode_steps worker left next next_cache (push_token next state) (suc draw)
      fine (next ∷ rest)
  ]

  unfoldable pub generate_with_kv_cache : UnlimitedOcrWorker → GenerationState → Anyhow (List ℤ)
  unfolding validate_prompt_for_prefill_cache run_prefill_model decode_steps
  generate_with_kv_cache worker state = do
    validate_prompt_for_prefill_cache (length state.input_ids)
        worker.input_metadata.fixed_sequence_length
    position ← last_position state.input_ids
    (token, cache) ← run_prefill_model worker state position 0
    rest ← decode_steps worker (worker.max_new_tokens - 1) token cache (push_token token state) 1
    fine (token ∷ rest)

  unfoldable pub generate_full_sequence : UnlimitedOcrWorker → GenerationState → Anyhow (List ℤ)
  unfolding generation_step_limit full_steps
  generate_full_sequence worker state =
      generation_step_limit (length state.input_ids) worker.max_new_tokens
        worker.input_metadata.fixed_sequence_length
      >>= (λ max_steps. full_steps worker max_steps state 0)

  unfoldable pub generate : UnlimitedOcrWorker → GenerationState → Anyhow (List ℤ)
  unfolding can_generate_with_kv_cache generate_with_kv_cache generate_full_sequence
  generate worker state =
      if can_generate_with_kv_cache worker
      then generate_with_kv_cache worker state
      else generate_full_sequence worker state
