-- ===== src/Inference/Worker.antt =====
-- A worker of the inference engine: UnlimitedOcrWorker of src/inference.rs, made from its
-- configuration and run on one image, and the paths of src/inference/model.rs.
use unlimited_ocr_server.Prelude.{
  ℕ, ◌+◌, Bool, true, false, not, Option, none, some, List, [], ◌∷◌, ◌++◌, Text, codes, is_empty,
  decimal, ℤ, pos, negsuc, length, if◌then◌else◌, unwrap_or,
}
use unlimited_ocr_server.Types.{FilePath, InferenceMetadata}
use unlimited_ocr_server.Config.{Config}
use unlimited_ocr_server.Types.Task.{TaskSpec}
use unlimited_ocr_server.Inference.Ort.{
  Anyhow, fine, ◌>>=◌, ◌>>◌, ok_or, bail_if, TensorElementType, float32, float16, bfloat16,
  other_element, Ort, Session,
}
use unlimited_ocr_server.Inference.Feeds.Metadata.{
  InputMetadata, DecodeInputMetadata, KvCacheMetadata, inspect_input_metadata,
  inspect_decode_input_metadata, validate_image_size, can_seed_decode_cache, is_supported,
}
use unlimited_ocr_server.Inference.Tensor.{Floats}
use unlimited_ocr_server.Inference.Prompt.{
  Tokenizer, prompt_from_task, build_image_prompt, decode_generated_text,
}
use unlimited_ocr_server.Inference.Image.{Images, prepare_image}
use unlimited_ocr_server.Inference.Output.{Statistics, generation_metadata, output_metadata}
use unlimited_ocr_server.Inference.Generate.{UnlimitedOcrWorker, generate}

-- What the engine asks of its surroundings: the file system, how a path is shown, the runtime's
-- devices, and the loading of graphs and tokenizers.
pub record ModelFiles : Type 0 where
  pub exists : FilePath → Bool
  pub display : FilePath → Text
  pub detected_devices : Anyhow (List Text)
  pub load_session : FilePath → List Text → Option ℤ → Anyhow Session
  pub load_tokenizer : FilePath → Anyhow Tokenizer

-- Everything but the last component; `none` for the empty path
abbrev pub parent : FilePath → Option FilePath
parent [] = none
parent (name ∷ []) = some []
parent (name ∷ next ∷ path) = elim (parent (next ∷ path)) [
  | none ↦ none
  | some front ↦ some (name ∷ front)
]

abbrev pub in_dir : FilePath → FilePath
in_dir dir = dir ++ codes "tokenizer.json" ∷ []

module _ (around : ModelFiles) where
  -- The tokenizer stands in the model's directory, or beside the graph.
  unfoldable pub tokenizer_path_for_model : FilePath → Anyhow FilePath
  tokenizer_path_for_model model_path =
      ok_or (parent model_path)
        (codes "model path has no parent directory: " ++ around.display model_path)
      >>= (λ onnx_dir.
          let model_dir = unwrap_or (parent onnx_dir) onnx_dir in
          if around.exists (in_dir model_dir)
          then fine (in_dir model_dir)
          else if around.exists (in_dir onnx_dir)
          then fine (in_dir onnx_dir)
          else fine (in_dir model_dir))

  unfoldable pub validate_model_artifacts : FilePath → Anyhow (Unit {0})
  unfolding tokenizer_path_for_model
  validate_model_artifacts model_path = do
    bail_if (not (around.exists model_path))
        (codes "model file does not exist: " ++ around.display model_path)
    tokenizer_path ← tokenizer_path_for_model model_path
    bail_if (not (around.exists tokenizer_path))
        (codes "tokenizer file does not exist: " ++ around.display tokenizer_path)

  unfoldable pub validate_decode_model_artifact : FilePath → Anyhow (Unit {0})
  validate_decode_model_artifact model_path =
      bail_if (not (around.exists model_path))
        (codes "decode model file does not exist: " ++ around.display model_path)

  abbrev bool_text : Bool → Text
  bool_text true = codes "true"
  bool_text false = codes "false"

  unfoldable pub summary : KvCacheMetadata → Text
  unfolding is_supported
  summary kv =
      codes "past_inputs="
      ++ (decimal (length kv.past_inputs)
          ++ (codes " present_outputs="
              ++ (decimal (length kv.present_outputs)
                  ++ (codes " supported=" ++ bool_text (is_supported kv)))))

  unfoldable pub load_decode_session :
      Config → InputMetadata → Anyhow (Option Session × Option DecodeInputMetadata)
  unfolding inspect_decode_input_metadata can_seed_decode_cache summary
  load_decode_session config prefill_metadata = elim config.decode_model_path [
    | none ↦ fine (none, none)
    | some decode_model_path ↦
        around.load_session decode_model_path config.execution_providers config.inference_device_id
        >>= (λ session. inspect_decode_input_metadata session >>= (λ decode_metadata.
            bail_if (not (can_seed_decode_cache prefill_metadata.kv_cache decode_metadata.kv_cache))
              (codes "decode graph cache interface is incompatible with prefill graph: prefill "
                ++ (summary prefill_metadata.kv_cache
                    ++ (codes " decode " ++ summary decode_metadata.kv_cache)))
            >>= (λ _. fine (some session, some decode_metadata))))
  ]

  abbrev join_commas : List Text → Text
  join_commas [] = []
  join_commas (name ∷ []) = name
  join_commas (name ∷ next ∷ names) = name ++ (b',' ∷ join_commas (next ∷ names))

  abbrev join_or : (empty : Text) → List Text → Text
  join_or empty names = if is_empty names then empty else join_commas names

  abbrev device_text : Option ℤ → Text
  device_text none = codes "default"
  device_text (some (pos n)) = decimal n
  device_text (some (negsuc n)) = b'-' ∷ decimal (n + 1)

  unfoldable pub backend_summary :
      (execution_providers : List Text) → Option ℤ → (reported_devices : List Text) → Text
  backend_summary execution_providers inference_device_id reported_devices =
      codes "ort:requested_execution_providers="
      ++ (join_or (codes "auto") execution_providers
          ++ (codes ";configured_device_id="
              ++ (device_text inference_device_id
                  ++ (codes ";reported_devices=" ++ join_or (codes "none") reported_devices))))

  unfoldable pub make_worker : (id : ℕ) → Config → Anyhow UnlimitedOcrWorker
  unfolding validate_model_artifacts validate_decode_model_artifact inspect_input_metadata
      validate_image_size load_decode_session tokenizer_path_for_model backend_summary
  make_worker id config = do
    validate_model_artifacts config.model_path
    elim config.decode_model_path [
      | none ↦ fine tt
      | some path ↦ validate_decode_model_artifact path
    ]
    devices ← around.detected_devices
    session ←
        around.load_session config.model_path config.execution_providers config.inference_device_id
    input_metadata ← inspect_input_metadata session
    validate_image_size input_metadata config.model_image_size
    (decode_session, decode_input_metadata) ← load_decode_session config input_metadata
    tokenizer_path ← tokenizer_path_for_model config.model_path
    tokenizer ← around.load_tokenizer tokenizer_path
    fine (record {
      id = id;
      model_path = config.model_path;
      decode_model_path = config.decode_model_path;
      model_variant = config.model_variant;
      session = some session;
      decode_session = decode_session;
      tokenizer = tokenizer;
      backend = backend_summary config.execution_providers config.inference_device_id devices;
      input_metadata = input_metadata;
      decode_input_metadata = decode_input_metadata;
      max_new_tokens = config.max_new_tokens;
      temperature = config.temperature;
      image_size = config.model_image_size;
      execution_providers = config.execution_providers;
      inference_device_id = config.inference_device_id;
    })

abbrev element_text : TensorElementType → Text
element_text float32 = codes "f32"
element_text float16 = codes "f16"
element_text bfloat16 = codes "bf16"
element_text (other_element name) = name

-- `elapsed_ms` is what the clock says between start and end.
unfoldable pub infer :
    Ort
    → Floats
    → Images
    → (samples : ℕ → ℕ) → Statistics
    → (elapsed_ms : ℕ) → UnlimitedOcrWorker
    → (image_path : FilePath) → TaskSpec
    → Anyhow InferenceMetadata
unfolding prompt_from_task prepare_image build_image_prompt generate decode_generated_text
    generation_metadata output_metadata
infer ort floats images samples statistics elapsed_ms worker image_path task = do
  let prompt = prompt_from_task task
  (image_array, (original_width, original_height)) ←
      prepare_image images image_path worker.image_size
  prompt_inputs ← build_image_prompt worker.tokenizer prompt worker.image_size
  generated_ids ← generate ort floats samples worker (record {
    input_ids = prompt_inputs.input_ids;
    images_seq_mask = prompt_inputs.images_seq_mask;
    image_array = image_array;
  })
  generated_text ← decode_generated_text worker.tokenizer generated_ids
  let generation = generation_metadata prompt generated_text (length generated_ids)
  fine (record {
    backend = worker.backend;
    model_path = worker.model_path;
    model_variant = worker.model_variant;
    input_name = codes "images_ori";
    input_dtype = element_text worker.input_metadata.image_dtype;
    original_width = original_width;
    original_height = original_height;
    processed_width = worker.image_size;
    processed_height = worker.image_size;
    elapsed_ms = elapsed_ms;
    task_token = generation.task_token;
    prompt_text = generation.prompt_text;
    generated_text = generated_text;
    generated_tokens = generation.generated_tokens;
    result = generation.result;
    generations = generation ∷ [];
    outputs = output_metadata statistics worker.image_size image_array (length generated_ids);
  })
