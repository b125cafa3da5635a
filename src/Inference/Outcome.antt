-- ===== src/Inference/Outcome.antt =====
-- What an inference of src/inference.rs reports, on a worker made from a loaded configuration.
mod Tests
use unlimited_ocr_server.Prelude.{
  ℕ, zero, suc, ◌-◌, ◌+◌, ◌≤◌, max, min, ◌≡◌, refl, sym, ap, ◌∙◌, ◌⊎◌, inl, inr, true, false,
  Option, none, some, List, [], ◌∷◌, arith, ℤ, length, All, Bool-cases, ltb,
}
use mathlib.Core.Path.{subst}
use unlimited_ocr_server.Types.{FilePath, InferenceMetadata}
use unlimited_ocr_server.Types.Task.{TaskSpec}
use unlimited_ocr_server.Config.{Config}
use unlimited_ocr_server.Config.Settings.{Environment}
use unlimited_ocr_server.Config.File.{Machine}
use unlimited_ocr_server.Config.Load.{load}
use unlimited_ocr_server.Config.Load.Bounds.{IsUsable, load-IsUsable}
use unlimited_ocr_server.Inference.Ort.{
  Anyhow, fine, bail, ◌>>=◌, fine_injective, bind-fine, Gives, bind-Gives, fine-Gives, Ort,
}
use unlimited_ocr_server.Inference.Parse.{parse_ocr_result}
use unlimited_ocr_server.Inference.Parse.Tables.{parse_tables}
use unlimited_ocr_server.Inference.Parse.Spans.{IsTableOf, parse_tables-IsTableOf}
use unlimited_ocr_server.Inference.Tensor.{Floats}
use unlimited_ocr_server.Inference.Prompt.{
  prompt_from_task, build_image_prompt, decode_generated_text,
}
use unlimited_ocr_server.Inference.Image.{Images, prepare_image}
use unlimited_ocr_server.Inference.Output.{Statistics, generation_metadata, output_metadata}
use unlimited_ocr_server.Inference.Generate.{
  UnlimitedOcrWorker, GenerationState, generation_step_limit, generate,
}
use unlimited_ocr_server.Inference.Generate.Stops.{EndsAtEos, Room, Limit, generate-EndsAtEos}
use unlimited_ocr_server.Inference.Worker.{ModelFiles, make_worker, infer}

-- What a report promises under a configuration.
pub record IsReport (config : Config) (report : InferenceMetadata) : Type 0 where
  pub some_tokens : 1 ≤ report.generated_tokens
  pub bounded : report.generated_tokens ≤ config.max_new_tokens
  pub parsed : report.result ≡ parse_ocr_result report.generated_text
  pub tables : All (IsTableOf report.result.detections) report.result.tables

EndsAtEos-length :
    (limit : ℕ) (tokens : List ℤ)
    → EndsAtEos limit tokens
    → (length tokens ≤ limit) × (1 ≤ limit → 1 ≤ length tokens)
EndsAtEos-length zero [] ends = (omega arith, λ pos. pos)
EndsAtEos-length zero (token ∷ tokens) ends = absurd ends
EndsAtEos-length (suc limit) [] ends = absurd ends
EndsAtEos-length (suc limit) (token ∷ tokens) (inl (eos, last)) =
    let none_left = ap length last in (omega arith, λ pos. omega arith)
EndsAtEos-length (suc limit) (token ∷ tokens) (inr (more, ends)) =
    let (short, some_left) = EndsAtEos-length limit tokens ends in (omega arith, λ pos. omega arith)

Room-bounds :
    (prompt_tokens requested : ℕ) (fixed : Option ℕ) (limit : ℕ)
    → 1 ≤ requested
    → Room prompt_tokens requested fixed limit
    → (1 ≤ limit) × (limit ≤ requested)
Room-bounds prompt_tokens requested none limit many room = (omega arith, omega arith)
Room-bounds prompt_tokens requested (some fixed) limit many (fits, inl (small, same)) =
    (omega arith, omega arith)
Room-bounds prompt_tokens requested (some fixed) limit many (fits, inr (large, same)) =
    (omega arith, omega arith)

Limit-bounds :
    (worker : UnlimitedOcrWorker) (state : GenerationState) (limit : ℕ)
    → 1 ≤ worker.max_new_tokens
    → Limit worker state limit
    → (1 ≤ limit) × (limit ≤ worker.max_new_tokens)
Limit-bounds worker state limit many (inl (cached, same)) = (omega arith, omega arith)
Limit-bounds worker state limit many (inr (full, h)) =
    Room-bounds (length state.input_ids) worker.max_new_tokens
      worker.input_metadata.fixed_sequence_length limit many h

module _ (around : ModelFiles) (id : ℕ) (config : Config) where
  -- A worker has the limit of its configuration.
  make_worker-Gives :
      Gives (λ worker. worker.max_new_tokens ≡ config.max_new_tokens) (make_worker around id config)
  unfolding make_worker
  make_worker-Gives = search (bind-Gives, fine-Gives) depth 30

  make_worker-max_new_tokens :
      (worker : UnlimitedOcrWorker)
      → make_worker around id config ≡ fine worker
      → worker.max_new_tokens ≡ config.max_new_tokens
  unfolding Gives
  make_worker-max_new_tokens = make_worker-Gives

module _ (ort : Ort) (floats : Floats) (images : Images) (samples : ℕ → ℕ)
    (statistics : Statistics) where
  generate-bounds :
      (worker : UnlimitedOcrWorker) (state : GenerationState) (tokens : List ℤ)
      → 1 ≤ worker.max_new_tokens
      → generate ort floats samples worker state ≡ fine tokens
      → (1 ≤ length tokens) × (length tokens ≤ worker.max_new_tokens)
  generate-bounds worker state tokens many h =
      let (limit, (holds, ends)) = generate-EndsAtEos ort floats samples worker state tokens h in
      let (low, high) = Limit-bounds worker state limit many holds in
      let (short, some_tokens) = EndsAtEos-length limit tokens ends in
      (some_tokens low, omega arith)

  infer-Gives :
      (config : Config) (elapsed_ms : ℕ) (worker : UnlimitedOcrWorker) (image_path : FilePath)
      (task : TaskSpec)
      → 1 ≤ config.max_new_tokens
      → worker.max_new_tokens ≡ config.max_new_tokens
      → Gives
          (IsReport config)
          (infer ort floats images samples statistics elapsed_ms worker image_path task)
  unfolding infer generation_metadata parse_ocr_result
  infer-Gives config elapsed_ms worker image_path task many same =
      bind-Gives (IsReport config) (prepare_image images image_path worker.image_size) _ (λ image _.
        bind-Gives (IsReport config)
          (build_image_prompt worker.tokenizer (prompt_from_task task) worker.image_size) _
          (λ prompt_inputs _.
            let state : GenerationState = record {
              input_ids = prompt_inputs.input_ids;
              images_seq_mask = prompt_inputs.images_seq_mask;
              image_array = image.0;
            } in
            bind-Gives (IsReport config) (generate ort floats samples worker state) _ (λ ids g.
              bind-Gives (IsReport config) (decode_generated_text worker.tokenizer ids) _
                (λ generated_text _.
                  let (low, high) = generate-bounds worker state ids (omega arith) g in
                  fine-Gives (IsReport config) _ (record {
                    some_tokens = low;
                    bounded = omega arith;
                    parsed = refl;
                    tables = parse_tables-IsTableOf ((parse_ocr_result generated_text).detections);
                  })))))

  -- An inference that succeeds, on a worker made from a loaded configuration, reports at least one
  -- token and at most the configured number, the parse of the text it reports, and tables of the
  -- detections that it reports.
  pub infer-IsReport :
      (env : Environment) (machine : Machine) (config_path : Option FilePath) (config : Config)
      (around : ModelFiles) (id : ℕ) (worker : UnlimitedOcrWorker) (elapsed_ms : ℕ)
      (image_path : FilePath) (task : TaskSpec) (report : InferenceMetadata)
      → load env machine config_path ≡ fine config
      → make_worker around id config ≡ fine worker
      → infer ort floats images samples statistics elapsed_ms worker image_path task ≡ fine report
      → IsReport config report
  unfolding Gives
  infer-IsReport env machine config_path config around id worker elapsed_ms image_path task report
        loaded made inferred =
      let usable = load-IsUsable env machine config_path config loaded in
      infer-Gives config elapsed_ms worker image_path task usable.some_tokens
        (make_worker-max_new_tokens around id config worker made) report inferred
