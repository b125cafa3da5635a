-- ===== src/Inference/Outcome/Tests.antt =====
-- An inference of src/inference.rs on a worker of the sample configuration: a graph that ends at
-- once, and a tokenizer whose text has one detection.
use unlimited_ocr_server.Prelude.{
  ◌≡◌, refl, true, Option, none, some, [], ◌∷◌, codes, pos, length, Text,
}
use unlimited_ocr_server.Types.{InferenceMetadata, OcrResult}
use unlimited_ocr_server.Types.Task.{TaskSpec}
use unlimited_ocr_server.Config.Samples.{env, machine, loaded, loads_all}
use unlimited_ocr_server.Inference.Ort.{
  Anyhow, fine, bail, Session, Named, DynValue, f32_tensor, i64_tensor, tensor, float32,
  other_element, get_output,
}
use unlimited_ocr_server.Inference.Image.{Images}
use unlimited_ocr_server.Inference.Output.{Statistics, output_metadata}
use unlimited_ocr_server.Inference.Generate.{UnlimitedOcrWorker}
use unlimited_ocr_server.Inference.Worker.{ModelFiles, make_worker, infer}
use unlimited_ocr_server.Inference.Outcome.{IsReport, infer-IsReport}
use unlimited_ocr_server.Inference.Samples.{ort, floats}

abbrev images : Images
images = record {
  decode = λ path. fine (record { width = 4; height = 2; pixel = λ x y. (9, (9, 9)) });
  resize_exact =
      λ width height image. record { width = width; height = height; pixel = λ x y. (9, (9, 9)) };
  fitted = λ width height size. (size, size);
  normalized = λ value. value;
}

abbrev statistics : Statistics
statistics = record {
  min_f32 = λ a b. b;
  max_f32 = λ a b. b;
  add_f32 = λ sum value. sum;
  mean_f32 = λ sum count. sum;
}

-- The end token is the likeliest after any token.
abbrev logits : Option DynValue → Anyhow Named
logits (some (i64_tensor shape values)) = fine (
    (
      codes "logits",
      f32_tensor (pos 1 ∷ pos (length values) ∷ pos 2 ∷ [])
          (0 ∷ 0x3f80_0000 ∷ 0 ∷ 0x3f80_0000 ∷ []),
    )
    ∷ [])
logits other = bail (codes "no input_ids")

abbrev graph : Session
graph = record {
  inputs =
      record { name = codes "input_ids"; dtype = tensor (other_element (codes "i64")) [] }
      ∷ record { name = codes "images_ori"; dtype = tensor float32 [] }
      ∷ [];
  outputs = [];
  run = λ feeds. logits (get_output feeds (codes "input_ids"));
}

abbrev around : ModelFiles
around = record {
  exists = λ path. true;
  display = λ path. [];
  detected_devices = fine [];
  load_session = λ path providers device. fine graph;
  load_tokenizer = λ path. fine (record {
    encode = λ text. fine [];
    decode = λ ids. fine (codes "<|det|>Title [1,2,3,4]<|/det|>Hello");
  });
}

abbrev task : TaskSpec
task = record { text_input = none }

abbrev worker : UnlimitedOcrWorker
worker = record {
  id = 3;
  model_path = loaded.model_path;
  decode_model_path = none;
  model_variant = loaded.model_variant;
  session = some graph;
  decode_session = none;
  tokenizer = record {
    encode = λ text. fine [];
    decode = λ ids. fine (codes "<|det|>Title [1,2,3,4]<|/det|>Hello");
  };
  backend =
      codes
        "ort:requested_execution_providers=auto;configured_device_id=default;reported_devices=none";
  input_metadata = record {
    names = codes "input_ids" ∷ codes "images_ori" ∷ [];
    image_dtype = float32;
    fixed_sequence_length = none;
    kv_cache = record { past_inputs = []; present_outputs = [] };
    fixed_image_size = none;
  };
  decode_input_metadata = none;
  max_new_tokens = 256;
  temperature = 0;
  image_size = 1;
  execution_providers = codes "auto" ∷ [];
  inference_device_id = none;
}

made : make_worker around 3 loaded ≡ fine worker
unfolding make_worker
made = refl

abbrev said : Text
said = codes "<|det|>Title [1,2,3,4]<|/det|>Hello"

abbrev seen : OcrResult
seen = record {
  text = said;
  detections =
      record {
        label = codes "Title";
        bbox = record { x_min = pos 1; y_min = pos 2; x_max = pos 3; y_max = pos 4 };
        text = codes "Hello";
      }
      ∷ [];
  tables = [];
}

abbrev asked : Text
asked = codes "<|grounding|><image>Convert the document to markdown."

abbrev report : InferenceMetadata
report = record {
  backend = worker.backend;
  model_path = worker.model_path;
  model_variant = worker.model_variant;
  input_name = codes "images_ori";
  input_dtype = codes "f32";
  original_width = 4;
  original_height = 2;
  processed_width = 1;
  processed_height = 1;
  elapsed_ms = 7;
  task_token = codes "unlimited_ocr";
  prompt_text = asked;
  generated_text = said;
  generated_tokens = 1;
  result = seen;
  generations =
      record {
        task_token = codes "unlimited_ocr";
        prompt_text = asked;
        generated_text = said;
        generated_tokens = 1;
        result = seen;
      }
      ∷ [];
  outputs = output_metadata statistics 1 (9 ∷ 9 ∷ 9 ∷ []) 1;
}

reported : infer ort floats images (λ n. n) statistics 7 worker [] task ≡ fine report
unfolding infer
reported = refl

infer-IsReport_example : IsReport loaded report
infer-IsReport_example =
    infer-IsReport ort floats images (λ n. n) statistics env machine none loaded around 3 worker 7
      [] task report loads_all made reported
