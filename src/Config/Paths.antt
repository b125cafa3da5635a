-- ===== src/Config/Paths.antt =====
-- The model's variant and paths and the number of workers: src/config/model_variant.rs and the
-- functions beside Config::load in src/config.rs.
use unlimited_ocr_server.Prelude.{
  ℕ, ◌+◌, min, max, Bool, not, ◌||◌, Option, none, some, List, [], ◌∷◌, ◌++◌, Text, codes, text_eq,
  trim_start, trim_end, trim, lowercase, take, drop, any, retain, ◌==◌, if◌then◌else◌, unwrap_or,
  and_then,
}
use unlimited_ocr_server.Prelude.Search.{find}
use unlimited_ocr_server.Types.{FilePath, ModelVariant, unlimited_ocr, custom}
use unlimited_ocr_server.Inference.Ort.{Anyhow, fine, bail}
use unlimited_ocr_server.Config.Settings.{Environment, or_file}
use unlimited_ocr_server.Config.File.{Machine}

module _ (env : Environment) (machine : Machine) where
  unfoldable pub parse_model_variant_value : Text → Anyhow ModelVariant
  unfolding trim trim_start trim_end
  parse_model_variant_value raw =
      let normalized = retain (λ c. not (c == b'-' || c == b'_')) (lowercase (trim raw)) in
      if any (text_eq normalized) (codes "unlimitedocr" ∷ codes "ocr" ∷ codes "default" ∷ [])
      then fine unlimited_ocr
      else if text_eq normalized (codes "custom")
      then fine custom
      else bail (
          codes "unsupported model variant `"
          ++ (raw ++ codes "`; expected one of unlimited_ocr, custom"))

  -- Without a variant, a path that is given means a custom model.
  unfoldable pub parse_model_variant : Option Text → (explicit_path : Bool) → Anyhow ModelVariant
  unfolding parse_model_variant_value
  parse_model_variant file explicit_path = elim (or_file (env.var (codes "MODEL_VARIANT")) file) [
    | none ↦ fine (if explicit_path then custom else unlimited_ocr)
    | some raw ↦ parse_model_variant_value raw
  ]

  abbrev pub default_model_path : FilePath
  default_model_path =
      codes "Unlimited-OCR" ∷ codes "onnx" ∷ codes "unlimited_ocr_prefill.onnx" ∷ []

  abbrev replace_last : FilePath → Text → FilePath
  replace_last [] name = name ∷ []
  replace_last (last ∷ []) name = name ∷ []
  replace_last (dir ∷ next ∷ path) name = dir ∷ replace_last (next ∷ path) name

  abbrev last_name : FilePath → Option Text
  last_name [] = none
  last_name (name ∷ []) = some name
  last_name (dir ∷ next ∷ path) = last_name (next ∷ path)

  -- Beside a graph named "prefill", the one named "decode", if it exists
  unfoldable pub inferred_decode_model_path : FilePath → Option FilePath
  inferred_decode_model_path model_path = and_then (last_name model_path) (λ file_name.
      and_then (find (codes "prefill") file_name) (λ i.
        let decode_name = take i file_name ++ (codes "decode" ++ drop (i + 7) file_name) in
        let decode_path = replace_last model_path decode_name in
        if machine.exists decode_path then some decode_path else none))

  unfoldable pub decode_model_path_setting : FilePath → Option FilePath → Option FilePath
  unfolding inferred_decode_model_path
  decode_model_path_setting model_path file =
      or_file (env.var_path (codes "DECODE_MODEL_PATH"))
        (or_file file (inferred_decode_model_path model_path))

  unfoldable pub default_worker_count : ℕ
  default_worker_count = max 1 (min (unwrap_or machine.available_parallelism 1) 4)

  unfoldable pub default_worker_count_for_execution_providers : List Text → ℕ
  unfolding default_worker_count
  default_worker_count_for_execution_providers execution_providers =
      if any (text_eq (codes "cuda")) execution_providers then 1 else default_worker_count
