-- ===== src/Config/Load/Bounds.antt =====
-- What a configuration that src/config.rs loads promises to the rest of the program.
use unlimited_ocr_server.Prelude.{
  ℤ, ℕ, ◌^◌, ◌≤◌, max, ◌≡◌, refl, sym, ◌∙◌, inl, inr, Bool, true, false, not, ◌&&◌, ◌||◌, Option,
  List, [], ◌∷◌, arith, Text, codes, is_empty, ltb, if◌then◌else◌, Bool-cases, Option-cases,
  is_some, unwrap_or, then_of, else_of,
}
use mathlib.Core.Path.{subst}
use unlimited_ocr_server.Types.{FilePath}
use unlimited_ocr_server.Config.{Config}
use unlimited_ocr_server.Inference.Ort.{
  Gives, bind-Gives, fine-Gives, ok_or, fine, bail, bail_if, bind-fine, fine_injective,
}
use unlimited_ocr_server.Inference.Tensor.{is_finite, is_zero}
use unlimited_ocr_server.Config.Settings.{
  or_file, string_setting, bool_setting, path_list_setting, invalid, Environment,
  non_negative_f32_setting, validate_non_negative_f32, execution_providers_setting,
}
use unlimited_ocr_server.Config.File.{Machine, FileConfig, load_file}
use unlimited_ocr_server.Config.Paths.{parse_model_variant}
use unlimited_ocr_server.Config.Load.{Limits, Generation, limits_of, generation_of, load, config_of}

-- A finite number that is not negative
abbrev pub IsTemperature : ℕ → Type 0
IsTemperature bits = (is_finite bits && (ltb bits (2 ^ 31) || is_zero bits)) ≡ true

-- What makes a configuration usable.
pub record IsUsable (config : Config) : Type 0 where
  pub some_workers : 1 ≤ config.workers
  pub some_tokens : 1 ≤ config.max_new_tokens
  pub some_attempts : 1 ≤ config.webhook_max_attempts
  pub some_pages : 1 ≤ config.max_pdf_pages
  pub some_dpi : 1 ≤ config.pdf_render_dpi
  pub some_pixels : 1 ≤ config.model_image_size
  pub finite : IsTemperature config.temperature
  pub rooted : (config.allow_local_paths && is_empty config.local_path_roots) ≡ false
  pub provided : is_empty config.execution_providers ≡ false

at_least_one : (n m : ℕ) → max n 1 ≡ m → 1 ≤ m
at_least_one n m h = omega arith

default_full :
    (names : List Text) → is_empty (if is_empty names then codes "auto" ∷ [] else names) ≡ false
default_full [] = refl
default_full (name ∷ names) = refl

bail_if-fine : (b : Bool) (message : Text) {u : Unit {0}} → bail_if b message ≡ fine u → b ≡ false
bail_if-fine true message h = absurd (ground arith)
bail_if-fine false message h = refl

module _ (env : Environment) where
  validate-IsTemperature :
      (key : Text) (value bits : ℕ)
      → validate_non_negative_f32 env key value ≡ fine bits
      → IsTemperature bits
  unfolding validate_non_negative_f32
  validate-IsTemperature key value bits h =
      elim (Bool-cases (is_finite value && (ltb value (2 ^ 31) || is_zero value))) [
        | inl t ↦ subst IsTemperature (fine_injective (then_of _ _ _ t h)) t
        | inr f ↦ absurd (
            bail-absurd
              (else_of (is_finite value && (ltb value (2 ^ 31) || is_zero value)) _ _ f h))
      ]
    where
      bail-absurd : {message : Text} {a : ℕ} → bail message ≡ fine a → ⊥
      bail-absurd e = absurd (ground arith)

  non_negative_f32_setting-IsTemperature :
      (key : Text) (file : Option ℕ) (default bits : ℕ)
      → non_negative_f32_setting env key file default ≡ fine bits
      → IsTemperature bits
  unfolding non_negative_f32_setting
  non_negative_f32_setting-IsTemperature key file default bits h =
      elim (Option-cases (env.var key)) [
        | inl e ↦
            validate-IsTemperature key (unwrap_or file default) bits
              (sym (rw (non_negative_f32_setting, e) refl) ∙ h)
        | inr (value, e) ↦
            let (parsed, (p, h1)) =
              bind-fine (ok_or (env.parse_f32 value) (invalid key value))
                (validate_non_negative_f32 env key)
                (sym (rw (non_negative_f32_setting, e) refl) ∙ h) in
            validate-IsTemperature key parsed bits h1
      ]

  providers-full :
      (file : Option (List Text)) → is_empty (execution_providers_setting env file) ≡ false
  unfolding execution_providers_setting
  providers-full file = default_full _

-- The settings that are bounded below, and the temperature
record IsBounded (limits : Limits) : Type 0 where
  some_pixels : 1 ≤ limits.model_image_size
  some_pages : 1 ≤ limits.max_pdf_pages
  some_dpi : 1 ≤ limits.pdf_render_dpi
  some_workers : 1 ≤ limits.workers

record IsActive (generation : Generation) : Type 0 where
  some_tokens : 1 ≤ generation.max_new_tokens
  some_attempts : 1 ≤ generation.webhook_max_attempts
  finite : IsTemperature generation.temperature

max_one : (n : ℕ) → 1 ≤ max n 1
max_one n = omega arith

module _ (env : Environment) (machine : Machine) where
  bounded :
      (size rate jobs lines width height pages dpi workers queue body seconds : ℕ)
      → IsBounded (record {
        model_image_size = max size 1;
        rate_limit = rate;
        job_retention_limit = jobs;
        metadata_retention_limit = lines;
        max_image_width = width;
        max_image_height = height;
        max_pdf_pages = max pages 1;
        pdf_render_dpi = max dpi 1;
        workers = max workers 1;
        queue_size = queue;
        body_limit_bytes = body;
        request_timeout_seconds = seconds;
      })
  bounded size rate jobs lines width height pages dpi workers queue body seconds = record {
    some_pixels = max_one size;
    some_pages = max_one pages;
    some_dpi = max_one dpi;
    some_workers = max_one workers;
  }

  limits_of-IsBounded :
      (file : FileConfig) (execution_providers : List Text)
      → Gives IsBounded (limits_of env machine file execution_providers)
  unfolding limits_of
  limits_of-IsBounded file execution_providers = search (bind-Gives, fine-Gives, bounded) depth 30

  limits-IsBounded :
      (file : FileConfig) (execution_providers : List Text) (limits : Limits)
      → limits_of env machine file execution_providers ≡ fine limits
      → IsBounded limits
  unfolding Gives
  limits-IsBounded file execution_providers = limits_of-IsBounded file execution_providers

  active :
      (tokens temperature job_seconds seconds connect_seconds attempts backoff : ℕ) (private : Bool)
      (device : Option ℤ) (file : Option ℕ)
      → non_negative_f32_setting env (codes "TEMPERATURE") file 0 ≡ fine temperature
      → IsActive (record {
        max_new_tokens = max tokens 1;
        temperature = temperature;
        job_timeout_seconds = job_seconds;
        webhook_timeout_seconds = seconds;
        webhook_connect_timeout_seconds = connect_seconds;
        webhook_max_attempts = max attempts 1;
        webhook_initial_backoff_ms = backoff;
        allow_private_webhook_urls = private;
        inference_device_id = device;
      })
  active tokens temperature job_seconds seconds connect_seconds attempts backoff private device file
        h =
      record {
        some_tokens = max_one tokens;
        some_attempts = max_one attempts;
        finite =
            non_negative_f32_setting-IsTemperature env (codes "TEMPERATURE") file 0 temperature h;
      }

  generation_of-IsActive : (file : FileConfig) → Gives IsActive (generation_of env machine file)
  unfolding generation_of
  generation_of-IsActive file = search (bind-Gives, fine-Gives, active) depth 30

  generation-IsActive :
      (file : FileConfig) (generation : Generation)
      → generation_of env machine file ≡ fine generation
      → IsActive generation
  unfolding Gives
  generation-IsActive file = generation_of-IsActive file

  config_of-IsUsable : (file : FileConfig) → Gives IsUsable (config_of env machine file)
  unfolding config_of
  config_of-IsUsable file =
      let execution_providers = execution_providers_setting env file.execution_providers in
      let local_path_roots =
        path_list_setting env (codes "LOCAL_PATH_ROOTS") file.local_path_roots in
      let path = or_file (env.var_path (codes "MODEL_PATH")) file.path in
      let addr = string_setting env (codes "BIND_ADDR") file.bind_addr (codes "127.0.0.1:3000") in
      bind-Gives IsUsable
        (bool_setting env (codes "ALLOW_LOCAL_PATHS") file.allow_local_paths false) _
        (λ allow_local_paths _.
          bind-Gives IsUsable
            (bail_if (allow_local_paths && is_empty local_path_roots) (
              codes "local path inference requires at least one configured local_path_roots entry"))
            _
            (λ _ has_root.
              bind-Gives IsUsable (parse_model_variant env machine file.variant (is_some path)) _
                (λ model_variant _.
                  bind-Gives IsUsable
                    (bail_if (not (machine.is_socket_addr addr))
                      (codes "BIND_ADDR must be a socket address, for example 127.0.0.1:3000"))
                    _
                    (λ _ _.
                      bind-Gives IsUsable (limits_of env machine file execution_providers) _
                        (λ limits l.
                          bind-Gives IsUsable (generation_of env machine file) _ (λ generation g.
                            let bounded_limits =
                              limits-IsBounded file execution_providers limits l in
                            let active_generation = generation-IsActive file generation g in
                            fine-Gives IsUsable _ (record {
                              some_workers = bounded_limits.some_workers;
                              some_tokens = active_generation.some_tokens;
                              some_attempts = active_generation.some_attempts;
                              some_pages = bounded_limits.some_pages;
                              some_dpi = bounded_limits.some_dpi;
                              some_pixels = bounded_limits.some_pixels;
                              finite = active_generation.finite;
                              rooted =
                                  bail_if-fine (allow_local_paths && is_empty local_path_roots) _
                                    has_root;
                              provided = providers-full env file.execution_providers;
                            })))))))

-- A configuration that is loaded has at least one worker, token, attempt, page, dot per inch and
-- pixel, a temperature that is finite and not negative, a root if local paths are allowed, and an
-- execution provider, whatever the environment and the file say.
pub load-IsUsable :
    (env : Environment) (machine : Machine) (config_path : Option FilePath) (config : Config)
    → load env machine config_path ≡ fine config
    → IsUsable config
unfolding load Gives
load-IsUsable env machine config_path config h =
    let (file, (f, h1)) = bind-fine (load_file env machine config_path) _ h in
    config_of-IsUsable env machine file config h1
