-- ===== src/Config/Settings.antt =====
-- One setting: the environment, else the file, else the default (src/config/settings.rs).
use unlimited_ocr_server.Prelude.{
  ℕ, ◌+◌, ◌^◌, Bool, true, false, not, ◌&&◌, ◌||◌, Option, none, some, List, [], ◌∷◌, ◌++◌, map,
  Text, codes, text_eq, trim_start, trim_end, trim, is_empty, lowercase, decimal, ℤ, pos, negsuc,
  any, retain, ltb, ◌==◌, if◌then◌else◌, unwrap_or, and_then,
}
use unlimited_ocr_server.Prelude.Search.{split}
use unlimited_ocr_server.Prelude.Parse.{parse_usize}
use unlimited_ocr_server.Prelude.Numbers.{parse_u32, parse_i64}
use unlimited_ocr_server.Types.{FilePath}
use unlimited_ocr_server.Inference.Ort.{Anyhow, fine, bail, ◌>>=◌, ok_or}
use unlimited_ocr_server.Inference.Tensor.{is_finite, is_zero}

-- `var` is `env::var(…).ok()`, `var_path` and `var_paths` are `env::var_os` as a path and as a list
-- of them; `parse_f32` is that of the standard library.
pub record Environment : Type 0 where
  pub var : Text → Option Text
  pub var_path : Text → Option FilePath
  pub var_paths : Text → Option (List FilePath)
  pub parse_f32 : Text → Option ℕ

abbrev pub invalid : (key value : Text) → Text
invalid key value = key ++ (codes " has invalid value `" ++ (value ++ codes "`"))

abbrev pub or_file {ℓ} : {A : Type ℓ} → Option A → Option A → Option A
or_file (some value) file = some value
or_file none file = file

module _ (env : Environment) where
  unfoldable pub path_setting : (key : Text) → Option FilePath → FilePath → FilePath
  path_setting key file default = unwrap_or (or_file (env.var_path key) file) default

  unfoldable pub string_setting : (key : Text) → Option Text → Text → Text
  string_setting key file default = unwrap_or (or_file (env.var key) file) default

  abbrev number_setting : (Text → Option ℕ) → (key : Text) → Option ℕ → ℕ → Anyhow ℕ
  number_setting parse key file default = elim (env.var key) [
    | none ↦ fine (unwrap_or file default)
    | some value ↦ ok_or (parse value) (invalid key value)
  ]

  -- `usize` and `u64` are of 64 bits.
  unfoldable pub usize_setting : (key : Text) → Option ℕ → ℕ → Anyhow ℕ
  unfolding parse_usize
  usize_setting = number_setting parse_usize

  unfoldable pub u64_setting : (key : Text) → Option ℕ → ℕ → Anyhow ℕ
  unfolding parse_usize
  u64_setting = number_setting parse_usize

  unfoldable pub u32_setting : (key : Text) → Option ℕ → ℕ → Anyhow ℕ
  unfolding parse_u32
  u32_setting = number_setting (parse_u32 10)

  unfoldable pub validate_non_negative_f32 : (key : Text) → ℕ → Anyhow ℕ
  validate_non_negative_f32 key value =
      if is_finite value && (ltb value (2 ^ 31) || is_zero value)
      then fine value
      else bail (key ++ codes " has invalid value; expected a finite number 0 or greater")

  unfoldable pub non_negative_f32_setting : (key : Text) → Option ℕ → ℕ → Anyhow ℕ
  unfolding validate_non_negative_f32
  non_negative_f32_setting key file default = elim (env.var key) [
    | none ↦ validate_non_negative_f32 key (unwrap_or file default)
    | some value ↦ ok_or (env.parse_f32 value) (invalid key value) >>= validate_non_negative_f32 key
  ]

  unfoldable pub validate_non_negative_i32 : (key : Text) → ℤ → Anyhow ℤ
  validate_non_negative_i32 key (pos n) = fine (pos n)
  validate_non_negative_i32 key (negsuc n) =
      bail (invalid key (b'-' ∷ decimal (n + 1)) ++ codes "; expected 0 or greater")

  abbrev in_i32 : ℤ → Option ℤ
  in_i32 (pos n) = if ltb n (2 ^ 31) then some (pos n) else none
  in_i32 (negsuc n) = if ltb n (2 ^ 31) then some (negsuc n) else none

  unfoldable pub parse_non_negative_i32 : (key value : Text) → Anyhow ℤ
  unfolding parse_i64 validate_non_negative_i32
  parse_non_negative_i32 key value =
      ok_or (and_then (parse_i64 value) in_i32) (invalid key value)
      >>= validate_non_negative_i32 key

  unfoldable pub optional_non_negative_i32_setting : (key : Text) → Option ℤ → Anyhow (Option ℤ)
  unfolding parse_non_negative_i32 validate_non_negative_i32
  optional_non_negative_i32_setting key file = elim (env.var key) [
    | some value ↦ parse_non_negative_i32 key value >>= (λ n. fine (some n))
    | none ↦ elim file [
      | none ↦ fine none
      | some value ↦ validate_non_negative_i32 key value >>= (λ n. fine (some n))
    ]
  ]

  abbrev one_of : Text → List Text → Bool
  one_of value names = any (text_eq value) names

  unfoldable pub bool_setting : (key : Text) → Option Bool → Bool → Anyhow Bool
  unfolding trim trim_start trim_end
  bool_setting key file default = elim (env.var key) [
    | none ↦ fine (unwrap_or file default)
    | some value ↦
        let said = lowercase (trim value) in
        if one_of said (codes "1" ∷ codes "true" ∷ codes "yes" ∷ codes "on" ∷ [])
        then fine true
        else if one_of said (codes "0" ∷ codes "false" ∷ codes "no" ∷ codes "off" ∷ [])
        then fine false
        else bail (invalid key value ++ codes "; expected true or false")
  ]

  abbrev is_full {ℓ} : {A : Type ℓ} → List A → Bool
  is_full s = not (is_empty s)

  -- An empty path has no components.
  unfoldable pub path_list_setting : (key : Text) → Option (List FilePath) → List FilePath
  path_list_setting key file = elim (env.var_paths key) [
    | some paths ↦ retain is_full paths
    | none ↦ unwrap_or file []
  ]

  unfoldable pub string_list_setting : (key : Text) → Option (List Text) → List Text
  unfolding trim trim_start trim_end
  string_list_setting key file = elim (env.var key) [
    | some value ↦ retain is_full (map trim (split b',' value))
    | none ↦ unwrap_or file []
  ]

  unfoldable pub secret_setting : (key : Text) → Option Text → Option Text
  unfolding trim trim_start trim_end
  secret_setting key file =
      and_then (or_file (env.var key) file)
        (λ value. if is_empty (trim value) then none else some (trim value))

  abbrev without_dashes : Text → Text
  without_dashes s = retain (λ c. not (c == b'-' || c == b'_')) s

  -- Names in lowercase without dashes, none of them empty; `auto` if there are none.
  unfoldable pub execution_providers_setting : Option (List Text) → List Text
  unfolding trim trim_start trim_end
  execution_providers_setting file =
      let values =
        unwrap_or
          (or_file
            (and_then (env.var (codes "EXECUTION_PROVIDERS")) (λ value. some (split b',' value)))
            file)
          (codes "auto" ∷ []) in
      let normalized =
        retain is_full (map (λ value. without_dashes (lowercase (trim value))) values) in
      if is_empty normalized then codes "auto" ∷ [] else normalized
