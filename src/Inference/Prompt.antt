-- ===== src/Inference/Prompt.antt =====
-- The prompt's tokens and the text of the generated ones: src/inference/prompt.rs.
use unlimited_ocr_server.Prelude.{
  ℕ, ◌+◌, ◌*◌, ◌%◌, ◌^◌, ◌/◌, ◌^◌, Bool, true, false, Option, none, some, List, [], ◌∷◌, ◌++◌, map,
  Text, codes, trim_start, trim_end, trim, is_empty, ℤ, pos, negsuc, length, take, drop, replicate,
  ltb, if◌then◌else◌, is_some, unwrap_or,
}
use unlimited_ocr_server.Prelude.Search.{find}
use unlimited_ocr_server.Prelude.Parse.{strip_suffix}
use unlimited_ocr_server.Types.Task.{TaskSpec}
use unlimited_ocr_server.Inference.Ort.{Anyhow, fine, bail, ◌>>=◌, ok_or}

-- The crate `tokenizers`: its errors are their messages.
pub record Tokenizer : Type 0 where
  pub encode : Text → Anyhow (List ℕ)
  pub decode : List ℕ → Anyhow Text

abbrev pub default_prompt : Text
default_prompt = codes "<|grounding|><image>Convert the document to markdown."

abbrev pub image_token : Text
image_token = codes "<image>"

abbrev pub bos_token_id : ℤ
bos_token_id = pos 0

abbrev pub eos_token_id : ℤ
eos_token_id = pos 1

abbrev pub image_token_id : ℤ
image_token_id = pos 128_815

pub record PromptInputs : Type 0 where
  pub input_ids : List ℤ
  pub images_seq_mask : List Bool

abbrev default_if_empty : Text → Text
default_if_empty text = if is_empty text then default_prompt else text

unfoldable pub prompt_from_task : TaskSpec → Text
unfolding trim trim_start trim_end
prompt_from_task task = elim task.text_input [
  | none ↦ default_prompt
  | some text ↦ default_if_empty (trim text)
]

unfoldable pub encode_text : Tokenizer → Text → Anyhow (List ℤ)
encode_text tokenizer text = elim (tokenizer.encode text) [
  | fine ids ↦ fine (map pos ids)
  | bail message ↦
      bail (codes "failed to tokenize prompt fragment `" ++ (text ++ (codes "`: " ++ message)))
]

-- ceil((image_size / 16) / 4) queries a side, one newline token a row, and one at the end, as u32
unfoldable pub image_token_count : (image_size : ℕ) → ℕ
image_token_count image_size =
    let num_queries = (image_size / 16 + 3) / 4 in ((num_queries + 1) * num_queries + 1) % 2 ^ 32

abbrev with_image_token : Text → Text
with_image_token prompt =
    if is_some (find image_token prompt) then prompt else image_token ++ prompt

-- `split_once` at a string
unfoldable pub split_at_text : (pattern s : Text) → Option (Text × Text)
split_at_text pattern s = elim (find pattern s) [
  | none ↦ none
  | some i ↦ some (take i s, drop (i + length pattern) s)
]

abbrev assemble : (before_ids image_ids after_ids : List ℤ) → PromptInputs
assemble before_ids image_ids after_ids = record {
  input_ids = bos_token_id ∷ before_ids ++ (image_ids ++ after_ids);
  images_seq_mask =
      replicate (1 + length before_ids) false
      ++ (replicate (length image_ids) true ++ replicate (length after_ids) false);
}

unfoldable pub build_image_prompt :
    Tokenizer → (prompt : Text) (image_size : ℕ) → Anyhow PromptInputs
unfolding encode_text image_token_count split_at_text
build_image_prompt tokenizer prompt image_size = do
  (before, after) ←
      ok_or (split_at_text image_token (with_image_token prompt))
        (codes "prompt must contain `<image>`")
  before_ids ← encode_text tokenizer before
  after_ids ← encode_text tokenizer after
  fine (assemble before_ids (replicate (image_token_count image_size) image_token_id) after_ids)

abbrev to_u32 : ℤ → Option ℕ
to_u32 (pos n) = if ltb n (2 ^ 32) then some n else none
to_u32 (negsuc n) = none

-- The ids that are a `u32`
unfoldable pub known_ids : List ℤ → List ℕ
known_ids [] = []
known_ids (id ∷ ids) = elim (to_u32 id) [ none ↦ known_ids ids | some n ↦ n ∷ known_ids ids ]

unfoldable pub clean_generated_text : Text → Text
unfolding trim trim_start trim_end
clean_generated_text raw = trim (unwrap_or (strip_suffix (codes "<｜end▁of▁sentence｜>") raw) raw)

unfoldable pub decode_generated_text : Tokenizer → List ℤ → Anyhow Text
unfolding known_ids clean_generated_text
decode_generated_text tokenizer generated_ids = elim (tokenizer.decode (known_ids generated_ids)) [
  | fine raw_text ↦ fine (clean_generated_text raw_text)
  | bail message ↦ bail (codes "failed to decode generated tokens: " ++ message)
]
