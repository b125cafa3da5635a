-- ===== src/Inference/Tests.antt =====
-- Runs of the engine of src/inference.rs with small graphs, and its theorems at them.
use unlimited_ocr_server.Prelude.{
  ◌-◌, ◌==◌, ltb, Bool-cases, inl, inr, ap, codes, length-append, length-replicate, ℕ, ◌+◌, ◌*◌,
  ◌<◌, ◌≡◌, refl, sym, true, false, List, [], ◌∷◌, ◌++◌, map, arith, ℤ, pos, length, get_elem?,
  take, drop, replicate,
}
use mathlib.Core.Path.{subst}
use unlimited_ocr_server.Inference.Ort.{fine_injective, fine, get_output, as_i64, Named, f32_tensor}
use unlimited_ocr_server.Inference.Feeds.Metadata.{DecodeInputMetadata}
use unlimited_ocr_server.Inference.Feeds.Inputs.{make_feeds}
use unlimited_ocr_server.Inference.Feeds.Whole.{IsWilling, outputs_of}
use unlimited_ocr_server.Inference.Generate.Parts.{decode_feeds}
use unlimited_ocr_server.Inference.Feeds.Cache.{trim_typed_cache_tensor}
use unlimited_ocr_server.Inference.Feeds.Trim.{trim_typed_cache_tensor-rows}
use unlimited_ocr_server.Inference.Tensor.{sample_token_at_position, is_zero}
use unlimited_ocr_server.Inference.Tensor.Greatest.{IsLastGreatest}
use unlimited_ocr_server.Inference.Tensor.Vocabulary.{sample_token_at_position-Selected}
use unlimited_ocr_server.Inference.Generate.{
  feeds_of, GenerationState, generate, generate_with_kv_cache, generate_full_sequence,
}
use unlimited_ocr_server.Inference.Generate.Stops.{EndsAtEos, Limit, generate-EndsAtEos}
use unlimited_ocr_server.Inference.Generate.Refine.{Exported, generate_with_kv_cache-refines}
use unlimited_ocr_server.Inference.Samples.{
  ort, floats, samples, next_row, cache_tensor, worker, one, prefill, decode_graph, prefill_outputs,
  decode_outputs, decode_metadata,
}

abbrev prompt : GenerationState
prompt = record {
  input_ids = pos 0 ∷ pos 9 ∷ [];
  images_seq_mask = false ∷ false ∷ [];
  image_array = [];
}

abbrev answer : List ℤ
answer = pos 2 ∷ pos 1 ∷ []

full_sequence : generate_full_sequence ort floats samples worker prompt ≡ fine answer
unfolding generate_full_sequence get_output
full_sequence = refl

with_cache : generate ort floats samples worker prompt ≡ fine answer
unfolding generate
with_cache = refl

generate-EndsAtEos_example : (limit : ℕ) × (Limit worker prompt limit × EndsAtEos limit answer)
generate-EndsAtEos_example = generate-EndsAtEos ort floats samples worker prompt answer with_cache

sample_runtime : IsWilling ort
sample_runtime = record { makes = λ value. refl; reads = λ value. refl }

length-next_row : (n : ℕ) → length (next_row n) ≡ 3
length-next_row n = elim (Bool-cases (n == 2)) [ inl t ↦ rw t refl | inr f ↦ rw f refl ]

prefill_outputs-fine :
    (n : ℕ) (outputs : Named)
    → prefill_outputs n ≡ fine outputs
    → outputs
      ≡ outputs_of ort
          (f32_tensor (pos 1 ∷ pos n ∷ pos 3 ∷ []) (replicate (3 * (n - 1)) 0 ++ next_row n))
          (codes "present.0" ∷ [])
          (cache_tensor n ∷ [])
prefill_outputs-fine n outputs h = elim (Bool-cases (ltb 3 n)) [
  | inl t ↦ absurd (ground (arith, h, t))
  | inr f ↦ sym (fine_injective (rw f at h))
]

sample_runs :
    (state : GenerationState) (feeds outputs : Named)
    → feeds_of ort floats samples worker state ≡ fine feeds
    → prefill.run feeds ≡ fine outputs
    → prefill_outputs (length state.input_ids) ≡ fine outputs
unfolding make_feeds get_output
sample_runs state feeds outputs made ran =
    subst (λ f. prefill.run f ≡ fine outputs) (sym (fine_injective made)) ran

sample_decodes :
    (metadata : DecodeInputMetadata) (ids : List ℤ) (token : ℤ)
    → metadata.kv_cache.past_inputs ≡ codes "past.0" ∷ []
    → decode_graph.run
        (decode_feeds ort metadata token (length ids) (cache_tensor (length ids) ∷ []))
      ≡ decode_outputs (length (ids ++ token ∷ []))
unfolding get_output
sample_decodes metadata ids token past =
    let longer : length (replicate (length ids) one) + 1 ≡ length (ids ++ token ∷ []) =
      omega (arith, length-replicate (length ids) one, length-append ids (token ∷ [])) in
    rw past (ap decode_outputs longer)

exported : Exported ort floats samples worker prompt
exported = record {
  graph = prefill;
  decoder = decode_graph;
  metadata = decode_metadata;
  graph_loaded = refl;
  decoder_loaded = refl;
  metadata_read = refl;
  takes_token = refl;
  takes_position = refl;
  vocabulary = 3;
  earlier = λ ids. replicate (3 * (length ids - 1)) 0;
  row = λ ids. next_row (length ids);
  cached = λ ids. (cache_tensor (length ids) ∷ []);
  earlier_size =
      λ ids position h. omega (arith, length-replicate {A = ℕ} (3 * (length ids - 1)) 0, h);
  row_size = λ ids. length-next_row (length ids);
  past_size = λ ids. refl;
  present_size = λ ids. refl;
  prefill_size = λ ids. refl;
  present_names = (refl, tt);
  prefill_names = (refl, tt);
  prompt_cache = ((1, 1, 1, refl, refl, omega arith, omega arith, omega arith, omega arith), tt);
  runs = λ state feeds outputs extends made ran.
      prefill_outputs-fine (length state.input_ids) outputs
        (sample_runs state feeds outputs made ran);
  decodes = λ state token feeds outputs extends made ran.
      sample_decodes decode_metadata state.input_ids token refl;
}

generate_with_kv_cache-refines_example :
    generate_with_kv_cache ort floats samples worker prompt ≡ fine answer
generate_with_kv_cache-refines_example =
    generate_with_kv_cache-refines ort floats samples sample_runtime worker prompt exported answer
      (omega arith) refl full_sequence

sampled :
    sample_token_at_position floats
      (pos 1 ∷ pos 2 ∷ pos 3 ∷ [])
      (replicate 3 0 ++ next_row 2)
      1
      0
      0
      (λ bits. bits)
    ≡ fine (pos 2)
unfolding sample_token_at_position
sampled = refl

sample_token_at_position-Selected_example :
    (1 < 2)
    × ((i : ℕ) × ((pos 2 ≡ as_i64 i)
          × ((i < 3)
              × (is_zero 0 ≡ true
                  → IsLastGreatest
                      (map (λ bits. bits) (take 3 (drop (1 * 3) (replicate 3 0 ++ next_row 2))))
                      i))))
sample_token_at_position-Selected_example =
    sample_token_at_position-Selected floats (pos 1) 2 3 (replicate 3 0 ++ next_row 2) 1 0 0
      (λ bits. bits) (pos 2) sampled

abbrev rows : List ℕ
rows = 10 ∷ 11 ∷ 12 ∷ 13 ∷ 20 ∷ 21 ∷ 22 ∷ 23 ∷ []

trimmed :
    trim_typed_cache_tensor (pos 1 ∷ pos 2 ∷ pos 2 ∷ pos 2 ∷ []) rows [] 1
    ≡ fine (pos 1 ∷ pos 2 ∷ pos 1 ∷ pos 2 ∷ [], 10 ∷ 11 ∷ 20 ∷ 21 ∷ [])
unfolding trim_typed_cache_tensor
trimmed = refl

trim_typed_cache_tensor-rows_example :
    (kept : List ℕ) × ((trim_typed_cache_tensor (pos 1 ∷ pos 2 ∷ pos 2 ∷ pos 2 ∷ []) rows [] 1
        ≡ fine (pos 1 ∷ pos 2 ∷ as_i64 1 ∷ pos 2 ∷ [], kept))
      × ((length kept ≡ 1 * 2 * (1 * 2))
          × ((row offset : ℕ)
              → row < 1 * 2
              → offset < 1 * 2
              → get_elem? kept (row * (1 * 2) + offset) ≡ get_elem? rows (row * (2 * 2) + offset))))
trim_typed_cache_tensor-rows_example =
    trim_typed_cache_tensor-rows rows [] 1 2 2 2 1 (omega arith) (omega arith) (omega arith)
      (omega arith) (omega arith)
