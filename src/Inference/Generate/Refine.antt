-- ===== src/Inference/Generate/Refine.antt =====
-- The generation with a cache refines the one that runs the whole sequence for every token, both of
-- src/inference.rs, for two graphs that one model was exported as.
use unlimited_ocr_server.Prelude.{
  ℕ, suc, ◌*◌, ◌<◌, ◌≡◌, refl, sym, ap, ◌∙◌, true, none, some, List, [], ◌∷◌, ◌++◌, codes, ℤ, pos,
  length, All, arith, length-append,
}
use mathlib.Core.Path.{subst}
use unlimited_ocr_server.Inference.Ort.{
  fine, fine_injective, DynValue, f32_tensor, Named, Ort, Session, contains, get_output,
}
use unlimited_ocr_server.Inference.Feeds.Metadata.{DecodeInputMetadata}
use unlimited_ocr_server.Inference.Feeds.Cache.{KvCache}
use unlimited_ocr_server.Inference.Feeds.Whole.{
  IsWilling, IsCacheOf, IsOther, outputs_of, collect_present_cache-zip,
  collect_present_cache_trimmed-zip,
}
use unlimited_ocr_server.Inference.Tensor.{Floats, sample_token_from_output_at_position}
use unlimited_ocr_server.Inference.Tensor.Alone.{sample_output-alone}
use unlimited_ocr_server.Inference.Generate.{
  UnlimitedOcrWorker, GenerationState, feeds_of, first_output, last_position, push_token, run_model,
  run_prefill_model, run_decode_model, generate_with_kv_cache, generate_full_sequence,
}
use unlimited_ocr_server.Inference.Generate.Agree.{Agreeing, generate_with_kv_cache-agrees}
use unlimited_ocr_server.Inference.Generate.Parts.{
  decode_feeds, make_decode_feeds-fine, run_model-Ran, run_prefill_model-fine,
  run_decode_model-fine,
}

-- The sequence is the prompt with tokens pushed to its end.
pub data Extends (prompt : GenerationState) : GenerationState → Type 0 where
  at_prompt : Extends prompt prompt
  pushed :
      {state : GenerationState} (token : ℤ)
      → Extends prompt state
      → Extends prompt (push_token token state)

last_position-suc :
    (ids : List ℤ) (position : ℕ) → last_position ids ≡ fine position → suc position ≡ length ids
last_position-suc [] position h = absurd (ground arith)
last_position-suc (id ∷ ids) position h = ap suc (sym (fine_injective h))

module _ (ort : Ort) (floats : Floats) (samples : ℕ → ℕ) where
  -- What the export of one model as two graphs promises of their runs. After a sequence the model
  -- has a row of logits, and rows for the positions before it, and a cache. The one graph, fed with
  -- the sequence, gives all the rows and the cache. The other one, fed with one token more, the
  -- position of that token and the cache, gives the row and the cache of the longer sequence, where
  -- the first graph runs on that sequence.
  pub record Exported (worker : UnlimitedOcrWorker) (prompt : GenerationState) : Type 0 where
    pub graph : Session
    pub decoder : Session
    pub metadata : DecodeInputMetadata
    pub graph_loaded : worker.session ≡ some graph
    pub decoder_loaded : worker.decode_session ≡ some decoder
    pub metadata_read : worker.decode_input_metadata ≡ some metadata
    pub takes_token : contains metadata.names (codes "input_ids") ≡ true
    pub takes_position : contains metadata.names (codes "position_ids") ≡ true
    pub vocabulary : ℕ
    pub earlier : List ℤ → List ℕ
    pub row : List ℤ → List ℕ
    pub cached : List ℤ → List DynValue
    pub earlier_size :
        (ids : List ℤ) (position : ℕ)
        → suc position ≡ length ids
        → length (earlier ids) ≡ position * vocabulary
    pub row_size : (ids : List ℤ) → length (row ids) ≡ vocabulary
    pub past_size : (ids : List ℤ) → length metadata.kv_cache.past_inputs ≡ length (cached ids)
    pub present_size :
        (ids : List ℤ) → length metadata.kv_cache.present_outputs ≡ length (cached ids)
    pub prefill_size :
        (ids : List ℤ) → length worker.input_metadata.kv_cache.present_outputs ≡ length (cached ids)
    pub present_names : All IsOther metadata.kv_cache.present_outputs
    pub prefill_names : All IsOther worker.input_metadata.kv_cache.present_outputs
    pub prompt_cache : All (IsCacheOf (length prompt.input_ids)) (cached prompt.input_ids)
    pub runs :
        (state : GenerationState) (feeds outputs : Named)
        → Extends prompt state
        → feeds_of ort floats samples worker state ≡ fine feeds
        → graph.run feeds ≡ fine outputs
        → outputs
          ≡ outputs_of ort
              (f32_tensor
                (pos 1 ∷ pos (length state.input_ids) ∷ pos vocabulary ∷ [])
                (earlier state.input_ids ++ row state.input_ids))
              worker.input_metadata.kv_cache.present_outputs
              (cached state.input_ids)
    pub decodes :
        (state : GenerationState) (token : ℤ) (feeds outputs : Named)
        → Extends prompt state
        → feeds_of ort floats samples worker (push_token token state) ≡ fine feeds
        → graph.run feeds ≡ fine outputs
        → decoder.run
            (decode_feeds ort metadata token (length state.input_ids) (cached state.input_ids))
          ≡ fine (
              outputs_of ort
                (f32_tensor
                  (pos 1 ∷ pos 1 ∷ pos vocabulary ∷ [])
                  (row (state.input_ids ++ token ∷ [])))
                metadata.kv_cache.present_outputs
                (cached (state.input_ids ++ token ∷ [])))

  module _ (willing : IsWilling ort) (worker : UnlimitedOcrWorker) (prompt : GenerationState)
      (export : Exported worker prompt) where
    abbrev logits_of : List ℤ → DynValue
    logits_of ids =
        f32_tensor (pos 1 ∷ pos (length ids) ∷ pos export.vocabulary ∷ [])
          (export.earlier ids ++ export.row ids)

    abbrev cache_of : List ℤ → KvCache
    cache_of ids = record { values = export.cached ids }

    -- A run of the whole sequence samples from its logits.
    Ran-sampled :
        (state : GenerationState) (position draw : ℕ) (token : ℤ) (feeds outputs : Named)
        (logits : DynValue)
        → Extends prompt state
        → feeds_of ort floats samples worker state ≡ fine feeds
        → export.graph.run feeds ≡ fine outputs
        → first_output ort floats samples outputs ≡ fine logits
        → sample_token_from_output_at_position floats ort logits
            (codes "logits")
            position
            worker.temperature
            (samples draw)
          ≡ fine token
        → sample_token_from_output_at_position floats ort
            (logits_of state.input_ids)
            (codes "logits")
            position
            worker.temperature
            (samples draw)
          ≡ fine token
    Ran-sampled state position draw token feeds outputs logits extends made ran found sampled =
        let same : logits ≡ logits_of state.input_ids = fine_injective (
          sym found
          ∙ ap (first_output ort floats samples)
              (export.runs state feeds outputs extends made ran)) in
        subst
          (λ l.
            sample_token_from_output_at_position floats ort l (codes "logits") position
              worker.temperature (samples draw)
            ≡ fine token)
          same sampled

    prefill-cached :
        (position : ℕ) (token : ℤ)
        → run_model ort floats samples worker prompt position 0 ≡ fine token
        → run_prefill_model ort floats samples worker prompt position 0
          ≡ fine (token, cache_of prompt.input_ids)
    unfolding get_output
    prefill-cached position token m =
        let (feeds, outputs, logits, made, ran, found, sampled) =
          run_model-Ran ort floats samples worker export.graph prompt position 0 token
            export.graph_loaded m in
        let kv_cache = worker.input_metadata.kv_cache in
        let ids = prompt.input_ids in
        let same = export.runs prompt feeds outputs at_prompt made ran in
        run_prefill_model-fine ort floats samples worker export.graph prompt position 0 token feeds
          (outputs_of ort (logits_of ids) kv_cache.present_outputs (export.cached ids))
          (logits_of ids) (cache_of ids) export.graph_loaded made (ran ∙ ap fine same) refl
          (Ran-sampled prompt position 0 token feeds outputs logits at_prompt made ran found
            sampled)
          (collect_present_cache_trimmed-zip ort willing (logits_of ids) kv_cache
            (export.cached ids) (length ids) (export.prefill_size ids) export.prefill_names
            export.prompt_cache)

    decode-cached :
        (state : GenerationState) (token next : ℤ) (draw : ℕ)
        → Extends prompt state
        → run_model ort floats samples worker (push_token token state) (length state.input_ids) draw
          ≡ fine next
        → run_decode_model ort floats samples worker token
            (length state.input_ids)
            (cache_of state.input_ids)
            draw
          ≡ fine (next, cache_of (state.input_ids ++ token ∷ []))
    unfolding get_output
    decode-cached state token next draw extends m =
        let position = length state.input_ids in
        let ids = state.input_ids ++ token ∷ [] in
        let vocabulary = export.vocabulary in
        let row = export.row ids in
        let alone = f32_tensor (pos 1 ∷ pos 1 ∷ pos vocabulary ∷ []) row in
        let kv_cache = export.metadata.kv_cache in
        let (feeds, outputs, logits, made, ran, found, sampled) =
          run_model-Ran ort floats samples worker export.graph (push_token token state) position
            draw next export.graph_loaded m in
        let longer : suc position ≡ length ids =
          sym (length-append state.input_ids (token ∷ []) ∙ omega arith) in
        run_decode_model-fine ort floats samples worker export.decoder export.metadata token next
          position draw
          (decode_feeds ort export.metadata token position (export.cached state.input_ids))
          (outputs_of ort alone kv_cache.present_outputs (export.cached ids)) alone
          (cache_of state.input_ids) (cache_of ids) export.metadata_read export.decoder_loaded
          (make_decode_feeds-fine ort willing export.metadata token position
            (export.cached state.input_ids) export.takes_token export.takes_position
            (export.past_size state.input_ids))
          (export.decodes state token feeds outputs extends made ran) refl
          (sample_output-alone floats ort (length ids) vocabulary (export.earlier ids) row
            (codes "logits") position worker.temperature (samples draw) next (willing.reads alone)
            (willing.reads (logits_of ids)) (export.earlier_size ids position longer)
            (export.row_size ids)
            (Ran-sampled (push_token token state) position draw next feeds outputs logits
              (pushed token extends) made ran found sampled))
          (collect_present_cache-zip ort willing alone kv_cache (export.cached ids)
            (export.present_size ids) export.present_names)

    Exported-Agreeing : Agreeing ort floats samples worker prompt
    Exported-Agreeing = record {
      Holds = λ cache state token. (Extends prompt state × (cache ≡ cache_of state.input_ids));
      prefill = λ position token p m.
          (cache_of prompt.input_ids, (prefill-cached position token m, (at_prompt, refl)));
      decode = λ state cache token next draw (extends, held) m. (
        cache_of (state.input_ids ++ token ∷ []),
        (
          ap (λ k. run_decode_model ort floats samples worker token (length state.input_ids) k draw)
                held
              ∙ decode-cached state token next draw extends m,
          (pushed token extends, refl),
        ),
      );
    }

    -- Generation with a cache gives what running the whole sequence for every token gives: on a
    -- runtime that makes and reads every tensor, for a prefill graph without a fixed length and a
    -- decode graph that one model was exported as, when at least one token is asked for and the
    -- whole sequence succeeds.
    pub generate_with_kv_cache-refines :
        (tokens : List ℤ)
        → 0 < worker.max_new_tokens
        → worker.input_metadata.fixed_sequence_length ≡ none
        → generate_full_sequence ort floats samples worker prompt ≡ fine tokens
        → generate_with_kv_cache ort floats samples worker prompt ≡ fine tokens
    generate_with_kv_cache-refines tokens many none_fixed h =
        generate_with_kv_cache-agrees ort floats samples worker prompt Exported-Agreeing tokens many
          none_fixed h
