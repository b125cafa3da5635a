-- ===== src/Inference/Generate/Parts.antt =====
-- The steps of run_model, run_prefill_model and run_decode_model of src/inference.rs.
use unlimited_ocr_server.Prelude.{
  ℕ, ◌≡◌, refl, ==_iff, true, some, List, [], ◌∷◌, Text, codes, ℤ, pos, length, arith,
}
use unlimited_ocr_server.Inference.Ort.{
  Anyhow, fine, bail, bind-fine, DynValue, i64_tensor, Named, Ort, Session, contains, as_i64,
  get_output,
}
use unlimited_ocr_server.Inference.Feeds.Metadata.{DecodeInputMetadata}
use unlimited_ocr_server.Inference.Feeds.Cache.{
  KvCache, make_decode_feeds, zip_feeds, collect_present_cache, collect_present_cache_trimmed,
}
use unlimited_ocr_server.Inference.Feeds.Whole.{IsWilling}
use unlimited_ocr_server.Inference.Tensor.{Floats, sample_token_from_output_at_position}
use unlimited_ocr_server.Inference.Generate.{
  UnlimitedOcrWorker, GenerationState, feeds_of, run_session, first_output, map_message, run_model,
  run_prefill_model, run_decode_model,
}

map_message-fine :
    {A : Type 0} (f : Text → Text) (m : Anyhow A) {a : A} → map_message f m ≡ fine a → m ≡ fine a
map_message-fine f (fine a) h = h
map_message-fine f (bail message) h = absurd (ground arith)

-- The feeds of a decode step, written out
abbrev pub decode_feeds :
    Ort → DecodeInputMetadata → (token : ℤ) (position : ℕ) → List DynValue → Named
decode_feeds ort metadata token position values =
    (codes "input_ids", i64_tensor (pos 1 ∷ pos 1 ∷ []) (token ∷ []))
    ∷ (codes "position_ids", i64_tensor (pos 1 ∷ pos 1 ∷ []) (as_i64 position ∷ []))
    ∷ zip_feeds ort metadata.kv_cache.past_inputs values

module _ (ort : Ort) (willing : IsWilling ort) where
  pub make_decode_feeds-fine :
      (metadata : DecodeInputMetadata) (token : ℤ) (position : ℕ) (values : List DynValue)
      → contains metadata.names (codes "input_ids") ≡ true
      → contains metadata.names (codes "position_ids") ≡ true
      → length metadata.kv_cache.past_inputs ≡ length values
      → make_decode_feeds ort metadata (record {
        input_id = token;
        position_id = as_i64 position;
        cache = record { values = values };
      })
        ≡ fine (decode_feeds ort metadata token position values)
  unfolding make_decode_feeds
  make_decode_feeds-fine metadata token position values takes_token takes_position same =
      rw
        (
          takes_token,
          willing.makes (i64_tensor (pos 1 ∷ pos 1 ∷ []) (token ∷ [])),
          takes_position,
          willing.makes (i64_tensor (pos 1 ∷ pos 1 ∷ []) (as_i64 position ∷ [])),
          (==_iff (length metadata.kv_cache.past_inputs) (length values)).1 same,
        )
        refl

module _ (ort : Ort) (floats : Floats) (samples : ℕ → ℕ) (worker : UnlimitedOcrWorker) where
  -- The feeds, the outputs and the logits of a run that gives the token
  abbrev pub Ran : Session → GenerationState → (position draw : ℕ) → ℤ → Type 0
  Ran graph state position draw token =
      (feeds : Named) × (outputs : Named) × (logits : DynValue) × (feeds_of ort floats samples
          worker state
        ≡ fine feeds)
      × (graph.run feeds ≡ fine outputs)
      × (first_output ort floats samples outputs ≡ fine logits)
      × (sample_token_from_output_at_position floats ort logits (codes "logits") position
            worker.temperature (samples draw)
          ≡ fine token)

  pub run_model-Ran :
      (graph : Session) (state : GenerationState) (position draw : ℕ) (token : ℤ)
      → worker.session ≡ some graph
      → run_model ort floats samples worker state position draw ≡ fine token
      → Ran graph state position draw token
  unfolding run_model
  run_model-Ran graph state position draw token loaded h =
      let (feeds, (made, h1)) = bind-fine (feeds_of ort floats samples worker state) _ h in
      let h2 = rw loaded at h1 in
      let (outputs, (ran, h3)) =
        bind-fine
          (run_session ort floats samples graph (codes "Unlimited-OCR ONNX inference failed: ")
            feeds)
          _ h2 in
      let (logits, (found, sampled)) = bind-fine (first_output ort floats samples outputs) _ h3 in
      (feeds, outputs, logits, made, map_message-fine _ (graph.run feeds) ran, found, sampled)

  pub run_prefill_model-fine :
      (graph : Session) (state : GenerationState) (position draw : ℕ) (token : ℤ) (feeds : Named)
      (outputs : Named) (logits : DynValue) (cache : KvCache)
      → worker.session ≡ some graph
      → feeds_of ort floats samples worker state ≡ fine feeds
      → graph.run feeds ≡ fine outputs
      → get_output outputs (codes "logits") ≡ some logits
      → sample_token_from_output_at_position floats ort logits
          (codes "logits")
          position
          worker.temperature
          (samples draw)
        ≡ fine token
      → collect_present_cache_trimmed ort outputs worker.input_metadata.kv_cache
          (length state.input_ids)
        ≡ fine cache
      → run_prefill_model ort floats samples worker state position draw ≡ fine (token, cache)
  unfolding run_prefill_model
  run_prefill_model-fine graph state position draw token feeds outputs logits cache loaded made ran
        found sampled collected =
      rw (made, loaded, ran, found, sampled, collected) refl

  pub run_decode_model-fine :
      (decoder : Session) (metadata : DecodeInputMetadata) (token next : ℤ) (position draw : ℕ)
      (feeds : Named) (outputs : Named) (logits : DynValue) (cache next_cache : KvCache)
      → worker.decode_input_metadata ≡ some metadata
      → worker.decode_session ≡ some decoder
      → make_decode_feeds ort metadata
          (record { input_id = token; position_id = as_i64 position; cache = cache })
        ≡ fine feeds
      → decoder.run feeds ≡ fine outputs
      → get_output outputs (codes "logits") ≡ some logits
      → sample_token_from_output_at_position floats ort logits
          (codes "logits")
          0
          worker.temperature
          (samples draw)
        ≡ fine next
      → collect_present_cache ort outputs metadata.kv_cache ≡ fine next_cache
      → run_decode_model ort floats samples worker token position cache draw
        ≡ fine (next, next_cache)
  unfolding run_decode_model
  run_decode_model-fine decoder metadata token next position draw feeds outputs logits cache
        next_cache read loaded made ran found sampled collected =
      rw (read, made, loaded, ran, found, sampled, collected) refl
