-- ===== src/Inference/Generate/Agree.antt =====
-- Both generation loops of src/inference.rs, when each round of one agrees with that of the other.
use unlimited_ocr_server.Prelude.{
  ℕ, zero, suc, ◌-◌, ◌<◌, ◌≡◌, refl, sym, ap, ◌∙◌, Bool, true, false, Option, none, List, [], ◌∷◌,
  ◌++◌, arith, ℤ, int_eq, length, length-append,
}
use mathlib.Core.Path.{subst}
use unlimited_ocr_server.Inference.Ort.{fine_injective, bind-fine, Anyhow, fine, ◌>>=◌, Ort}
use unlimited_ocr_server.Inference.Feeds.Cache.{KvCache}
use unlimited_ocr_server.Inference.Tensor.{Floats}
use unlimited_ocr_server.Inference.Prompt.{eos_token_id}
use unlimited_ocr_server.Inference.Generate.{
  UnlimitedOcrWorker, GenerationState, generation_step_limit, validate_prompt_for_prefill_cache,
  last_position, push_token, run_model, run_prefill_model, run_decode_model, full_steps,
  decode_steps, generate_with_kv_cache, generate_full_sequence,
}

-- A round of both loops: what follows the next token agrees if it is the end token, and if not.
rounds-agree :
    (next : ℤ) (b : Bool) (full_rest decode_rest : Anyhow (List ℤ)) (tokens : List ℤ)
    → (b ≡ true → decode_rest ≡ fine [])
    → (b ≡ false → (more : List ℤ) → full_rest ≡ fine more → decode_rest ≡ fine more)
    → elim b [ true ↦ fine (next ∷ []) | false ↦ full_rest >>= (λ rest. fine (next ∷ rest)) ]
      ≡ fine tokens
    → (decode_rest >>= (λ rest. fine (next ∷ rest))) ≡ fine tokens
rounds-agree next true full_rest decode_rest tokens f g h = rw (f refl) h
rounds-agree next false full_rest decode_rest tokens f g h =
    let (more, (m, h1)) = bind-fine full_rest _ h in rw (g refl more m) h1

-- A graph without a fixed length takes any prompt.
validate-none :
    (prompt_tokens : ℕ) (fixed : Option ℕ)
    → fixed ≡ none
    → validate_prompt_for_prefill_cache prompt_tokens fixed ≡ fine tt
unfolding validate_prompt_for_prefill_cache
validate-none prompt_tokens fixed e = rw e refl

module _ (ort : Ort) (floats : Floats) (samples : ℕ → ℕ) where
  -- A cache holds what the rounds so far have given and the token that follows; then the runs of the
  -- two loops agree.
  pub record Agreeing (worker : UnlimitedOcrWorker) (prompt : GenerationState) : Type 1 where
    pub Holds : KvCache → GenerationState → ℤ → Type 0
    pub prefill :
        (position : ℕ) (token : ℤ)
        → last_position prompt.input_ids ≡ fine position
        → run_model ort floats samples worker prompt position 0 ≡ fine token
        → (cache : KvCache) × ((run_prefill_model ort floats samples worker prompt position 0
              ≡ fine (token, cache))
            × Holds cache prompt token)
    pub decode :
        (state : GenerationState) (cache : KvCache) (token next : ℤ) (draw : ℕ)
        → Holds cache state token
        → run_model ort floats samples worker (push_token token state) (length state.input_ids) draw
          ≡ fine next
        → (next_cache : KvCache) × ((run_decode_model ort floats samples worker token
                (length state.input_ids)
                cache
                draw
              ≡ fine (next, next_cache))
            × Holds next_cache (push_token token state) next)

  last_position-push :
      (ids : List ℤ) (token : ℤ) → last_position (ids ++ token ∷ []) ≡ fine (length ids)
  last_position-push [] token = refl
  last_position-push (id ∷ ids) token = ap fine (length-append ids (token ∷ []) ∙ omega arith)

  -- After the end token the decode loop gives nothing.
  decode_steps-eos :
      (worker : UnlimitedOcrWorker) (left : ℕ) (token : ℤ) (cache : KvCache)
      (state : GenerationState) (draw : ℕ)
      → int_eq token eos_token_id ≡ true
      → decode_steps ort floats samples worker left token cache state draw ≡ fine []
  unfolding decode_steps
  decode_steps-eos worker zero token cache state draw e = refl
  decode_steps-eos worker (suc left) token cache state draw e = rw (decode_steps, e) refl

  module _ (worker : UnlimitedOcrWorker) (prompt : GenerationState)
      (graphs : Agreeing worker prompt) where
    decode_steps-full :
        (steps : ℕ) (token : ℤ) (cache : KvCache) (state : GenerationState) (draw : ℕ)
        (tokens : List ℤ)
        → graphs.Holds cache state token
        → int_eq token eos_token_id ≡ false
        → full_steps ort floats samples worker steps (push_token token state) draw ≡ fine tokens
        → decode_steps ort floats samples worker steps token cache (push_token token state) draw
          ≡ fine tokens
    unfolding full_steps decode_steps
    decode_steps-full zero token cache state draw tokens r e h = h
    decode_steps-full (suc steps) token cache state draw tokens r e h =
        let at : last_position (push_token token state).input_ids ≡ fine (length state.input_ids) =
          last_position-push state.input_ids token in
        let (position, (p, h1)) =
          bind-fine (last_position (push_token token state).input_ids) _ h in
        let same : length state.input_ids ≡ position = fine_injective (sym at ∙ p) in
        let (next, (m, h2)) =
          bind-fine (run_model ort floats samples worker (push_token token state) position draw) _
            h1 in
        let model : run_model ort floats samples worker (push_token token state)
              (length state.input_ids) draw
            ≡ fine next =
          subst
            (λ n. run_model ort floats samples worker (push_token token state) n draw ≡ fine next)
            (sym same) m in
        let (next_cache, (d, r1)) = graphs.decode state cache token next draw r model in
        let pushed = push_token token state in
        rw (decode_steps, e, at, d)
          (rounds-agree next (int_eq next eos_token_id)
            (full_steps ort floats samples worker steps (push_token next pushed) (suc draw))
            (decode_steps ort floats samples worker steps next next_cache (push_token next pushed)
              (suc draw))
            tokens
            (decode_steps-eos worker steps next next_cache (push_token next pushed) (suc draw))
            (λ f more. decode_steps-full steps next next_cache pushed (suc draw) more r1 f) h2)

    full-kv_cache_steps :
        (left : ℕ) (tokens : List ℤ)
        → worker.max_new_tokens ≡ suc left
        → worker.input_metadata.fixed_sequence_length ≡ none
        → full_steps ort floats samples worker (suc left) prompt 0 ≡ fine tokens
        → generate_with_kv_cache ort floats samples worker prompt ≡ fine tokens
    unfolding full_steps generate_with_kv_cache
    full-kv_cache_steps left tokens many none_fixed h =
        let (position, (p, h1)) = bind-fine (last_position prompt.input_ids) _ h in
        let (token, (m, h2)) =
          bind-fine (run_model ort floats samples worker prompt position 0) _ h1 in
        let (cache, (d, r)) = graphs.prefill position token p m in
        let pushed = push_token token prompt in
        let valid =
          validate-none (length prompt.input_ids) worker.input_metadata.fixed_sequence_length
            none_fixed in
        let rest : worker.max_new_tokens - 1 ≡ left = omega arith in
        rw (generate_with_kv_cache, valid, p, d, rest)
          (rounds-agree token (int_eq token eos_token_id)
            (full_steps ort floats samples worker left pushed 1)
            (decode_steps ort floats samples worker left token cache pushed 1) tokens
            (decode_steps-eos worker left token cache pushed 1)
            (λ f more. decode_steps-full left token cache prompt 1 more r f) h2)

    -- Loops whose rounds agree give the same tokens.
    pub generate_with_kv_cache-agrees :
        (tokens : List ℤ)
        → 0 < worker.max_new_tokens
        → worker.input_metadata.fixed_sequence_length ≡ none
        → generate_full_sequence ort floats samples worker prompt ≡ fine tokens
        → generate_with_kv_cache ort floats samples worker prompt ≡ fine tokens
    unfolding generate_full_sequence generation_step_limit
    generate_with_kv_cache-agrees tokens many none_fixed h =
        let left = worker.max_new_tokens - 1 in
        let next : worker.max_new_tokens ≡ suc left = omega arith in
        let limit : generation_step_limit (length prompt.input_ids) worker.max_new_tokens
              worker.input_metadata.fixed_sequence_length
            ≡ fine worker.max_new_tokens =
          rw none_fixed refl in
        let (steps, (l, h1)) =
          bind-fine
            (generation_step_limit (length prompt.input_ids) worker.max_new_tokens
              worker.input_metadata.fixed_sequence_length)
            _ h in
        let same : steps ≡ suc left = fine_injective (sym l ∙ limit) ∙ next in
        full-kv_cache_steps left tokens next none_fixed
          (subst (λ n. full_steps ort floats samples worker n prompt 0 ≡ fine tokens) same h1)
