-- ===== src/Inference/Generate/Stops.antt =====
-- Where the generation of src/inference.rs stops.
use unlimited_ocr_server.Prelude.{
  ℕ, zero, suc, ◌+◌, ◌-◌, ◌≤◌, ◌<◌, min, ltb, Option, none, some, ◌∙◌, max, ◌≡◌, refl, sym, ◌⊎◌,
  inl, inr, Bool, true, false, List, [], ◌∷◌, arith, ℤ, int_eq, length, Bool-cases,
}
use native.Mathlib.Decide.{dec_le}
use mathlib.Core.Path.{subst}
use unlimited_ocr_server.Inference.Ort.{fine_injective, bind-fine, Anyhow, fine, ◌>>=◌, Ort}
use unlimited_ocr_server.Inference.Feeds.Cache.{KvCache}
use unlimited_ocr_server.Inference.Tensor.{Floats}
use unlimited_ocr_server.Inference.Prompt.{eos_token_id}
use unlimited_ocr_server.Inference.Generate.{
  UnlimitedOcrWorker, GenerationState, generation_step_limit, validate_prompt_for_prefill_cache,
  last_position, push_token, run_model, run_prefill_model, run_decode_model, full_steps,
  decode_steps, generate, generate_with_kv_cache, generate_full_sequence,
  can_generate_with_kv_cache,
}

-- The tokens end at the first end token, or else at the limit.
abbrev pub EndsAtEos : (limit : ℕ) → List ℤ → Type 0
EndsAtEos zero [] = Unit
EndsAtEos zero (token ∷ tokens) = ⊥
EndsAtEos (suc limit) [] = ⊥
EndsAtEos (suc limit) (token ∷ tokens) =
    ((int_eq token eos_token_id ≡ true) × (tokens ≡ []))
    ⊎ ((int_eq token eos_token_id ≡ false) × EndsAtEos limit tokens)

-- One round of a loop, by whether it is the end token that came.
round-EndsAtEos :
    (token : ℤ) (b : Bool) (limit : ℕ) (rest : Anyhow (List ℤ)) (tokens : List ℤ)
    → int_eq token eos_token_id ≡ b
    → ((more : List ℤ) → rest ≡ fine more → EndsAtEos limit more)
    → elim b [ true ↦ fine (token ∷ []) | false ↦ rest >>= (λ more. fine (token ∷ more)) ]
      ≡ fine tokens
    → EndsAtEos (suc limit) tokens
round-EndsAtEos token true limit rest tokens e f h =
    subst (EndsAtEos (suc limit)) (fine_injective h) (inl (e, refl))
round-EndsAtEos token false limit rest tokens e f h =
    let (more, (m, h1)) = bind-fine rest _ h in
    subst (EndsAtEos (suc limit)) (fine_injective h1) (inr (e, f more m))

-- The same for a loop that looks at the token first.
head-EndsAtEos :
    (token : ℤ) (b : Bool) (limit : ℕ) (rest : Anyhow (List ℤ)) (tokens : List ℤ)
    → int_eq token eos_token_id ≡ b
    → ((more : List ℤ) → rest ≡ fine more → EndsAtEos limit more)
    → elim b [ true ↦ fine [] | false ↦ rest ] ≡ fine tokens
    → EndsAtEos (suc limit) (token ∷ tokens)
head-EndsAtEos token true limit rest tokens e f h = inl (e, sym (fine_injective h))
head-EndsAtEos token false limit rest tokens e f h = inr (e, f tokens h)

last-EndsAtEos : (token : ℤ) (b : Bool) → int_eq token eos_token_id ≡ b → EndsAtEos 1 (token ∷ [])
last-EndsAtEos token true e = inl (e, refl)
last-EndsAtEos token false e = inr (e, tt)

-- The number of tokens for graphs without a cache: what was asked for, or less if a graph of fixed
-- length has room for less after the prompt, and one token more.
abbrev pub Room : (prompt_tokens requested : ℕ) (fixed : Option ℕ) (limit : ℕ) → Type 0
Room prompt_tokens requested none limit = limit ≡ requested
Room prompt_tokens requested (some fixed) limit =
    (prompt_tokens ≤ fixed)
    × (((requested ≤ fixed - prompt_tokens + 1) × (limit ≡ requested))
        ⊎ ((fixed - prompt_tokens + 1 < requested) × (limit ≡ fixed - prompt_tokens + 1)))

step_limit-Room :
    (prompt_tokens requested : ℕ) (fixed : Option ℕ) (limit : ℕ)
    → generation_step_limit prompt_tokens requested fixed ≡ fine limit
    → Room prompt_tokens requested fixed limit
unfolding generation_step_limit
step_limit-Room prompt_tokens requested none limit h = sym (fine_injective h)
step_limit-Room prompt_tokens requested (some fixed) limit h =
    elim (Bool-cases (ltb fixed prompt_tokens)) [
      | inl t ↦ absurd (ground (arith, h, t))
      | inr f ↦
          let same : min requested (fixed - prompt_tokens + 1) ≡ limit =
            fine_injective (sym (rw f refl) ∙ h) in
          (
            ground arith,
            elim (dec_le requested (fixed - prompt_tokens + 1)) [
              | yes small ↦ inl (small, omega arith)
              | no large ↦ inr (omega arith, omega arith)
            ],
          )
    ]

-- What the two ways to generate promise: with a decode graph the limit is the number of tokens that
-- was asked for, and at least one; without one it is what there is room for.
abbrev pub Limit : UnlimitedOcrWorker → GenerationState → ℕ → Type 0
Limit worker state limit =
    ((can_generate_with_kv_cache worker ≡ true) × (limit ≡ max worker.max_new_tokens 1))
    ⊎ ((can_generate_with_kv_cache worker ≡ false)
        × Room (length state.input_ids) worker.max_new_tokens
            worker.input_metadata.fixed_sequence_length limit)

module _ (ort : Ort) (floats : Floats) (samples : ℕ → ℕ) where
  full_steps-EndsAtEos :
      (worker : UnlimitedOcrWorker) (steps : ℕ) (state : GenerationState) (draw : ℕ)
      (tokens : List ℤ)
      → full_steps ort floats samples worker steps state draw ≡ fine tokens
      → EndsAtEos steps tokens
  unfolding full_steps
  full_steps-EndsAtEos worker zero state draw tokens h = subst (EndsAtEos 0) (fine_injective h) tt
  full_steps-EndsAtEos worker (suc steps) state draw tokens h =
      let (position, (p, h1)) = bind-fine (last_position state.input_ids) _ h in
      let (token, (t, h2)) =
        bind-fine (run_model ort floats samples worker state position draw) _ h1 in
      round-EndsAtEos token (int_eq token eos_token_id) steps _ tokens refl
        (full_steps-EndsAtEos worker steps (push_token token state) (suc draw)) h2

  -- The decode loop after a token ends as the list with that token in front does.
  decode_steps-EndsAtEos :
      (worker : UnlimitedOcrWorker) (left : ℕ) (token : ℤ) (cache : KvCache)
      (state : GenerationState) (draw : ℕ) (tokens : List ℤ)
      → decode_steps ort floats samples worker left token cache state draw ≡ fine tokens
      → EndsAtEos (suc left) (token ∷ tokens)
  unfolding decode_steps
  decode_steps-EndsAtEos worker zero token cache state draw tokens h =
      subst (λ ts. EndsAtEos 1 (token ∷ ts)) (fine_injective h)
        (last-EndsAtEos token (int_eq token eos_token_id) refl)
  decode_steps-EndsAtEos worker (suc left) token cache state draw tokens h =
      head-EndsAtEos token (int_eq token eos_token_id) (suc left) _ tokens refl
        (λ more m.
          let (position, (p, h1)) = bind-fine (last_position state.input_ids) _ m in
          let ((next, next_cache), (d, h2)) =
            bind-fine (run_decode_model ort floats samples worker token position cache draw) _ h1 in
          let (rest, (r, h3)) =
            bind-fine
              (decode_steps ort floats samples worker left next next_cache (push_token next state)
                (suc draw))
              _ h2 in
          subst (EndsAtEos (suc left)) (fine_injective h3) (
            decode_steps-EndsAtEos worker left next next_cache (push_token next state) (suc draw)
              rest r))
        h

  generate_full_sequence-EndsAtEos :
      (worker : UnlimitedOcrWorker) (state : GenerationState) (tokens : List ℤ)
      → generate_full_sequence ort floats samples worker state ≡ fine tokens
      → (limit : ℕ) × ((generation_step_limit
              (length state.input_ids)
              worker.max_new_tokens
              worker.input_metadata.fixed_sequence_length
            ≡ fine limit)
          × EndsAtEos limit tokens)
  unfolding generate_full_sequence
  generate_full_sequence-EndsAtEos worker state tokens h =
      let (limit, (l, h1)) =
        bind-fine
          (generation_step_limit (length state.input_ids) worker.max_new_tokens
            worker.input_metadata.fixed_sequence_length)
          _ h in
      (limit, (l, full_steps-EndsAtEos worker limit state 0 tokens h1))

  generate_with_kv_cache-EndsAtEos :
      (worker : UnlimitedOcrWorker) (state : GenerationState) (tokens : List ℤ)
      → generate_with_kv_cache ort floats samples worker state ≡ fine tokens
      → EndsAtEos (suc (worker.max_new_tokens - 1)) tokens
  unfolding generate_with_kv_cache
  generate_with_kv_cache-EndsAtEos worker state tokens h =
      let (_, (v, h1)) =
        bind-fine
          (validate_prompt_for_prefill_cache (length state.input_ids)
            worker.input_metadata.fixed_sequence_length)
          _ h in
      let (position, (p, h2)) = bind-fine (last_position state.input_ids) _ h1 in
      let ((token, cache), (d, h3)) =
        bind-fine (run_prefill_model ort floats samples worker state position 0) _ h2 in
      let (rest, (r, h4)) =
        bind-fine
          (decode_steps ort floats samples worker (worker.max_new_tokens - 1) token cache
            (push_token token state) 1)
          _ h3 in
      subst (EndsAtEos (suc (worker.max_new_tokens - 1))) (fine_injective h4) (
        decode_steps-EndsAtEos worker (worker.max_new_tokens - 1) token cache
          (push_token token state) 1 rest r)

  -- The tokens that are generated end at the first end token or at the limit. With a decode graph
  -- the limit is the number that was asked for, and at least one. Without one it is the number that
  -- was asked for, or, if that is less, the fixed length of the graph without the prompt and one more.
  pub generate-EndsAtEos :
      (worker : UnlimitedOcrWorker) (state : GenerationState) (tokens : List ℤ)
      → generate ort floats samples worker state ≡ fine tokens
      → (limit : ℕ) × (Limit worker state limit × EndsAtEos limit tokens)
  unfolding generate
  generate-EndsAtEos worker state tokens h = elim (Bool-cases (can_generate_with_kv_cache worker)) [
    | inl t ↦
        let at_least_one : suc (worker.max_new_tokens - 1) ≡ max worker.max_new_tokens 1 =
          omega arith in
        (
          max worker.max_new_tokens 1,
          (
            inl (t, refl),
            subst (λ n. EndsAtEos n tokens) at_least_one
                (generate_with_kv_cache-EndsAtEos worker state tokens (ground (arith, h, t))),
          ),
        )
    | inr f ↦
        let (limit, (l, ends)) =
          generate_full_sequence-EndsAtEos worker state tokens (ground (arith, h, f)) in
        (
          limit,
          (
            inr (
              f,
              step_limit-Room (length state.input_ids) worker.max_new_tokens
                  worker.input_metadata.fixed_sequence_length limit l,
            ),
            ends,
          ),
        )
  ]
