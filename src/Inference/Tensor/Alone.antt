-- ===== src/Inference/Tensor/Alone.antt =====
-- Sampling in src/inference/tensor.rs: the last row of a sequence and the same row alone give the
-- same token.
use unlimited_ocr_server.Prelude.{
  ℕ, zero, suc, ◌+◌, ◌-◌, ◌*◌, ◌^◌, ◌<◌, ◌≡◌, ◌≢◌, refl, sym, ap, ◌∙◌, inl, inr, true, none, List,
  [], ◌∷◌, ◌++◌, Text, ℤ, pos, length, take, drop, map, arith, Bool-cases,
}
use unlimited_ocr_server.Inference.Ort.{fine, bind-fine, f32_tensor, Ort}
use unlimited_ocr_server.Inference.Tensor.{
  Floats, row_at, sample_token_at_position, select_token_from_logits_row, is_temperature,
  sample_token_from_output_at_position,
}

take_all : {A : Type 0} (n : ℕ) (xs : List A) → length xs ≡ n → take n xs ≡ xs
take_all zero [] h = refl
take_all zero (x ∷ xs) h = absurd (omega arith)
take_all (suc n) [] h = refl
take_all (suc n) (x ∷ xs) h = ap (λ r. x ∷ r) (take_all n xs (omega (arith, h)))

drop_front : {A : Type 0} (n : ℕ) (xs ys : List A) → length xs ≡ n → drop n (xs ++ ys) ≡ ys
drop_front zero [] ys h = refl
drop_front zero (x ∷ xs) ys h = absurd (omega arith)
drop_front (suc n) [] ys h = absurd (omega arith)
drop_front (suc n) (x ∷ xs) ys h = drop_front n xs ys (omega (arith, h))

module _ (floats : Floats) where
  row_at-fine :
      (shape : List ℤ) (values : List ℕ) (position seq_len vocab : ℕ) (row : List ℕ)
      → row_at floats shape values position seq_len vocab ≡ fine row
      → (vocab ≢ 0)
        × (position * vocab + vocab < 2 ^ 64)
        × (row
            ≡ take (position * vocab + vocab - position * vocab) (drop (position * vocab) values))
  row_at-fine shape values position seq_len vocab row h = ground (arith, h)

  row_at-alone :
      (shape : List ℤ) (row : List ℕ) (vocab : ℕ)
      → length row ≡ vocab
      → vocab ≢ 0
      → vocab < 2 ^ 64
      → row_at floats shape row 0 1 vocab ≡ fine (take vocab row)
  row_at-alone shape row vocab size some_token small = ground (arith, size, some_token, small)

  sample-alone :
      (n vocab : ℕ) (earlier row : List ℕ) (position temperature sample : ℕ) (token : ℤ)
      → length earlier ≡ position * vocab
      → length row ≡ vocab
      → sample_token_at_position floats
          (pos 1 ∷ pos n ∷ pos vocab ∷ [])
          (earlier ++ row)
          position
          temperature
          sample
          (λ bits. bits)
        ≡ fine token
      → sample_token_at_position floats
          (pos 1 ∷ pos 1 ∷ pos vocab ∷ [])
          row
          0
          temperature
          sample
          (λ bits. bits)
        ≡ fine token
  unfolding sample_token_at_position
  sample-alone n vocab earlier row position temperature sample token before size h =
      let shape = pos 1 ∷ pos n ∷ pos vocab ∷ [] in
      let (found, (at, selected)) =
        bind-fine (row_at floats shape (earlier ++ row) position n vocab) _ h in
      let (some_token, small, taken) =
        row_at-fine shape (earlier ++ row) position n vocab found at in
      let width : position * vocab + vocab - position * vocab ≡ vocab = omega arith in
      let same : found ≡ take vocab row =
        taken
        ∙ ap (λ w. take w (drop (position * vocab) (earlier ++ row))) width
        ∙ ap (take vocab) (drop_front (position * vocab) earlier row before) in
      let alone =
        row_at-alone (pos 1 ∷ pos 1 ∷ pos vocab ∷ []) row vocab size some_token
          (omega (arith, small)) in
      rw alone (
        ap (λ r. select_token_from_logits_row floats (map (λ bits. bits) r) temperature sample)
          (sym same)
        ∙ selected)

  module _ (ort : Ort) where
    sample_output-f32 :
        (shape : List ℤ) (values : List ℕ) (name : Text) (position temperature sample : ℕ)
        → is_temperature floats ort temperature ≡ true
        → ort.try_extract (f32_tensor shape values) ≡ none
        → sample_token_from_output_at_position floats ort
            (f32_tensor shape values)
            name
            position
            temperature
            sample
          ≡ sample_token_at_position floats shape values position temperature sample (λ bits. bits)
    unfolding sample_token_from_output_at_position
    sample_output-f32 shape values name position temperature sample t reads =
        ground (arith, t, reads)

    pub sample_output-alone :
        (n vocab : ℕ) (earlier row : List ℕ) (name : Text) (position temperature sample : ℕ)
        (token : ℤ)
        → ort.try_extract (f32_tensor (pos 1 ∷ pos 1 ∷ pos vocab ∷ []) row) ≡ none
        → ort.try_extract (f32_tensor (pos 1 ∷ pos n ∷ pos vocab ∷ []) (earlier ++ row)) ≡ none
        → length earlier ≡ position * vocab
        → length row ≡ vocab
        → sample_token_from_output_at_position floats ort
            (f32_tensor (pos 1 ∷ pos n ∷ pos vocab ∷ []) (earlier ++ row))
            name
            position
            temperature
            sample
          ≡ fine token
        → sample_token_from_output_at_position floats ort
            (f32_tensor (pos 1 ∷ pos 1 ∷ pos vocab ∷ []) row)
            name
            0
            temperature
            sample
          ≡ fine token
    unfolding sample_token_from_output_at_position
    sample_output-alone n vocab earlier row name position temperature sample token reads reads'
          before size h =
        elim (Bool-cases (is_temperature floats ort temperature)) [
          | inl t ↦
              let whole =
                sample_output-f32 (pos 1 ∷ pos n ∷ pos vocab ∷ []) (earlier ++ row) name position
                  temperature sample t reads' in
              sample_output-f32 (pos 1 ∷ pos 1 ∷ pos vocab ∷ []) row name 0 temperature sample t
                reads
              ∙ sample-alone n vocab earlier row position temperature sample token before size
                  (sym whole ∙ h)
          | inr f ↦ absurd (ground (arith, h, f))
        ]
