-- ===== src/Inference/Tensor/Vocabulary.antt =====
-- The token that src/inference/tensor.rs selects is one of the vocabulary.
use unlimited_ocr_server.Prelude.{
  ℕ, suc, ◌+◌, ◌-◌, ◌*◌, ◌^◌, ◌<◌, min, max, ◌≡◌, refl, sym, ap, ◌∙◌, ◌⊎◌, inl, inr, Bool, true,
  false, ◌&&◌, ◌||◌, Option, none, some, List, [], ◌∷◌, map, arith, Text, ℤ, pos, length, take,
  drop, retain, length-append, length-take, length-drop, length-map, ltb, leb, ◌==◌, Bool-cases,
  some_injective, then_of, else_of,
}
use mathlib.Core.Path.{subst}
use unlimited_ocr_server.Inference.Ort.{
  fine, bail, fine_injective, bind-fine, as_i64, get_range, checked_mul, checked_add, ok_or,
  bail_if,
}
use unlimited_ocr_server.Inference.Tensor.{
  Floats, f32_infinity, is_weight, total_weight, walk_weights, nth_infinity, max_finite, counts,
  weight_of, as_token, no_token, select_weighted, select_token_from_logits_row,
  sample_token_at_position, is_zero, row_at,
}
use unlimited_ocr_server.Inference.Tensor.Greatest.{
  IsLastGreatest, argmax_token_from_logits_row-IsLastGreatest,
}

length-IsLastGreatest : (row : List ℕ) (idx : ℕ) → IsLastGreatest row idx → idx < length row
length-IsLastGreatest row idx (before, (value, (after, (e, (i, rest))))) =
    omega (arith, i, ap length e, length-append before (value ∷ after))

nth_infinity-bound :
    (n idx : ℕ) (row : List ℕ) (i : ℕ) → nth_infinity n idx row ≡ some i → i < idx + length row
unfolding nth_infinity
nth_infinity-bound n idx [] i h = absurd (ground arith)
nth_infinity-bound n idx (value ∷ row) i h = elim (Bool-cases (value == f32_infinity)) [
  | inr f ↦ omega (arith, nth_infinity-bound n (suc idx) row i (ground (arith, h, f)))
  | inl t ↦ elim (Bool-cases (n == 0)) [
    | inl z ↦ ground (arith, h, t, z)
    | inr z ↦ omega (arith, nth_infinity-bound (n - 1) (suc idx) row i (ground (arith, h, t, z)))
  ]
]

as_token-some :
    (o : Option ℕ) (message : Text) (token : ℤ)
    → as_token o message ≡ fine token
    → (i : ℕ) × ((o ≡ some i) × (token ≡ as_i64 i))
as_token-some none message token h = absurd (ground arith)
as_token-some (some i) message token h = (i, (refl, sym (fine_injective h)))

ok_or-fine :
    {A : Type 0} (o : Option A) (message : Text) {a : A} → ok_or o message ≡ fine a → o ≡ some a
ok_or-fine none message h = absurd (ground arith)
ok_or-fine (some x) message h = ap some (fine_injective h)

bail_if-fine : (b : Bool) (message : Text) {u : Unit {0}} → bail_if b message ≡ fine u → b ≡ false
bail_if-fine true message h = absurd (ground arith)
bail_if-fine false message h = refl

bail-absurd : {A : Type 0} {message : Text} {a : A} → bail message ≡ fine a → ⊥
bail-absurd h = absurd (ground arith)

both_ways : {b : Bool} → b ≡ true → b ≡ false → ⊥
both_ways h k = absurd (ground arith)

none-absurd : {a : ℕ} → none ≡ some a → ⊥
none-absurd h = absurd (ground arith)

checked_mul-some : (a b c : ℕ) → checked_mul a b ≡ some c → c ≡ a * b
checked_mul-some a b c h = elim (Bool-cases (ltb (a * b) (2 ^ 64))) [
  | inl t ↦ sym (some_injective (then_of (ltb (a * b) (2 ^ 64)) _ _ t h))
  | inr f ↦ absurd (none-absurd (else_of (ltb (a * b) (2 ^ 64)) _ _ f h))
]

checked_add-some : (a b c : ℕ) → checked_add a b ≡ some c → c ≡ a + b
checked_add-some a b c h = ground arith

get_range-some :
    (values : List ℕ) (start end : ℕ) (row : List ℕ)
    → get_range values start end ≡ some row
    → (length row ≡ end - start) × (row ≡ take (end - start) (drop start values))
get_range-some values start end row h =
    elim (Bool-cases (leb start end && leb end (length values))) [
      | inr f ↦ absurd (ground (arith, h, f))
      | inl t ↦
          let same : take (end - start) (drop start values) ≡ row =
            some_injective (ground (arith, h, t)) in
          (
            ground (
              arith,
              t,
              ap length same,
              length-take (end - start) (drop start values),
              length-drop start values,
            ),
            sym same,
          )
    ]

module _ (floats : Floats) where
  walk_weights-bound :
      (max temperature remaining : ℕ) (fallback : Option ℕ) (idx : ℕ) (logits : List ℕ) (i : ℕ)
      → walk_weights floats max temperature remaining fallback idx logits ≡ some i
      → (fallback ≡ some i) ⊎ (i < idx + length logits)
  unfolding walk_weights
  walk_weights-bound max temperature remaining fallback idx [] i h = inl h
  walk_weights-bound max temperature remaining fallback idx (logit ∷ logits) i h =
      elim (Bool-cases (counts floats max temperature logit)) [
        | inr f ↦
            elim (walk_weights-bound max temperature remaining fallback (suc idx) logits i
              (else_of (counts floats max temperature logit) _ _ f h)) [
                | inl e ↦ inl e
                | inr l ↦ inr (omega (arith, l))
              ]
        | inl t ↦
            let weight = weight_of floats max temperature logit in
            let inner = then_of (counts floats max temperature logit) _ _ t h in
            elim (Bool-cases (floats.lt_f64 remaining weight)) [
              | inl l ↦ inr (
                  ground
                    (arith, some_injective (then_of (floats.lt_f64 remaining weight) _ _ l inner)))
              | inr l ↦
                  elim (walk_weights-bound max temperature (floats.sub_f64 remaining weight)
                    (some idx) (suc idx) logits i
                    (else_of (floats.lt_f64 remaining weight) _ _ l inner)) [
                      | inl e ↦ inr (omega (arith, some_injective e))
                      | inr b ↦ inr (omega (arith, b))
                    ]
            ]
      ]

  select_weighted-bound :
      (row : List ℕ) (temperature sample : ℕ) (token : ℤ)
      → select_weighted floats row temperature sample ≡ fine token
      → (i : ℕ) × ((token ≡ as_i64 i) × (i < length row))
  select_weighted-bound row temperature sample token h =
      let (max, (m, h1)) = bind-fine (ok_or (max_finite row) no_token) _ h in
      let total = total_weight floats max temperature 0 row in
      elim (Bool-cases (is_weight total)) [
        | inr f ↦ absurd (bail-absurd (else_of (is_weight total) _ _ f h1))
        | inl t ↦
            let walk =
              walk_weights floats max temperature (floats.mul_f64 (floats.clamp_unit sample) total)
                none 0 row in
            let (i, (w, e)) =
              as_token-some walk no_token token (then_of (is_weight total) _ _ t h1) in
            elim (walk_weights-bound max temperature
              (floats.mul_f64 (floats.clamp_unit sample) total) none 0 row i w) [
                | inl n ↦ absurd (ground arith)
                | inr b ↦ (i, (e, omega (arith, b)))
              ]
      ]

  -- What a selection promises: an index of the row, and at temperature zero the last of its greatest.
  abbrev Selected : (row : List ℕ) (temperature : ℕ) (token : ℤ) → Type 0
  Selected row temperature token =
      (i : ℕ) × ((token ≡ as_i64 i)
        × ((i < length row) × (is_zero temperature ≡ true → IsLastGreatest row i)))

  select-Selected :
      (row : List ℕ) (temperature sample : ℕ) (token : ℤ)
      → select_token_from_logits_row floats row temperature sample ≡ fine token
      → Selected row temperature token
  unfolding select_token_from_logits_row
  select-Selected row temperature sample token h = elim (Bool-cases (is_zero temperature)) [
    | inl z ↦
        let (i, (e, g)) =
          argmax_token_from_logits_row-IsLastGreatest row token
            (then_of (is_zero temperature) _ _ z h) in
        (i, (e, (length-IsLastGreatest row i g, λ _. g)))
    | inr z ↦
        let infinite = length (retain (λ value. value == f32_infinity) row) in
        let h1 = else_of (is_zero temperature) _ _ z h in
        elim (Bool-cases (ltb 0 infinite)) [
          | inl t ↦
              let n =
                min (floats.scaled_index (floats.clamp_unit sample) infinite) (infinite - 1) in
              let (i, (w, e)) =
                as_token-some (nth_infinity n 0 row) _ token (then_of (ltb 0 infinite) _ _ t h1) in
              (
                i,
                (
                  e,
                  (
                    omega (arith, nth_infinity-bound n 0 row i w),
                    λ at_zero. absurd (both_ways at_zero z),
                  ),
                ),
              )
          | inr f ↦
              let (i, (e, b)) =
                select_weighted-bound row temperature sample token
                  (else_of (ltb 0 infinite) _ _ f h1) in
              (i, (e, (b, λ at_zero. absurd (both_ways at_zero z))))
        ]
  ]

  row_at-fine :
      (shape : List ℤ) (values : List ℕ) (position seq_len vocab_size : ℕ) (row : List ℕ)
      → row_at floats shape values position seq_len vocab_size ≡ fine row
      → (position < seq_len)
        × ((length row ≡ vocab_size)
            × (row ≡ take vocab_size (drop (position * vocab_size) values)))
  row_at-fine shape values position seq_len vocab_size row h =
      let (_, (u, h1)) = bind-fine (bail_if (leb seq_len position || vocab_size == 0) _) _ h in
      let (start, (m, h2)) = bind-fine (ok_or (checked_mul position vocab_size) _) _ h1 in
      let (end, (a, h3)) = bind-fine (ok_or (checked_add start vocab_size) _) _ h2 in
      let inside = bail_if-fine (leb seq_len position || vocab_size == 0) _ u in
      let start_is = checked_mul-some position vocab_size start (ok_or-fine _ _ m) in
      let end_is = checked_add-some start vocab_size end (ok_or-fine _ _ a) in
      let (len, part) = get_range-some values start end row (ok_or-fine _ _ h3) in
      let width : end - start ≡ vocab_size = omega arith in
      (
        ground (arith, inside),
        (
          len ∙ width,
          part
              ∙ (ap (λ n. take n (drop start values)) width
                  ∙ ap (λ n. take vocab_size (drop n values)) start_is),
        ),
      )

  -- The token that is sampled is an index of the vocabulary, and the position one of the sequence; at
  -- temperature zero the token is the last of the greatest logits of that position.
  pub sample_token_at_position-Selected :
      (batch : ℤ) (seq_len vocab_size : ℕ) (values : List ℕ) (position temperature sample : ℕ)
      (to_f32 : ℕ → ℕ) (token : ℤ)
      → sample_token_at_position floats
          (batch ∷ pos seq_len ∷ pos vocab_size ∷ [])
          values
          position
          temperature
          sample
          to_f32
        ≡ fine token
      → (position < seq_len)
        × ((i : ℕ) × ((token ≡ as_i64 i)
              × ((i < vocab_size)
                  × (is_zero temperature ≡ true
                      → IsLastGreatest
                          (map to_f32 (take vocab_size (drop (position * vocab_size) values)))
                          i))))
  unfolding sample_token_at_position
  sample_token_at_position-Selected batch seq_len vocab_size values position temperature sample
        to_f32 token h =
      let (row, (r, h1)) =
        bind-fine
          (row_at floats (batch ∷ pos seq_len ∷ pos vocab_size ∷ []) values position seq_len
            vocab_size)
          _ h in
      let (inside, (len, part)) =
        row_at-fine (batch ∷ pos seq_len ∷ pos vocab_size ∷ []) values position seq_len vocab_size
          row r in
      let (i, (e, (b, greatest))) = select-Selected (map to_f32 row) temperature sample token h1 in
      (
        inside,
        (
          i,
          (
            e,
            (
              omega (arith, b, len, length-map to_f32 row),
              λ at_zero. subst (λ r. IsLastGreatest (map to_f32 r) i) part (greatest at_zero),
            ),
          ),
        ),
      )
