-- ===== src/Inference/Tensor/Greatest.antt =====
-- At temperature zero src/inference/tensor.rs takes the last of the greatest logits.
use unlimited_ocr_server.Prelude.{
  ℕ, suc, ◌+◌, ◌≤◌, ◌<◌, ◌≡◌, refl, sym, ap, ◌⊎◌, inl, inr, false, List, [], ◌∷◌, ◌++◌, arith, ℤ,
  length, all, All, ltb, ltb→lt, Bool-cases,
}
use unlimited_ocr_server.Inference.Ort.{fine, fine_injective, as_i64}
use unlimited_ocr_server.Inference.Tensor.{total_key, argmax_from, argmax_token_from_logits_row}

-- The item at `idx` is the last of the greatest of the row.
abbrev pub IsLastGreatest : List ℕ → ℕ → Type 0
IsLastGreatest row idx =
    (before : List ℕ) × ((value : ℕ) × ((after : List ℕ) × ((row ≡ before ++ value ∷ after)
          × ((idx ≡ length before)
              × (All (λ v. total_key v ≤ total_key value) before
                  × All (λ v. total_key v < total_key value) after)))))

-- What the search gives: the best so far, or an item of the row.
abbrev Found : (best_idx best idx : ℕ) → List ℕ → ℕ → Type 0
Found best_idx best idx row result =
    ((result ≡ best_idx) × All (λ v. total_key v < total_key best) row)
    ⊎ ((before : List ℕ) × ((value : ℕ) × ((after : List ℕ) × ((row ≡ before ++ value ∷ after)
              × ((result ≡ idx + length before)
                  × ((total_key best ≤ total_key value)
                      × (All (λ v. total_key v ≤ total_key value) before
                          × All (λ v. total_key v < total_key value) after)))))))

Found-keep :
    (best_idx best idx value : ℕ) (row : List ℕ) (result : ℕ)
    → total_key value < total_key best
    → Found best_idx best (suc idx) row result
    → Found best_idx best idx (value ∷ row) result
Found-keep best_idx best idx value row result h (inl (e, all)) = inl (e, (h, all))
Found-keep best_idx best idx value row result h
      (inr (before, (v, (after, (e, (r, (b, (l, g)))))))) =
    inr (
      value ∷ before,
      (v, (after, (ap (λ s. value ∷ s) e, (omega (arith, r), (b, ((omega (arith, h, b), l), g)))))),
    )

Found-take :
    (best_idx best idx value : ℕ) (row : List ℕ) (result : ℕ)
    → total_key best ≤ total_key value
    → Found idx value (suc idx) row result
    → Found best_idx best idx (value ∷ row) result
Found-take best_idx best idx value row result h (inl (e, all)) =
    inr ([], (value, (row, (refl, (omega (arith, e), (h, (tt, all)))))))
Found-take best_idx best idx value row result h
      (inr (before, (v, (after, (e, (r, (b, (l, g)))))))) =
    inr (
      value ∷ before,
      (v, (after, (ap (λ s. value ∷ s) e, (omega (arith, r), (omega (arith, h, b), ((b, l), g)))))),
    )

argmax_from-Found :
    (best_idx best idx : ℕ) (row : List ℕ)
    → Found best_idx best idx row (argmax_from best_idx best idx row)
unfolding argmax_from
argmax_from-Found best_idx best idx [] = inl (refl, tt)
argmax_from-Found best_idx best idx (value ∷ row) =
    elim (Bool-cases (ltb (total_key value) (total_key best))) [
      | inl t ↦
          rw (argmax_from, t)
            (Found-keep best_idx best idx value row (argmax_from best_idx best (suc idx) row)
              (ltb→lt _ _ t) (argmax_from-Found best_idx best (suc idx) row))
      | inr f ↦
          rw (argmax_from, f)
            (Found-take best_idx best idx value row (argmax_from idx value (suc idx) row)
              (not_less (total_key value) (total_key best) f)
              (argmax_from-Found idx value (suc idx) row))
    ]
  where
    not_less : (a b : ℕ) → ltb a b ≡ false → b ≤ a
    not_less a b h = ground arith

IsLastGreatest-Found :
    (value : ℕ) (row : List ℕ) (result : ℕ)
    → Found 0 value 1 row result
    → IsLastGreatest (value ∷ row) result
IsLastGreatest-Found value row result (inl (e, all)) = ([], (value, (row, (refl, (e, (tt, all))))))
IsLastGreatest-Found value row result (inr (before, (v, (after, (e, (r, (b, (l, g)))))))) =
    (value ∷ before, (v, (after, (ap (λ s. value ∷ s) e, (omega (arith, r), ((b, l), g))))))

pub argmax_token_from_logits_row-IsLastGreatest :
    (row : List ℕ) (token : ℤ)
    → argmax_token_from_logits_row row ≡ fine token
    → (idx : ℕ) × ((token ≡ as_i64 idx) × IsLastGreatest row idx)
unfolding argmax_token_from_logits_row
argmax_token_from_logits_row-IsLastGreatest [] token h = absurd (ground arith)
argmax_token_from_logits_row-IsLastGreatest (value ∷ row) token h = (
  argmax_from 0 value 1 row,
  (sym (fine_injective h), IsLastGreatest-Found value row _ (argmax_from-Found 0 value 1 row)),
)
