-- ===== src/Prelude/Sort.antt =====
-- `sort_by_key`: a stable sort by a numeric key.
use Prim.Native.Nat.{ℕ, ◌+◌, ◌≤◌}
use mathlib.Core.Path.{◌≡◌, refl, subst}
use mathlib.Core.Logic.{inl, inr}
use mathlib.Core.Bool.{Bool, true, false}
use mathlib.Core.List.{List, [], ◌∷◌, ◌++◌}
use native.Mathlib.Omega.{arith}
use unlimited_ocr_server.Prelude.Tests.{if◌then◌else◌, leb, Bool-cases, leb→le}
use unlimited_ocr_server.Prelude.Lists.{length, All, All-map, All-append_right}
use unlimited_ocr_server.Prelude.Membership.{In, tally}

module _ {A : Type 0} (key : A → ℕ) where
  unfoldable pub insert_by_key : A → List A → List A
  insert_by_key x [] = x ∷ []
  insert_by_key x (y ∷ ys) = if leb (key x) (key y) then x ∷ y ∷ ys else y ∷ insert_by_key x ys

  unfoldable pub sort_by_key : List A → List A
  unfolding insert_by_key
  sort_by_key [] = []
  sort_by_key (x ∷ xs) = insert_by_key x (sort_by_key xs)

  abbrev pub IsSorted : List A → Type 0
  IsSorted [] = Unit
  IsSorted (x ∷ xs) = All (λ y. key x ≤ key y) xs × IsSorted xs

module _ {A : Type 0} (key : A → ℕ) where
  pub insert_by_key-All {κ} :
      (P : A → Type κ) (x : A) (xs : List A) → P x → All P xs → All P (insert_by_key key x xs)
  unfolding insert_by_key
  insert_by_key-All P x [] p h = (p, tt)
  insert_by_key-All P x (y ∷ ys) p h =
      elim (leb (key x) (key y))
        as (λ b. All P (if b then x ∷ y ∷ ys else y ∷ insert_by_key key x ys)) [
          | true ↦ (p, h)
          | false ↦ (h.0, insert_by_key-All P x ys p h.1)
        ]

  pub sort_by_key-All {κ} : (P : A → Type κ) (xs : List A) → All P xs → All P (sort_by_key key xs)
  unfolding sort_by_key
  sort_by_key-All P [] h = tt
  sort_by_key-All P (x ∷ xs) h =
      insert_by_key-All P x (sort_by_key key xs) h.0 (sort_by_key-All P xs h.1)

  insert_by_key-IsSorted :
      (x : A) (xs : List A) → IsSorted key xs → IsSorted key (insert_by_key key x xs)
  unfolding insert_by_key
  insert_by_key-IsSorted x [] s = (tt, tt)
  insert_by_key-IsSorted x (y ∷ ys) s = elim (Bool-cases (leb (key x) (key y))) [
    | inl t ↦ rw t ((leb→le _ _ t, All-map _ _ (λ a h. omega (arith, leb→le _ _ t)) ys s.0), s)
    | inr f ↦ rw f (
      insert_by_key-All (λ z. key y ≤ key z) x ys (ground arith) s.0,
      insert_by_key-IsSorted x ys s.1,
    )
  ]

  pub sort_by_key-IsSorted : (xs : List A) → IsSorted key (sort_by_key key xs)
  unfolding sort_by_key
  sort_by_key-IsSorted [] = tt
  sort_by_key-IsSorted (x ∷ xs) = insert_by_key-IsSorted x _ (sort_by_key-IsSorted xs)

  tally-insert_by_key :
      (p : A → Bool) (x : A) (xs : List A)
      → tally p (insert_by_key key x xs) ≡ (if p x then 1 else 0) + tally p xs
  unfolding insert_by_key
  tally-insert_by_key p x [] = refl
  tally-insert_by_key p x (y ∷ ys) = ground (arith, tally-insert_by_key p x ys)

  pub tally-sort_by_key : (p : A → Bool) (xs : List A) → tally p (sort_by_key key xs) ≡ tally p xs
  unfolding sort_by_key
  tally-sort_by_key p [] = refl
  tally-sort_by_key p (x ∷ xs) =
      omega (arith, tally-insert_by_key p x (sort_by_key key xs), tally-sort_by_key p xs)

  In-insert_by_key_self : (x : A) (xs : List A) → In x (insert_by_key key x xs)
  unfolding insert_by_key
  In-insert_by_key_self x [] = inl refl
  In-insert_by_key_self x (y ∷ ys) =
      elim (leb (key x) (key y))
        as (λ b. In x (if b then x ∷ y ∷ ys else y ∷ insert_by_key key x ys)) [
          | true ↦ inl refl
          | false ↦ inr (In-insert_by_key_self x ys)
        ]

  In-insert_by_key : (a x : A) (xs : List A) → In a xs → In a (insert_by_key key x xs)
  unfolding insert_by_key
  In-insert_by_key a x [] m = absurd m
  In-insert_by_key a x (y ∷ ys) m =
      elim (leb (key x) (key y))
        as (λ b. In a (if b then x ∷ y ∷ ys else y ∷ insert_by_key key x ys)) [
          | true ↦ inr m
          | false ↦ elim m [ inl e ↦ inl e | inr k ↦ inr (In-insert_by_key a x ys k) ]
        ]

  pub In-sort_by_key : (a : A) (xs : List A) → In a xs → In a (sort_by_key key xs)
  unfolding sort_by_key
  In-sort_by_key a [] m = absurd m
  In-sort_by_key a (x ∷ xs) (inl e) =
      subst (λ y. In y (insert_by_key key x (sort_by_key key xs))) e (In-insert_by_key_self x _)
  In-sort_by_key a (x ∷ xs) (inr m) = In-insert_by_key a x _ (In-sort_by_key a xs m)

  length-insert_by_key : (x : A) (xs : List A) → length (insert_by_key key x xs) ≡ length xs + 1
  unfolding insert_by_key
  length-insert_by_key x [] = refl
  length-insert_by_key x (y ∷ ys) = ground (arith, length-insert_by_key x ys)

  pub length-sort_by_key : (xs : List A) → length (sort_by_key key xs) ≡ length xs
  unfolding sort_by_key
  length-sort_by_key [] = refl
  length-sort_by_key (x ∷ xs) =
      omega (arith, length-insert_by_key x (sort_by_key key xs), length-sort_by_key xs)

  pub IsSorted-append :
      (xs ys : List A) → IsSorted key (xs ++ ys) → All (λ x. All (λ y. key x ≤ key y) ys) xs
  IsSorted-append [] ys s = tt
  IsSorted-append (x ∷ xs) ys s = (All-append_right _ xs ys s.0, IsSorted-append xs ys s.1)
