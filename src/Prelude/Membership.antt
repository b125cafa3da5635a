-- ===== src/Prelude/Membership.antt =====
-- Membership by recursion, and the number of items that pass a test.
use Prim.Native.Nat.{ℕ, ◌+◌, ◌≤◌}
use mathlib.Core.Path.{◌≡◌, refl, sym, ◌∙◌, ap, subst}
use mathlib.Core.Logic.{◌⊎◌, inl, inr}
use mathlib.Core.Bool.{Bool, true, false}
use mathlib.Core.List.{List, [], ◌∷◌, ◌++◌, reverse, reverse-append, reverse-reverse}
use native.Mathlib.Omega.{arith}
use unlimited_ocr_server.Prelude.Tests.{if◌then◌else◌, Bool-cases}
use unlimited_ocr_server.Prelude.Lists.{length, All, retain, take, drop, any, take-append-drop}

module _ {A : Type 0} where
  abbrev pub In : A → List A → Type 0
  In a [] = ⊥
  In a (x ∷ xs) = (x ≡ a) ⊎ In a xs

  abbrev pub tally : (A → Bool) → List A → ℕ
  tally p [] = 0
  tally p (x ∷ xs) = (if p x then 1 else 0) + tally p xs

module _ {A : Type 0} where
  pub All-In {κ} : (P : A → Type κ) (a : A) (xs : List A) → All P xs → In a xs → P a
  All-In P a [] h m = absurd m
  All-In P a (x ∷ xs) h (inl e) = subst P e h.0
  All-In P a (x ∷ xs) h (inr m) = All-In P a xs h.1 m

  pub In-All {κ} : (P : A → Type κ) (xs : List A) → ((a : A) → In a xs → P a) → All P xs
  In-All P [] f = tt
  In-All P (x ∷ xs) f = (f x (inl refl), In-All P xs (λ a m. f a (inr m)))

  pub In-append : (a : A) (xs ys : List A) → In a (xs ++ ys) → In a xs ⊎ In a ys
  In-append a [] ys m = inr m
  In-append a (x ∷ xs) ys (inl e) = inl (inl e)
  In-append a (x ∷ xs) ys (inr m) = elim (In-append a xs ys m) [
    | inl k ↦ inl (inr k)
    | inr k ↦ inr k
  ]

  pub In-append_left : (a : A) (xs ys : List A) → In a xs → In a (xs ++ ys)
  In-append_left a [] ys m = absurd m
  In-append_left a (x ∷ xs) ys (inl e) = inl e
  In-append_left a (x ∷ xs) ys (inr m) = inr (In-append_left a xs ys m)

  pub In-append_right : (a : A) (xs ys : List A) → In a ys → In a (xs ++ ys)
  In-append_right a [] ys m = m
  In-append_right a (x ∷ xs) ys m = inr (In-append_right a xs ys m)

  pub tally-append : (p : A → Bool) (xs ys : List A) → tally p (xs ++ ys) ≡ tally p xs + tally p ys
  tally-append p [] ys = omega arith
  tally-append p (x ∷ xs) ys = omega (arith, tally-append p xs ys)

  pub tally-le-length : (p : A → Bool) (xs : List A) → tally p xs ≤ length xs
  tally-le-length p [] = omega arith
  tally-le-length p (x ∷ xs) = ground (arith, tally-le-length p xs)

  pub tally-All : (p : A → Bool) (xs : List A) → All (λ x. p x ≡ true) xs → tally p xs ≡ length xs
  tally-All p [] h = refl
  tally-All p (x ∷ xs) h = rw h.0 (omega (arith, tally-All p xs h.1))

  pub tally_none : (p : A → Bool) (xs : List A) → All (λ x. p x ≡ false) xs → tally p xs ≡ 0
  tally_none p [] h = refl
  tally_none p (x ∷ xs) h = rw h.0 (omega (arith, tally_none p xs h.1))

  pub tally_pos : (p : A → Bool) (a : A) (xs : List A) → p a ≡ true → In a xs → 1 ≤ tally p xs
  tally_pos p a [] h m = absurd m
  tally_pos p a (x ∷ xs) h (inl e) =
      let h' : p x ≡ true = subst (λ y. p y ≡ true) (sym e) h in rw h' (omega arith)
  tally_pos p a (x ∷ xs) h (inr m) = omega (arith, tally_pos p a xs h m)

  pub length-retain-tally : (p : A → Bool) (xs : List A) → length (retain p xs) ≡ tally p xs
  length-retain-tally p [] = refl
  length-retain-tally p (x ∷ xs) = ground (arith, length-retain-tally p xs)

  -- The items past the first `n` of the reversed list, in the list's order, and those `n`.
  pub split_last :
      (n : ℕ) (xs : List A) → xs ≡ reverse (drop n (reverse xs)) ++ reverse (take n (reverse xs))
  split_last n xs =
      sym (reverse-reverse xs)
      ∙ ap reverse (sym (take-append-drop n (reverse xs)))
      ∙ reverse-append (take n (reverse xs)) (drop n (reverse xs))

  pub any-In : (p : A → Bool) (xs : List A) → any p xs ≡ true → (a : A) × In a xs × (p a ≡ true)
  any-In p [] h = cc
  any-In p (x ∷ xs) h = elim (Bool-cases (p x)) [
    | inl t ↦ (x, inl refl, t)
    | inr f ↦ let (a, m, e) = any-In p xs (rw f at h) in (a, inr m, e)
  ]

  pub In-any : (p : A → Bool) (a : A) (xs : List A) → In a xs → p a ≡ true → any p xs ≡ true
  In-any p a [] m h = absurd m
  In-any p a (x ∷ xs) (inl e) h = rw (subst (λ y. p y ≡ true) (sym e) h)
  In-any p a (x ∷ xs) (inr m) h = ground (arith, In-any p a xs m h)
