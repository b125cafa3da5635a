-- ===== src/Prelude/Append.antt =====
-- Searches and cuts in a text that is put together from pieces.
use unlimited_ocr_server.Prelude.Tests.{◌==◌, Bool-cases, Option-cases, ==_iff}
use unlimited_ocr_server.Prelude.Lists.{length, take, drop, All}
use unlimited_ocr_server.Prelude.Chars.{Text, strip_prefix}
use unlimited_ocr_server.Prelude.Search.{find, find_char, rfind_char, split}
use Prim.Native.Nat.{ℕ, suc}
use mathlib.Core.Path.{◌≡◌, refl, ap}
use mathlib.Core.Logic.{inl, inr}
use mathlib.Core.Bool.{Bool, true, false}
use mathlib.Core.List.{List, [], ◌∷◌, ◌++◌}
use mathlib.Core.Option.{none, some}
use native.Mathlib.Omega.{arith}

-- The character does not occur in the text.
abbrev pub IsWithout : ℕ → Text → Type 0
IsWithout x s = All (λ c. (c == x) ≡ false) s

module _ {ℓ} {A : Type ℓ} where
  pub take-append_left : (s t : List A) → take (length s) (s ++ t) ≡ s
  take-append_left [] t = refl
  take-append_left (c ∷ s) t = ap (λ r. c ∷ r) (take-append_left s t)

  pub drop-append_left : (s t : List A) → drop (length s) (s ++ t) ≡ t
  drop-append_left [] t = refl
  drop-append_left (c ∷ s) t = drop-append_left s t

  pub take-append_at : (n : ℕ) (s t : List A) → n ≡ length s → take n (s ++ t) ≡ s
  take-append_at n s t e = rw e (take-append_left s t)

  pub drop-append_at : (n : ℕ) (s t : List A) → n ≡ length s → drop n (s ++ t) ≡ t
  drop-append_at n s t e = rw e (drop-append_left s t)

  -- A cut behind the first piece and the item after it.
  pub drop-append_after :
      (n : ℕ) (s : List A) (c : A) (t : List A) → n ≡ suc (length s) → drop n (s ++ c ∷ t) ≡ t
  drop-append_after n [] c t e = rw e refl
  drop-append_after n (x ∷ s) c t e = rw e (drop-append_after (suc (length s)) s c t refl)

pub find_char-append :
    (p : ℕ → Bool) (s : Text) (c : ℕ) (t : Text)
    → All (λ x. p x ≡ false) s
    → p c ≡ true
    → find_char p (s ++ c ∷ t) ≡ some (length s)
find_char-append p [] c t h k = ground arith
find_char-append p (x ∷ s) c t h k = ground (arith, h.0, find_char-append p s c t h.1 k)

pub rfind_char-IsWithout : (x : ℕ) (s : Text) → IsWithout x s → rfind_char x s ≡ none
rfind_char-IsWithout x [] h = refl
rfind_char-IsWithout x (c ∷ s) h = rw (rfind_char-IsWithout x s h.1, h.0) refl

pub rfind_char-append :
    (x : ℕ) (s t : Text) → IsWithout x t → rfind_char x (s ++ x ∷ t) ≡ some (length s)
rfind_char-append x [] t h = rw (rfind_char-IsWithout x t h, (==_iff x x).1 refl) refl
rfind_char-append x (c ∷ s) t h = rw (rfind_char-append x s t h) refl

pub split-IsWithout : (x : ℕ) (s : Text) → IsWithout x s → split x s ≡ s ∷ []
split-IsWithout x [] h = refl
split-IsWithout x (c ∷ s) h = rw (h.0, split-IsWithout x s h.1) refl

pub split-append : (x : ℕ) (s t : Text) → IsWithout x s → split x (s ++ x ∷ t) ≡ s ∷ split x t
split-append x [] t h = rw ((==_iff x x).1 refl) refl
split-append x (c ∷ s) t h = rw (h.0, split-append x s t h.1) refl

-- A pattern whose first character does not come back in it is found behind a text that it does not
-- occur in, since no occurrence reaches over the end of that text.
module _ (p : ℕ) (ps : Text) (once : IsWithout p ps) where
  strip_prefix-over :
      (qs s t : Text)
      → IsWithout p qs
      → strip_prefix qs s ≡ none
      → strip_prefix qs (s ++ p ∷ t) ≡ none
  strip_prefix-over [] s t h k = absurd (ground arith)
  strip_prefix-over (q ∷ qs) [] t h k = rw h.0 refl
  strip_prefix-over (q ∷ qs) (c ∷ s) t h k = elim (Bool-cases (q == c)) [
    | inr f ↦ rw f refl
    | inl e ↦ rw e (strip_prefix-over qs s t h.1 (ground arith))
  ]

  strip_prefix-all : (qs t : Text) → strip_prefix qs (qs ++ t) ≡ some t
  strip_prefix-all [] t = refl
  strip_prefix-all (q ∷ qs) t = rw ((==_iff q q).1 refl) (strip_prefix-all qs t)

  find-tail : (c : ℕ) (s : Text) → find (p ∷ ps) (c ∷ s) ≡ none → find (p ∷ ps) s ≡ none
  find-tail c s h = elim (Option-cases (find (p ∷ ps) s)) [
    | inl e ↦ e
    | inr (i, e) ↦ absurd (ground arith)
  ]

  strip_prefix-tail :
      (c : ℕ) (s : Text) → (p == c) ≡ true → find (p ∷ ps) (c ∷ s) ≡ none → strip_prefix ps s ≡ none
  strip_prefix-tail c s e h = elim (Option-cases (strip_prefix ps s)) [
    | inl n ↦ n
    | inr (r, n) ↦ absurd (ground arith)
  ]

  pub find-append :
      (s t : Text) → find (p ∷ ps) s ≡ none → find (p ∷ ps) (s ++ ((p ∷ ps) ++ t)) ≡ some (length s)
  find-append [] t h = rw ((==_iff p p).1 refl, strip_prefix-all ps t) refl
  find-append (c ∷ s) t h = elim (Bool-cases (p == c)) [
    | inr f ↦ rw (f, find-append s t (find-tail c s h)) refl
    | inl e ↦
        rw
          (
            e,
            strip_prefix-over ps s (ps ++ t) once (strip_prefix-tail c s e h),
            find-append s t (find-tail c s h),
          )
          refl
  ]

  pub find-IsWithout : (s : Text) → IsWithout p s → find (p ∷ ps) s ≡ none
  find-IsWithout [] h = refl
  find-IsWithout (c ∷ s) h = rw (differs, find-IsWithout s h.1) refl
    where
      differs : (p == c) ≡ false
      differs = ground (arith, h.0)
