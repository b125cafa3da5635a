-- ===== src/Prelude/Digits.antt =====
-- Numbers that are printed in decimal and read again.
use unlimited_ocr_server.Prelude.Tests.{◌==◌, leb, ltb, Bool-cases}
use unlimited_ocr_server.Prelude.Lists.{length, All}
use unlimited_ocr_server.Prelude.Chars.{Text, decimal, digits}
use unlimited_ocr_server.Prelude.Int.{ℤ, pos, negsuc}
use unlimited_ocr_server.Prelude.Numbers.{to_digit, read_digits, read_number, parse_i64}
use Prim.Native.Nat.{ℕ, zero, suc, ◌+◌, ◌-◌, ◌*◌, ◌/◌, ◌%◌, ◌^◌, ◌≤◌, ◌<◌}
use mathlib.Core.Path.{◌≡◌, refl, ap, ◌∙◌, subst}
use mathlib.Core.Logic.{inl, inr}
use mathlib.Core.Bool.{true, false}
use mathlib.Core.List.{[], ◌∷◌}
use mathlib.Core.Option.{some}
use native.Mathlib.Omega.{arith}

abbrev pub IsDigit : ℕ → Type 0
IsDigit c = (48 ≤ c) × (c ≤ 57)

to_digit-decimal : (d : ℕ) → d < 10 → to_digit 10 (48 + d) ≡ some d
to_digit-decimal d h = ground arith

read_digits-cons :
    (value d : ℕ) (rest : Text)
    → d < 10
    → read_digits 10 value ((48 + d) ∷ rest) ≡ read_digits 10 (value * 10 + d) rest
read_digits-cons value d rest h = rw (read_digits, to_digit-decimal d h) refl

read_digits-digits :
    (rounds n : ℕ) (rest : Text)
    → n < rounds
    → read_digits 10 0 (digits rounds n rest) ≡ read_digits 10 n rest
read_digits-digits zero n rest h = absurd (omega arith)
read_digits-digits (suc rounds) n rest h = elim (Bool-cases (ltb n 10)) [
  | inl t ↦ rw t (
      read_digits-cons 0 (n % 10) rest (omega arith)
      ∙ ap (λ v. read_digits 10 v rest) (ground arith))
  | inr f ↦ rw f (
      read_digits-digits rounds (n / 10) ((48 + n % 10) ∷ rest) (ground arith)
      ∙ (read_digits-cons (n / 10) (n % 10) rest (omega arith)
          ∙ ap (λ v. read_digits 10 v rest) (omega arith)))
]

digits-All : (rounds n : ℕ) (rest : Text) → All IsDigit rest → All IsDigit (digits rounds n rest)
digits-All zero n rest h = h
digits-All (suc rounds) n rest h =
    let low : All IsDigit ((48 + n % 10) ∷ rest) = ((omega arith, omega arith), h) in
    elim (Bool-cases (ltb n 10)) [
      | inl t ↦ rw t low
      | inr f ↦ rw f (digits-All rounds (n / 10) ((48 + n % 10) ∷ rest) low)
    ]

length-digits : (rounds n : ℕ) (rest : Text) → length rest ≤ length (digits rounds n rest)
length-digits zero n rest = omega arith
length-digits (suc rounds) n rest =
    let a = length-digits rounds (n / 10) ((48 + n % 10) ∷ rest) in ground arith

digits-pos : (rounds n : ℕ) (rest : Text) → 0 < rounds → 0 < length (digits rounds n rest)
digits-pos zero n rest h = absurd (omega arith)
digits-pos (suc rounds) n rest h =
    let a = length-digits rounds (n / 10) ((48 + n % 10) ∷ rest) in ground arith

first_of : (s : Text) → 0 < length s → (c : ℕ) × ((t : Text) × (s ≡ c ∷ t))
first_of [] h = absurd (omega arith)
first_of (c ∷ t) h = (c, (t, refl))

read_number-pos : (s : Text) → 0 < length s → read_number 10 s ≡ read_digits 10 0 s
read_number-pos [] h = absurd (omega arith)
read_number-pos (c ∷ s) h = refl

module _ (n : ℕ) where
  pub decimal-All : All IsDigit (decimal n)
  unfolding decimal
  decimal-All = digits-All (n + 1) n [] tt

  -- A printed number has a first digit.
  pub decimal-cons : (c : ℕ) × ((s : Text) × (decimal n ≡ c ∷ s))
  unfolding decimal
  decimal-cons = first_of (decimal n) (digits-pos (n + 1) n [] (omega arith))

  pub read_number-decimal : read_number 10 (decimal n) ≡ some n
  unfolding decimal
  read_number-decimal =
      read_number-pos (decimal n) (digits-pos (n + 1) n [] (omega arith))
      ∙ read_digits-digits (n + 1) n [] (omega arith)

-- The text of a signed number.
abbrev pub int_text : ℤ → Text
int_text (pos n) = decimal n
int_text (negsuc n) = b'-' ∷ decimal (n + 1)

-- The numbers of an `i64`.
abbrev pub IsI64 : ℤ → Type 0
IsI64 (pos n) = n < 2 ^ 63
IsI64 (negsuc n) = n < 2 ^ 63

pub parse_i64-int_text : (z : ℤ) → IsI64 z → parse_i64 (int_text z) ≡ some z
unfolding parse_i64
parse_i64-int_text (pos n) h =
    let (c, (t, e)) = decimal-cons n in
    let all : All IsDigit (c ∷ t) = subst (All IsDigit) e (decimal-All n) in
    let number : read_number 10 (c ∷ t) ≡ some n =
      subst (λ s. read_number 10 s ≡ some n) e (read_number-decimal n) in
    let minus : (c == b'-') ≡ false = ground (arith, all.0) in
    let plus : (c == b'+') ≡ false = ground (arith, all.0) in
    let bound : leb n (2 ^ 63 - 1) ≡ true = ground (arith, h) in
    rw (e, minus, plus, number, bound) refl
parse_i64-int_text (negsuc n) h =
    let bound : leb (n + 1) (2 ^ 63) ≡ true = ground (arith, h) in
    let next : n + 1 ≡ suc n = omega arith in rw (read_number-decimal (n + 1), bound, next) refl
