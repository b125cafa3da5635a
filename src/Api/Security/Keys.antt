-- ===== src/Api/Security/Keys.antt =====
-- The comparison of API keys in src/api/security.rs.
use mathlib.Core.Path.{subst}
use unlimited_ocr_server.Prelude.{
  ℕ, zero, suc, ◌+◌, ◌^◌, ◌<◌, ◌≤◌, ◌≡◌, ◌↔◌, refl, sym, ap, inl, inr, Text, true, ◌==◌, List, [],
  ◌∷◌, length, get_elem?, max, any, All, unwrap_or, arith, ==_iff, Bool-cases,
}
use unlimited_ocr_server.Prelude.Bits.{
  xor, or, xor_self, eq_of_xor, or_zero, zero_of_or, xor_bound, or_bound,
}
use unlimited_ocr_server.Prelude.Utf8.{as_bytes, IsText, as_bytes_injective, as_bytes-IsBytes}
use unlimited_ocr_server.Prelude.Membership.{In}
use unlimited_ocr_server.Api.Security.{difference, constant_time_eq, api_key_allowed}

abbrev pub IsBytes : List ℕ → Type 0
IsBytes bytes = All (λ b. b < 2 ^ 8) bytes

abbrev byte : List ℕ → ℕ → ℕ
byte bytes i = unwrap_or (get_elem? bytes i) 0

byte_bound : (bytes : List ℕ) (i : ℕ) → IsBytes bytes → byte bytes i < 2 ^ 8
byte_bound [] i h = omega arith
byte_bound (b ∷ bytes) zero h = h.0
byte_bound (b ∷ bytes) (suc i) h = byte_bound bytes i h.1

xor_byte_bound : (a b : ℕ) → xor 8 a b < 2 ^ 64
xor_byte_bound a b = omega (arith, xor_bound 8 a b)

difference_zero :
    (rounds index diff : ℕ) (left right : List ℕ)
    → diff < 2 ^ 64
    → IsBytes left
    → IsBytes right
    → difference rounds index diff left right ≡ 0
    → (diff ≡ 0) × ((i : ℕ) → index ≤ i → i < index + rounds → byte left i ≡ byte right i)
unfolding difference
difference_zero zero index diff left right d l r e = (e, λ i h k. absurd (omega arith))
difference_zero (suc rounds) index diff left right d l r e =
    let a = byte left index in
    let b = byte right index in
    let (both, later) =
      difference_zero rounds (index + 1) (or 64 diff (xor 8 a b)) left right
        (or_bound 64 diff (xor 8 a b)) l r e in
    let (here, same) = zero_of_or 64 diff (xor 8 a b) d (xor_byte_bound a b) both in
    let at = eq_of_xor 8 a b (byte_bound left index l) (byte_bound right index r) same in
    (
      here,
      λ i h k. elim (Bool-cases (index == i)) [
        | inl t ↦ subst (λ j. byte left j ≡ byte right j) ((==_iff index i).0 t) at
        | inr f ↦ later i (ground arith) (omega arith)
      ],
    )

difference_same : (rounds index : ℕ) (bytes : List ℕ) → difference rounds index 0 bytes bytes ≡ 0
unfolding difference
difference_same zero index bytes = refl
difference_same (suc rounds) index bytes =
    rw (xor_self 8 (byte bytes index), or_zero 64) (difference_same rounds (index + 1) bytes)

list_ext :
    (left right : List ℕ)
    → length left ≡ length right
    → ((i : ℕ) → i < length left → byte left i ≡ byte right i)
    → left ≡ right
list_ext [] [] e h = refl
list_ext [] (b ∷ right) e h = absurd (omega arith)
list_ext (a ∷ left) [] e h = absurd (omega arith)
list_ext (a ∷ left) (b ∷ right) e h =
    let rest = list_ext left right (omega arith) (λ i k. h (suc i) (omega arith)) in
    let here = h 0 (omega arith) in cc

constant_time_eq-zero :
    (left right : List ℕ)
    → constant_time_eq left right ≡ true
    → difference
        (max (length left) (length right))
        0
        (xor 64 (length left) (length right))
        left
        right
      ≡ 0
unfolding constant_time_eq
constant_time_eq-zero left right h = (==_iff _ 0).0 h

constant_time_eq-same : (bytes : List ℕ) → constant_time_eq bytes bytes ≡ true
unfolding constant_time_eq
constant_time_eq-same bytes =
    rw (xor_self 64 (length bytes), difference_same (max (length bytes) (length bytes)) 0 bytes)
      refl

eq_of_constant_time_eq :
    (left right : List ℕ)
    → IsBytes left
    → IsBytes right
    → length left < 2 ^ 64
    → length right < 2 ^ 64
    → constant_time_eq left right ≡ true
    → left ≡ right
eq_of_constant_time_eq left right l r m n h =
    let (lengths, bytes) =
      difference_zero (max (length left) (length right)) 0 (xor 64 (length left) (length right))
        left right (xor_bound 64 (length left) (length right)) l r
        (constant_time_eq-zero left right h) in
    list_ext left right (eq_of_xor 64 (length left) (length right) m n lengths)
      (λ i k. bytes i (omega arith) (omega arith))

-- `constant_time_eq` accepts two sequences of bytes of addressable length exactly when they are
-- equal.
constant_time_eq_iff :
    (left right : List ℕ)
    → IsBytes left
    → IsBytes right
    → length left < 2 ^ 64
    → length right < 2 ^ 64
    → (constant_time_eq left right ≡ true) ↔ (left ≡ right)
constant_time_eq_iff left right l r m n = (
  eq_of_constant_time_eq left right l r m n,
  λ e. subst (λ x. constant_time_eq left x ≡ true) e (constant_time_eq-same left),
)

-- A text that a program can hold.
abbrev pub IsAddressable : Text → Type 0
IsAddressable text = IsText text × (length (as_bytes text) < 2 ^ 64)

key_eq_iff :
    (a b : Text)
    → IsAddressable a
    → IsAddressable b
    → (constant_time_eq (as_bytes a) (as_bytes b) ≡ true) ↔ (a ≡ b)
key_eq_iff a b h k =
    let bytes =
      constant_time_eq_iff (as_bytes a) (as_bytes b) (as_bytes-IsBytes a h.0)
        (as_bytes-IsBytes b k.0) h.1 k.1 in
    (λ e. as_bytes_injective a b h.0 k.0 (bytes.0 e), λ e. bytes.1 (ap as_bytes e))

allowed-In :
    (presented : Text) (configured : List Text)
    → IsAddressable presented
    → All IsAddressable configured
    → any (λ expected. constant_time_eq (as_bytes presented) (as_bytes expected)) configured ≡ true
    → In presented configured
allowed-In presented [] h k e = absurd (ground arith)
allowed-In presented (x ∷ configured) h k e =
    elim (Bool-cases (constant_time_eq (as_bytes presented) (as_bytes x))) [
      | inl t ↦ inl (sym ((key_eq_iff presented x h k.0).0 t))
      | inr f ↦ inr (allowed-In presented configured h k.1 (rw f at e))
    ]

In-allowed :
    (presented : Text) (configured : List Text)
    → IsAddressable presented
    → All IsAddressable configured
    → In presented configured
    → any (λ expected. constant_time_eq (as_bytes presented) (as_bytes expected)) configured ≡ true
In-allowed presented [] h k m = absurd m
In-allowed presented (x ∷ configured) h k (inl e) =
    rw ((key_eq_iff presented x h k.0).1 (sym e)) refl
In-allowed presented (x ∷ configured) h k (inr m) =
    elim (Bool-cases (constant_time_eq (as_bytes presented) (as_bytes x))) [
      | inl t ↦ rw t refl
      | inr f ↦ rw f (In-allowed presented configured h k.1 m)
    ]

-- A presented key is allowed exactly when it is one of the configured keys.
pub api_key_allowed_iff :
    (presented : Text) (configured : List Text)
    → IsAddressable presented
    → All IsAddressable configured
    → (api_key_allowed presented configured ≡ true) ↔ In presented configured
unfolding api_key_allowed
api_key_allowed_iff presented configured h k =
    (allowed-In presented configured h k, In-allowed presented configured h k)
