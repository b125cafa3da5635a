-- ===== src/Inference/Ort.antt =====
-- What src/inference asks of the crates `anyhow` and `ort`. A tensor is its shape and its values: an
-- `f32` is its bit pattern. Whether the runtime makes or reads a tensor is a parameter.
use mathlib.Core.Path.{subst}
use unlimited_ocr_server.Prelude.{
  arith, ◌≡◌, refl, ap, ℕ, ◌+◌, ◌-◌, ◌*◌, ◌^◌, Bool, true, false, ◌&&◌, Option, none, some, List,
  [], ◌∷◌, ◌++◌, Text, codes, text_eq, decimal, ℤ, pos, negsuc, neg, length, take, drop, any, ltb,
  leb, if◌then◌else◌,
}

-- `anyhow::Result`, with the error's message
pub data Anyhow (A : Type 0) : Type 0 where
  fine : A → Anyhow A
  bail : Text → Anyhow A

infixl 5 ◌>>=◌ ◌>>◌
abbrev pub ◌>>=◌ : {A B : Type 0} → Anyhow A → (A → Anyhow B) → Anyhow B
fine a >>= f = f a
bail message >>= f = bail message

abbrev pub ◌>>◌ : {B : Type 0} → Anyhow (Unit {0}) → Anyhow B → Anyhow B
m >> k = m >>= (λ _. k)

pub fine_injective : {A : Type 0} {a b : A} → fine a ≡ fine b → a ≡ b
fine_injective {a = a} e = ap (λ r. elim r [ fine x ↦ x | bail _ ↦ a ]) e

-- What a step gave when what follows it gave a result.
pub bind-fine :
    {A B : Type 0} (step : Anyhow A) (rest : A → Anyhow B) {b : B}
    → (step >>= rest) ≡ fine b
    → (a : A) × ((step ≡ fine a) × (rest a ≡ fine b))
bind-fine (fine a) rest h = (a, (refl, h))
bind-fine (bail message) rest h = absurd (ground arith)

-- Every result has the property.
unfoldable pub Gives : {A : Type 0} → (A → Type 0) → Anyhow A → Type 0
Gives {A} P result = (a : A) → result ≡ fine a → P a

pub bind-Gives :
    {A B : Type 0} (P : B → Type 0) (step : Anyhow A) (rest : A → Anyhow B)
    → ((a : A) → step ≡ fine a → Gives P (rest a))
    → Gives P (step >>= rest)
unfolding Gives
bind-Gives P (fine a) rest f = f a refl
bind-Gives P (bail message) rest f = λ a h. absurd (ground arith)

pub fine-Gives : {A : Type 0} (P : A → Type 0) (a : A) → P a → Gives P (fine a)
unfolding Gives
fine-Gives P a p b h = subst P (fine_injective h) p

-- `Option::ok_or_else`
abbrev pub ok_or : {A : Type 0} → Option A → Text → Anyhow A
ok_or none message = bail message
ok_or (some a) message = fine a

-- `return Err` under a condition
abbrev pub bail_if : Bool → Text → Anyhow (Unit {0})
bail_if true message = bail message
bail_if false message = fine tt

pub data TensorElementType : Type 0 where
  float32 float16 bfloat16 : TensorElementType
  other_element : (name : Text) → TensorElementType

pub data ValueType : Type 0 where
  tensor : (ty : TensorElementType) (shape : List ℤ) → ValueType
  not_tensor : ValueType

-- An input or output that a graph declares.
pub record Outlet : Type 0 where
  pub name : Text
  pub dtype : ValueType

pub data DynValue : Type 0 where
  f32_tensor : (shape : List ℤ) (values : List ℕ) → DynValue
  f16_tensor : (shape : List ℤ) (values : List ℕ) → DynValue
  bf16_tensor : (shape : List ℤ) (values : List ℕ) → DynValue
  i64_tensor : (shape : List ℤ) (values : List ℤ) → DynValue
  bool_tensor : (shape : List ℤ) (values : List Bool) → DynValue
  other_value : (dtype : Text) → DynValue

-- The feeds of a run, and its outputs in the order of the graph.
abbrev pub Named : Type 0
Named = List (Text × DynValue)

-- The runtime: the message of `from_array` or `try_extract_tensor` where it fails, and the
-- conversions of the crate `half` and its `to_f32`.
pub record Ort : Type 0 where
  pub from_array : DynValue → Option Text
  pub try_extract : DynValue → Option Text
  pub f16_from_f32 : ℕ → ℕ
  pub bf16_from_f32 : ℕ → ℕ
  pub f16_to_f32 : ℕ → ℕ
  pub bf16_to_f32 : ℕ → ℕ

-- A loaded graph. `run` is the runtime's.
pub record Session : Type 0 where
  pub inputs : List Outlet
  pub outputs : List Outlet
  pub run : Named → Anyhow Named

abbrev unless_error : Option Text → Text → DynValue → Anyhow DynValue
unless_error none what value = fine value
unless_error (some message) what value = bail (what ++ message)

-- `Tensor::from_array`, whose error is put behind `what`
abbrev pub make_tensor : Ort → (what : Text) → DynValue → Anyhow DynValue
make_tensor ort what value = unless_error (ort.from_array value) what value

-- `HashSet::contains`
abbrev pub contains : List Text → Text → Bool
contains names name = any (text_eq name) names

-- `as i64` of a 64-bit word
abbrev pub as_i64 : ℕ → ℤ
as_i64 n = if ltb n (2 ^ 63) then pos n else neg (2 ^ 64 - n)

-- `usize::try_from` of an `i64`
abbrev pub to_usize : ℤ → Option ℕ
to_usize (pos n) = some n
to_usize (negsuc n) = none

-- `usize::checked_mul` and `checked_add`
abbrev pub checked_mul : ℕ → ℕ → Option ℕ
checked_mul a b = if ltb (a * b) (2 ^ 64) then some (a * b) else none

abbrev pub checked_add : ℕ → ℕ → Option ℕ
checked_add a b = if ltb (a + b) (2 ^ 64) then some (a + b) else none

-- `slice::get` of a range
abbrev pub get_range {ℓ} : {A : Type ℓ} → List A → (start end : ℕ) → Option (List A)
get_range values start end =
    if leb start end && leb end (length values)
    then some (take (end - start) (drop start values))
    else none

-- `SessionOutputs::get`
unfoldable pub get_output : Named → Text → Option DynValue
get_output [] name = none
get_output ((key, value) ∷ outputs) name =
    let later = get_output outputs name in if text_eq key name then some value else later

-- The outputs without the first of that name
unfoldable pub remove_output : Named → Text → Named
remove_output [] name = []
remove_output ((key, value) ∷ outputs) name =
    let later = remove_output outputs name in
    if text_eq key name then outputs else (key, value) ∷ later

-- `{:?}` of a shape
abbrev shape_items : List ℤ → Text
shape_items [] = []
shape_items (pos n ∷ []) = decimal n
shape_items (negsuc n ∷ []) = b'-' ∷ decimal (n + 1)
shape_items (pos n ∷ d ∷ shape) = decimal n ++ (codes ", " ++ shape_items (d ∷ shape))
shape_items (negsuc n ∷ d ∷ shape) =
    (b'-' ∷ decimal (n + 1)) ++ (codes ", " ++ shape_items (d ∷ shape))

abbrev pub shape_text : List ℤ → Text
shape_text shape = b'[' ∷ shape_items shape ++ b']' ∷ []
