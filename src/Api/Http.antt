-- ===== src/Api/Http.antt =====
-- Requests and responses, as far as the middleware of src/api reads and writes them, and `ApiError`
-- of src/api.rs. A header value that `to_str` refuses is `opaque`.
use unlimited_ocr_server.Prelude.{
  ◌≡◌, refl, ap, arith, ℕ, Text, codes, Option, none, some, Bool, if◌then◌else◌,
}

pub data HeaderValue : Type 0 where
  visible : Text → HeaderValue
  opaque : HeaderValue

pub record Request : Type 0 where
  pub path : Text
  pub x_api_key : Option HeaderValue
  pub authorization : Option HeaderValue

pub record ErrorResponse : Type 0 where
  pub code : Text
  pub message : Text

pub data Body : Type 0 where
  error_body : ErrorResponse → Body
  other_body : Text → Body

pub record Response : Type 0 where
  pub status : ℕ
  pub body : Body
  pub retry_after : Option ℕ

pub data ApiError : Type 0 where
  bad_request : Text → ApiError
  not_found : ApiError
  forbidden : Text → ApiError
  service_unavailable : Text → ApiError
  internal : Text → ApiError

abbrev pub to_str : HeaderValue → Option Text
to_str (visible s) = some s
to_str opaque = none

abbrev pub status_code : ApiError → ℕ
status_code (bad_request _) = 400
status_code not_found = 404
status_code (forbidden _) = 403
status_code (service_unavailable _) = 503
status_code (internal _) = 500

abbrev pub code : ApiError → Text
code (bad_request _) = codes "bad_request"
code not_found = codes "not_found"
code (forbidden _) = codes "forbidden"
code (service_unavailable _) = codes "service_unavailable"
code (internal _) = codes "internal_error"

abbrev pub to_string : ApiError → Text
to_string (bad_request m) = m
to_string not_found = codes "job not found"
to_string (forbidden m) = m
to_string (service_unavailable m) = m
to_string (internal m) = m

unfoldable pub into_response : ApiError → Response
into_response e = record {
  status = status_code e;
  body = error_body (record { code = code e; message = to_string e });
  retry_after = none;
}

-- What a handler comes to.
pub data Result (A : Type 0) : Type 0 where
  ok : A → Result A
  err : ApiError → Result A

-- What an operation of the file system comes back with.
pub data Io (A : Type 0) : Type 0 where
  done : A → Io A
  failed : Text → Io A

abbrev pub map_err : {A : Type 0} → Io A → (Text → ApiError) → Result A
map_err (done a) e = ok a
map_err (failed m) e = err (e m)

-- `?` on a result: the rest of the handler runs on a value only.
infixl 5 ◌>>=◌
abbrev pub ◌>>=◌ : {A B : Type 0} → Result A → (A → Result B) → Result B
ok value >>= rest = rest value
err error >>= rest = err error

infixl 5 ◌>>◌
abbrev pub ◌>>◌ : {A : Type 0} → Result (Unit {0}) → Result A → Result A
ok _ >> rest = rest
err error >> rest = err error

-- An early return unless the test holds.
abbrev pub ensure : Bool → ApiError → Result (Unit {0})
ensure test error = if test then ok tt else err error

-- A handler that succeeds got a value from each of its steps.
pub value_of_step :
    {A B : Type 0} (step : Result A) (rest : A → Result B) {result : B}
    → (step >>= rest) ≡ ok result
    → (value : A) × (step ≡ ok value) × (rest value ≡ ok result)
value_of_step (ok value) rest e = (value, refl, e)
value_of_step (err error) rest e = absurd (ground arith)

pub ok_injective : {A : Type 0} {a b : A} → ok a ≡ ok b → a ≡ b
ok_injective {a = a} e = ap (λ r. elim r [ ok x ↦ x | err _ ↦ a ]) e
