-- ===== src/Api/Submit/Multipart.antt =====
-- The fields of a multipart submission (src/api/submit.rs). The crate axum gives the fields one by
-- one; a part is a field or the error of `next_field`.
use unlimited_ocr_server.Prelude.{
  ◌≡◌, ◌≢◌, refl, sym, ap, ◌∙◌, Text, codes, text_eq, ◌||◌, List, [], ◌∷◌, ◌++◌, Option, none, some,
  unwrap_or, if◌then◌else◌, arith, All, text_eq_iff, Bool, true, false, Bool-cases, inl, inr,
}
use mathlib.Core.Path.{subst}
use unlimited_ocr_server.Util.{Bytes}
use unlimited_ocr_server.Api.Http.{
  value_of_step, ApiError, bad_request, Result, ok, err, ◌>>=◌, Io, done, failed, map_err,
}

pub record Field : Type 0 where
  pub name : Option Text
  pub file_name : Option Text
  pub content_type : Option Text
  pub bytes : Io Bytes
  pub text : Io Text

pub data Part : Type 0 where
  field : Field → Part
  broken : Text → Part

pub record UploadedFile : Type 0 where
  pub filename : Option Text
  pub content_type : Option Text
  pub bytes : Bytes

pub record MultipartInferenceRequest : Type 0 where
  pub file : Option UploadedFile
  pub text_input : Option Text
  pub webhook_url : Option Text

abbrev pub empty_request : MultipartInferenceRequest
empty_request = record { file = none; text_input = none; webhook_url = none }

unfoldable pub unsupported_prompt_field : Text → ApiError
unsupported_prompt_field name = bad_request (
    codes "multipart field `"
    ++ name
    ++ codes "` is not supported; use `text_input` for prompt overrides")

unfoldable pub read_uploaded_file : Field → Result UploadedFile
read_uploaded_file f =
    map_err f.bytes (λ e. bad_request (codes "failed to read file field: " ++ e)) >>= λ bytes.
    ok (record { filename = f.file_name; content_type = f.content_type; bytes = bytes })

unfoldable pub read_text_field : Field → Text → Result Text
read_text_field f name =
    map_err f.text (λ e. bad_request (codes "failed to read " ++ name ++ codes " field: " ++ e))

-- Which field a name stands for.
pub data FieldKind : Type 0 where
  file_field prompt_field text_field webhook_field ignored_field : FieldKind

unfoldable pub field_kind : Text → FieldKind
field_kind name =
    if text_eq name (codes "image") || text_eq name (codes "file")
    then file_field
    else if text_eq name (codes "task_type")
        || text_eq name (codes "task_type_selector")
        || text_eq name (codes "task_prompt")
        || text_eq name (codes "task")
    then prompt_field
    else if text_eq name (codes "text_input")
    then text_field
    else if text_eq name (codes "webhook_url")
    then webhook_field
    else ignored_field

unfoldable pub apply_multipart_field :
    MultipartInferenceRequest → Text → Field → Result MultipartInferenceRequest
apply_multipart_field request name f = elim (field_kind name) [
  | file_field ↦ read_uploaded_file f >>= λ file. ok (record request { file = some file })
  | prompt_field ↦ err (unsupported_prompt_field name)
  | text_field ↦
      read_text_field f (codes "text_input") >>= λ t. ok (record request { text_input = some t })
  | webhook_field ↦
      read_text_field f (codes "webhook_url") >>= λ t. ok (record request { webhook_url = some t })
  | ignored_field ↦ ok request
]

abbrev pub name_of : Field → Text
name_of f = unwrap_or f.name []

-- The loop over the fields.
unfoldable pub read_fields :
    List Part → MultipartInferenceRequest → Result MultipartInferenceRequest
read_fields [] request = ok request
read_fields (broken e ∷ parts) request =
    err (bad_request (codes "failed to read multipart field: " ++ e))
read_fields (field f ∷ parts) request =
    apply_multipart_field request (name_of f) f >>= λ request'. read_fields parts request'

unfoldable pub read_multipart_inference_request : List Part → Result MultipartInferenceRequest
read_multipart_inference_request parts = read_fields parts empty_request

abbrev pub last_or {ℓ} : {A : Type ℓ} → Option A → List A → Option A
last_or before [] = before
last_or before (x ∷ xs) = last_or (some x) xs

abbrev text_read : Io Text → List Text
text_read (done t) = t ∷ []
text_read (failed e) = []

abbrev file_read : Field → Io Bytes → List UploadedFile
file_read f (done b) =
    record { filename = f.file_name; content_type = f.content_type; bytes = b } ∷ []
file_read f (failed e) = []

-- The texts of the parts of that name, and the files of the parts that are named for one.
abbrev pub texts_named : Text → List Part → List Text
texts_named key [] = []
texts_named key (broken e ∷ parts) = texts_named key parts
texts_named key (field f ∷ parts) =
    (if text_eq (name_of f) key then text_read f.text else []) ++ texts_named key parts

abbrev pub files_named : List Part → List UploadedFile
files_named [] = []
files_named (broken e ∷ parts) = files_named parts
files_named (field f ∷ parts) =
    (if text_eq (name_of f) (codes "image") || text_eq (name_of f) (codes "file")
      then file_read f f.bytes
      else [])
    ++ files_named parts

-- A part that could be read and whose name is none of those that once gave the prompt
abbrev pub IsSupported : Part → Type 0
IsSupported (field f) =
    (name_of f ≢ codes "task_type")
    × (name_of f ≢ codes "task_type_selector")
    × (name_of f ≢ codes "task_prompt")
    × (name_of f ≢ codes "task")
IsSupported (broken e) = ⊥

last_or-append :
    {A : Type 0} (before : Option A) (xs ys : List A)
    → last_or before (xs ++ ys) ≡ last_or (last_or before xs) ys
last_or-append before [] ys = refl
last_or-append before (x ∷ xs) ys = last_or-append (some x) xs ys

abbrev is_file : FieldKind → Bool
is_file file_field = true
is_file prompt_field = false
is_file text_field = false
is_file webhook_field = false
is_file ignored_field = false

abbrev is_text : FieldKind → Bool
is_text text_field = true
is_text file_field = false
is_text prompt_field = false
is_text webhook_field = false
is_text ignored_field = false

abbrev is_webhook : FieldKind → Bool
is_webhook webhook_field = true
is_webhook file_field = false
is_webhook prompt_field = false
is_webhook text_field = false
is_webhook ignored_field = false

is_file-field_kind :
    (name : Text)
    → (text_eq name (codes "image") || text_eq name (codes "file")) ≡ is_file (field_kind name)
unfolding field_kind
is_file-field_kind name = ground arith

is_text-field_kind : (name : Text) → text_eq name (codes "text_input") ≡ is_text (field_kind name)
unfolding field_kind
is_text-field_kind name = elim (Bool-cases (text_eq name (codes "text_input"))) [
  | inl t ↦
      subst (λ n. text_eq n (codes "text_input") ≡ is_text (field_kind n))
        (sym ((text_eq_iff name (codes "text_input")).0 t)) refl
  | inr f ↦ ground (arith, f)
]

is_webhook-field_kind :
    (name : Text) → text_eq name (codes "webhook_url") ≡ is_webhook (field_kind name)
unfolding field_kind
is_webhook-field_kind name = elim (Bool-cases (text_eq name (codes "webhook_url"))) [
  | inl t ↦
      subst (λ n. text_eq n (codes "webhook_url") ≡ is_webhook (field_kind n))
        (sym ((text_eq_iff name (codes "webhook_url")).0 t)) refl
  | inr f ↦ ground (arith, f)
]

field_kind-IsSupported : (f : Field) → field_kind (name_of f) ≢ prompt_field → IsSupported (field f)
unfolding field_kind
field_kind-IsSupported f n = (
  (λ e. n (ap field_kind e)),
  (λ e. n (ap field_kind e)),
  (λ e. n (ap field_kind e)),
  (λ e. n (ap field_kind e)),
)

apply_kind :
    (request request' : MultipartInferenceRequest) (f : Field) (kind : FieldKind)
    → field_kind (name_of f) ≡ kind
    → apply_multipart_field request (name_of f) f ≡ ok request'
    → (request'.text_input
        ≡ last_or request.text_input (if is_text kind then text_read f.text else []))
      × (request'.webhook_url
          ≡ last_or request.webhook_url (if is_webhook kind then text_read f.text else []))
      × (request'.file ≡ last_or request.file (if is_file kind then file_read f f.bytes else []))
      × (kind ≢ prompt_field)
unfolding apply_multipart_field read_text_field read_uploaded_file
apply_kind request request' f file_field k e = ground arith
apply_kind request request' f prompt_field k e = absurd (ground arith)
apply_kind request request' f text_field k e = ground arith
apply_kind request request' f webhook_field k e = ground arith
apply_kind request request' f ignored_field k e = ground arith

read_fields-ok :
    (parts : List Part) (request result : MultipartInferenceRequest)
    → read_fields parts request ≡ ok result
    → (result.text_input ≡ last_or request.text_input (texts_named (codes "text_input") parts))
      × (result.webhook_url ≡ last_or request.webhook_url (texts_named (codes "webhook_url") parts))
      × (result.file ≡ last_or request.file (files_named parts))
      × All IsSupported parts
unfolding read_fields
read_fields-ok [] request result e =
    let same : result ≡ request = ground arith in
    (ap (λ r. r.text_input) same, ap (λ r. r.webhook_url) same, ap (λ r. r.file) same, tt)
read_fields-ok (broken m ∷ parts) request result e = absurd (ground arith)
read_fields-ok (field f ∷ parts) request result e =
    let name = name_of f in
    let (next, here, rest) =
      value_of_step (apply_multipart_field request name f) (read_fields parts) e in
    let (text, url, file, supported) = apply_kind request next f (field_kind name) refl here in
    let (texts, urls, files, all) = read_fields-ok parts next result rest in
    (
      texts
          ∙ ap (λ o. last_or o (texts_named (codes "text_input") parts))
              (rw (sym (is_text-field_kind name)) at text)
          ∙ sym (
              last_or-append request.text_input
                (if text_eq name (codes "text_input") then text_read f.text else [])
                (texts_named (codes "text_input") parts)),
      urls
          ∙ ap (λ o. last_or o (texts_named (codes "webhook_url") parts))
              (rw (sym (is_webhook-field_kind name)) at url)
          ∙ sym (
              last_or-append request.webhook_url
                (if text_eq name (codes "webhook_url") then text_read f.text else [])
                (texts_named (codes "webhook_url") parts)),
      files
          ∙ ap (λ o. last_or o (files_named parts)) (rw (sym (is_file-field_kind name)) at file)
          ∙ sym (
              last_or-append request.file
                (if text_eq name (codes "image") || text_eq name (codes "file")
                  then file_read f f.bytes
                  else [])
                (files_named parts)),
      (field_kind-IsSupported f supported, all),
    )

-- A multipart body that is read has no broken part and no field that is named `task_type`,
-- `task_type_selector`, `task_prompt` or `task`; its text input is the last text of the fields that
-- are named `text_input`, its webhook's URL the last of those that are named `webhook_url`, and its
-- file the last of those that are named `image` or `file`, and none where there is no such field.
pub read_multipart_inference_request-ok :
    (parts : List Part) (result : MultipartInferenceRequest)
    → read_multipart_inference_request parts ≡ ok result
    → (result.text_input ≡ last_or none (texts_named (codes "text_input") parts))
      × (result.webhook_url ≡ last_or none (texts_named (codes "webhook_url") parts))
      × (result.file ≡ last_or none (files_named parts))
      × All IsSupported parts
unfolding read_multipart_inference_request
read_multipart_inference_request-ok parts result e = read_fields-ok parts empty_request result e
