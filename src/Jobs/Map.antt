-- ===== src/Jobs/Map.antt =====
-- `HashMap<Uuid, JobRecord>` as an association list. Its iteration order is the list's: what is
-- proved for every list holds for every order.
use unlimited_ocr_server.Prelude.{
  ◌≡◌, ◌≢◌, refl, ap, List, [], ◌∷◌, Option, none, some, Bool, ◌==◌, if◌then◌else◌, All, length,
  retain, arith, inl, inr, Bool-cases, sym, ◌∙◌,
}
use mathlib.Core.Path.{subst}
use mathlib.Core.Option
use unlimited_ocr_server.Prelude.Membership.{In}
use unlimited_ocr_server.Types.{Uuid, JobRecord}

abbrev pub JobMap : Type 0
JobMap = List (Uuid × JobRecord)

unfoldable pub get : JobMap → Uuid → Option JobRecord
get [] id = none
get ((k, r) ∷ jobs) id = if k == id then some r else get jobs id

unfoldable pub insert : Uuid → JobRecord → JobMap → JobMap
insert id r [] = (id, r) ∷ []
insert id r ((k, s) ∷ jobs) = if k == id then (id, r) ∷ jobs else (k, s) ∷ insert id r jobs

unfoldable pub remove : Uuid → JobMap → JobMap
remove id [] = []
remove id ((k, r) ∷ jobs) = if k == id then jobs else (k, r) ∷ remove id jobs

-- A write through `get_mut`.
unfoldable pub update : Uuid → (JobRecord → JobRecord) → JobMap → JobMap
update id f [] = []
update id f ((k, r) ∷ jobs) = if k == id then (k, f r) ∷ jobs else (k, r) ∷ update id f jobs

abbrev pub values : JobMap → List JobRecord
values [] = []
values ((k, r) ∷ jobs) = r ∷ values jobs

-- What a `HashMap` keyed by the record's own id satisfies: no key twice, and each its record's id.
abbrev pub IsKeyed : JobMap → Type 0
IsKeyed [] = Unit
IsKeyed ((k, r) ∷ jobs) = (k ≡ r.id) × All (λ e. e.0 ≢ k) jobs × IsKeyed jobs

pub get-insert :
    (jobs : JobMap) (id k : Uuid) (r : JobRecord)
    → get (insert id r jobs) k ≡ (if id == k then some r else get jobs k)
unfolding get insert
get-insert [] id k r = refl
get-insert ((j, s) ∷ jobs) id k r = ground (arith, get-insert jobs id k r)

pub get-update :
    (jobs : JobMap) (id k : Uuid) (f : JobRecord → JobRecord)
    → get (update id f jobs) k ≡ (if id == k then Option.map f (get jobs k) else get jobs k)
unfolding get update
get-update [] id k f = ground arith
get-update ((j, s) ∷ jobs) id k f = ground (arith, get-update jobs id k f)

pub get-absent : (jobs : JobMap) (id : Uuid) → All (λ e. e.0 ≢ id) jobs → get jobs id ≡ none
unfolding get
get-absent [] id h = refl
get-absent ((j, s) ∷ jobs) id h = ground (arith, get-absent jobs id h.1)

pub get-remove :
    (jobs : JobMap) (id k : Uuid)
    → IsKeyed jobs
    → get (remove id jobs) k ≡ (if id == k then none else get jobs k)
unfolding get remove
get-remove [] id k h = ground arith
get-remove ((j, s) ∷ jobs) id k h = ground (arith, get-remove jobs id k h.2, get-absent jobs j h.1)

All-insert :
    (P : Uuid → Type 0) (jobs : JobMap) (id : Uuid) (r : JobRecord)
    → P id
    → All (λ e. P e.0) jobs
    → All (λ e. P e.0) (insert id r jobs)
unfolding insert
All-insert P [] id r p h = (p, tt)
All-insert P ((j, s) ∷ jobs) id r p h = elim (Bool-cases (j == id)) [
  | inl t ↦ rw t (p, h.1)
  | inr f ↦ rw f (h.0, All-insert P jobs id r p h.1)
]

pub insert-IsKeyed :
    (jobs : JobMap) (id : Uuid) (r : JobRecord)
    → r.id ≡ id
    → IsKeyed jobs
    → IsKeyed (insert id r jobs)
unfolding insert
insert-IsKeyed [] id r e h = (sym e, tt, tt)
insert-IsKeyed ((j, s) ∷ jobs) id r e h = elim (Bool-cases (j == id)) [
  | inl t ↦
      let same : j ≡ id = ground arith in
      rw t (sym e, subst (λ k. All (λ e. e.0 ≢ k) jobs) same h.1, h.2)
  | inr f ↦
      rw f
        (h.0, All-insert (λ k. k ≢ j) jobs id r (ground arith) h.1, insert-IsKeyed jobs id r e h.2)
]

All-remove :
    (P : (Uuid × JobRecord) → Type 0) (jobs : JobMap) (id : Uuid)
    → All P jobs
    → All P (remove id jobs)
unfolding remove
All-remove P [] id h = tt
All-remove P ((j, s) ∷ jobs) id h = elim (Bool-cases (j == id)) [
  | inl t ↦ rw t h.1
  | inr f ↦ rw f (h.0, All-remove P jobs id h.1)
]

pub remove-IsKeyed : (jobs : JobMap) (id : Uuid) → IsKeyed jobs → IsKeyed (remove id jobs)
unfolding remove
remove-IsKeyed [] id h = tt
remove-IsKeyed ((j, s) ∷ jobs) id h = elim (Bool-cases (j == id)) [
  | inl t ↦ rw t h.2
  | inr f ↦ rw f (h.0, All-remove (λ e. e.0 ≢ j) jobs id h.1, remove-IsKeyed jobs id h.2)
]

All-update :
    (P : Uuid → Type 0) (jobs : JobMap) (id : Uuid) (f : JobRecord → JobRecord)
    → All (λ e. P e.0) jobs
    → All (λ e. P e.0) (update id f jobs)
unfolding update
All-update P [] id f h = tt
All-update P ((j, s) ∷ jobs) id f h = elim (Bool-cases (j == id)) [
  | inl t ↦ rw t h
  | inr n ↦ rw n (h.0, All-update P jobs id f h.1)
]

pub update-IsKeyed :
    (jobs : JobMap) (id : Uuid) (f : JobRecord → JobRecord)
    → ((r : JobRecord) → (f r).id ≡ r.id)
    → IsKeyed jobs
    → IsKeyed (update id f jobs)
unfolding update
update-IsKeyed [] id f keeps h = tt
update-IsKeyed ((j, s) ∷ jobs) id f keeps h = elim (Bool-cases (j == id)) [
  | inl t ↦ rw t (h.0 ∙ sym (keeps s), h.1, h.2)
  | inr n ↦ rw n (h.0, All-update (λ k. k ≢ j) jobs id f h.1, update-IsKeyed jobs id f keeps h.2)
]

All-retain :
    (P : (Uuid × JobRecord) → Type 0) (p : (Uuid × JobRecord) → Bool) (jobs : JobMap)
    → All P jobs
    → All P (retain p jobs)
All-retain P p [] h = tt
All-retain P p (e ∷ jobs) h = elim (Bool-cases (p e)) [
  | inl t ↦ rw t (h.0, All-retain P p jobs h.1)
  | inr n ↦ rw n (All-retain P p jobs h.1)
]

pub retain-IsKeyed :
    (p : (Uuid × JobRecord) → Bool) (jobs : JobMap) → IsKeyed jobs → IsKeyed (retain p jobs)
retain-IsKeyed p [] h = tt
retain-IsKeyed p ((j, s) ∷ jobs) h = elim (Bool-cases (p (j, s))) [
  | inl t ↦ rw t (h.0, All-retain (λ e. e.0 ≢ j) p jobs h.1, retain-IsKeyed p jobs h.2)
  | inr n ↦ rw n (retain-IsKeyed p jobs h.2)
]

-- A `retain` by key keeps a job, unchanged, or drops it.
pub get-retain :
    (p : Uuid → Bool) (jobs : JobMap) (id : Uuid)
    → get (retain (λ e. p e.0) jobs) id ≡ (if p id then get jobs id else none)
unfolding get
get-retain p [] id = ground arith
get-retain p ((j, s) ∷ jobs) id = elim (Bool-cases (j == id)) [
  | inl t ↦
      let same : j ≡ id = ground arith in
      subst
        (λ k.
          get (retain (λ e. p e.0) ((j, s) ∷ jobs)) k
          ≡ (if p k then get ((j, s) ∷ jobs) k else none))
        same (ground (arith, get-retain p jobs j))
  | inr n ↦ ground (arith, get-retain p jobs id)
]

pub get-In :
    (jobs : JobMap) (id : Uuid) (r : JobRecord)
    → IsKeyed jobs
    → get jobs id ≡ some r
    → (r.id ≡ id) × In r (values jobs)
unfolding get
get-In [] id r h g = cc
get-In ((j, s) ∷ jobs) id r h g = elim (Bool-cases (j == id)) [
  | inl t ↦
      let same : j ≡ id = ground arith in
      let found : s ≡ r = ground arith in (subst (λ x. x.id ≡ id) found (sym h.0 ∙ same), inl found)
  | inr n ↦ let (e, m) = get-In jobs id r h.2 (rw n at g) in (e, inr m)
]

pub In-get :
    (jobs : JobMap) (r : JobRecord) → IsKeyed jobs → In r (values jobs) → get jobs r.id ≡ some r
unfolding get
In-get [] r h m = absurd m
In-get ((j, s) ∷ jobs) r h (inl e) =
    let same : j ≡ r.id = h.0 ∙ ap (λ (x : JobRecord). x.id) e in ground arith
In-get ((j, s) ∷ jobs) r h (inr m) =
    let found = In-get jobs r h.2 m in
    elim (Bool-cases (j == r.id)) [
      | inl t ↦
          let same : j ≡ r.id = ground arith in
          let gone = get-absent jobs r.id (subst (λ k. All (λ e. e.0 ≢ k) jobs) same h.1) in
          ground arith
      | inr n ↦ rw n found
    ]

pub length-update :
    (id : Uuid) (f : JobRecord → JobRecord) (jobs : JobMap)
    → length (update id f jobs) ≡ length jobs
unfolding update
length-update id f [] = refl
length-update id f ((j, s) ∷ jobs) = ground (arith, length-update id f jobs)
