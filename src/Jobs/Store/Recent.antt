-- ===== src/Jobs/Store/Recent.antt =====
-- What `retain_recent_jobs` keeps.
use mathlib.Core.Path.{subst}
use mathlib.Core.List.{reverse}
use unlimited_ocr_server.Prelude.{
  ℕ, suc, ◌≤◌, ◌<◌, min, ◌≡◌, refl, sym, ap, ◌∙◌, ◌⊎◌, inl, inr, List, [], ◌∷◌, ◌++◌, Bool, true,
  false, none, some, arith, length, take, drop, All, Bool-cases, leb, ◌==◌, length-take, ==_refl,
  ◌≢◌, ==_iff, length-reverse,
}
use unlimited_ocr_server.Prelude.Membership.{
  In, tally, All-In, In-All, In-append, tally-append, tally-All, tally_none, tally_pos,
  length-retain-tally, split_last, any-In, In-any,
}
use unlimited_ocr_server.Prelude.Sort.{
  sort_by_key, IsSorted, sort_by_key-IsSorted, tally-sort_by_key, In-sort_by_key,
  length-sort_by_key, IsSorted-append,
}
use unlimited_ocr_server.Types.{Uuid, JobRecord}
use unlimited_ocr_server.Jobs.Map.{JobMap, get, values, IsKeyed, get-In, get-retain, retain-IsKeyed}
use unlimited_ocr_server.Jobs.Store.Retention.{age, recent_records, keeps, retain_recent_jobs}

-- The records that `recent_records` leaves out.
abbrev older_records : JobMap → ℕ → List JobRecord
older_records jobs limit = reverse (drop limit (reverse (sort_by_key age (values jobs))))

sorted_split :
    (jobs : JobMap) (limit : ℕ)
    → sort_by_key age (values jobs) ≡ older_records jobs limit ++ recent_records jobs limit
unfolding recent_records
sorted_split jobs limit = split_last limit (sort_by_key age (values jobs))

length-values : (jobs : JobMap) → length (values jobs) ≡ length jobs
length-values [] = refl
length-values (e ∷ jobs) = ap suc (length-values jobs)

pub length-recent_records :
    (jobs : JobMap) (limit : ℕ) → length (recent_records jobs limit) ≡ min limit (length jobs)
unfolding recent_records
length-recent_records jobs limit =
    let sorted = sort_by_key age (values jobs) in
    omega (
      arith,
      length-reverse (take limit (reverse sorted)),
      length-take limit (reverse sorted),
      length-reverse sorted,
      length-sort_by_key age (values jobs),
      length-values jobs,
    )

absent_id :
    (jobs : JobMap) (id : Uuid)
    → IsKeyed jobs
    → All (λ e. e.0 ≢ id) jobs
    → All (λ r. (r.id == id) ≡ false) (values jobs)
absent_id [] id h a = tt
absent_id ((k, r) ∷ jobs) id h a = (ground arith, absent_id jobs id h.2 a.1)

-- No id stands twice among the values of a keyed map.
tally-id-values :
    (jobs : JobMap) (id : Uuid) → IsKeyed jobs → tally (λ r. r.id == id) (values jobs) ≤ 1
tally-id-values [] id h = omega arith
tally-id-values ((k, r) ∷ jobs) id h = elim (Bool-cases (r.id == id)) [
  | inl t ↦
      let same : k ≡ id = h.0 ∙ (==_iff r.id id).0 t in
      let none_left =
        tally_none _ (values jobs)
          (absent_id jobs id h.2 (subst (λ j. All (λ e. e.0 ≢ j) jobs) same h.1)) in
      rw t (omega arith)
  | inr f ↦ rw f (omega (arith, tally-id-values jobs id h.2))
]

-- An older record's id is not among the recent ones.
older_not_kept :
    (jobs : JobMap) (limit : ℕ) (r : JobRecord)
    → IsKeyed jobs
    → In r (older_records jobs limit)
    → keeps (recent_records jobs limit) r.id ≡ false
older_not_kept jobs limit r h m = elim (Bool-cases (keeps (recent_records jobs limit) r.id)) [
  | inr f ↦ f
  | inl t ↦
      let same = λ (s : JobRecord). s.id == r.id in
      let (s, found, e) = any-In same (recent_records jobs limit) t in
      let once = tally-id-values jobs r.id h in
      let sorted = tally-sort_by_key age same (values jobs) in
      let parts = tally-append same (older_records jobs limit) (recent_records jobs limit) in
      let whole = ap (tally same) (sorted_split jobs limit) in
      let old = tally_pos same r (older_records jobs limit) (==_refl r.id) m in
      let new = tally_pos same s (recent_records jobs limit) e found in absurd (omega arith)
]

recent_kept : (records : List JobRecord) → All (λ r. keeps records r.id ≡ true) records
recent_kept records =
    In-All _ records (λ r m. In-any (λ s. s.id == r.id) r records m (==_refl r.id))

tally-values :
    (p : Uuid → Bool) (jobs : JobMap)
    → IsKeyed jobs
    → tally (λ e. p e.0) jobs ≡ tally (λ r. p r.id) (values jobs)
tally-values p [] h = refl
tally-values p ((k, r) ∷ jobs) h =
    let rest = tally-values p jobs h.2 in
    let same : p k ≡ p r.id = ap p h.0 in rw same (omega arith)

-- Exactly the recent records are kept.
tally-keeps :
    (jobs : JobMap) (limit : ℕ)
    → IsKeyed jobs
    → tally (λ e. keeps (recent_records jobs limit) e.0) jobs ≡ min limit (length jobs)
tally-keeps jobs limit h =
    let kept = λ (r : JobRecord). keeps (recent_records jobs limit) r.id in
    omega (
      arith,
      tally-values (keeps (recent_records jobs limit)) jobs h,
      tally-sort_by_key age kept (values jobs),
      tally-append kept (older_records jobs limit) (recent_records jobs limit),
      ap (tally kept) (sorted_split jobs limit),
      tally_none kept (older_records jobs limit)
          (In-All _ (older_records jobs limit) (λ r. older_not_kept jobs limit r h)),
      tally-All kept (recent_records jobs limit) (recent_kept (recent_records jobs limit)),
      length-recent_records jobs limit,
    )

-- After `retain_recent_jobs` the map holds as many jobs as the limit allows, and no fewer.
pub length-retain_recent_jobs :
    (jobs : JobMap) (limit : ℕ)
    → IsKeyed jobs
    → length (retain_recent_jobs jobs limit) ≡ min limit (length jobs)
unfolding retain_recent_jobs
length-retain_recent_jobs jobs limit h = ground (
  arith,
  length-retain-tally (λ e. keeps (recent_records jobs limit) e.0) jobs,
  tally-keeps jobs limit h,
)

pub retain_recent_jobs-IsKeyed :
    (jobs : JobMap) (limit : ℕ) → IsKeyed jobs → IsKeyed (retain_recent_jobs jobs limit)
unfolding retain_recent_jobs
retain_recent_jobs-IsKeyed jobs limit h = elim (Bool-cases (leb (length jobs) limit)) [
  | inl t ↦ rw t h
  | inr f ↦
      rw f (elim (Bool-cases (limit == 0)) [
        | inl z ↦ rw z tt
        | inr n ↦ rw n (retain-IsKeyed _ jobs h)
      ])
]

-- A job survives unchanged or goes.
pub get-retain_recent_jobs :
    (jobs : JobMap) (limit : ℕ) (id : Uuid)
    → (get (retain_recent_jobs jobs limit) id ≡ none)
      ⊎ (get (retain_recent_jobs jobs limit) id ≡ get jobs id)
unfolding retain_recent_jobs get
get-retain_recent_jobs jobs limit id =
    ground (arith, get-retain (keeps (recent_records jobs limit)) jobs id)

module _ (jobs : JobMap) (limit : ℕ) (keyed : IsKeyed jobs) where
  -- Which side of the split a job lies on, by whether its id is kept.
  dropped_is_older :
      (r : JobRecord)
      → In r (values jobs)
      → keeps (recent_records jobs limit) r.id ≡ false
      → In r (older_records jobs limit)
  dropped_is_older r m f =
      elim (In-append r (older_records jobs limit) (recent_records jobs limit)
        (subst (In r) (sorted_split jobs limit) (In-sort_by_key age r (values jobs) m))) [
          | inl old ↦ old
          | inr new ↦
              let kept =
                All-In _ r (recent_records jobs limit) (recent_kept (recent_records jobs limit))
                  new in
              absurd (ground arith)
        ]

  kept_is_recent :
      (r : JobRecord)
      → In r (values jobs)
      → keeps (recent_records jobs limit) r.id ≡ true
      → In r (recent_records jobs limit)
  kept_is_recent r m t =
      elim (In-append r (older_records jobs limit) (recent_records jobs limit)
        (subst (In r) (sorted_split jobs limit) (In-sort_by_key age r (values jobs) m))) [
          | inr new ↦ new
          | inl old ↦ let gone = older_not_kept jobs limit r keyed old in absurd (ground arith)
        ]

  older-le-recent :
      (r s : JobRecord)
      → In r (older_records jobs limit)
      → In s (recent_records jobs limit)
      → r.updated_at ≤ s.updated_at
  older-le-recent r s old new =
      let sorted =
        subst (IsSorted age) (sorted_split jobs limit) (sort_by_key-IsSorted age (values jobs)) in
      All-In _ s (recent_records jobs limit)
        (All-In _ r (older_records jobs limit)
          (IsSorted-append age (older_records jobs limit) (recent_records jobs limit) sorted) old)
        new

-- A retained job is in the map it was retained from.
pub retained_in :
    (jobs : JobMap) (limit : ℕ) (id : Uuid) {s : JobRecord}
    → get (retain_recent_jobs jobs limit) id ≡ some s
    → get jobs id ≡ some s
retained_in jobs limit id g = ground (arith, get-retain_recent_jobs jobs limit id)

-- No job that `retain_recent_jobs` drops was updated after one that it keeps.
pub dropped-le-kept :
    (jobs : JobMap) (limit : ℕ) (id id' : Uuid) (r s : JobRecord)
    → IsKeyed jobs
    → get jobs id ≡ some r
    → get (retain_recent_jobs jobs limit) id ≡ none
    → get (retain_recent_jobs jobs limit) id' ≡ some s
    → r.updated_at ≤ s.updated_at
unfolding retain_recent_jobs get
dropped-le-kept jobs limit id id' r s keyed here gone there =
    let (r_id, r_in) = get-In jobs id r keyed here in
    let (s_id, s_in) = get-In jobs id' s keyed (retained_in jobs limit id' there) in
    let p = keeps (recent_records jobs limit) in
    elim (Bool-cases (leb (length jobs) limit)) [
      | inl t ↦ absurd (ground arith)
      | inr f ↦ elim (Bool-cases (limit == 0)) [
        | inl z ↦ absurd (ground arith)
        | inr n ↦
            let not_kept : p id ≡ false = ground (arith, get-retain p jobs id) in
            let kept : p id' ≡ true = ground (arith, get-retain p jobs id') in
            older-le-recent jobs limit keyed r s
              (dropped_is_older jobs limit keyed r r_in
                (subst (λ k. p k ≡ false) (sym r_id) not_kept))
              (kept_is_recent jobs limit keyed s s_in (subst (λ k. p k ≡ true) (sym s_id) kept))
      ]
    ]

-- Nothing is dropped within the limit.
pub retain_recent_jobs_keeps :
    (jobs : JobMap) (limit : ℕ) (id : Uuid)
    → ((get (retain_recent_jobs jobs limit) id ≡ none) × (limit < length jobs))
      ⊎ (get (retain_recent_jobs jobs limit) id ≡ get jobs id)
unfolding retain_recent_jobs get
retain_recent_jobs_keeps jobs limit id =
    ground (arith, get-retain (keeps (recent_records jobs limit)) jobs id)
