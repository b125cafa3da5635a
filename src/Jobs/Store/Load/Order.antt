-- ===== src/Jobs/Store/Load/Order.antt =====
-- The job map of src/jobs/store.rs in any order of iteration.
use unlimited_ocr_server.Prelude.{ℕ, ◌≡◌, ◌≢◌, sym, inl, inr, [], ◌∷◌, All, leb, Bool-cases}
use unlimited_ocr_server.Prelude.Sort.{
  insert_by_key, sort_by_key, insert_by_key-All, sort_by_key-All,
}
use unlimited_ocr_server.Types.{Uuid, JobRecord}
use unlimited_ocr_server.Jobs.Map.{JobMap, IsKeyed}

module _ (place : Uuid × JobRecord → ℕ) where
  insert_by_key-IsKeyed :
      (e : Uuid × JobRecord) (jobs : JobMap)
      → e.0 ≡ e.1.id
      → All (λ x. x.0 ≢ e.0) jobs
      → IsKeyed jobs
      → IsKeyed (insert_by_key place e jobs)
  unfolding insert_by_key
  insert_by_key-IsKeyed e [] own other keyed = (own, tt, tt)
  insert_by_key-IsKeyed e (y ∷ jobs) own other keyed = elim (Bool-cases (leb (place e) (place y))) [
    | inl t ↦ rw t (own, other, keyed)
    | inr f ↦ rw f (
      keyed.0,
      insert_by_key-All place (λ x. x.0 ≢ y.0) e jobs (λ same. other.0 (sym same)) keyed.1,
      insert_by_key-IsKeyed e jobs own other.1 keyed.2,
    )
  ]

  pub sort_by_key-IsKeyed : (jobs : JobMap) → IsKeyed jobs → IsKeyed (sort_by_key place jobs)
  unfolding sort_by_key
  sort_by_key-IsKeyed [] keyed = tt
  sort_by_key-IsKeyed (e ∷ jobs) keyed =
      insert_by_key-IsKeyed e (sort_by_key place jobs) keyed.0
        (sort_by_key-All place (λ x. x.0 ≢ e.0) jobs keyed.1) (sort_by_key-IsKeyed jobs keyed.2)
