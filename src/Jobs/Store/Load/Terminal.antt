-- ===== src/Jobs/Store/Load/Terminal.antt =====
-- What the jobs that `load_jobs` (src/jobs/store.rs) returns satisfy.
use mathlib.Core.Path.{subst}
use unlimited_ocr_server.Prelude.{
  ℕ, ◌+◌, ◌≤◌, ◌≡◌, ◌≢◌, refl, ap, sym, inl, inr, List, [], ◌∷◌, false, Option, none, some, arith,
  All, length, Text,
}
use unlimited_ocr_server.Types.{Uuid, Time, JobRecord}
use unlimited_ocr_server.Config.{Config}
use unlimited_ocr_server.Jobs.Map.{JobMap, get, insert, IsKeyed, insert-IsKeyed}
use unlimited_ocr_server.Jobs.Store.Files.{
  File, Line, json, blank, malformed, ok, err, Result-cases, read_lines, load_job_records,
}
use unlimited_ocr_server.Jobs.Store.Retention.{retain_recent_jobs}
use unlimited_ocr_server.Jobs.Store.Recent.{
  length-retain_recent_jobs, retain_recent_jobs-IsKeyed, retained_in,
}
use unlimited_ocr_server.Jobs.Store.Load.Order.{sort_by_key-IsKeyed}
use unlimited_ocr_server.Jobs.Store.Load.{
  Metadata, Startup, is_pending, recover, settle, read_files, load_jobs, in_order,
}

abbrev pub IsTerminal : JobRecord → Type 0
IsTerminal r = is_pending r.status ≡ false

read_lines-IsKeyed :
    (n : ℕ) (l : List Line) (jobs : JobMap) {jobs' : JobMap}
    → IsKeyed jobs
    → read_lines n l jobs ≡ ok jobs'
    → IsKeyed jobs'
unfolding read_lines
read_lines-IsKeyed n [] jobs h e = subst (elim [ ok j ↦ IsKeyed j | err x ↦ Unit ]) e h
read_lines-IsKeyed n (blank ∷ l) jobs h e = read_lines-IsKeyed (n + 1) l jobs h e
read_lines-IsKeyed n (malformed ∷ l) jobs h e = cc
read_lines-IsKeyed n (json r ∷ l) jobs h e =
    read_lines-IsKeyed (n + 1) l (insert r.id r jobs) (insert-IsKeyed jobs r.id r refl h) e

load_job_records-IsKeyed :
    (error : Option Text) (file : File) (jobs : JobMap) {jobs' : JobMap}
    → IsKeyed jobs
    → load_job_records error file jobs ≡ ok jobs'
    → IsKeyed jobs'
unfolding load_job_records
load_job_records-IsKeyed error none jobs h e = subst (elim [ ok j ↦ IsKeyed j | err x ↦ Unit ]) e h
load_job_records-IsKeyed none (some l) jobs h e = read_lines-IsKeyed 1 l jobs h e
load_job_records-IsKeyed (some x) (some l) jobs h e = cc

pub read_files-IsKeyed :
    (world : Startup) (files : Metadata) {jobs : JobMap}
    → read_files world files ≡ ok jobs
    → IsKeyed jobs
unfolding read_files
read_files-IsKeyed world files e =
    elim (Result-cases (load_job_records world.submissions_read files.submissions [])) [
      | inl (jobs, first) ↦
          load_job_records-IsKeyed world.results_read files.results jobs
            (load_job_records-IsKeyed world.submissions_read files.submissions [] tt first)
            (ground arith)
      | inr (x, first) ↦ absurd (ground arith)
    ]

recover-keys :
    (P : Uuid → Type 0) (clock : Uuid → Time) (jobs : JobMap)
    → All (λ e. P e.0) jobs
    → All (λ e. P e.0) (recover clock jobs)
unfolding recover
recover-keys P clock [] h = tt
recover-keys P clock ((k, r) ∷ jobs) h = (h.0, recover-keys P clock jobs h.1)

pub recover-IsKeyed :
    (clock : Uuid → Time) (jobs : JobMap) → IsKeyed jobs → IsKeyed (recover clock jobs)
unfolding recover
recover-IsKeyed clock [] h = tt
recover-IsKeyed clock ((k, r) ∷ jobs) h =
    (ground arith, recover-keys (λ j. j ≢ k) clock jobs h.1, recover-IsKeyed clock jobs h.2)

pub recover-get :
    (clock : Uuid → Time) (jobs : JobMap) (id : Uuid) (r : JobRecord)
    → get (recover clock jobs) id ≡ some r
    → IsTerminal r
unfolding recover get
recover-get clock [] id r e = cc
recover-get clock ((k, s) ∷ jobs) id r e = ground (arith, recover-get clock jobs id r)

-- A successful `settle` returns what the retention limit keeps of the recovered jobs.
pub settle-eq-ok :
    (world : Startup) (config : Config) (files : Metadata) (jobs : JobMap) {jobs' : JobMap}
    → (settle world config files jobs).1 ≡ ok jobs'
    → jobs' ≡ retain_recent_jobs (recover world.clock jobs) config.job_retention_limit
unfolding settle
settle-eq-ok world config files jobs e = ground arith

pub load_jobs-eq-ok :
    (world : Startup) (config : Config) (files : Metadata) {jobs' : JobMap}
    → (load_jobs world config files).1 ≡ ok jobs'
    → (jobs : JobMap) × (read_files world files ≡ ok jobs)
      × (jobs'
          ≡ retain_recent_jobs
              (recover world.clock (in_order world jobs))
              config.job_retention_limit)
unfolding load_jobs
load_jobs-eq-ok world config files e = elim (Result-cases (read_files world files)) [
  | inl (jobs, first) ↦
      (jobs, first, settle-eq-ok world config files (in_order world jobs) (ground arith))
  | inr (x, first) ↦ absurd (ground arith)
]

-- When `load_jobs` succeeds, no job that it returns is queued or running, every key is its
-- record's id and stands once, and there are at most as many jobs as `job_retention_limit`.
pub load_jobs-IsTerminal :
    (world : Startup) (config : Config) (files : Metadata) (jobs : JobMap)
    → (load_jobs world config files).1 ≡ ok jobs
    → ((id : Uuid) (r : JobRecord) → get jobs id ≡ some r → IsTerminal r)
      × IsKeyed jobs
      × (length jobs ≤ config.job_retention_limit)
load_jobs-IsTerminal world config files jobs e =
    let (read_in, read, result) = load_jobs-eq-ok world config files e in
    let found = in_order world read_in in
    let settled = recover world.clock found in
    let keyed =
      recover-IsKeyed world.clock found (
        sort_by_key-IsKeyed (λ x. world.place x.0) read_in (read_files-IsKeyed world files read)) in
    let limit = config.job_retention_limit in
    (
      λ id r here.
          recover-get world.clock found id r
            (retained_in settled limit id (subst (λ m. get m id ≡ some r) result here)),
      subst IsKeyed (sym result) (retain_recent_jobs-IsKeyed settled limit keyed),
      omega (arith, length-retain_recent_jobs settled limit keyed, ap length result),
    )
