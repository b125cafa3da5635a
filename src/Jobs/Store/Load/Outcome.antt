-- ===== src/Jobs/Store/Load/Outcome.antt =====
-- When `load_jobs` of src/jobs/store.rs succeeds or fails, and the files that it leaves.
use mathlib.Core.List.{reverse}
use unlimited_ocr_server.Prelude.{
  ℕ, suc, ◌+◌, ◌≤◌, ◌≡◌, ◌≢◌, refl, ◌∙◌, ap, inl, inr, List, [], ◌∷◌, ◌++◌, map, false, none, some,
  arith, All, length, take, not, All-reverse, All-take, All-map, retain-All, retain_none,
}
use unlimited_ocr_server.Prelude.Sort.{sort_by_key, sort_by_key-All}
use unlimited_ocr_server.Types.{Uuid, JobRecord}
use unlimited_ocr_server.Config.{Config}
use unlimited_ocr_server.Jobs.Map.{JobMap, insert, values}
use unlimited_ocr_server.Jobs.Store.Files.{
  Result-cases, File, Line, json, blank, malformed, Append, written, ok, err, lines, parse_failed,
  append_jsonl, read_lines, load_job_records, write_jsonl_records,
}
use unlimited_ocr_server.Jobs.Store.Retention.{age, recent_records, retain_recent_jobs}
use unlimited_ocr_server.Jobs.Store.Recent.{length-recent_records}
use unlimited_ocr_server.Jobs.Store.Load.{
  Metadata, Startup, is_pending, recover, recovered, append_recovered, compact_metadata, settle,
  read_files, load_jobs, in_order,
}

load_jobs-parts :
    (world : Startup) (config : Config) (files files' : Metadata) {jobs : JobMap}
    → load_jobs world config files ≡ (files', ok jobs)
    → (found : JobMap) × (read_files world files ≡ ok found)
      × (settle world config files (in_order world found) ≡ (files', ok jobs))
unfolding load_jobs
load_jobs-parts world config files files' e = elim (Result-cases (read_files world files)) [
  | inl (found, first) ↦ (found, first, ground arith)
  | inr (x, first) ↦ absurd (ground arith)
]

abbrev pub IsReadable : Line → Type 0
IsReadable (json r) = Unit
IsReadable blank = Unit
IsReadable malformed = ⊥

-- The file system refuses nothing.
pub record IsHealthy (world : Startup) : Type 0 where
  pub submissions_read_ok : world.submissions_read ≡ none
  pub results_read_ok : world.results_read ≡ none
  pub append_ok : (id : Uuid) → world.recovered_append id ≡ written
  pub submissions_write_ok : world.submissions_write ≡ none
  pub results_write_ok : world.results_write ≡ none

read_lines_succeeds :
    (n : ℕ) (l : List Line) (jobs : JobMap)
    → All IsReadable l
    → (found : JobMap) × (read_lines n l jobs ≡ ok found)
unfolding read_lines
read_lines_succeeds n [] jobs h = (jobs, refl)
read_lines_succeeds n (blank ∷ l) jobs h = read_lines_succeeds (n + 1) l jobs h.1
read_lines_succeeds n (malformed ∷ l) jobs h = absurd h.0
read_lines_succeeds n (json r ∷ l) jobs h = read_lines_succeeds (n + 1) l (insert r.id r jobs) h.1

load_succeeds :
    (file : File) (jobs : JobMap)
    → All IsReadable (lines file)
    → (found : JobMap) × (load_job_records none file jobs ≡ ok found)
unfolding load_job_records
load_succeeds none jobs h = (jobs, refl)
load_succeeds (some l) jobs h = read_lines_succeeds 1 l jobs h

append_succeeds :
    (append : Uuid → Append) (rs : List JobRecord) (file : File)
    → ((id : Uuid) → append id ≡ written)
    → (append_recovered append rs file).1 ≡ none
unfolding append_recovered append_jsonl
append_succeeds append [] file h = refl
append_succeeds append (r ∷ rs) file h =
    let rest = append_succeeds append rs (some (lines file ++ json r ∷ [])) h in
    ground (arith, h r.id)

settle_succeeds :
    (world : Startup) (config : Config) (files : Metadata) (found : JobMap)
    → IsHealthy world
    → (jobs : JobMap) × ((settle world config files found).1 ≡ ok jobs)
unfolding settle compact_metadata write_jsonl_records
settle_succeeds world config files found h = (
  retain_recent_jobs (recover world.clock found) config.job_retention_limit,
  ground (
    arith,
    append_succeeds world.recovered_append (recovered world.clock found) files.results h.append_ok,
  ),
)

-- With both files readable line by line and a file system that refuses nothing, startup returns
-- the jobs.
pub load_jobs_succeeds :
    (world : Startup) (config : Config) (files : Metadata)
    → IsHealthy world
    → All IsReadable (lines files.submissions)
    → All IsReadable (lines files.results)
    → (jobs : JobMap) × ((load_jobs world config files).1 ≡ ok jobs)
unfolding load_jobs read_files
load_jobs_succeeds world config files h s r =
    let (mid, first) = load_succeeds files.submissions [] s in
    let (found, second) = load_succeeds files.results mid r in
    let (jobs, last) = settle_succeeds world config files (in_order world found) h in
    (jobs, ground (arith, h.submissions_read_ok, h.results_read_ok))

read_lines_malformed :
    (n : ℕ) (a b : List Line) (jobs : JobMap)
    → All IsReadable a
    → read_lines n (a ++ malformed ∷ b) jobs ≡ err (parse_failed (n + length a))
unfolding read_lines
read_lines_malformed n [] b jobs h =
    let e : n ≡ n + 0 = omega arith in ap (λ k. err (parse_failed k)) e
read_lines_malformed n (malformed ∷ a) b jobs h = absurd h.0
read_lines_malformed n (blank ∷ a) b jobs h =
    let e : n + 1 + length a ≡ n + suc (length a) = omega arith in
    read_lines_malformed (n + 1) a b jobs h.1 ∙ ap (λ k. err (parse_failed k)) e
read_lines_malformed n (json r ∷ a) b jobs h =
    let e : n + 1 + length a ≡ n + suc (length a) = omega arith in
    read_lines_malformed (n + 1) a b (insert r.id r jobs) h.1 ∙ ap (λ k. err (parse_failed k)) e

-- A line of `submissions.jsonl` that serde refuses makes startup fail with the number of the first
-- such line, counted from one, and changes neither file.
pub load_jobs_malformed :
    (world : Startup) (config : Config) (files : Metadata) (a b : List Line)
    → world.submissions_read ≡ none
    → files.submissions ≡ some (a ++ malformed ∷ b)
    → All IsReadable a
    → load_jobs world config files ≡ (files, err (parse_failed (1 + length a)))
unfolding load_jobs read_files load_job_records
load_jobs_malformed world config files a b clean here h =
    ground (arith, read_lines_malformed 1 a b [] h)

recover_pending :
    (clock : Uuid → ℕ) (jobs : JobMap)
    → All (λ r. is_pending r.status ≡ false) (values (recover clock jobs))
unfolding recover
recover_pending clock [] = tt
recover_pending clock ((k, r) ∷ jobs) = (ground arith, recover_pending clock jobs)

recent_pending :
    (clock : Uuid → ℕ) (jobs : JobMap) (limit : ℕ)
    → All (λ r. is_pending r.status ≡ false) (recent_records (recover clock jobs) limit)
unfolding recent_records
recent_pending clock jobs limit =
    let P = λ (r : JobRecord). is_pending r.status ≡ false in
    let sorted = sort_by_key age (values (recover clock jobs)) in
    All-reverse P (take limit (reverse sorted)) (
      All-take P limit (reverse sorted)
        (All-reverse P sorted (sort_by_key-All age P _ (recover_pending clock jobs))))

settle_compacts :
    (world : Startup) (config : Config) (files files' : Metadata) (found : JobMap) {jobs : JobMap}
    → config.metadata_retention_limit ≢ 0
    → settle world config files found ≡ (files', ok jobs)
    → (files'.submissions ≡ some [])
      × (files'.results
          ≡ some (
              map json
                (recent_records (recover world.clock found) config.metadata_retention_limit)))
unfolding settle compact_metadata write_jsonl_records
settle_compacts world config files files' found on e =
    let limit = config.metadata_retention_limit in
    let recent = recent_records (recover world.clock found) limit in
    let settled = recent_pending world.clock found limit in
    ground (
      arith,
      retain_none (λ (r : JobRecord). is_pending r.status) recent settled,
      retain-All (λ (r : JobRecord). not (is_pending r.status)) recent
          (All-map _ _ (λ r h. ap not h) recent settled),
    )

-- With compaction on, a successful startup leaves an empty `submissions.jsonl`, and in
-- `results.jsonl` at most `metadata_retention_limit` records, none of them queued or running.
pub load_jobs_compacts :
    (world : Startup) (config : Config) (files files' : Metadata) (jobs : JobMap)
    → config.metadata_retention_limit ≢ 0
    → load_jobs world config files ≡ (files', ok jobs)
    → (files'.submissions ≡ some [])
      × (records : List JobRecord) × (files'.results ≡ some (map json records))
      × (length records ≤ config.metadata_retention_limit)
      × All (λ r. is_pending r.status ≡ false) records
load_jobs_compacts world config files files' jobs on e =
    let (read_in, read, settled) = load_jobs-parts world config files files' e in
    let found = in_order world read_in in
    let limit = config.metadata_retention_limit in
    let (emptied, kept) = settle_compacts world config files files' found on settled in
    (
      emptied,
      recent_records (recover world.clock found) limit,
      kept,
      omega (arith, length-recent_records (recover world.clock found) limit),
      recent_pending world.clock found limit,
    )
