-- ===== src/Jobs/Store/Load.antt =====
-- `load_jobs` and `compact_metadata` of src/jobs/store.rs.
pub mod Order
pub mod Terminal
pub mod Outcome
use mathlib.Core.Option.{Option, none, some}
use unlimited_ocr_server.Prelude.{
  ℕ, List, [], ◌∷◌, Bool, true, false, not, ◌==◌, if◌then◌else◌, retain, Text, map,
}
use unlimited_ocr_server.Prelude.Sort.{sort_by_key}
use unlimited_ocr_server.Types.{
  Uuid, Time, JobStatus, queued, running, succeeded, failed, JobRecord, server_restarted,
}
use unlimited_ocr_server.Config.{Config}
use unlimited_ocr_server.Jobs.Map.{JobMap, values}
use unlimited_ocr_server.Jobs.Store.Files.{
  File, Append, StoreError, append_failed, Result, ok, err, append_jsonl, load_job_records,
  write_jsonl_records,
}
use unlimited_ocr_server.Jobs.Store.Retention.{recent_records, retain_recent_jobs}

pub record Metadata : Type 0 where
  pub submissions : File
  pub results : File

-- What the hash map, the file system and the clock do during startup. `place` orders the keys as
-- this run's map is iterated. A job is recovered once, so its clock reading and the fate of its
-- append are functions of its id.
pub record Startup : Type 0 where
  pub place : Uuid → ℕ
  pub submissions_read : Option Text
  pub results_read : Option Text
  pub clock : Uuid → Time
  pub recovered_append : Uuid → Append
  pub submissions_write : Option Text
  pub results_write : Option Text

abbrev pub is_pending : JobStatus → Bool
is_pending queued = true
is_pending running = true
is_pending succeeded = false
is_pending failed = false

abbrev pub fail_pending : (Uuid → Time) → JobRecord → JobRecord
fail_pending clock r = record r {
  status = failed;
  updated_at = clock r.id;
  error = some server_restarted;
}

-- The loop over `values_mut`: the map after it, and the records that it recovers.
unfoldable pub recover : (Uuid → Time) → JobMap → JobMap
recover clock [] = []
recover clock ((k, r) ∷ jobs) =
    (k, if is_pending r.status then fail_pending clock r else r) ∷ recover clock jobs

unfoldable pub recovered : (Uuid → Time) → JobMap → List JobRecord
recovered clock [] = []
recovered clock ((k, r) ∷ jobs) =
    let rest = recovered clock jobs in
    if is_pending r.status then fail_pending clock r ∷ rest else rest

-- The loop that appends the recovered records, up to the first failure.
unfoldable pub append_recovered : (Uuid → Append) → List JobRecord → File → File × Option Text
append_recovered append [] file = (file, none)
append_recovered append (r ∷ rest) file =
    let (file', error) = append_jsonl (append r.id) r file in
    elim error [ none ↦ append_recovered append rest file' | some e ↦ (file', some e) ]

unfoldable pub compact_metadata :
    Startup → Config → JobMap → Metadata → Metadata × Result (Unit {0})
compact_metadata world config jobs files =
    if config.metadata_retention_limit == 0
    then (files, ok tt)
    else (let records = recent_records jobs config.metadata_retention_limit in
        let submissions = retain (λ r. is_pending r.status) records in
        let results = retain (λ r. not (is_pending r.status)) records in
        let (s, done) = write_jsonl_records world.submissions_write submissions files.submissions in
        elim done [
          | err e ↦ (record files { submissions = s }, err e)
          | ok _ ↦
              let (r, done') = write_jsonl_records world.results_write results files.results in
              (record { submissions = s; results = r }, done')
        ])

-- What follows once both files are read.
unfoldable pub settle : Startup → Config → Metadata → JobMap → Metadata × Result JobMap
settle world config files jobs =
    let jobs' = recover world.clock jobs in
    let (results, error) =
      append_recovered world.recovered_append (recovered world.clock jobs) files.results in
    elim error [
      | some e ↦ (record files { results = results }, err (append_failed e))
      | none ↦
          let (files', done) =
            compact_metadata world config jobs' (record files { results = results }) in
          elim done [
            | err e ↦ (files', err e)
            | ok _ ↦ (files', ok (retain_recent_jobs jobs' config.job_retention_limit))
          ]
    ]

unfoldable pub read_files : Startup → Metadata → Result JobMap
read_files world files = elim (load_job_records world.submissions_read files.submissions []) [
  | err e ↦ err e
  | ok jobs ↦ load_job_records world.results_read files.results jobs
]

-- The map in the order in which this run iterates it
abbrev pub in_order : Startup → JobMap → JobMap
in_order world jobs = sort_by_key (λ e. world.place e.0) jobs

unfoldable pub load_jobs : Startup → Config → Metadata → Metadata × Result JobMap
load_jobs world config files = elim (read_files world files) [
  | err e ↦ (files, err e)
  | ok jobs ↦ settle world config files (in_order world jobs)
]
