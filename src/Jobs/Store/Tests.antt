-- ===== src/Jobs/Store/Tests.antt =====
-- Three jobs kept down to two, and a startup that recovers two of three (src/jobs/store.rs).
use unlimited_ocr_server.Prelude.{
  ◌+◌, ◌≤◌, ◌≡◌, refl, List, [], ◌∷◌, none, some, arith, false, length, map, All, ap,
}
use unlimited_ocr_server.Prelude.Sort.{sort_by_key}
use unlimited_ocr_server.Types.{
  Uuid, JobRecord, queued, running, succeeded, failed, server_restarted,
}
use unlimited_ocr_server.Config.{Config}
use unlimited_ocr_server.Jobs.Map.{JobMap, get, insert, IsKeyed}
use unlimited_ocr_server.Jobs.Samples.{config, job, three, three-IsKeyed}
use unlimited_ocr_server.Jobs.Store.Files.{
  json, blank, malformed, written, ok, err, parse_failed, append_jsonl, read_lines,
  load_job_records, write_jsonl_records,
}
use unlimited_ocr_server.Jobs.Store.Retention.{recent_records, retain_recent_jobs}
use unlimited_ocr_server.Jobs.Store.Recent.{dropped-le-kept}
use unlimited_ocr_server.Jobs.Store.Load.{
  Metadata, Startup, is_pending, recover, recovered, append_recovered, compact_metadata, settle,
  read_files, load_jobs,
}
use unlimited_ocr_server.Jobs.Store.Load.Terminal.{IsTerminal, load_jobs-IsTerminal}
use unlimited_ocr_server.Jobs.Store.Load.Outcome.{
  IsHealthy, load_jobs_succeeds, load_jobs_malformed, load_jobs_compacts,
}

-- The job that was updated first goes.
kept_two : retain_recent_jobs three 2 ≡ (2, job 2 running 9) ∷ (3, job 3 queued 7) ∷ []
unfolding retain_recent_jobs recent_records sort_by_key
kept_two = refl

dropped-le-kept_example : (job 1 succeeded 5).updated_at ≤ (job 3 queued 7).updated_at
unfolding retain_recent_jobs recent_records sort_by_key get
dropped-le-kept_example =
    dropped-le-kept three 2 1 3 (job 1 succeeded 5) (job 3 queued 7) three-IsKeyed refl refl refl

abbrev startup : Startup
startup = record {
  place = λ id. id;
  submissions_read = none;
  results_read = none;
  clock = λ id. 100 + id;
  recovered_append = λ id. written;
  submissions_write = none;
  results_write = none;
}

abbrev on_disk : Metadata
on_disk = record {
  submissions =
      some (json (job 1 queued 1) ∷ json (job 2 queued 2) ∷ blank ∷ json (job 3 queued 3) ∷ []);
  results = some (json (job 1 succeeded 5) ∷ []);
}

abbrev corrupt : Metadata
corrupt = record {
  submissions = some (json (job 1 queued 1) ∷ blank ∷ malformed ∷ json (job 3 queued 3) ∷ []);
  results = none;
}

abbrev compacting : Config
compacting = record config { metadata_retention_limit = 2 }

healthy : IsHealthy startup
healthy = record {
  submissions_read_ok = refl;
  results_read_ok = refl;
  append_ok = λ id. refl;
  submissions_write_ok = refl;
  results_write_ok = refl;
}

-- The second and the third job never ended: they fail, and the first goes by its age.
abbrev lost : Uuid → JobRecord
lost id = record (job id failed (100 + id)) { error = some server_restarted }

abbrev kept : JobMap
kept = (2, lost 2) ∷ (3, lost 3) ∷ []

abbrev after : Metadata
after = record on_disk {
  results = some (json (job 1 succeeded 5) ∷ json (lost 2) ∷ json (lost 3) ∷ []);
}

restarted : load_jobs startup config on_disk ≡ (after, ok kept)
unfolding load_jobs read_files load_job_records read_lines insert settle recover recovered
    append_recovered append_jsonl compact_metadata write_jsonl_records retain_recent_jobs
    recent_records sort_by_key
restarted = refl

abbrev compacted : Metadata
compacted = record { submissions = some []; results = some (json (lost 2) ∷ json (lost 3) ∷ []) }

restarted_compacting : load_jobs startup compacting on_disk ≡ (compacted, ok kept)
unfolding load_jobs read_files load_job_records read_lines insert settle recover recovered
    append_recovered append_jsonl compact_metadata write_jsonl_records retain_recent_jobs
    recent_records sort_by_key
restarted_compacting = refl

load_jobs-IsTerminal_example :
    ((id : Uuid) (r : JobRecord) → get kept id ≡ some r → IsTerminal r)
    × IsKeyed kept
    × (length kept ≤ 2)
load_jobs-IsTerminal_example =
    load_jobs-IsTerminal startup config on_disk kept (ap (λ x. x.1) restarted)

load_jobs_compacts_example :
    (compacted.submissions ≡ some [])
    × (records : List JobRecord) × (compacted.results ≡ some (map json records))
    × (length records ≤ 2)
    × All (λ r. is_pending r.status ≡ false) records
load_jobs_compacts_example =
    load_jobs_compacts startup compacting on_disk compacted kept (ground arith) restarted_compacting

load_jobs_succeeds_example : (jobs : JobMap) × ((load_jobs startup config on_disk).1 ≡ ok jobs)
load_jobs_succeeds_example =
    load_jobs_succeeds startup config on_disk healthy (tt, (tt, (tt, (tt, tt)))) (tt, tt)

load_jobs_malformed_example :
    load_jobs startup config corrupt ≡ (corrupt, err (parse_failed (1 + 2)))
load_jobs_malformed_example =
    load_jobs_malformed startup config corrupt (json (job 1 queued 1) ∷ blank ∷ [])
      (json (job 3 queued 3) ∷ []) refl refl (tt, (tt, tt))
