-- ===== src/Jobs/Store/Retention.antt =====
-- `retain_recent_jobs` and `recent_records` of src/jobs/store.rs.
use unlimited_ocr_server.Prelude.{
  ℕ, List, [], Bool, ◌==◌, leb, if◌then◌else◌, length, take, retain, any,
}
use mathlib.Core.List.{reverse}
use unlimited_ocr_server.Prelude.Sort.{sort_by_key}
use unlimited_ocr_server.Types.{Uuid, JobRecord}
use unlimited_ocr_server.Jobs.Map.{JobMap, values}

abbrev pub age : JobRecord → ℕ
age r = r.updated_at

unfoldable pub recent_records : JobMap → ℕ → List JobRecord
recent_records jobs limit = reverse (take limit (reverse (sort_by_key age (values jobs))))

-- Membership of an id in the set collected from the records.
abbrev pub keeps : List JobRecord → Uuid → Bool
keeps records id = any (λ r. r.id == id) records

unfoldable pub retain_recent_jobs : JobMap → ℕ → JobMap
retain_recent_jobs jobs limit =
    if leb (length jobs) limit
    then jobs
    else if limit == 0
    then []
    else retain (λ e. keeps (recent_records jobs limit) e.0) jobs
