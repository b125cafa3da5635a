-- ===== src/Jobs/Store/Files.antt =====
-- The JSONL files of src/jobs/store.rs and `append_jsonl` of src/util.rs.
use unlimited_ocr_server.Prelude.{
  ℕ, ◌+◌, List, [], ◌∷◌, ◌++◌, Option, none, some, Text, map, ◌≡◌, refl, ◌⊎◌, inl, inr,
}
use unlimited_ocr_server.Types.{JobRecord}
use unlimited_ocr_server.Jobs.Map.{JobMap, insert}

pub data Line : Type 0 where
  json : JobRecord → Line
  blank : Line
  malformed : Line

abbrev pub File : Type 0
File = Option (List Line)

pub data StoreError : Type 0 where
  read_failed : Text → StoreError
  parse_failed : (line_number : ℕ) → StoreError
  append_failed : Text → StoreError
  write_failed : Text → StoreError

pub data Result {ℓ} (A : Type ℓ) : Type ℓ where
  ok : A → Result A
  err : StoreError → Result A

-- What the file system does with an append: all of the line is written, or an error comes back
-- with whatever the file then holds past its old end.
pub data Append : Type 0 where
  written : Append
  refused : (error : Text) (residue : List Line) → Append

abbrev pub lines : File → List Line
lines none = []
lines (some l) = l

-- `append_jsonl` creates a missing file.
unfoldable pub append_jsonl : Append → JobRecord → File → File × Option Text
append_jsonl written record_ file = (some (lines file ++ json record_ ∷ []), none)
append_jsonl (refused error residue) record_ file = (some (lines file ++ residue), some error)

-- The loop over the lines, numbered from one.
unfoldable pub read_lines : ℕ → List Line → JobMap → Result JobMap
read_lines n [] jobs = ok jobs
read_lines n (blank ∷ rest) jobs = read_lines (n + 1) rest jobs
read_lines n (malformed ∷ rest) jobs = err (parse_failed n)
read_lines n (json r ∷ rest) jobs = read_lines (n + 1) rest (insert r.id r jobs)

-- `read_error` is what the file system says, if it fails to read a file that exists.
unfoldable pub load_job_records : Option Text → File → JobMap → Result JobMap
load_job_records read_error none jobs = ok jobs
load_job_records none (some contents) jobs = read_lines 1 contents jobs
load_job_records (some e) (some contents) jobs = err (read_failed e)

-- `write_jsonl_records` writes a temporary file and renames it: all the records, or no change.
unfoldable pub write_jsonl_records : Option Text → List JobRecord → File → File × Result (Unit {0})
write_jsonl_records none records file = (some (map json records), ok tt)
write_jsonl_records (some e) records file = (file, err (write_failed e))

pub Result-cases {ℓ} :
    {A : Type ℓ} (r : Result A) → ((a : A) × (r ≡ ok a)) ⊎ ((e : StoreError) × (r ≡ err e))
Result-cases (ok a) = inl (a, refl)
Result-cases (err e) = inr (e, refl)
