-- ===== src/Helper/Tests.antt =====
-- One record of eight bytes, whole and cut short.
use s3_storage_node.Common.{
  ℕ, String, ◌≡◌, refl, ◌⊎◌, true, false, List, [], ◌∷◌, some, All, length,
}
use s3_storage_node.Common.Result.{Result, ok, err}
use s3_storage_node.Helper.Needle.{IndexEntry, read_entries}
use s3_storage_node.Helper.Bounds.{BoundsError, BoundsReport, inspect_index_bounds, empty_report}
use s3_storage_node.Helper.Bounds.Contained.{Covered, inspect_index_bounds-Covered}
use s3_storage_node.Helper.Fingerprint.{File, summary}
use s3_storage_node.Helper.Tail.{Candidate, missing, Disk, recover_incomplete_tail}
use s3_storage_node.Helper.Tail.Safety.{Untouched, IsCut, recover_incomplete_tail_safe}

-- Needle 7, at offset 8, with a payload of 8 bytes.
abbrev index : List ℕ
index = 0 ∷ 0 ∷ 0 ∷ 0 ∷ 0 ∷ 0 ∷ 0 ∷ 7 ∷ 0 ∷ 0 ∷ 0 ∷ 1 ∷ 0 ∷ 0 ∷ 0 ∷ 8 ∷ []

abbrev source : List ℕ
source = 3 ∷ 0 ∷ 0 ∷ 0 ∷ 0 ∷ 0 ∷ 0 ∷ 0 ∷ 1 ∷ 2 ∷ []

abbrev report_or : Result BoundsError BoundsReport → BoundsReport
report_or (ok r) = r
report_or (err e) = empty_report 0 0 0

abbrev report : BoundsReport
unfolding inspect_index_bounds
report = report_or (inspect_index_bounds index source)

inspect_index_bounds-Covered_example :
    (report.source_size ≡ length source)
    × (report.index_size ≡ length index)
    × ((es : List IndexEntry) × (read_entries (length index) index ≡ ok es)
        × All (Covered report) es)
unfolding inspect_index_bounds read_entries
inspect_index_bounds-Covered_example = inspect_index_bounds-Covered index source report refl

abbrev sha256 : List ℕ → String
sha256 [] = ""
sha256 (b ∷ bs) = "hash"

abbrev file : File
file = record { bytes = source; mtime_ns = 5; regular = true }

abbrev disk : Disk
disk = record { source = file; tail_backup = missing }

abbrev rejected : Candidate
rejected = record {
  success = false;
  manual_intervention_required = true;
  candidate_bounds = some report;
}

recover_incomplete_tail_safe_example :
    let out = recover_incomplete_tail sha256 9 100 (some (summary sha256 file)) rejected [] disk in
    Untouched disk out ⊎ IsCut sha256 [] disk out
recover_incomplete_tail_safe_example =
    recover_incomplete_tail_safe sha256 9 100 (some (summary sha256 file)) rejected [] disk
