-- ===== src/Helper/Tail.antt =====
-- `recover_incomplete_tail`: the last record of a `.dat` file, proved incomplete, is copied aside
-- and cut off. The report of `build_candidate` is an argument.
pub mod Safety
use s3_storage_node.Common.{
  ℕ, ◌+◌, ◌-◌, String, Bool, true, false, not, ◌&&◌, ◌||◌, List, [], ◌∷◌, Option, none, some, ltb,
  leb, ◌==◌, if◌then◌else◌, str_eq, length, take, drop,
}
use s3_storage_node.Common.Result.{Result, ok, err, ◌>>=◌, ◌>>◌, raise_if, or_raise}
use s3_storage_node.Helper.Bounds.{
  BoundsError, BoundsReport, Violation, inspect_index_bounds, valid,
}
use s3_storage_node.Helper.Fingerprint.{
  File, Fingerprint, FingerprintError, fingerprint, same_fingerprint,
}

-- What the call reads of the result of `build_candidate`.
pub record Candidate : Type 0 where
  pub success : Bool
  pub manual_intervention_required : Bool
  pub candidate_bounds : Option BoundsReport

pub data TailError : Type 0 where
  expected_not_an_object not_rejected no_bounds not_one_violation not_bounded live_index : TailError
  source_changed short_tail backup_symlink backup_not_regular backup_differs : TailError
  backup_hash not_truncated : TailError

-- The path of the tail's backup.
pub data Backup : Type 0 where
  missing symlink other : Backup
  regular : List ℕ → Backup

pub record Recovered : Type 0 where
  pub offset : ℕ
  pub tail_size : ℕ
  pub tail_sha256 : String
  pub needle_id : ℕ
  pub source_fingerprint_after : Fingerprint

pub record Disk : Type 0 where
  pub source : File
  pub tail_backup : Backup

abbrev pub only_violation : BoundsReport → Result TailError Violation
only_violation bounds = elim bounds.violations [
  | [] ↦ err not_one_violation
  | v ∷ [] ↦ ok v
  | v ∷ w ∷ vs ↦ err not_one_violation
]

-- The guards on the candidate; the result is the record to cut off.
unfoldable pub check_candidate : ℕ → Candidate → Result TailError (Violation × ℕ)
check_candidate maximum_tail_bytes c = do
  _ ← raise_if (c.success || not c.manual_intervention_required) not_rejected
  bounds ← or_raise c.candidate_bounds no_bounds
  v ← only_violation bounds
  _ ←
      raise_if
        (leb v.offset 0
          || leb bounds.source_size v.offset
          || ltb maximum_tail_bytes (bounds.source_size - v.offset)
          || not (bounds.maximum_entry_offset == v.offset)
          || ltb v.offset bounds.maximum_valid_needle_end)
        not_bounded
  ok (v, bounds.source_size - v.offset)

abbrev pub live_verdict : ℕ → Result BoundsError BoundsReport → Result TailError (Unit {0})
live_verdict offset (err e) = err live_index
live_verdict offset (ok live) =
    raise_if (not (valid live) || ltb offset live.maximum_needle_end) live_index

-- The index that is in use must be whole without the tail.
unfoldable pub check_live_index : ℕ → List ℕ → List ℕ → Result TailError (Unit {0})
check_live_index offset index source = live_verdict offset (inspect_index_bounds index source)

abbrev pub source_verdict :
    Fingerprint → Result FingerprintError Fingerprint → Result TailError (Unit {0})
source_verdict expected (err e) = err source_changed
source_verdict expected (ok found) = raise_if (not (same_fingerprint found expected)) source_changed

-- `fingerprint(source) != expected`; nothing else writes the file meanwhile.
unfoldable pub check_source : (List ℕ → String) → Fingerprint → File → Result TailError (Unit {0})
check_source sha256 expected source = source_verdict expected (fingerprint sha256 source source)

-- The tail is written to the backup, or is found there already.
unfoldable pub save_tail : (List ℕ → String) → List ℕ → Backup → Result TailError Backup
save_tail sha256 tail missing = ok (regular tail)
save_tail sha256 tail symlink = err backup_symlink
save_tail sha256 tail other = err backup_not_regular
save_tail sha256 tail (regular bytes) =
    if not (length bytes == length tail) || not (str_eq (sha256 bytes) (sha256 tail))
    then err backup_differs
    else ok (regular bytes)

-- The last comparison of the backup's hash.
unfoldable pub verify_backup : (List ℕ → String) → List ℕ → Backup → Result TailError (Unit {0})
verify_backup sha256 tail (regular bytes) =
    raise_if (not (str_eq (sha256 bytes) (sha256 tail))) backup_hash
verify_backup sha256 tail _ = err backup_hash

-- The guards up to the copy of the tail.
unfoldable pub prove_tail :
    (List ℕ → String)
    → ℕ
    → Option Fingerprint
    → Candidate
    → List ℕ
    → File
    → Result TailError (Violation × Fingerprint × List ℕ)
prove_tail sha256 maximum_tail_bytes expected candidate index source = do
  fingerprint_before ← or_raise expected expected_not_an_object
  (v, tail_size) ← check_candidate maximum_tail_bytes candidate
  _ ← check_live_index v.offset index source.bytes
  _ ← check_source sha256 fingerprint_before source
  let tail = take (tail_size + 1) (drop v.offset source.bytes)
  _ ← raise_if (not (length tail == tail_size)) short_tail
  ok (v, fingerprint_before, tail)

abbrev pub cut : ℕ → ℕ → File → File
cut now_ns offset source = record source { bytes = take offset source.bytes; mtime_ns = now_ns }

abbrev pub recovered_of : (List ℕ → String) → Violation → List ℕ → Fingerprint → Recovered
recovered_of sha256 v tail after = record {
  offset = v.offset;
  tail_size = length tail;
  tail_sha256 = sha256 tail;
  needle_id = v.needle_id;
  source_fingerprint_after = after;
}

-- The end of the call, once the source has been cut.
abbrev pub report_cut : (List ℕ → String) → Violation → List ℕ → File → Result TailError Recovered
report_cut sha256 v tail source = elim (fingerprint sha256 source source) [
  | err e ↦ err source_changed
  | ok after ↦
      if not (after.size == v.offset)
      then err not_truncated
      else ok (recovered_of sha256 v tail after)
]

-- The cut, once the backup and the source have been verified; `now_ns` is the file system's clock.
abbrev pub cut_verified :
    (List ℕ → String)
    → ℕ
    → Violation
    → List ℕ
    → Disk
    → Result TailError (Unit {0})
    → Disk × Result TailError Recovered
cut_verified sha256 now_ns v tail disk (err e) = (disk, err e)
cut_verified sha256 now_ns v tail disk (ok _) =
    let source = cut now_ns v.offset disk.source in
    (record disk { source = source }, report_cut sha256 v tail source)

abbrev pub cut_saved :
    (List ℕ → String)
    → ℕ
    → Disk
    → Violation
    → Fingerprint
    → List ℕ
    → Result TailError Backup
    → Disk × Result TailError Recovered
cut_saved sha256 now_ns disk v expected tail (err e) = (disk, err e)
cut_saved sha256 now_ns disk v expected tail (ok backup) =
    cut_verified sha256 now_ns v tail (record disk { tail_backup = backup })
      (verify_backup sha256 tail backup >> check_source sha256 expected disk.source)

abbrev pub cut_proven :
    (List ℕ → String)
    → ℕ
    → Disk
    → Result TailError (Violation × Fingerprint × List ℕ)
    → Disk × Result TailError Recovered
cut_proven sha256 now_ns disk (err e) = (disk, err e)
cut_proven sha256 now_ns disk (ok (v, expected, tail)) =
    cut_saved sha256 now_ns disk v expected tail (save_tail sha256 tail disk.tail_backup)

-- The disk after the call comes with its result.
unfoldable pub recover_incomplete_tail :
    (List ℕ → String)
    → ℕ
    → ℕ
    → Option Fingerprint
    → Candidate
    → List ℕ
    → Disk
    → Disk × Result TailError Recovered
recover_incomplete_tail sha256 now_ns maximum_tail_bytes expected candidate index disk =
    cut_proven sha256 now_ns disk
      (prove_tail sha256 maximum_tail_bytes expected candidate index disk.source)
