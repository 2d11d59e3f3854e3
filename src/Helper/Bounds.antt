-- ===== src/Helper/Bounds.antt =====
-- `inspect_index_bounds`: the entries of an index against the size of the `.dat` file.
pub mod Contained
use s3_storage_node.Common.{
  ℕ, ◌+◌, ◌-◌, ◌%◌, max, Bool, true, false, not, ◌&&◌, ◌||◌, List, [], ◌∷◌, ◌++◌, ltb, ◌==◌,
  if◌then◌else◌, length,
}
use s3_storage_node.Common.Int.{ℤ, pos, leb_ℤ}
use s3_storage_node.Common.Result.{Result, ok, err, ◌>>=◌, ◌>>◌, raise_if}
use s3_storage_node.Helper.Needle.{
  IndexEntry, RecordError, entry_bytes, needle_actual_size, read_entries,
}

pub data BoundsError : Type 0 where
  unsupported_superblock index_not_a_multiple : BoundsError
  record_error : RecordError → BoundsError

pub record Violation : Type 0 where
  pub needle_id : ℕ
  pub offset : ℕ
  pub size : ℤ
  pub end : ℕ
  pub bytes_past_eof : ℕ

pub record BoundsReport : Type 0 where
  pub version : ℕ
  pub source_size : ℕ
  pub index_size : ℕ
  pub entry_count : ℕ
  pub maximum_needle_end : ℕ
  pub maximum_valid_needle_end : ℕ
  pub maximum_entry_offset : ℕ
  pub violations : List Violation

-- `not violations`, the field `valid`.
abbrev pub valid : BoundsReport → Bool
valid r = length r.violations == 0

-- An entry that is neither a tombstone, nor empty, nor held in a remote tier.
abbrev pub is_live : IndexEntry → Bool
is_live e = not (e.offset == 0 || leb_ℤ e.size (pos 0))

abbrev pub end_of : ℕ → IndexEntry → ℕ
end_of version e = e.offset + needle_actual_size e.size version

abbrev pub violation_of : BoundsReport → IndexEntry → Violation
violation_of r e = record {
  needle_id = e.needle_id;
  offset = e.offset;
  size = e.size;
  end = end_of r.version e;
  bytes_past_eof = end_of r.version e - r.source_size;
}

-- One round of the loop, after the entry is read.
unfoldable pub note_entry : IndexEntry → BoundsReport → BoundsReport
note_entry e r =
    let end = end_of r.version e in
    let counted : BoundsReport = record r { entry_count = r.entry_count + 1 } in
    let noted : BoundsReport = record counted {
      maximum_entry_offset = max r.maximum_entry_offset e.offset;
      maximum_needle_end = max r.maximum_needle_end end;
    } in
    if not (is_live e)
    then counted
    else if ltb r.source_size end
    then record noted { violations = r.violations ++ violation_of r e ∷ [] }
    else record noted { maximum_valid_needle_end = max r.maximum_valid_needle_end end }

unfoldable pub note_entries : List IndexEntry → BoundsReport → BoundsReport
note_entries [] r = r
note_entries (e ∷ es) r = note_entries es (note_entry e r)

abbrev pub empty_report : ℕ → ℕ → ℕ → BoundsReport
empty_report version source_size index_size = record {
  version = version;
  source_size = source_size;
  index_size = index_size;
  entry_count = 0;
  maximum_needle_end = 0;
  maximum_valid_needle_end = 0;
  maximum_entry_offset = 0;
  violations = [];
}

-- The version is the first byte of the superblock.
abbrev pub version_byte : List ℕ → Result BoundsError ℕ
version_byte [] = err unsupported_superblock
version_byte (b ∷ bs) = if b == 1 || b == 2 || b == 3 then ok b else err unsupported_superblock

abbrev pub entries_or_raise :
    Result RecordError (List IndexEntry) → Result BoundsError (List IndexEntry)
entries_or_raise (ok es) = ok es
entries_or_raise (err e) = err (record_error e)

-- The arguments are the bytes of the index and of the `.dat` file.
unfoldable pub inspect_index_bounds : List ℕ → List ℕ → Result BoundsError BoundsReport
inspect_index_bounds index source = version_byte source >>= λ version.
    raise_if (not (length index % entry_bytes == 0)) index_not_a_multiple >>= λ _.
    entries_or_raise (read_entries (length index) index) >>= λ es.
    ok (note_entries es (empty_report version (length source) (length index)))
