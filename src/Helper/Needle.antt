-- ===== src/Helper/Needle.antt =====
-- The size of a needle on disk, and the entries of an index file.
pub mod Size
pub mod Records
use s3_storage_node.Common.{
  ℕ, zero, suc, ◌+◌, ◌-◌, ◌*◌, ◌%◌, ◌^◌, Bool, true, false, List, [], ◌∷◌, Option, none, some, ltb,
  ◌==◌, if◌then◌else◌, take, drop, length,
}
use s3_storage_node.Common.Int.{ℤ, pos, negsuc}
use s3_storage_node.Common.Result.{Result, ok, err}

abbrev pub entry_bytes : ℕ
entry_bytes = 16

abbrev pub needle_header_bytes : ℕ
needle_header_bytes = 16

abbrev pub needle_checksum_bytes : ℕ
needle_checksum_bytes = 4

abbrev pub needle_timestamp_bytes : ℕ
needle_timestamp_bytes = 8

abbrev pub needle_padding_bytes : ℕ
needle_padding_bytes = 8

-- `0 if size < 0 else size`
abbrev pub payload_size : ℤ → ℕ
payload_size (pos n) = n
payload_size (negsuc n) = 0

-- Header, payload and trailer, before the padding.
unfoldable pub unpadded_size : ℤ → ℕ → ℕ
unpadded_size size version =
    needle_header_bytes
    + payload_size size
    + (needle_checksum_bytes + (if version == 3 then needle_timestamp_bytes else 0))

-- `_needle_actual_size`
unfoldable pub needle_actual_size : ℤ → ℕ → ℕ
unfolding unpadded_size
needle_actual_size size version =
    unpadded_size size version
    + (needle_padding_bytes - unpadded_size size version % needle_padding_bytes)

-- `int.from_bytes(…, "big", signed=False)`, after `acc`.
unfoldable pub from_bytes : ℕ → List ℕ → ℕ
from_bytes acc [] = acc
from_bytes acc (b ∷ bs) = from_bytes (acc * 256 + b) bs

-- The value of four bytes as a signed number.
abbrev pub signed_32 : ℕ → ℤ
signed_32 n = if ltb n (2 ^ 31) then pos n else negsuc (2 ^ 32 - n - 1)

pub record IndexEntry : Type 0 where
  pub needle_id : ℕ
  pub offset : ℕ
  pub size : ℤ

abbrev pub entry_of : List ℕ → IndexEntry
entry_of record_bytes = record {
  needle_id = from_bytes 0 (take 8 record_bytes);
  offset = from_bytes 0 (take 4 (drop 8 record_bytes)) * needle_padding_bytes;
  size = signed_32 (from_bytes 0 (take 4 (drop 12 record_bytes)));
}

pub data RecordError : Type 0 where
  partial_entry out_of_fuel : RecordError

abbrev pub prepend :
    List ℕ → Result RecordError (List IndexEntry) → Result RecordError (List IndexEntry)
prepend chunk (ok es) = ok (entry_of chunk ∷ es)
prepend chunk (err e) = err e

-- The loop that reads one entry after the other; each round takes 16 bytes off the file, so its
-- length is fuel enough.
unfoldable pub read_entries : ℕ → List ℕ → Result RecordError (List IndexEntry)
read_entries fuel [] = ok []
read_entries zero (b ∷ bs) = err out_of_fuel
read_entries (suc fuel) (b ∷ bs) =
    let chunk = take entry_bytes (b ∷ bs) in
    let rest = prepend chunk (read_entries fuel (drop entry_bytes (b ∷ bs))) in
    if length chunk == entry_bytes then rest else err partial_entry
