-- ===== src/Helper/Fingerprint.antt =====
-- `fingerprint`: the size, the time stamp and the hashes of the two ends of a file. SHA-256 is a
-- parameter.
use s3_storage_node.Common.{
  ℕ, ◌-◌, ◌*◌, String, ◌≡◌, refl, Bool, not, ◌&&◌, ◌||◌, List, ◌==◌, if◌then◌else◌, str_eq, length,
  take, drop,
}
use s3_storage_node.Common.Result.{Result, ok, err}

-- What `stat` says of a path, and its bytes.
pub record File : Type 0 where
  pub bytes : List ℕ
  pub mtime_ns : ℕ
  pub regular : Bool

pub record Fingerprint : Type 0 where
  pub size : ℕ
  pub mtime_ns : ℕ
  pub head_bytes : ℕ
  pub head_sha256 : String
  pub tail_offset : ℕ
  pub tail_bytes : ℕ
  pub tail_sha256 : String

pub data FingerprintError : Type 0 where
  not_regular changed : FingerprintError

abbrev pub fingerprint_region_bytes : ℕ
fingerprint_region_bytes = 1024 * 1024

-- The equality of the two dicts.
abbrev pub same_fingerprint : Fingerprint → Fingerprint → Bool
same_fingerprint a b =
    a.size == b.size
    && a.mtime_ns == b.mtime_ns
    && a.head_bytes == b.head_bytes
    && str_eq a.head_sha256 b.head_sha256
    && a.tail_offset == b.tail_offset
    && a.tail_bytes == b.tail_bytes
    && str_eq a.tail_sha256 b.tail_sha256

-- What is returned; `read` returns at most one region.
unfoldable pub summary : (List ℕ → String) → File → Fingerprint
summary sha256 file =
    let tail_offset = length file.bytes - fingerprint_region_bytes in
    let head = take fingerprint_region_bytes file.bytes in
    let tail = take fingerprint_region_bytes (drop tail_offset file.bytes) in
    record {
      size = length file.bytes;
      mtime_ns = file.mtime_ns;
      head_bytes = length head;
      head_sha256 = sha256 head;
      tail_offset = tail_offset;
      tail_bytes = length tail;
      tail_sha256 = sha256 tail;
    }

-- The size and the time are those before the reads, which must be those after them.
unfoldable pub fingerprint : (List ℕ → String) → File → File → Result FingerprintError Fingerprint
fingerprint sha256 before after =
    if not before.regular
    then err not_regular
    else if not (length before.bytes == length after.bytes)
        || not (before.mtime_ns == after.mtime_ns)
    then err changed
    else ok (summary sha256 before)

pub summary-size :
    (sha256 : List ℕ → String) (file : File) → (summary sha256 file).size ≡ length file.bytes
unfolding summary
summary-size sha256 file = refl
