-- ===== src/Helper/Needle/Records.antt =====
-- Reading an index file, entry by entry.
use s3_storage_node.Common.{
  ℕ, zero, suc, ◌*◌, ◌≤◌, ◌≡◌, refl, List, [], ◌∷◌, arith, length, take, drop, length-drop,
  length-take,
}
use s3_storage_node.Common.Result.{ok}
use s3_storage_node.Helper.Needle.{IndexEntry, entry_of, read_entries}

-- An index whose length is a multiple of 16 is read to its end, with an entry for each 16 bytes.
pub read_entries_total :
    (count fuel : ℕ) (bytes : List ℕ)
    → length bytes ≡ count * 16
    → length bytes ≤ fuel
    → (es : List IndexEntry) × (read_entries fuel bytes ≡ ok es) × (length es ≡ count)
unfolding read_entries
read_entries_total zero fuel [] l f = ([], refl, refl)
read_entries_total zero fuel (b ∷ bs) l f = absurd (omega arith)
read_entries_total (suc count) fuel [] l f = absurd (omega arith)
read_entries_total (suc count) zero (b ∷ bs) l f = absurd (omega arith)
read_entries_total (suc count) (suc fuel) (b ∷ bs) l f =
    let (es, e, n) =
      read_entries_total count fuel (drop 15 bs) (omega (arith, length-drop 15 bs, l))
        (omega (arith, length-drop 15 bs, f)) in
    (entry_of (b ∷ take 15 bs) ∷ es, ground (arith, length-take 15 bs, l, e), omega (arith, n))
