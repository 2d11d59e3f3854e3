-- ===== src/Helper/Bounds/Contained.antt =====
-- What the report of `inspect_index_bounds` says of the entries.
use s3_storage_node.Common.{
  ℕ, ◌*◌, ◌%◌, ◌≤◌, ◌≡◌, sym, subst, ap, ◌∙◌, true, not, List, [], ◌∷◌, arith, length, length-snoc,
  All, ◌==◌,
}
use s3_storage_node.Common.Result.{Result, ok, err, >>=-eq-ok, ok-injective, raise_if}
use s3_storage_node.Helper.Needle.{IndexEntry, RecordError, read_entries, entry_bytes}
use s3_storage_node.Helper.Needle.Records.{read_entries_total}
use s3_storage_node.Helper.Bounds.{
  BoundsReport, index_not_a_multiple, is_live, end_of, violation_of, note_entry, note_entries,
  empty_report, version_byte, entries_or_raise, inspect_index_bounds,
}

-- A live entry as the report sees it: it ends no later than the maximum, and inside the source
-- when there is no violation.
abbrev pub Covered : BoundsReport → IndexEntry → Type 0
Covered r e =
    is_live e ≡ true
    → (end_of r.version e ≤ r.maximum_needle_end)
      × (e.offset ≤ r.maximum_entry_offset)
      × (length r.violations ≡ 0 → end_of r.version e ≤ r.source_size)

-- What later rounds keep.
abbrev Grows : BoundsReport → BoundsReport → Type 0
Grows r s =
    (s.version ≡ r.version)
    × (s.source_size ≡ r.source_size)
    × (s.index_size ≡ r.index_size)
    × (r.maximum_needle_end ≤ s.maximum_needle_end)
    × (r.maximum_entry_offset ≤ s.maximum_entry_offset)
    × (length r.violations ≤ length s.violations)

note_entry-Grows : (e : IndexEntry) (r : BoundsReport) → Grows r (note_entry e r)
unfolding note_entry
note_entry-Grows e r = ground (arith, length-snoc r.violations (violation_of r e))

note_entry-Covered : (e : IndexEntry) (r : BoundsReport) → Covered (note_entry e r) e
unfolding note_entry
note_entry-Covered e r = ground (arith, length-snoc r.violations (violation_of r e))

note_entries-Grows : (es : List IndexEntry) (r : BoundsReport) → Grows r (note_entries es r)
unfolding note_entries
note_entries-Grows [] r = ground arith
note_entries-Grows (e ∷ es) r =
    ground (arith, note_entry-Grows e r, note_entries-Grows es (note_entry e r))

Covered-Grows : (e : IndexEntry) (r s : BoundsReport) → Grows r s → Covered r e → Covered s e
Covered-Grows e r s (v, z, _, m, o, k) c live =
    let (h, i, j) = c live in
    rw (v, z) (omega (arith, h, m), omega (arith, i, o), λ none_bad. j (omega (arith, k, none_bad)))

note_entries-Covered :
    (es : List IndexEntry) (r : BoundsReport) → All (Covered (note_entries es r)) es
unfolding note_entries
note_entries-Covered [] r = tt
note_entries-Covered (e ∷ es) r = (
  Covered-Grows e (note_entry e r) (note_entries es (note_entry e r))
      (note_entries-Grows es (note_entry e r)) (note_entry-Covered e r),
  note_entries-Covered es (note_entry e r),
)

entries_or_raise-eq-ok :
    (r : Result RecordError (List IndexEntry)) {es : List IndexEntry}
    → entries_or_raise r ≡ ok es
    → r ≡ ok es
entries_or_raise-eq-ok (ok es) h = cc
entries_or_raise-eq-ok (err e) h = cc

-- When the inspection succeeds, the whole index is read, the sizes in the report are those of the
-- two files, and each live entry ends no later than the reported maximum and, if the report
-- holds no violation, inside the `.dat` file.
pub inspect_index_bounds-Covered :
    (index source : List ℕ) (r : BoundsReport)
    → inspect_index_bounds index source ≡ ok r
    → (r.source_size ≡ length source)
      × (r.index_size ≡ length index)
      × ((es : List IndexEntry) × (read_entries (length index) index ≡ ok es) × All (Covered r) es)
unfolding inspect_index_bounds
inspect_index_bounds-Covered index source r h =
    let (version, hv, h₁) = >>=-eq-ok (version_byte source) _ h in
    let (u, hu, h₂) =
      >>=-eq-ok (raise_if (not (length index % entry_bytes == 0)) index_not_a_multiple) _ h₁ in
    let (es, he, h₃) = >>=-eq-ok (entries_or_raise (read_entries (length index) index)) _ h₂ in
    let start = empty_report version (length source) (length index) in
    let same : note_entries es start ≡ r = ok-injective h₃ in
    let (v, z, i, m, o, k) = note_entries-Grows es start in
    (
      ap (λ (s : BoundsReport). s.source_size) (sym same) ∙ z,
      ap (λ (s : BoundsReport). s.index_size) (sym same) ∙ i,
      (
        es,
        entries_or_raise-eq-ok _ he,
        subst (λ s. All (Covered s) es) same (note_entries-Covered es start),
      ),
    )

-- The inspection succeeds when the index is a whole number of entries and the first byte of the
-- `.dat` file is 1, 2 or 3.
pub inspect_index_bounds_total :
    (count version : ℕ) (index rest : List ℕ)
    → length index ≡ count * 16
    → 1 ≤ version
    → version ≤ 3
    → (r : BoundsReport) × (inspect_index_bounds index (version ∷ rest) ≡ ok r)
unfolding inspect_index_bounds
inspect_index_bounds_total count version index rest l low high =
    let (es, e, n) = read_entries_total count (length index) index l (omega arith) in
    (
      note_entries es (empty_report version (length (version ∷ rest)) (length index)),
      ground (arith, l, e, n),
    )
