-- ===== src/Helper/Tail/Safety.antt =====
-- What `recover_incomplete_tail` leaves on the disk.
use s3_storage_node.Common.{
  ℕ, ◌+◌, ◌-◌, ◌≤◌, String, ◌≡◌, refl, sym, ap, subst, ◌∙◌, ◌⊎◌, inl, inr, Bool, true, not, ◌||◌,
  List, [], ◌∷◌, ◌++◌, Option, arith, ltb, leb, ◌==◌, eq_iff, length, take, drop, length-take,
  length-drop, take_all, take-drop, All,
}
use s3_storage_node.Common.Result.{
  Result, ok, err, ◌>>◌, >>=-eq-ok, ok-injective, raise_if, or_raise, raise_if-eq-ok, err_ok_absurd,
  Result-cases,
}
use s3_storage_node.Helper.Needle.{IndexEntry, read_entries}
use s3_storage_node.Helper.Bounds.{
  BoundsReport, Violation, is_live, end_of, inspect_index_bounds, valid,
}
use s3_storage_node.Helper.Bounds.Contained.{Covered, inspect_index_bounds-Covered}
use s3_storage_node.Helper.Fingerprint.{File, Fingerprint, fingerprint, summary, summary-size}
use s3_storage_node.Helper.Tail.{
  Candidate, TailError, Backup, missing, regular, Recovered, Disk, not_rejected, live_index,
  no_bounds, not_bounded, short_tail, expected_not_an_object, only_violation, check_candidate,
  live_verdict, check_live_index, check_source, save_tail, verify_backup, prove_tail, cut,
  report_cut, cut_proven, recovered_of, recover_incomplete_tail,
}

abbrev unbounded : ℕ → BoundsReport → Violation → Bool
unbounded m b v =
    leb v.offset 0
    || leb b.source_size v.offset
    || ltb m (b.source_size - v.offset)
    || not (b.maximum_entry_offset == v.offset)
    || ltb v.offset b.maximum_valid_needle_end

check_candidate-eq-ok :
    (m : ℕ) (c : Candidate) (v : Violation) (n : ℕ)
    → check_candidate m c ≡ ok (v, n)
    → (1 ≤ v.offset) × (1 ≤ n) × (n ≤ m)
unfolding check_candidate
check_candidate-eq-ok m c v n h =
    let (u, hu, h₁) =
      >>=-eq-ok (raise_if (c.success || not c.manual_intervention_required) not_rejected) _ h in
    let (b, hb, h₂) = >>=-eq-ok (or_raise c.candidate_bounds no_bounds) _ h₁ in
    let (w, hw, h₃) = >>=-eq-ok (only_violation b) _ h₂ in
    let (x, hx, h₄) = >>=-eq-ok (raise_if (unbounded m b w) not_bounded) _ h₃ in
    let same : (w, b.source_size - w.offset) ≡ (v, n) = ok-injective h₄ in
    subst (λ p. (1 ≤ p.0.offset) × (1 ≤ p.1) × (p.1 ≤ m)) same
      (ground (arith, raise_if-eq-ok (unbounded m b w) not_bounded hx))

whole_tail : (n : ℕ) (xs : List ℕ) → length (take (n + 1) xs) ≡ n → take (n + 1) xs ≡ xs
whole_tail n xs h = take_all (n + 1) xs (omega (arith, h, length-take (n + 1) xs))

-- Every live entry of the index ends at `offset` or before.
abbrev pub EndsBefore : ℕ → ℕ → List ℕ → Type 0
EndsBefore offset version index =
    (es : List IndexEntry) × (read_entries (length index) index ≡ ok es)
    × All (λ e. is_live e ≡ true → end_of version e ≤ offset) es

bounded_entries :
    (offset : ℕ) (r : BoundsReport) (es : List IndexEntry)
    → r.maximum_needle_end ≤ offset
    → All (Covered r) es
    → All (λ e. is_live e ≡ true → end_of r.version e ≤ offset) es
bounded_entries offset r [] h c = tt
bounded_entries offset r (e ∷ es) h (c, cs) =
    (λ live. let (i, j, k) = c live in omega (arith, i, h), bounded_entries offset r es h cs)

-- The index can be inspected, and its live entries end at `offset` or before.
abbrev pub LiveBefore : ℕ → List ℕ → List ℕ → Type 0
LiveBefore offset index source =
    (r : BoundsReport) × (inspect_index_bounds index source ≡ ok r)
    × EndsBefore offset r.version index

live_verdict-eq-ok :
    (offset : ℕ) (r : BoundsReport) {u : Unit {0}}
    → live_verdict offset (ok r) ≡ ok u
    → (length r.violations ≡ 0) × (r.maximum_needle_end ≤ offset)
live_verdict-eq-ok offset r h =
    ground (arith, raise_if-eq-ok (not (valid r) || ltb offset r.maximum_needle_end) live_index h)

check_live_index-eq-ok :
    (offset : ℕ) (index source : List ℕ) (u : Unit {0})
    → check_live_index offset index source ≡ ok u
    → LiveBefore offset index source
unfolding check_live_index
check_live_index-eq-ok offset index source u h =
    elim (Result-cases (inspect_index_bounds index source)) [
      | inl (r, e) ↦
          let (z, _, (es, read, covered)) = inspect_index_bounds-Covered index source r e in
          let (whole, short) =
            live_verdict-eq-ok offset r (subst (λ x. live_verdict offset x ≡ ok u) e h) in
          (r, e, (es, read, bounded_entries offset r es short covered))
      | inr (x, e) ↦ err_ok_absurd live_index u (subst (λ x. live_verdict offset x ≡ ok u) e h)
    ]

-- The guards passed: the tail is the rest of the file after a record that no live entry reaches.
abbrev pub Proven : List ℕ → List ℕ → Violation × Fingerprint × List ℕ → Type 0
Proven index source (v, expected, tail) =
    (tail ≡ drop v.offset source)
    × (1 ≤ v.offset)
    × (1 ≤ length tail)
    × LiveBefore v.offset index source

prove_tail-Proven :
    (sha256 : List ℕ → String) (m : ℕ) (expected : Option Fingerprint) (c : Candidate)
    (index : List ℕ) (source : File) (p : Violation × Fingerprint × List ℕ)
    → prove_tail sha256 m expected c index source ≡ ok p
    → Proven index source.bytes p
unfolding prove_tail
prove_tail-Proven sha256 m expected c index source p h =
    let (f, hf, h₁) = >>=-eq-ok (or_raise expected expected_not_an_object) _ h in
    let ((v, n), hv, h₂) = >>=-eq-ok (check_candidate m c) _ h₁ in
    let (u, hu, h₃) = >>=-eq-ok (check_live_index v.offset index source.bytes) _ h₂ in
    let (w, hw, h₄) = >>=-eq-ok (check_source sha256 f source) _ h₃ in
    let tail = take (n + 1) (drop v.offset source.bytes) in
    let (x, hx, h₅) = >>=-eq-ok (raise_if (not (length tail == n)) short_tail) _ h₄ in
    let long : length tail ≡ n =
      ground (arith, raise_if-eq-ok (not (length tail == n)) short_tail hx) in
    let (low, some_tail, high) = check_candidate-eq-ok m c v n hv in
    subst (Proven index source.bytes) (ok-injective h₅) (
      whole_tail n (drop v.offset source.bytes) long,
      low,
      omega (arith, long, some_tail),
      check_live_index-eq-ok v.offset index source.bytes u hu,
    )

save_tail-eq-ok :
    (sha256 : List ℕ → String) (tail : List ℕ) (b c : Backup)
    → save_tail sha256 tail b ≡ ok c
    → (bytes : List ℕ) × (c ≡ regular bytes)
      × (length bytes ≡ length tail)
      × (sha256 bytes ≡ sha256 tail)
      × (b ≡ missing → bytes ≡ tail)
unfolding save_tail
save_tail-eq-ok sha256 tail missing c h = (tail, sym (ok-injective h), refl, refl, λ m. refl)
save_tail-eq-ok sha256 tail Backup.symlink c h = cc
save_tail-eq-ok sha256 tail Backup.other c h = cc
save_tail-eq-ok sha256 tail (regular bytes) c h =
    ground (arith, eq_iff (sha256 bytes) (sha256 tail))

check_source-regular :
    (sha256 : List ℕ → String) (f : Fingerprint) (source : File) (u : Unit {0})
    → check_source sha256 f source ≡ ok u
    → source.regular ≡ true
unfolding check_source fingerprint
check_source-regular sha256 f source u h = ground arith

report_cut_ok :
    (sha256 : List ℕ → String) (now : ℕ) (v : Violation) (tail : List ℕ) (source : File)
    → source.regular ≡ true
    → v.offset ≤ length source.bytes
    → report_cut sha256 v tail (cut now v.offset source)
      ≡ ok (recovered_of sha256 v tail (summary sha256 (cut now v.offset source)))
unfolding fingerprint
report_cut_ok sha256 now v tail source regular_file long =
    let after = cut now v.offset source in
    let sized : (summary sha256 after).size ≡ v.offset =
      summary-size sha256 after ∙ omega (arith, length-take v.offset source.bytes, long) in
    ground (arith, sized, regular_file)

-- The call failed and left the bytes of the source as they were.
abbrev pub Untouched : Disk → Disk × Result TailError Recovered → Type 0
Untouched disk (after, result) = (e : TailError) × (result ≡ err e) × (after.source ≡ disk.source)

-- The call succeeded: the bytes from the offset on are gone from the source, the backup has as
-- many bytes with their hash, and no live entry of the index in use reaches beyond the offset.
abbrev pub IsCut : (List ℕ → String) → List ℕ → Disk → Disk × Result TailError Recovered → Type 0
IsCut sha256 index disk (after, result) =
    (done : Recovered) × (saved : List ℕ) × (result ≡ ok done)
    × (after.source.bytes ++ drop done.offset disk.source.bytes ≡ disk.source.bytes)
    × (length after.source.bytes ≡ done.offset)
    × (after.tail_backup ≡ regular saved)
    × (length saved ≡ length (drop done.offset disk.source.bytes))
    × (sha256 saved ≡ sha256 (drop done.offset disk.source.bytes))
    × (disk.tail_backup ≡ missing → saved ≡ drop done.offset disk.source.bytes)
    × LiveBefore done.offset index disk.source.bytes

cut_proven-safe :
    (sha256 : List ℕ → String) (now : ℕ) (index : List ℕ) (disk : Disk) (v : Violation)
    (expected : Fingerprint) (tail : List ℕ)
    → Proven index disk.source.bytes (v, expected, tail)
    → let out = cut_proven sha256 now disk (ok (v, expected, tail)) in
      Untouched disk out ⊎ IsCut sha256 index disk out
cut_proven-safe sha256 now index disk v expected tail (same, low, some_tail, live) =
    elim (Result-cases (save_tail sha256 tail disk.tail_backup)) [
      | inr (e, h) ↦ rw h (inl (e, refl, refl))
      | inl (backup, h) ↦
          elim (Result-cases
            (verify_backup sha256 tail backup >> check_source sha256 expected disk.source)) [
              | inr (e, k) ↦ rw (h, k) (inl (e, refl, refl))
              | inl (u, k) ↦
                  let (w, hw, hu) = >>=-eq-ok (verify_backup sha256 tail backup) _ k in
                  let (saved, b, n, hash, fresh) =
                    save_tail-eq-ok sha256 tail disk.tail_backup backup h in
                  let long : v.offset ≤ length disk.source.bytes =
                    omega
                      (arith, some_tail, ap length same, length-drop v.offset disk.source.bytes) in
                  let r =
                    report_cut_ok sha256 now v tail disk.source
                      (check_source-regular sha256 expected disk.source u hu) long in
                  let done =
                    recovered_of sha256 v tail (summary sha256 (cut now v.offset disk.source)) in
                  let cut_source : take v.offset disk.source.bytes
                        ++ drop v.offset disk.source.bytes
                      ≡ disk.source.bytes =
                    take-drop v.offset disk.source.bytes in
                  rw (h, k)
                    (inr (
                      done,
                      saved,
                      r,
                      cut_source,
                      omega (arith, length-take v.offset disk.source.bytes, long),
                      b,
                      n ∙ ap length same,
                      hash ∙ ap sha256 same,
                      λ m. fresh m ∙ same,
                      live,
                    ))
            ]
    ]

-- Whatever the candidate claims and the disk holds, `recover_incomplete_tail` either fails and
-- leaves the source's bytes untouched, or cuts the source at an offset that no live entry of the
-- index in use reaches beyond, with the bytes cut off (or, if the backup was there already, bytes
-- of the same length and hash) in the backup.
pub recover_incomplete_tail_safe :
    (sha256 : List ℕ → String) (now_ns maximum_tail_bytes : ℕ) (expected : Option Fingerprint)
    (candidate : Candidate) (index : List ℕ) (disk : Disk)
    → let out =
        recover_incomplete_tail sha256 now_ns maximum_tail_bytes expected candidate index disk in
      Untouched disk out ⊎ IsCut sha256 index disk out
unfolding recover_incomplete_tail
recover_incomplete_tail_safe sha256 now m expected candidate index disk =
    elim (Result-cases (prove_tail sha256 m expected candidate index disk.source)) [
      | inr (e, h) ↦ rw h (inl (e, refl, refl))
      | inl ((v, f, tail), h) ↦ rw h (
          cut_proven-safe sha256 now index disk v f tail
            (prove_tail-Proven sha256 m expected candidate index disk.source (v, f, tail) h))
    ]
