-- ===== src/Repair/Tail.antt =====
-- `_recover_incomplete_tail`: when the controller has the helper cut off an incomplete last record,
-- and what it checks of the outcome.
use s3_storage_node.Common.{
  ℕ, ◌-◌, ◌≡◌, refl, inl, inr, Bool, true, false, not, ◌||◌, List, [], ◌∷◌, Option, none, some, ltb,
  leb, ◌==◌, if◌then◌else◌, Bool-cases,
}
use s3_storage_node.Common.Result.{Result, ok, err}
use s3_storage_node.Helper.Bounds.{BoundsReport, Violation}
use s3_storage_node.Helper.Tail.{Candidate, TailError, Recovered, check_candidate}
use s3_storage_node.Repair.Transaction.{Transaction}
use s3_storage_node.Repair.Job.{RepairError, manual_intervention}

-- `auto_tail_recovery_enabled` and `auto_tail_recovery_max_bytes`.
pub record TailSetting : Type 0 where
  pub enabled : Bool
  pub max_bytes : ℕ

-- The violation is not a bounded tail behind everything else.
abbrev pub is_unbounded : ℕ → BoundsReport → Violation → Bool
is_unbounded max_bytes bounds v =
    leb v.offset 0
    || leb bounds.source_size v.offset
    || ltb max_bytes (bounds.source_size - v.offset)
    || not (bounds.maximum_entry_offset == v.offset)
    || ltb v.offset bounds.maximum_valid_needle_end

-- Where the only violation starts, and how much lies behind it, if that may be cut off.
abbrev pub bounded_tail : TailSetting → BoundsReport → List Violation → Option (ℕ × ℕ)
bounded_tail setting bounds [] = none
bounded_tail setting bounds (v ∷ w ∷ vs) = none
bounded_tail setting bounds (v ∷ []) =
    if is_unbounded setting.max_bytes bounds v
    then none
    else some (v.offset, bounds.source_size - v.offset)

-- The guards before the helper is called.
unfoldable pub proven_tail : TailSetting → Option BoundsReport → Option (ℕ × ℕ)
proven_tail setting none = none
proven_tail setting (some bounds) =
    if not setting.enabled then none else bounded_tail setting bounds bounds.violations

-- The checks of the helper's report.
abbrev pub check_recovery : ℕ × ℕ → Result RepairError Recovered → Result RepairError Bool
check_recovery (offset, size) (err e) = err e
check_recovery (offset, size) (ok r) =
    if not (r.offset == offset) || not (r.tail_size == size)
    then err (manual_intervention "tail recovery helper returned an inconsistent boundary")
    else if not (r.source_fingerprint_after.size == offset)
    then err (manual_intervention "incomplete-tail truncation did not reach the proven boundary")
    else ok true

-- `_recover_incomplete_tail`, with the call of the helper as an argument.
unfoldable pub recover_incomplete_tail :
    TailSetting
    → (Transaction → Result RepairError Recovered)
    → Transaction
    → Option BoundsReport
    → Result RepairError Bool
unfolding proven_tail
recover_incomplete_tail setting helper t bounds = elim (proven_tail setting bounds) [
  | none ↦ ok false
  | some tail ↦ check_recovery tail (helper t)
]

-- The candidate as the controller got it: rejected, with the bounds of the payload.
abbrev pub rejected_candidate : Option BoundsReport → Candidate
rejected_candidate bounds = record {
  success = false;
  manual_intervention_required = true;
  candidate_bounds = bounds;
}

-- The offset and the size that the helper finds.
abbrev pub helper_tail : Result TailError (Violation × ℕ) → Option (ℕ × ℕ)
helper_tail (err e) = none
helper_tail (ok (v, size)) = some (v.offset, size)

bounded_tail-check_candidate :
    (setting : TailSetting) (bounds : BoundsReport) (vs : List Violation)
    → let b : BoundsReport = record bounds { violations = vs } in
      bounded_tail setting b vs
      ≡ helper_tail (check_candidate setting.max_bytes (rejected_candidate (some b)))
unfolding check_candidate
bounded_tail-check_candidate setting bounds [] = refl
bounded_tail-check_candidate setting bounds (v ∷ w ∷ vs) = refl
bounded_tail-check_candidate setting bounds (v ∷ []) =
    elim (Bool-cases (is_unbounded setting.max_bytes bounds v)) [
      | inl h ↦ rw h refl
      | inr h ↦ rw h refl
    ]

-- With the recovery enabled, the controller calls the helper on just the candidates that the
-- helper's own guards accept with the same limit, and with the same boundary.
pub proven_tail-check_candidate :
    (setting : TailSetting) (bounds : Option BoundsReport)
    → setting.enabled ≡ true
    → proven_tail setting bounds
      ≡ helper_tail (check_candidate setting.max_bytes (rejected_candidate bounds))
unfolding proven_tail check_candidate
proven_tail-check_candidate setting none on = refl
proven_tail-check_candidate setting (some bounds) on =
    rw on (bounded_tail-check_candidate setting bounds bounds.violations)
