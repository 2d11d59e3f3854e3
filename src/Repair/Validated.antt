-- ===== src/Repair/Validated.antt =====
-- What `validate_upstream` decides, by what the upstream status lists.
use s3_storage_node.Common.{
  ℕ, String, ◌≡◌, ◌⊎◌, Bool, true, false, List, ◌∷◌, Option, none, some, All, Mem,
}
use s3_storage_node.Common.Int.{ℤ, eq_ℤ}
use s3_storage_node.Seaweed.{VolumeDetail, VolumeStatus}
use s3_storage_node.Repair.Phase.{is_pending_validation, verified}
use s3_storage_node.Repair.Transaction.{Transaction}
use s3_storage_node.Repair.Journal.{Names, Controller}

-- No volume of the list has the identifier.
abbrev pub Unlisted : ℤ → List VolumeDetail → Type 0
Unlisted id ds = All (λ d. eq_ℤ d.id id ≡ false) ds

-- The last volume of the list with the identifier is read-only, or is not.
pub data Reported (id : ℤ) (readonly : Bool) : List VolumeDetail → Type 0 where
  last :
      (d : VolumeDetail) (ds : List VolumeDetail)
      → eq_ℤ d.id id ≡ true
      → d.readonly ≡ readonly
      → Unlisted id ds
      → Reported id readonly (d ∷ ds)
  later :
      (d : VolumeDetail) (ds : List VolumeDetail)
      → Reported id readonly ds
      → Reported id readonly (d ∷ ds)

abbrev Verdict : ℤ → List VolumeDetail → Option VolumeDetail → Type 0
Verdict id ds none = Unlisted id ds
Verdict id ds (some d) = Reported id d.readonly ds

-- Missing upstream, or read-only there.
abbrev pub IsBad : ℤ → VolumeStatus → Type 0
IsBad id status = Unlisted id status.volume_details ⊎ Reported id true status.volume_details

abbrev pub IsGood : ℤ → VolumeStatus → Type 0
IsGood id status = Reported id false status.volume_details

module _ (sha256 : List ℕ → String) (names : Names) (status : VolumeStatus) where
  -- A record is one of those before, or is verified with success.
  abbrev Accounted : List Transaction → Transaction → Type 0
  Accounted before u = Mem u before ⊎ ((u.phase ≡ verified) × (u.success ≡ true))

  -- What the method leaves of a record.
  abbrev pub IsLeft : Controller → Transaction → Type 0
  IsLeft c u =
      (Mem u c.journal × ((is_pending_validation u.phase ≡ false) ⊎ IsBad u.volume_id status))
      ⊎ ((u.phase ≡ verified) × (u.success ≡ true))

  -- The volume of an installed candidate is among those verified, and the status lists it as
  -- writable; or among those rejected, and the status lacks it or lists it as read-only.
  abbrev pub IsDecided : List ℤ → List ℤ → Transaction → Type 0
  IsDecided done rejected t =
      (Mem t.volume_id done × IsGood t.volume_id status)
      ⊎ (Mem t.volume_id rejected × IsBad t.volume_id status)
