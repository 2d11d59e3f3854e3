-- ===== src/Seaweed/Readonly.antt =====
-- When the status of every volume is read-only: the state that blocks a broad index repair.
use s3_storage_node.Common.{
  ◌≤◌, ◌<◌, ◌≡◌, refl, ◌↔◌, Bool, true, List, [], ◌∷◌, arith, length, count_if, any, All,
}
use s3_storage_node.Common.Int.{ℤ}
use s3_storage_node.Common.Json.{Json, Builtins}
use s3_storage_node.Common.Result.{ok}
use s3_storage_node.Seaweed.{VolumeDetail, VolumeStatus, parse_volume_status, all_volumes_readonly}
use s3_storage_node.Seaweed.Counts.{
  is_readonly, is_writable, is_unexpected, parse_volume_status-Consistent,
}

abbrev pub AllReadonly : List VolumeDetail → Type 0
AllReadonly = All (λ d. d.readonly ≡ true)

writable_none→AllReadonly : (ds : List VolumeDetail) → count_if is_writable ds ≡ 0 → AllReadonly ds
writable_none→AllReadonly [] e = tt
writable_none→AllReadonly (d ∷ ds) e = ground (arith, writable_none→AllReadonly ds)

AllReadonly→counts :
    (ds : List VolumeDetail)
    → AllReadonly ds
    → (count_if is_writable ds ≡ 0) × (count_if is_readonly ds ≡ length ds)
AllReadonly→counts [] h = (refl, refl)
AllReadonly→counts (d ∷ ds) h = ground (arith, AllReadonly→counts ds h.1)

any→count_pos :
    (p : VolumeDetail → Bool) (ds : List VolumeDetail) → any p ds ≡ true → 0 < count_if p ds
any→count_pos p [] e = ground arith
any→count_pos p (d ∷ ds) e = ground (arith, any→count_pos p ds)

count_pos→any :
    (p : VolumeDetail → Bool) (ds : List VolumeDetail) → 0 < count_if p ds → any p ds ≡ true
count_pos→any p [] e = ground arith
count_pos→any p (d ∷ ds) e = ground (arith, count_pos→any p ds)

unexpected_le_length : (ds : List VolumeDetail) → count_if is_unexpected ds ≤ length ds
unexpected_le_length [] = omega arith
unexpected_le_length (d ∷ ds) = ground (arith, unexpected_le_length ds)

-- A parsed status counts as globally read-only exactly when every listed volume is read-only
-- and one of them is not an expected one.
pub all_volumes_readonly_iff :
    (py : Builtins) (payload : Json) (expected : List ℤ) (st : VolumeStatus)
    → parse_volume_status py payload expected ≡ ok st
    → (all_volumes_readonly st ≡ true)
      ↔ (AllReadonly st.volume_details × (any is_unexpected st.volume_details ≡ true))
unfolding all_volumes_readonly
all_volumes_readonly_iff py payload expected st e =
    let c = parse_volume_status-Consistent py payload expected st e in
    let ds = st.volume_details in
    (
      λ h. (
        writable_none→AllReadonly ds (ground (arith, h, c.writable)),
        count_pos→any is_unexpected ds (ground (arith, h, c.unexpected)),
      ),
      λ (h, u). ground (
        arith,
        c.total,
        c.readonly,
        c.writable,
        c.unexpected,
        AllReadonly→counts ds h,
        any→count_pos is_unexpected ds u,
        unexpected_le_length ds,
      ),
    )
