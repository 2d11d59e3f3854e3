-- ===== src/Seaweed/Tests.antt =====
-- A status of two volumes.
use s3_storage_node.Common.{ℕ, ◌≡◌, refl, ◌↔◌, Bool, true, false, [], ◌∷◌, any}
use s3_storage_node.Common.Int.{pos}
use s3_storage_node.Common.Dict.{lookup}
use s3_storage_node.Common.Json.{Json, bool, int, str, object, array, plain}
use s3_storage_node.Common.Result.{Result, ok, err}
use s3_storage_node.Seaweed.{VolumeStatus, HealthError, all_volumes_readonly, parse_volume_status}
use s3_storage_node.Seaweed.Counts.{Consistent, is_unexpected, parse_volume_status-Consistent}
use s3_storage_node.Seaweed.Readonly.{AllReadonly, all_volumes_readonly_iff}

abbrev volume : ℕ → Bool → Json
volume id readonly =
    object (("Id", int (pos id)) ∷ ("ReadOnly", bool readonly) ∷ ("Collection", str "photos") ∷ [])

abbrev payload : Json
payload = object (("Volumes", array (volume 2 true ∷ volume 1 true ∷ [])) ∷ [])

abbrev status_or : Result HealthError VolumeStatus → VolumeStatus
status_or (ok st) = st
status_or (err e) = record {
  checked = false;
  total = 0;
  readonly = 0;
  writable = 0;
  expected_readonly = 0;
  unexpected_readonly = 0;
  readonly_volume_ids = [];
  unexpected_readonly_volume_ids = [];
  volume_details = [];
  collections = [];
}

abbrev st : VolumeStatus
unfolding parse_volume_status
st = status_or (parse_volume_status plain payload (pos 1 ∷ []))

parse_volume_status-Consistent_example : Consistent st
unfolding parse_volume_status lookup
parse_volume_status-Consistent_example =
    parse_volume_status-Consistent plain payload (pos 1 ∷ []) st refl

all_volumes_readonly_iff_example :
    (all_volumes_readonly st ≡ true)
    ↔ (AllReadonly st.volume_details × (any is_unexpected st.volume_details ≡ true))
unfolding parse_volume_status lookup
all_volumes_readonly_iff_example = all_volumes_readonly_iff plain payload (pos 1 ∷ []) st refl
