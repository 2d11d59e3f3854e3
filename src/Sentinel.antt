-- ===== src/Sentinel.antt =====
-- `sentinel.py`: the identity document of one logical dataset, and its validation.
pub mod Laws
mod Tests
use s3_storage_node.Common.{
  ℕ, String, Bool, true, false, not, ◌&&◌, ◌||◌, List, [], ◌∷◌, Option, none, some, str_eq,
  if◌then◌else◌,
}
use s3_storage_node.Common.Int.{ℤ, pos, eq_ℤ}
use s3_storage_node.Common.Dict.{Dict, lookup}
use s3_storage_node.Common.Json.{Json, null, bool, int, str, object, as_dict, as_str}
use s3_storage_node.Common.Result.{Result, ok, err, ◌>>=◌, ◌>>◌, raise_if, or_raise}

abbrev pub sentinel_schema : String
sentinel_schema = "s3-storage-node/dataset-sentinel"

abbrev pub current_sentinel_version : ℤ
current_sentinel_version = pos 2

-- Each place that raises `SentinelError`, with the values its message shows.
pub data SentinelError : Type 0 where
  not_an_object version_not_integer legacy_target_not_string : SentinelError
  subdirectory_not_string not_transport_independent ids_differ : SentinelError
  not_a_string : String → SentinelError
  unsupported_version : ℤ → SentinelError
  unexpected_schema legacy_mismatch dataset_mismatch : String → SentinelError
  target_mismatch subdirectory_mismatch : String → SentinelError

pub record SentinelIdentity : Type 0 where
  pub version : ℤ
  pub schema : String
  pub dataset_id : String
  pub target : String
  pub subdirectory : String
  pub legacy : Bool

-- The fields of `TargetConfig` that the sentinel names.
pub record SentinelTarget : Type 0 where
  pub name : String
  pub sentinel_id : String
  pub subdirectory : String

-- `sentinel_v2_payload`
unfoldable pub sentinel_v2_payload : SentinelTarget → Dict Json
sentinel_v2_payload target =
    ("schema", str sentinel_schema)
    ∷ ("version", int current_sentinel_version)
    ∷ ("sentinel_id", str target.sentinel_id)
    ∷ ("dataset_id", str target.sentinel_id)
    ∷ ("target", str target.name)
    ∷ ("subdirectory", str target.subdirectory)
    ∷ ("transport_independent", bool true)
    ∷ []

-- `payload.get(field)`, where a missing field reads as null.
abbrev pub get : String → Dict Json → Json
get field payload = elim (lookup field payload) [ none ↦ null | some v ↦ v ]

-- `_string`: a text that is not empty.
pub checked_text : String → Json → Result SentinelError String
checked_text field v = elim (as_str v) [
  | none ↦ err (not_a_string field)
  | some s ↦ if str_eq s "" then err (not_a_string field) else ok s
]

unfoldable pub required_string : Dict Json → String → Result SentinelError String
unfolding checked_text
required_string payload field = checked_text field (get field payload)

-- `payload.get("version", 1)`, which must be an `int` and no `bool`.
abbrev pub version_of : Dict Json → Option ℤ
version_of payload = elim (lookup "version" payload) [
  | none ↦ some (pos 1)
  | some v ↦ elim v [ int z ↦ some z | _ ↦ none ]
]

-- The target that a version 1 document names; null and "" stand for none.
abbrev pub legacy_target : Dict Json → Option String
legacy_target payload = elim (lookup "target" payload) [
  | none ↦ some ""
  | some v ↦ elim v [ null ↦ some "" | str s ↦ some s | _ ↦ none ]
]

abbrev pub is_true : Json → Bool
is_true v = elim v [ bool b ↦ b | _ ↦ false ]

abbrev pub v1_of : SentinelTarget → String → String → Result SentinelError SentinelIdentity
v1_of target sentinel_id named = ok (record {
  version = pos 1;
  schema = "legacy-v1";
  dataset_id = sentinel_id;
  target = if str_eq named "" then target.name else named;
  subdirectory = target.subdirectory;
  legacy = true;
})

-- The branch of version 1.
unfoldable pub validate_v1 : SentinelTarget → Dict Json → Result SentinelError SentinelIdentity
unfolding required_string
validate_v1 target payload = do
  sentinel_id ← required_string payload "sentinel_id"
  raise_if (not (str_eq sentinel_id target.sentinel_id)) (legacy_mismatch sentinel_id)
  named ← or_raise (legacy_target payload) legacy_target_not_string
  v1_of target sentinel_id named

-- The checks of the values of version 2.
unfoldable pub check_v2 :
    SentinelTarget
    → String
    → String
    → String
    → String
    → String
    → Result SentinelError SentinelIdentity
check_v2 target schema sentinel_id dataset_id target_name subdirectory = do
  raise_if
      (not (str_eq sentinel_id target.sentinel_id) || not (str_eq dataset_id target.sentinel_id))
      (dataset_mismatch
        (if not (str_eq dataset_id target.sentinel_id) then dataset_id else sentinel_id))
  raise_if (not (str_eq sentinel_id dataset_id)) ids_differ
  raise_if (not (str_eq target_name target.name)) (target_mismatch target_name)
  raise_if (not (str_eq subdirectory target.subdirectory)) (subdirectory_mismatch subdirectory)
  ok (record {
    version = current_sentinel_version;
    schema = schema;
    dataset_id = dataset_id;
    target = target_name;
    subdirectory = subdirectory;
    legacy = false;
  })

unfoldable pub validate_v2 : SentinelTarget → Dict Json → Result SentinelError SentinelIdentity
unfolding required_string check_v2
validate_v2 target payload = do
  schema ← required_string payload "schema"
  raise_if (not (str_eq schema sentinel_schema)) (unexpected_schema schema)
  sentinel_id ← required_string payload "sentinel_id"
  dataset_id ← required_string payload "dataset_id"
  target_name ← required_string payload "target"
  subdirectory ← or_raise (as_str (get "subdirectory" payload)) subdirectory_not_string
  raise_if (not (is_true (get "transport_independent" payload))) not_transport_independent
  check_v2 target schema sentinel_id dataset_id target_name subdirectory

-- `validate_sentinel_payload`
unfoldable pub validate_sentinel_payload :
    SentinelTarget → Json → Result SentinelError SentinelIdentity
unfolding validate_v1 validate_v2
validate_sentinel_payload target document = do
  payload ← or_raise (as_dict document) not_an_object
  version ← or_raise (version_of payload) version_not_integer
  if eq_ℤ version (pos 1)
      then validate_v1 target payload
      else (raise_if (not (eq_ℤ version current_sentinel_version)) (unsupported_version version)
          >> validate_v2 target payload)
