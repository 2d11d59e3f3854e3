-- ===== src/Sentinel/Laws.antt =====
-- The identity that a validated sentinel yields, and the payload that is written.
use s3_storage_node.Common.{
  String, ◌≡◌, ◌≢◌, ◌⊎◌, inl, inr, true, false, some, arith, eq_iff, str_eq, str_eq_refl,
  Bool-cases, not,
}
use s3_storage_node.Common.Int.{pos, eq_ℤ}
use s3_storage_node.Common.Dict.{Dict, lookup}
use s3_storage_node.Common.Json.{Json, str, as_str, object, entries-fields_of}
use s3_storage_node.Common.Result.{ok, ◌>>=◌, ◌>>◌, raise_if, or_raise, >>=-eq-ok}
use s3_storage_node.Sentinel.{
  version_not_integer, unsupported_version, legacy_target_not_string, legacy_mismatch,
  subdirectory_not_string, not_transport_independent, unexpected_schema, sentinel_schema,
  checked_text, version_of, legacy_target, is_true, v1_of, get, SentinelIdentity, SentinelTarget,
  current_sentinel_version, sentinel_v2_payload, required_string, validate_v1, validate_v2,
  check_v2, validate_sentinel_payload,
}

-- The document that is written for a target is accepted as version 2 and names the same
-- dataset, target and subdirectory, provided the target has a name and a sentinel id.
pub validate-sentinel_v2_payload :
    (target : SentinelTarget)
    → target.name ≢ ""
    → target.sentinel_id ≢ ""
    → validate_sentinel_payload target (object (sentinel_v2_payload target))
      ≡ ok (record {
        version = pos 2;
        schema = "s3-storage-node/dataset-sentinel";
        dataset_id = target.sentinel_id;
        target = target.name;
        subdirectory = target.subdirectory;
        legacy = false;
      })
unfolding validate_sentinel_payload sentinel_v2_payload lookup
validate-sentinel_v2_payload target n i = ground (
  arith,
  eq_iff target.name "",
  eq_iff target.sentinel_id "",
  str_eq_refl target.name,
  str_eq_refl target.sentinel_id,
  str_eq_refl target.subdirectory,
)

checked_text-eq_ok :
    (field : String) (v : Json) (s : String) → checked_text field v ≡ ok s → v ≡ str s
unfolding checked_text
checked_text-eq_ok field v s e = ground arith

get-eq_str :
    (field : String) (payload : Dict Json) (s : String)
    → get field payload ≡ str s
    → lookup field payload ≡ some (str s)
get-eq_str field payload s e = ground arith

required_string-eq_ok :
    (payload : Dict Json) (field s : String)
    → required_string payload field ≡ ok s
    → lookup field payload ≡ some (str s)
unfolding required_string
required_string-eq_ok payload field s e =
    get-eq_str field payload s (checked_text-eq_ok field (get field payload) s e)

-- What an accepted identity proves, by its version.
abbrev pub Proves : SentinelTarget → Dict Json → SentinelIdentity → Type 0
Proves target payload id =
    (lookup "sentinel_id" payload ≡ some (str target.sentinel_id))
    × (id.dataset_id ≡ target.sentinel_id)
    × (id.subdirectory ≡ target.subdirectory)
    × (((id.version ≡ pos 1) × (id.legacy ≡ true))
        ⊎ ((id.version ≡ pos 2) × (id.legacy ≡ false) × (id.target ≡ target.name)))

check_v2-Proves :
    (target : SentinelTarget) (payload : Dict Json) (schema s d n u : String)
    (id : SentinelIdentity)
    → lookup "sentinel_id" payload ≡ some (str s)
    → check_v2 target schema s d n u ≡ ok id
    → Proves target payload id
unfolding check_v2
check_v2-Proves target payload schema s d n u id l e = ground (
  arith,
  eq_iff s target.sentinel_id,
  eq_iff d target.sentinel_id,
  eq_iff s d,
  eq_iff n target.name,
  eq_iff u target.subdirectory,
)

validate_v2-Proves :
    (target : SentinelTarget) (payload : Dict Json) (id : SentinelIdentity)
    → validate_v2 target payload ≡ ok id
    → Proves target payload id
unfolding validate_v2
validate_v2-Proves target payload id e =
    let (schema, _, e₁) = >>=-eq-ok (required_string payload "schema") _ e in
    let (_, _, e₂) =
      >>=-eq-ok (raise_if (not (str_eq schema sentinel_schema)) (unexpected_schema schema)) _ e₁ in
    let (s, found, e₃) = >>=-eq-ok (required_string payload "sentinel_id") _ e₂ in
    let (d, _, e₄) = >>=-eq-ok (required_string payload "dataset_id") _ e₃ in
    let (n, _, e₅) = >>=-eq-ok (required_string payload "target") _ e₄ in
    let (u, _, e₆) =
      >>=-eq-ok (or_raise (as_str (get "subdirectory" payload)) subdirectory_not_string) _ e₅ in
    let (_, _, e₇) =
      >>=-eq-ok
        (raise_if (not (is_true (get "transport_independent" payload))) not_transport_independent) _
        e₆ in
    check_v2-Proves target payload schema s d n u id
      (required_string-eq_ok payload "sentinel_id" s found) e₇

v1_identity :
    (target : SentinelTarget) (payload : Dict Json) (s : String) (id : SentinelIdentity)
    → lookup "sentinel_id" payload ≡ some (str s)
    → (raise_if (not (str_eq s target.sentinel_id)) (legacy_mismatch s)
        >> (or_raise (legacy_target payload) legacy_target_not_string >>= v1_of target s))
      ≡ ok id
    → Proves target payload id
v1_identity target payload s id l e = ground (arith, eq_iff s target.sentinel_id)

validate_v1-Proves :
    (target : SentinelTarget) (payload : Dict Json) (id : SentinelIdentity)
    → validate_v1 target payload ≡ ok id
    → Proves target payload id
unfolding validate_v1
validate_v1-Proves target payload id e =
    let (s, found, e₁) = >>=-eq-ok (required_string payload "sentinel_id") _ e in
    v1_identity target payload s id (required_string-eq_ok payload "sentinel_id" s found) e₁

-- A document that is accepted carries the target's own sentinel id; the identity returned names
-- that dataset and the target's subdirectory, and it is a legacy one of version 1, or one of
-- version 2 that names the target itself.
pub validate_sentinel_payload-Proves :
    (target : SentinelTarget) (payload : Dict Json) (id : SentinelIdentity)
    → validate_sentinel_payload target (object payload) ≡ ok id
    → Proves target payload id
unfolding validate_sentinel_payload
validate_sentinel_payload-Proves target payload id e =
    let (version, _, e₁) =
      >>=-eq-ok (or_raise (version_of payload) version_not_integer) _ (rw entries-fields_of at e) in
    elim (Bool-cases (eq_ℤ version (pos 1))) [
      | inl old ↦ validate_v1-Proves target payload id (rw old at e₁)
      | inr new ↦
          let (_, _, e₂) =
            >>=-eq-ok
              (raise_if (not (eq_ℤ version current_sentinel_version)) (unsupported_version version))
              _ (rw new at e₁) in
          validate_v2-Proves target payload id e₂
    ]
