-- ===== src/Sentinel/Tests.antt =====
-- A sentinel that is written and one of the first version.
use s3_storage_node.Common.{String, ◌≡◌, refl, sym, ◌∙◌, ◌≢◌, false, str_eq, eq_iff, false≢true}
use s3_storage_node.Common.Int.{pos}
use s3_storage_node.Common.Dict.{lookup}
use s3_storage_node.Common.Json.{object}
use s3_storage_node.Common.Result.{ok}
use s3_storage_node.Sentinel.{
  SentinelTarget, SentinelIdentity, sentinel_v2_payload, validate_sentinel_payload,
}
use s3_storage_node.Sentinel.Laws.{
  Proves, validate-sentinel_v2_payload, validate_sentinel_payload-Proves,
}

text_differs : (a b : String) → str_eq a b ≡ false → a ≢ b
text_differs a b h e = false≢true (sym h ∙ (eq_iff a b).1 e)

abbrev target : SentinelTarget
target = record { name = "data"; sentinel_id = "id-1"; subdirectory = "blobs" }

validate-sentinel_v2_payload_example :
    validate_sentinel_payload target (object (sentinel_v2_payload target))
    ≡ ok (record {
      version = pos 2;
      schema = "s3-storage-node/dataset-sentinel";
      dataset_id = "id-1";
      target = "data";
      subdirectory = "blobs";
      legacy = false;
    })
validate-sentinel_v2_payload_example =
    validate-sentinel_v2_payload target (text_differs "data" "" refl) (text_differs "id-1" "" refl)

abbrev identity : SentinelIdentity
identity = record {
  version = pos 2;
  schema = "s3-storage-node/dataset-sentinel";
  dataset_id = "id-1";
  target = "data";
  subdirectory = "blobs";
  legacy = false;
}

validate_sentinel_payload-Proves_example : Proves target (sentinel_v2_payload target) identity
unfolding validate_sentinel_payload sentinel_v2_payload lookup
validate_sentinel_payload-Proves_example =
    validate_sentinel_payload-Proves target (sentinel_v2_payload target) identity refl
