-- ===== src/Seaweed.antt =====
-- `seaweed_health.py`: the reading of SeaweedFS's volume status document.
pub mod Counts
pub mod Readonly
mod Tests
use s3_storage_node.Common.{
  ℕ, ◌+◌, ◌-◌, String, Bool, true, false, not, ◌&&◌, List, [], ◌∷◌, ◌++◌, Option, none, some, ltb,
  ◌==◌, if◌then◌else◌, str_eq, any, length,
}
use s3_storage_node.Common.Int.{ℤ, pos, eq_ℤ, leb_ℤ}
use s3_storage_node.Common.Dict.{Dict, lookup, insert}
use s3_storage_node.Common.Json.{
  Json, null, bool, int, float, str, arr, obj, nil, end, as_dict, as_list, as_bool, Builtins,
}
use s3_storage_node.Common.Result.{Result, ok, err, ◌>>=◌, or_raise}

pub data HealthError : Type 0 where
  no_volumes_array invalid_entry invalid_id : HealthError
  readonly_not_boolean : ℤ → HealthError

pub record VolumeDetail : Type 0 where
  pub id : ℤ
  pub collection : String
  pub readonly : Bool
  pub expected_readonly : Bool

pub record CollectionCounts : Type 0 where
  pub total : ℕ
  pub readonly : ℕ
  pub writable : ℕ

pub record VolumeStatus : Type 0 where
  pub checked : Bool
  pub total : ℕ
  pub readonly : ℕ
  pub writable : ℕ
  pub expected_readonly : ℕ
  pub unexpected_readonly : ℕ
  pub readonly_volume_ids : List ℤ
  pub unexpected_readonly_volume_ids : List ℤ
  pub volume_details : List VolumeDetail
  pub collections : Dict CollectionCounts

-- `all_volumes_readonly`, on a status that `parse_volume_status` built, whose counts are numbers.
unfoldable pub all_volumes_readonly : VolumeStatus → Bool
all_volumes_readonly status =
    ltb 0 status.total
    && status.readonly == status.total
    && status.writable == 0
    && ltb 0 status.unexpected_readonly

-- Python's truth of a value.
abbrev pub truthy : Json → Bool
truthy null = false
truthy (bool b) = b
truthy (int z) = not (eq_ℤ z (pos 0))
truthy (float t) = ltb 0 t
truthy (str s) = not (str_eq s "")
truthy (arr xs) = elim xs [ nil ↦ false | _ ↦ true ]
truthy (obj fs) = elim fs [ end ↦ false | _ ↦ true ]

abbrev pub mem_id : ℤ → List ℤ → Bool
mem_id z ids = any (λ x. eq_ℤ x z) ids

-- `sort()` of the ids, and of the details by their id, both stable.
unfoldable pub insert_id : ℤ → List ℤ → List ℤ
insert_id x [] = x ∷ []
insert_id x (y ∷ ys) = if leb_ℤ x y then x ∷ y ∷ ys else y ∷ insert_id x ys

unfoldable pub sort_ids : List ℤ → List ℤ
unfolding insert_id
sort_ids [] = []
sort_ids (x ∷ xs) = insert_id x (sort_ids xs)

unfoldable pub insert_detail : VolumeDetail → List VolumeDetail → List VolumeDetail
insert_detail x [] = x ∷ []
insert_detail x (y ∷ ys) = if leb_ℤ x.id y.id then x ∷ y ∷ ys else y ∷ insert_detail x ys

unfoldable pub sort_details : List VolumeDetail → List VolumeDetail
unfolding insert_detail
sort_details [] = []
sort_details (x ∷ xs) = insert_detail x (sort_details xs)

-- What the loop has gathered; the lists grow at the end.
pub record Tally : Type 0 where
  pub total : ℕ
  pub writable : ℕ
  pub readonly_ids : List ℤ
  pub unexpected_ids : List ℤ
  pub details : List VolumeDetail
  pub collections : Dict CollectionCounts

abbrev pub empty_tally : Tally
empty_tally = record {
  total = 0;
  writable = 0;
  readonly_ids = [];
  unexpected_ids = [];
  details = [];
  collections = [];
}

-- `collections.setdefault(label, …)`
abbrev pub counts_of : String → Dict CollectionCounts → CollectionCounts
counts_of label d = elim (lookup label d) [
  | none ↦ record { total = 0; readonly = 0; writable = 0 }
  | some c ↦ c
]

abbrev pub label_of : String → String
label_of collection = if str_eq collection "" then "<default>" else collection

-- The counting of one volume.
unfoldable pub count_volume : List ℤ → ℤ → String → Bool → Tally → Tally
count_volume expected volume_id collection readonly t =
    let label = label_of collection in
    let c = counts_of label t.collections in
    let detail : VolumeDetail = record {
      id = volume_id;
      collection = collection;
      readonly = readonly;
      expected_readonly = readonly && mem_id volume_id expected;
    } in
    if readonly
    then record {
      total = t.total + 1;
      writable = t.writable;
      readonly_ids = t.readonly_ids ++ volume_id ∷ [];
      unexpected_ids =
          if mem_id volume_id expected
          then t.unexpected_ids
          else t.unexpected_ids ++ volume_id ∷ [];
      details = t.details ++ detail ∷ [];
      collections =
          insert label (record c { total = c.total + 1; readonly = c.readonly + 1 }) t.collections;
    }
    else record {
      total = t.total + 1;
      writable = t.writable + 1;
      readonly_ids = t.readonly_ids;
      unexpected_ids = t.unexpected_ids;
      details = t.details ++ detail ∷ [];
      collections =
          insert label (record c { total = c.total + 1; writable = c.writable + 1 }) t.collections;
    }

-- `str(raw.get("Collection") or "")`
abbrev pub collection_of : Builtins → Dict Json → String
collection_of py raw = elim (lookup "Collection" raw) [
  | none ↦ ""
  | some v ↦ if truthy v then py.str_of v else ""
]

abbrev pub or_null : Option Json → Json
or_null none = null
or_null (some v) = v

module _ (py : Builtins) (expected : List ℤ) where
  -- One round of the loop over `raw_volumes`.
  pub read_volume : Json → Tally → Result HealthError Tally
  unfolding count_volume
  read_volume entry t = do
    raw ← or_raise (as_dict entry) invalid_entry
    id_value ← or_raise (lookup "Id" raw) invalid_id
    volume_id ← or_raise (py.int_of id_value) invalid_id
    readonly ← or_raise (as_bool (or_null (lookup "ReadOnly" raw))) (readonly_not_boolean volume_id)
    ok (count_volume expected volume_id (collection_of py raw) readonly t)

  pub read_volumes : List Json → Tally → Result HealthError Tally
  read_volumes [] t = ok t
  read_volumes (v ∷ vs) t = read_volume v t >>= read_volumes vs

-- The document that is built from the counts.
unfoldable pub status_of : Tally → VolumeStatus
status_of t = record {
  checked = true;
  total = t.total;
  readonly = length t.readonly_ids;
  writable = t.writable;
  expected_readonly = length t.readonly_ids - length t.unexpected_ids;
  unexpected_readonly = length t.unexpected_ids;
  readonly_volume_ids = sort_ids t.readonly_ids;
  unexpected_readonly_volume_ids = sort_ids t.unexpected_ids;
  volume_details = sort_details t.details;
  collections = t.collections;
}

abbrev pub null_as_empty : Json → Option (List Json)
null_as_empty null = some []
null_as_empty v = as_list v

unfoldable pub parse_volume_status : Builtins → Json → List ℤ → Result HealthError VolumeStatus
unfolding read_volumes read_volume status_of
parse_volume_status py payload expected = do
  document ← or_raise (as_dict payload) no_volumes_array
  value ← or_raise (lookup "Volumes" document) no_volumes_array
  raw_volumes ← or_raise (null_as_empty value) no_volumes_array
  t ← read_volumes py expected raw_volumes empty_tally
  ok (status_of t)
