-- ===== src/Seaweed/Counts.antt =====
-- The counts of a parsed volume status, against each other and the lists beside them.
use s3_storage_node.Common.{
  ℕ, ◌+◌, String, ◌≡◌, refl, ◌∙◌, sym, subst, length-count_if, inl, inr, Bool, true, false, ◌&&◌,
  List, [], ◌∷◌, arith, Bool-cases, length, count_if, count_if-snoc, length-snoc, if◌then◌else◌,
  not, str_eq,
}
use s3_storage_node.Common.Int.{ℤ, leb_ℤ}
use s3_storage_node.Common.Dict.{Dict, insert, lookup}
use s3_storage_node.Common.Json.{Json, as_dict, as_bool, Builtins}
use s3_storage_node.Common.Result.{ok, or_raise, >>=-eq-ok, ok-injective}
use s3_storage_node.Seaweed.{
  no_volumes_array, invalid_entry, invalid_id, readonly_not_boolean, or_null, null_as_empty,
  collection_of, VolumeDetail, VolumeStatus, CollectionCounts, counts_of, label_of, Tally, mem_id,
  insert_id, sort_ids, insert_detail, sort_details, empty_tally, count_volume, read_volume,
  read_volumes, status_of, parse_volume_status,
}

abbrev pub is_readonly : VolumeDetail → Bool
is_readonly d = d.readonly

abbrev pub is_writable : VolumeDetail → Bool
is_writable d = not d.readonly

abbrev pub is_expected : VolumeDetail → Bool
is_expected d = d.readonly && d.expected_readonly

abbrev pub is_unexpected : VolumeDetail → Bool
is_unexpected d = d.readonly && not d.expected_readonly

-- The sum of one count over the collections.
abbrev pub sum_by : (CollectionCounts → ℕ) → Dict CollectionCounts → ℕ
sum_by f [] = 0
sum_by f ((k, c) ∷ d) = f c + sum_by f d

sum_by-insert :
    (f : CollectionCounts → ℕ) (label : String) (c : CollectionCounts) (d : Dict CollectionCounts)
    → f (record { total = 0; readonly = 0; writable = 0 }) ≡ 0
    → sum_by f (insert label c d) + f (counts_of label d) ≡ sum_by f d + f c
unfolding insert lookup
sum_by-insert f label c [] z = omega arith
sum_by-insert f label c ((k, e) ∷ d) z = elim (Bool-cases (str_eq k label)) [
  | inl same ↦ rw (same, counts_of) (omega arith)
  | inr other ↦ rw (other, counts_of) (omega (arith, sum_by-insert f label c d z))
]

-- What the counts of the loop say of the volumes that were read.
pub record Agrees (t : Tally) : Type 0 where
  pub each : t.total ≡ length t.details
  pub readonly : length t.readonly_ids ≡ count_if is_readonly t.details
  pub writable : t.writable ≡ count_if is_writable t.details
  pub unexpected : length t.unexpected_ids ≡ count_if is_unexpected t.details
  pub totals : sum_by (λ c. c.total) t.collections ≡ t.total
  pub readonlys : sum_by (λ c. c.readonly) t.collections ≡ length t.readonly_ids
  pub writables : sum_by (λ c. c.writable) t.collections ≡ t.writable

count_volume-Agrees :
    (expected : List ℤ) (id : ℤ) (collection : String) (readonly : Bool) (t : Tally)
    → Agrees t
    → Agrees (count_volume expected id collection readonly t)
unfolding count_volume
count_volume-Agrees expected id collection true t h =
    let label = label_of collection in
    let c = counts_of label t.collections in
    let c' : CollectionCounts = record c { total = c.total + 1; readonly = c.readonly + 1 } in
    let detail : VolumeDetail = record {
      id = id;
      collection = collection;
      readonly = true;
      expected_readonly = mem_id id expected;
    } in
    record {
      each = omega (arith, length-snoc t.details detail);
      readonly =
          omega (arith, length-snoc t.readonly_ids id, count_if-snoc is_readonly t.details detail);
      writable = omega (arith, count_if-snoc is_writable t.details detail);
      unexpected =
          ground
            (arith, length-snoc t.unexpected_ids id, count_if-snoc is_unexpected t.details detail);
      totals = omega (arith, sum_by-insert (λ c. c.total) label c' t.collections refl);
      readonlys = omega (
        arith,
        length-snoc t.readonly_ids id,
        sum_by-insert (λ c. c.readonly) label c' t.collections refl,
      );
      writables = omega (arith, sum_by-insert (λ c. c.writable) label c' t.collections refl);
    }
count_volume-Agrees expected id collection false t h =
    let label = label_of collection in
    let c = counts_of label t.collections in
    let c' : CollectionCounts = record c { total = c.total + 1; writable = c.writable + 1 } in
    let detail : VolumeDetail = record {
      id = id;
      collection = collection;
      readonly = false;
      expected_readonly = false;
    } in
    record {
      each = omega (arith, length-snoc t.details detail);
      readonly = omega (arith, count_if-snoc is_readonly t.details detail);
      writable = omega (arith, count_if-snoc is_writable t.details detail);
      unexpected = omega (arith, count_if-snoc is_unexpected t.details detail);
      totals = omega (arith, sum_by-insert (λ c. c.total) label c' t.collections refl);
      readonlys = omega (
        arith,
        length-snoc t.readonly_ids id,
        sum_by-insert (λ c. c.readonly) label c' t.collections refl,
      );
      writables = omega (arith, sum_by-insert (λ c. c.writable) label c' t.collections refl);
    }

read_volumes-Agrees :
    (py : Builtins) (expected : List ℤ) (vs : List Json) (t t' : Tally)
    → read_volumes py expected vs t ≡ ok t'
    → Agrees t
    → Agrees t'
unfolding read_volumes read_volume
read_volumes-Agrees py expected [] t t' e h = subst Agrees (ok-injective e) h
read_volumes-Agrees py expected (v ∷ vs) t t' e h =
    let (t₁, first, rest) = >>=-eq-ok (read_volume py expected v t) _ e in
    let (raw, _, e₁) = >>=-eq-ok (or_raise (as_dict v) invalid_entry) _ first in
    let (id_value, _, e₂) = >>=-eq-ok (or_raise (lookup "Id" raw) invalid_id) _ e₁ in
    let (id, _, e₃) = >>=-eq-ok (or_raise (py.int_of id_value) invalid_id) _ e₂ in
    let (readonly, _, e₄) =
      >>=-eq-ok (or_raise (as_bool (or_null (lookup "ReadOnly" raw))) (readonly_not_boolean id)) _
        e₃ in
    read_volumes-Agrees py expected vs t₁ t' rest (
      subst Agrees (ok-injective e₄)
        (count_volume-Agrees expected id (collection_of py raw) readonly t h))

-- Sorting the details changes none of their counts.
count_if-insert_detail :
    (p : VolumeDetail → Bool) (x : VolumeDetail) (xs : List VolumeDetail)
    → count_if p (insert_detail x xs) ≡ (if p x then 1 else 0) + count_if p xs
unfolding insert_detail
count_if-insert_detail p x [] = refl
count_if-insert_detail p x (y ∷ ys) = elim (Bool-cases (leb_ℤ x.id y.id)) [
  | inl first ↦ rw first
  | inr later ↦ rw later (omega (arith, count_if-insert_detail p x ys))
]

count_if-sort_details :
    (p : VolumeDetail → Bool) (xs : List VolumeDetail)
    → count_if p (sort_details xs) ≡ count_if p xs
unfolding sort_details
count_if-sort_details p [] = refl
count_if-sort_details p (x ∷ xs) =
    omega (arith, count_if-insert_detail p x (sort_details xs), count_if-sort_details p xs)

length-sort_details : (xs : List VolumeDetail) → length (sort_details xs) ≡ count_if (λ _. true) xs
length-sort_details xs = length-count_if (sort_details xs) ∙ count_if-sort_details (λ _. true) xs

length-insert_id : (x : ℤ) (xs : List ℤ) → length (insert_id x xs) ≡ length xs + 1
unfolding insert_id
length-insert_id x [] = omega arith
length-insert_id x (y ∷ ys) = ground (arith, length-insert_id x ys)

length-sort_ids : (xs : List ℤ) → length (sort_ids xs) ≡ length xs
unfolding sort_ids
length-sort_ids [] = refl
length-sort_ids (x ∷ xs) = omega (arith, length-insert_id x (sort_ids xs), length-sort_ids xs)

-- The counts of a status, read off its list of volumes.
pub record Consistent (st : VolumeStatus) : Type 0 where
  pub total : st.total ≡ length st.volume_details
  pub readonly : st.readonly ≡ count_if is_readonly st.volume_details
  pub writable : st.writable ≡ count_if is_writable st.volume_details
  pub unexpected : st.unexpected_readonly ≡ count_if is_unexpected st.volume_details
  pub expected : st.expected_readonly ≡ count_if is_expected st.volume_details
  pub listed : length st.unexpected_readonly_volume_ids ≡ st.unexpected_readonly
  pub collections_total : sum_by (λ c. c.total) st.collections ≡ st.total
  pub collections_readonly : sum_by (λ c. c.readonly) st.collections ≡ st.readonly
  pub collections_writable : sum_by (λ c. c.writable) st.collections ≡ st.writable

-- A read-only volume is either expected to be so or not.
count_if-is_expected :
    (xs : List VolumeDetail)
    → count_if is_expected xs + count_if is_unexpected xs ≡ count_if is_readonly xs
count_if-is_expected [] = refl
count_if-is_expected (x ∷ xs) = ground (arith, count_if-is_expected xs)

status_of-Consistent : (t : Tally) → Agrees t → Consistent (status_of t)
unfolding status_of
status_of-Consistent t h = record {
  total = h.each ∙ length-count_if t.details ∙ sym (length-sort_details t.details);
  readonly = h.readonly ∙ sym (count_if-sort_details is_readonly t.details);
  writable = h.writable ∙ sym (count_if-sort_details is_writable t.details);
  unexpected = h.unexpected ∙ sym (count_if-sort_details is_unexpected t.details);
  expected = omega (
    arith,
    h.readonly,
    h.unexpected,
    count_if-is_expected t.details,
    count_if-sort_details is_expected t.details,
  );
  listed = length-sort_ids t.unexpected_ids;
  collections_total = h.totals;
  collections_readonly = h.readonlys;
  collections_writable = h.writables;
}

-- In a parsed status every count is the number of listed volumes of its kind, the list of
-- unexpected ids has the length that is counted, and the counts of the collections add up.
pub parse_volume_status-Consistent :
    (py : Builtins) (payload : Json) (expected : List ℤ) (st : VolumeStatus)
    → parse_volume_status py payload expected ≡ ok st
    → Consistent st
unfolding parse_volume_status
parse_volume_status-Consistent py payload expected st e =
    let (document, _, e₁) = >>=-eq-ok (or_raise (as_dict payload) no_volumes_array) _ e in
    let (value, _, e₂) = >>=-eq-ok (or_raise (lookup "Volumes" document) no_volumes_array) _ e₁ in
    let (raw, _, e₃) = >>=-eq-ok (or_raise (null_as_empty value) no_volumes_array) _ e₂ in
    let (t, volumes, e₄) = >>=-eq-ok (read_volumes py expected raw empty_tally) _ e₃ in
    subst Consistent (ok-injective e₄) (
      status_of-Consistent t
        (read_volumes-Agrees py expected raw empty_tally t volumes (ground arith)))
