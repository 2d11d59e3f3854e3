-- ===== src/Failover/State.antt =====
-- The persistent state of `TransportSelector`, and the document that holds it.
use s3_storage_node.Common.{ℕ, zero, suc, String, List, [], ◌∷◌, Option, none, some, map}
use s3_storage_node.Common.Dict.{Dict, lookup}
use s3_storage_node.Common.Json.{Json, str, float, object, array, as_dict, as_list, as_str}
use s3_storage_node.Common.Result.{Result, ok, err, ◌>>=◌, or_raise}

-- Each place that raises, with the values its message shows.
pub data SelectError : Type 0 where
  unreadable not_an_object bad_quarantine bad_time all_quarantined : SelectError
  is_quarantined not_configured unknown : String → SelectError
  cooling_down : String → ℕ → SelectError

-- The state file: absent, not decodable, or a decoded document.
pub data Document : Type 0 where
  missing corrupt : Document
  decoded : Json → Document

pub record TransportState : Type 0 where
  pub active : Json
  pub requested : Json
  pub failed : Dict Json
  pub quarantined : Dict Json
  pub last_success_at : Json
  pub verification_fingerprint : Json
  pub verified_at : Json
  pub verified_transports : List String
  pub updated_at : Json

-- `d.get(k, default)`
abbrev pub get : String → Json → Dict Json → Json
get k default d = elim (lookup k d) [ none ↦ default | some v ↦ v ]

-- The items of a list of strings.
abbrev pub strings_of : List Json → Option (List String)
strings_of [] = some []
strings_of (x ∷ xs) = elim (as_str x) [
  | none ↦ none
  | some s ↦ elim (strings_of xs) [ none ↦ none | some ss ↦ some (s ∷ ss) ]
]

abbrev or_empty {ℓ} : {A : Type ℓ} → Option (List A) → List A
or_empty none = []
or_empty (some xs) = xs

abbrev pub strings_or_empty : Json → List String
strings_or_empty v = elim (as_list v) [ none ↦ [] | some xs ↦ or_empty (strings_of xs) ]

-- The decoded payload: an absent file reads as an empty object.
pub read_payload : Document → Result SelectError (Dict Json)
read_payload missing = ok []
read_payload corrupt = err unreadable
read_payload (decoded v) = or_raise (as_dict v) not_an_object

pub state_of : Dict Json → Result SelectError TransportState
state_of payload =
    or_raise (as_dict (get "quarantined" (object []) payload)) bad_quarantine >>= λ quarantined.
    ok (record {
      active = get "active" (str "") payload;
      requested = get "requested" (str "") payload;
      failed = or_empty (as_dict (get "failed" (object []) payload));
      quarantined = quarantined;
      last_success_at = get "last_success_at" (float 0) payload;
      verification_fingerprint = get "startup_verification_fingerprint" (str "") payload;
      verified_at = get "startup_verified_at" (float 0) payload;
      verified_transports = strings_or_empty (get "startup_verified_transports" (array []) payload);
      updated_at = get "updated_at" (float 0) payload;
    })

-- `_load`
unfoldable pub load : Document → Result SelectError TransportState
unfolding read_payload state_of
load document = read_payload document >>= state_of

-- What `_save` writes of the state, before the time stamp.
pub payload_of : TransportState → Dict Json
payload_of s =
    ("active", s.active)
    ∷ ("requested", s.requested)
    ∷ ("failed", object s.failed)
    ∷ ("quarantined", object s.quarantined)
    ∷ ("last_success_at", s.last_success_at)
    ∷ ("startup_verification_fingerprint", s.verification_fingerprint)
    ∷ ("startup_verified_at", s.verified_at)
    ∷ ("startup_verified_transports", array (map str s.verified_transports))
    ∷ ("updated_at", s.updated_at)
    ∷ []

-- `_save`: the file holds the state with the time of writing.
unfoldable pub save : ℕ → TransportState → Document
unfolding payload_of
save now s = decoded (object (payload_of (record s { updated_at = float now })))

-- `reason[:n]`
abbrev pub truncate : ℕ → String → String
truncate zero s = ""
truncate (suc n) String.[] = ""
truncate (suc n) (String.◌∷◌ c s) = String.◌∷◌ c (truncate n s)
