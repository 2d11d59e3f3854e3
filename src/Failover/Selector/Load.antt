-- ===== src/Failover/Selector/Load.antt =====
-- Reading back what an operation of `TransportSelector` wrote.
use s3_storage_node.Common.{ℕ, String, ◌≡◌, refl, List, [], ◌∷◌, some, map}
use s3_storage_node.Common.Dict.{lookup}
use s3_storage_node.Common.Json.{str, float, entries-fields_of, elements-items_of}
use s3_storage_node.Common.Result.{ok}
use s3_storage_node.Failover.State.{TransportState, strings_of, load, save}

strings_of-map : (names : List String) → strings_of (map str names) ≡ some names
strings_of-map [] = refl
strings_of-map (n ∷ ns) = rw (strings_of-map ns)

-- A state that an operation saved is read back as it was, with the time of writing.
pub load-save :
    (now : ℕ) (s : TransportState) → load (save now s) ≡ ok (record s { updated_at = float now })
unfolding load save lookup
load-save now s = simp (entries-fields_of, elements-items_of, strings_of-map)
