-- ===== src/Config/Targets.antt =====
-- The targets that a configuration uses.
use s3_storage_node.Common.{
  String, ◌≡◌, ◌∙◌, inl, inr, ◌&&◌, ◌||◌, List, [], ◌∷◌, ◌++◌, arith, Bool-cases, str_eq, eq_iff,
  mem_text,
}
use s3_storage_node.Config.{Config, from_keys, used_names, active_target_names}
use s3_storage_node.Generation.Resolvers.{Distinct, Distinct-snoc, mem_text-snoc}

from_keys-Distinct : (seen names : List String) → Distinct seen → Distinct (from_keys seen names)
unfolding from_keys
from_keys-Distinct seen [] d = d
from_keys-Distinct seen (name ∷ names) d = elim (Bool-cases (mem_text name seen)) [
  | inl m ↦ rw m (from_keys-Distinct seen names d)
  | inr m ↦ rw m (from_keys-Distinct (seen ++ name ∷ []) names (Distinct-snoc name seen d m))
]

-- `dict.fromkeys` keeps just the names that it is given.
mem_text-from_keys :
    (x : String) (seen names : List String)
    → mem_text x (from_keys seen names) ≡ (mem_text x seen || mem_text x names)
unfolding from_keys
mem_text-from_keys x seen [] = ground arith
mem_text-from_keys x seen (name ∷ names) = elim (Bool-cases (mem_text name seen)) [
  | inl m ↦ rw (m, mem_text-from_keys x seen names) (ground (arith, m, eq_iff name x))
  | inr m ↦
      rw m
        (ground (arith, mem_text-from_keys x (seen ++ name ∷ []) names, mem_text-snoc x name seen))
]

-- The active targets' names are all different, and are just `data`, the index's target and, with
-- the embedded metadata backend, the metadata's target.
pub active_target_names-Distinct :
    (c : Config)
    → Distinct (active_target_names c)
      × ((x : String)
          → mem_text x (active_target_names c) ≡ (
              str_eq "data" x
              || str_eq c.index.target x
              || (str_eq c.metadata.backend "embedded" && str_eq c.metadata.target x)))
unfolding active_target_names
active_target_names-Distinct c = (
  from_keys-Distinct [] (used_names c) tt,
  λ x. mem_text-from_keys x [] (used_names c) ∙ ground arith,
)
