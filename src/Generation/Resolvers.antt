-- ===== src/Generation/Resolvers.antt =====
-- What `resolver_nameservers` returns.
use s3_storage_node.Common.{
  String, ◌≡◌, refl, subst, ◌≤◌, inl, inr, false, ◌||◌, List, [], ◌∷◌, ◌++◌, some, arith,
  Bool-cases, Option-cases, if◌then◌else◌, str_eq, eq_iff, mem_text, All, length,
}
use s3_storage_node.Common.Result.{Result, ok, err, ok-injective, err_ok_absurd}
use s3_storage_node.Generation.System.{Text}
use s3_storage_node.Generation.Machine.{GenerationError, no_nameservers}
use s3_storage_node.Generation.Network.{note_line, nameservers_from, nonempty, nameservers_of}

-- No address stands twice, and each is the text of a parsed address.
abbrev pub Distinct : List String → Type 0
Distinct [] = Unit
Distinct (x ∷ xs) = (mem_text x xs ≡ false) × Distinct xs

pub mem_text-snoc :
    (x y : String) (xs : List String) → mem_text x (xs ++ y ∷ []) ≡ (mem_text x xs || str_eq y x)
mem_text-snoc x y [] = ground arith
mem_text-snoc x y (z ∷ xs) = ground (arith, mem_text-snoc x y xs)

pub Distinct-snoc :
    (y : String) (xs : List String) → Distinct xs → mem_text y xs ≡ false → Distinct (xs ++ y ∷ [])
Distinct-snoc y [] d h = (refl, tt)
Distinct-snoc y (x ∷ xs) (n, d) h = (
  ground (arith, mem_text-snoc x y xs, eq_iff x y, eq_iff y x, n, h),
  Distinct-snoc y xs d (ground (arith, h)),
)

abbrev pub Parsed : Text → String → Type 0
Parsed text a = (s : String) × (text.ip_address s ≡ some a)

All-snoc :
    (text : Text) (y : String) (xs : List String)
    → All (Parsed text) xs
    → Parsed text y
    → All (Parsed text) (xs ++ y ∷ [])
All-snoc text y [] a p = (p, tt)
All-snoc text y (x ∷ xs) (q, a) p = (q, All-snoc text y xs a p)

-- What the loop keeps.
abbrev Good : Text → Result GenerationError (List String) → Type 0
Good text (err e) = Unit
Good text (ok found) = Distinct found × All (Parsed text) found

note_address-Good :
    (text : Text) (value address : String) (found : List String)
    → text.ip_address value ≡ some address
    → Good text (ok found)
    → Good text (if mem_text address found then ok found else ok (found ++ address ∷ []))
note_address-Good text value address found e (d, a) = elim (Bool-cases (mem_text address found)) [
  | inl m ↦ rw m (d, a)
  | inr m ↦ rw m (Distinct-snoc address found d m, All-snoc text address found a (value, e))
]

note_line-Good :
    (text : Text) (line : String) (fields : List String) (r : Result GenerationError (List String))
    → Good text r
    → Good text (note_line text line fields r)
unfolding note_line
note_line-Good text line fields (err e) g = tt
note_line-Good text line [] (ok found) g = g
note_line-Good text line (key ∷ []) (ok found) g = elim (Bool-cases (str_eq key "nameserver")) [
  | inl k ↦ rw k tt
  | inr k ↦ rw k g
]
note_line-Good text line (key ∷ value ∷ fields) (ok found) g =
    elim (Bool-cases (str_eq key "nameserver")) [
      | inr k ↦ rw k g
      | inl k ↦ rw k (elim (Option-cases (text.ip_address value)) [
        | inl e ↦ rw e tt
        | inr (address, e) ↦ rw e (note_address-Good text value address found e g)
      ])
    ]

nameservers_from-Good :
    (text : Text) (lines : List String) (r : Result GenerationError (List String))
    → Good text r
    → Good text (nameservers_from text lines r)
unfolding nameservers_from
nameservers_from-Good text [] r g = g
nameservers_from-Good text (line ∷ lines) r g =
    nameservers_from-Good text lines _ (note_line-Good text line (text.split line) r g)

nonempty-Good :
    (text : Text) (r : Result GenerationError (List String)) (found : List String)
    → Good text r
    → nonempty r ≡ ok found
    → (1 ≤ length found) × Distinct found × All (Parsed text) found
nonempty-Good text (ok []) found g h = err_ok_absurd no_nameservers found h
nonempty-Good text (ok (x ∷ xs)) found (d, a) h =
    subst (λ (found : List String). (1 ≤ length found) × Distinct found × All (Parsed text) found)
      (ok-injective h) (omega arith, d, a)
nonempty-Good text (err e) found g h = err_ok_absurd e found h

-- The nameservers that the resolver's configuration yields are at least one, no two of them are
-- equal, and each is the normal form of a valid address.
pub nameservers_of-Distinct :
    (text : Text) (content : String) (found : List String)
    → nameservers_of text content ≡ ok found
    → (1 ≤ length found) × Distinct found × All (Parsed text) found
unfolding nameservers_of
nameservers_of-Distinct text content found h =
    nonempty-Good text _ found
      (nameservers_from-Good text (text.splitlines content) (ok []) (tt, tt)) h
