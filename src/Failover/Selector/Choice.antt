-- ===== src/Failover/Selector/Choice.antt =====
-- Which transport `select` returns.
use s3_storage_node.Common.{
  ℕ, ◌≤◌, ◌<◌, String, ◌≡◌, refl, ◌⊎◌, inl, inr, Bool, true, false, List, [], ◌∷◌, ◌++◌, Option,
  none, some, All, arith, ap, if◌then◌else◌, Bool-cases, leb, leb→le,
}
use s3_storage_node.Common.Dict.{contains}
use s3_storage_node.Common.Json.{Builtins}
use s3_storage_node.Common.Result.{Result, ok, err, ◌>>=◌}
use s3_storage_node.Failover.Order.{ExclusiveFailover}
use s3_storage_node.Failover.State.{SelectError, TransportState}
use s3_storage_node.Failover.Selector.{Scan, note_time, available_at, scan}

module _ (py : Builtins) (config : ExclusiveFailover) (now : ℕ) (s : TransportState) where
  -- A transport that is not quarantined, and has never failed or has cooled down.
  abbrev pub Usable : String → Type 0
  Usable name =
      (contains name s.quarantined ≡ false)
      × ((available_at py config s name ≡ ok none)
          ⊎ ((t : ℕ) × (available_at py config s name ≡ ok (some t)) × (t ≤ now)))

  -- A transport that is quarantined or still cools down.
  abbrev pub Held : String → Type 0
  Held name =
      (contains name s.quarantined ≡ true)
      ⊎ ((t : ℕ) × (available_at py config s name ≡ ok (some t)) × (now < t))

  -- `name` is the first usable one of `names`.
  abbrev pub FirstOf : String → List String → Type 0
  FirstOf name names =
      (before : List String) × (after : List String) × (names ≡ before ++ name ∷ after)
      × All Held before
      × Usable name

  first_step :
      (name x : String) (xs : List String) → Held x → FirstOf name xs → FirstOf name (x ∷ xs)
  first_step name x xs h (before, after, e, held, usable) =
      (x ∷ before, after, ap (λ l. x ∷ l) e, (h, held), usable)

  module _ (name x : String) (xs : List String) (rest : List String) where
    found_here : x ≡ name → Usable x → FirstOf name (x ∷ xs)
    found_here e usable = ([], xs, ap (λ n. n ∷ xs) e, tt, rw e at usable)

    -- One round of the loop, by what its lookups found.
    round-FirstOf :
        (q : Bool) (at : Result SelectError (Option ℕ)) (tail : Result SelectError Scan) (r : Scan)
        → contains x s.quarantined ≡ q
        → available_at py config s x ≡ at
        → ((r' : Scan) → tail ≡ ok r' → r'.candidates ≡ name ∷ rest → FirstOf name xs)
        → (if q then tail else at >>= λ t. tail >>= λ r'. ok (note_time now x t r')) ≡ ok r
        → r.candidates ≡ name ∷ rest
        → FirstOf name (x ∷ xs)
    round-FirstOf true at tail r qe ae ih e c = first_step name x xs (inl qe) (ih r e c)
    round-FirstOf false (err b) tail r qe ae ih e c = cc
    round-FirstOf false (ok t) (err b) r qe ae ih e c = cc
    round-FirstOf false (ok none) (ok r') r qe ae ih e c = found_here (ground arith) (qe, inl ae)
    round-FirstOf false (ok (some t)) (ok r') r qe ae ih e c = elim (Bool-cases (leb t now)) [
      | inl y ↦ found_here (ground arith) (qe, inr (t, ae, leb→le t now y))
      | inr n ↦ first_step name x xs (inr (t, ae, ground arith)) (ih r' refl (ground arith))
    ]

  -- The loop's first candidate is the first usable name.
  pub scan-FirstOf :
      (names : List String) (r : Scan) (name : String) (rest : List String)
      → scan py config now s names ≡ ok r
      → r.candidates ≡ name ∷ rest
      → FirstOf name names
  unfolding scan
  scan-FirstOf [] r name rest e c = ground arith
  scan-FirstOf (x ∷ xs) r name rest e c =
      round-FirstOf name x xs rest (contains x s.quarantined) (available_at py config s x)
        (scan py config now s xs) r refl refl (λ r' e' c'. scan-FirstOf xs r' name rest e' c') e c
