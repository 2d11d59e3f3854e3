-- ===== src/Repair/Closed.antt =====
-- The sources that `_repair_one` refuses, by the records of the journal.
use s3_storage_node.Common.{
  ℕ, ◌≤◌, String, ◌≡◌, refl, ap, ◌⊎◌, inl, inr, Bool, true, false, not, List, [], ◌∷◌, Option, none,
  some, Bool-cases, Option-cases, arith, All, All-from-Mem, All-Mem, subst, Mem, here, there,
  Mem-select_if, any, select_if, leb,
}
use s3_storage_node.Repair.Phase.{
  Phase, verified, manual_intervention_required, resolved_without_install, is_manual, is_verified,
  is_resolved,
}
use s3_storage_node.Repair.Transaction.{SourceIdentity, SourceFingerprint, Transaction}
use s3_storage_node.Repair.Journal.{Names, Controller, later_of, latest_of, is_authorized}
use s3_storage_node.Repair.Attempt.{Helpers, same_source, most_attempts}
use s3_storage_node.Repair.Build.{on_source, attempts_of, repair_source}
use s3_storage_node.Repair.Untouched.Raise.{IsClosed, IsRefused, repair_source-IsRefused}

any-Mem :
    {A : Type 0} (p : A → Bool) (x : A) (xs : List A) → Mem x xs → p x ≡ true → any p xs ≡ true
any-Mem p x _ (here _ xs) h = rw h refl
any-Mem p x _ (there _ y ys m) h = elim (Bool-cases (p y)) [
  | inl e ↦ rw e refl
  | inr e ↦ rw e (any-Mem p x ys m h)
]

-- What is selected holds of all that satisfy the test.
select_if-All :
    {A : Type 0} (p : A → Bool) (P Q : A → Type 0) (xs : List A)
    → ((x : A) → P x → p x ≡ true → Q x)
    → All P xs
    → All Q (select_if p xs)
select_if-All p P Q [] k a = tt
select_if-All p P Q (x ∷ xs) k (a, b) = elim (Bool-cases (p x)) [
  | inl e ↦ rw e (k x a e, select_if-All p P Q xs k b)
  | inr e ↦ rw e (select_if-All p P Q xs k b)
]

select_if-none :
    {A : Type 0} (p : A → Bool) (xs : List A) → All (λ x. p x ≡ false) xs → select_if p xs ≡ []
select_if-none p [] a = refl
select_if-none p (x ∷ xs) (e, a) = rw e (select_if-none p xs a)

later_of-All :
    (P : Transaction → Type 0) (t : Transaction) (us : List Transaction)
    → P t
    → All P us
    → P (later_of t us)
later_of-All P t [] h a = h
later_of-All P t (u ∷ us) h (b, a) = elim (Bool-cases (leb u.updated_at t.updated_at)) [
  | inl e ↦ rw e (later_of-All P t us h a)
  | inr e ↦ rw e (later_of-All P u us b a)
]

most_attempts-Mem :
    (t : Transaction) (ts : List Transaction) → Mem t ts → t.attempt_count ≤ most_attempts ts
most_attempts-Mem t _ (here _ ts) = ground arith
most_attempts-Mem t _ (there _ u us m) = ground (arith, most_attempts-Mem t us m)

-- No retry was asked for, or it was used.
abbrev pub NoRetry : Transaction → Type 0
NoRetry t = (t.operator_retry_requested ≡ false) ⊎ (t.operator_retry_consumed ≡ true)

NoRetry-is_authorized : (t : Transaction) → NoRetry t → is_authorized t ≡ false
NoRetry-is_authorized t (inl e) = rw e refl
NoRetry-is_authorized t (inr e) = ground arith

-- A record of the journal on the fingerprint.
abbrev pub On : SourceFingerprint → Controller → Transaction → Type 0
On fingerprint c t = Mem t c.journal × (same_source t.source_fingerprint fingerprint ≡ true)

is_manual-eq : (p : Phase) → is_manual p ≡ true → p ≡ manual_intervention_required
is_manual-eq manual_intervention_required h = refl
is_manual-eq p h = ground arith

is_resolved-eq : (p : Phase) → is_resolved p ≡ true → p ≡ resolved_without_install
is_resolved-eq p h = ground arith

latest_of-All :
    (P : Transaction → Type 0) (ts : List Transaction) (u : Transaction)
    → All P ts
    → latest_of ts ≡ some u
    → P u
latest_of-All P [] u a h = absurd (none_some h)
  where
    none_some : ◌≡◌ {A = Option Transaction} none (some u) → ⊥
    none_some h = cc
latest_of-All P (t ∷ ts) u (b, a) h = subst P (some-injective h) (later_of-All P t ts b a)
  where
    some-injective :
        ◌≡◌ {A = Option Transaction} (some (later_of t ts)) (some u) → later_of t ts ≡ u
    some-injective h = cc

latest_of-Mem : (ts : List Transaction) (t : Transaction) → Mem t ts → latest_of ts ≡ none → ⊥
latest_of-Mem [] t m h = elim m [ ]
latest_of-Mem (u ∷ us) t m h = some_none h
  where
    some_none : ◌≡◌ {A = Option Transaction} (some (later_of u us)) none → ⊥
    some_none h = cc

module _ (sha256 : List ℕ → String) (names : Names) (helpers : Helpers) where
  -- The journal has a record on the fingerprint that was verified; or one that needs an operator, of
  -- whom no such record has an unused retry; or none that needs an operator, and one with two
  -- attempts at least that was not resolved without an installation.
  abbrev pub IsClosedBy : SourceFingerprint → Controller → Type 0
  IsClosedBy fingerprint c =
      ((t : Transaction) × On fingerprint c t × (t.phase ≡ verified))
      ⊎ ((t : Transaction) × On fingerprint c t
          × (t.phase ≡ manual_intervention_required)
          × ((u : Transaction)
              → On fingerprint c u
              → u.phase ≡ manual_intervention_required
              → NoRetry u))
      ⊎ ((t : Transaction) × On fingerprint c t
          × (2 ≤ t.attempt_count)
          × (t.phase ≡ resolved_without_install → ⊥)
          × ((u : Transaction) → On fingerprint c u → u.phase ≡ manual_intervention_required → ⊥))

  on_source-All :
      (fingerprint : SourceFingerprint) (c : Controller)
      → All (On fingerprint c) (on_source sha256 names helpers fingerprint c)
  on_source-All fingerprint c =
      select_if-All (λ t. same_source t.source_fingerprint fingerprint) (λ t. Mem t c.journal)
        (On fingerprint c) c.journal (λ t m s. (m, s))
        (All-from-Mem (λ t. Mem t c.journal) c.journal (λ t m. m))

  on_source-Mem :
      (fingerprint : SourceFingerprint) (c : Controller) (t : Transaction)
      → On fingerprint c t
      → Mem t (on_source sha256 names helpers fingerprint c)
  on_source-Mem fingerprint c t (m, s) =
      Mem-select_if (λ t. same_source t.source_fingerprint fingerprint) t c.journal s m

  blocked-IsClosed :
      (same : List Transaction) (P : Transaction → Type 0) (t : Transaction)
      → All P same
      → Mem t same
      → is_manual t.phase ≡ true
      → ((u : Transaction) → P u → is_manual u.phase ≡ true → is_authorized u ≡ false)
      → IsClosed sha256 names helpers same
  blocked-IsClosed same P t a m h k =
      let blocked = select_if (λ t. is_manual t.phase) same in
      elim (Option-cases (latest_of blocked)) [
        | inl e ↦
            absurd (latest_of-Mem blocked t (Mem-select_if (λ t. is_manual t.phase) t same h m) e)
        | inr (u, e) ↦ inr (
            inl (
              u,
              e,
              latest_of-All (λ u. is_authorized u ≡ false) blocked u
                  (select_if-All (λ t. is_manual t.phase) P (λ u. is_authorized u ≡ false) same k a)
                  e,
            ))
      ]

  exhausted-IsClosed :
      (same : List Transaction) (t : Transaction)
      → Mem t same
      → 2 ≤ t.attempt_count
      → is_resolved t.phase ≡ false
      → All (λ u. is_manual u.phase ≡ false) same
      → IsClosed sha256 names helpers same
  exhausted-IsClosed same t m n r a = elim (Bool-cases (any (λ t. is_verified t.phase) same)) [
    | inl v ↦ inl v
    | inr v ↦
        let most =
          most_attempts-Mem t (select_if (λ t. not (is_resolved t.phase)) same)
            (Mem-select_if (λ t. not (is_resolved t.phase)) t same (ap not r) m) in
        inr (
          inr (
            v,
            ap latest_of (select_if-none (λ t. is_manual t.phase) same a),
            leb_two (attempts_of sha256 names helpers same) (omega (arith, n, most)),
          ))
  ]
    where
      leb_two : (k : ℕ) → 2 ≤ k → leb 2 k ≡ true
      leb_two k h = ground arith

  IsClosedBy-IsClosed :
      (fingerprint : SourceFingerprint) (c : Controller)
      → IsClosedBy fingerprint c
      → IsClosed sha256 names helpers (on_source sha256 names helpers fingerprint c)
  IsClosedBy-IsClosed fingerprint c (inl (t, o, v)) = inl (
      any-Mem (λ t. is_verified t.phase) t (on_source sha256 names helpers fingerprint c)
        (on_source-Mem fingerprint c t o) (ap is_verified v))
  IsClosedBy-IsClosed fingerprint c (inr (inl (t, o, m, k))) =
      blocked-IsClosed (on_source sha256 names helpers fingerprint c) (On fingerprint c) t
        (on_source-All fingerprint c) (on_source-Mem fingerprint c t o) (ap is_manual m)
        (λ u p h. NoRetry-is_authorized u (k u p (is_manual-eq u.phase h)))
  IsClosedBy-IsClosed fingerprint c (inr (inr (t, o, n, r, k))) =
      exhausted-IsClosed (on_source sha256 names helpers fingerprint c) t
        (on_source-Mem fingerprint c t o) n
        (elim (Bool-cases (is_resolved t.phase)) [
          | inl h ↦ absurd (r (is_resolved-eq t.phase h))
          | inr h ↦ h
        ])
        (All-from-Mem (λ u. is_manual u.phase ≡ false)
          (on_source sha256 names helpers fingerprint c)
          (λ u m.
            let o : On fingerprint c u =
              All-Mem (On fingerprint c) u (on_source sha256 names helpers fingerprint c) m
                (on_source-All fingerprint c) in
            elim (Bool-cases (is_manual u.phase)) [
              | inl h ↦ absurd (k u o (is_manual-eq u.phase h))
              | inr h ↦ h
            ]))

  -- A source whose fingerprint the journal closes is not repaired again: a record on it was verified;
  -- or one needs an operator, and no such record has an unused retry; or none needs an operator,
  -- and one has two attempts and was not resolved without an installation. Then the pass raises,
  -- draws no identifier for a new transaction, and leaves the live files as they were.
  pub repair_source-refuses :
      (allow : Bool) (identity : SourceIdentity) (base_name : String)
      (fingerprint : SourceFingerprint) (c : Controller)
      → IsClosedBy fingerprint c
      → IsRefused sha256 names helpers c
          (repair_source sha256 names helpers allow identity base_name fingerprint c)
  repair_source-refuses allow identity base_name fingerprint c closed =
      repair_source-IsRefused sha256 names helpers allow identity base_name fingerprint c
        (IsClosedBy-IsClosed fingerprint c closed)
