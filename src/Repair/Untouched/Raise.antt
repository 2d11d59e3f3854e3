-- ===== src/Repair/Untouched/Raise.antt =====
-- What `_repair_one` leaves when it raises, and the sources that it refuses.
use s3_storage_node.Common.{
  ℕ, String, ◌≡◌, refl, sym, ap, ◌∙◌, ◌⊎◌, inl, inr, Bool, true, false, false≢true, List, Option,
  none, some, Bool-cases, leb, any, select_if,
}
use s3_storage_node.Common.Result.{Result, ok, err}
use s3_storage_node.Common.Effect.{then_do}
use s3_storage_node.Common.Effect.Keeps.{is_ok}
use s3_storage_node.Repair.Phase.{is_manual, is_verified, is_failed_preinstall}
use s3_storage_node.Repair.Transaction.{SourceIdentity, SourceFingerprint, Transaction}
use s3_storage_node.Repair.Job.{RepairError}
use s3_storage_node.Repair.Journal.{Names, Controller, latest_of, is_authorized, on_transaction}
use s3_storage_node.Repair.Attempt.{Helpers, preinstall_retry_limit}
use s3_storage_node.Repair.Build.{
  on_source, authorize_retry, attempts_of, give_up_latest, check_attempts, repair_source,
  repair_one,
}
use s3_storage_node.Repair.Untouched.Controller.{live_at, give_up_latest-Keeps, repair_one-Spares}

module _ (sha256 : List ℕ → String) (names : Names) (helpers : Helpers) where
  -- If no access to files or journal fails: when a pass of `_repair_one` raises, whatever the helper
  -- processes report, the index and the sorted index of every volume are as they were before the
  -- pass.
  pub repair_one-raise :
      (allow : Bool) (identity : SourceIdentity) (base_name b : String) (e : RepairError)
      (c : Controller)
      → (repair_one sha256 names helpers allow identity base_name c).0 ≡ err e
      → live_at b (repair_one sha256 names helpers allow identity base_name c).1 ≡ live_at b c
  repair_one-raise allow identity base_name b e c h =
      elim ((repair_one-Spares names b sha256 helpers allow identity base_name).same c) [
        | inl r ↦ absurd (false≢true (ap is_ok (sym h) ∙ r))
        | inr r ↦ r
      ]

  -- The journal of a source that is not to be tried: it was verified; or it needs an operator whose
  -- retry is not there; or it had its attempts, and no operator was ever needed.
  abbrev pub IsClosed : List Transaction → Type 0
  IsClosed same =
      (any (λ t. is_verified t.phase) same ≡ true)
      ⊎ ((t : Transaction) × (latest_of (select_if (λ t. is_manual t.phase) same) ≡ some t)
          × (is_authorized t ≡ false))
      ⊎ ((any (λ t. is_verified t.phase) same ≡ false)
          × (latest_of (select_if (λ t. is_manual t.phase) same) ≡ none)
          × (leb preinstall_retry_limit (attempts_of sha256 names helpers same) ≡ true))

  -- It raises, draws no identifier for a new transaction, and leaves the live files as they were.
  abbrev pub IsRefused : {A : Type 0} → Controller → Result RepairError A × Controller → Type 0
  IsRefused c out =
      (is_ok out.0 ≡ false)
      × (out.1.drawn ≡ c.drawn)
      × ((b : String) → live_at b out.1 ≡ live_at b c)

  give_up_latest-IsRefused :
      (o : Option Transaction) (c : Controller)
      → IsRefused c (give_up_latest sha256 names helpers o c)
  unfolding on_transaction
  give_up_latest-IsRefused none c = (refl, refl, λ b. refl)
  give_up_latest-IsRefused (some t) c =
      (refl, refl, λ b. (give_up_latest-Keeps names b sha256 helpers (some t)).same c)

  then-IsRefused :
      {A B : Type 0} (c : Controller) (out : Result RepairError A × Controller)
      (f : A → Controller → Result RepairError B × Controller)
      → IsRefused c out
      → IsRefused c (then_do out f)
  then-IsRefused c (ok a, d) f (h, n, live) = absurd (false≢true (sym h))
  then-IsRefused c (err e, d) f h = h

  -- A source whose journal closes it is refused.
  pub repair_source-IsRefused :
      (allow : Bool) (identity : SourceIdentity) (base_name : String)
      (fingerprint : SourceFingerprint) (c : Controller)
      → IsClosed (on_source sha256 names helpers fingerprint c)
      → IsRefused c (repair_source sha256 names helpers allow identity base_name fingerprint c)
  unfolding repair_source authorize_retry check_attempts
  repair_source-IsRefused allow identity base_name fingerprint c (inl v) =
      rw v (refl, refl, λ b. refl)
  repair_source-IsRefused allow identity base_name fingerprint c (inr (inl (t, e, h))) =
      elim (Bool-cases
        (any (λ t. is_verified t.phase) (on_source sha256 names helpers fingerprint c))) [
          | inl v ↦ rw v (refl, refl, λ b. refl)
          | inr v ↦ rw v (rw e (rw h (refl, refl, λ b. refl)))
        ]
  repair_source-IsRefused allow identity base_name fingerprint c (inr (inr (v, e, h))) = rw v (
      rw e (
        rw h (
          then-IsRefused c _ _ (
            give_up_latest-IsRefused
              (latest_of (
                select_if (λ t. is_failed_preinstall t.phase)
                  (on_source sha256 names helpers fingerprint c)))
              c))))
