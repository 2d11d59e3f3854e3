-- ===== src/Repair/Prepared.antt =====
-- What `prepare_offline` leaves in the journal when it returns.
use s3_storage_node.Common.{
  ℕ, String, ◌≡◌, refl, sym, ap, ◌∙◌, ◌⊎◌, inl, inr, Bool, true, false, false≢true, ◌||◌, List, [],
  ◌∷◌, Option, none, some, is_some, Bool-cases, str_eq, str_eq_refl, arith, All, All-from-Mem, Mem,
  here, there,
}
use s3_storage_node.Common.Result.{Result, ok, err}
use s3_storage_node.Common.Effect.{then_do}
use s3_storage_node.Common.Effect.Keeps.{is_ok}
use s3_storage_node.Repair.Phase.{
  Phase, detected, writers_stopped, source_mounted_readonly, candidate_building, candidate_built,
  backup_created, failed_preinstall, installing_candidate, candidate_installed,
  awaiting_upstream_validation, verified, manual_intervention_required, rolled_back,
  resolved_without_install, tail_recovered, other, is_terminal, is_preinstall, is_awaiting,
}
use s3_storage_node.Repair.Transaction.{Artifact, Transaction}
use s3_storage_node.Repair.Job.{FileEntry, Job, RepairError, same_artifact}
use s3_storage_node.Repair.Install.{
  mode_or_default, prepare_temporary, install_from, install_candidate, recover_from,
  recover_interrupted_install, validate_installed_artifacts,
}
use s3_storage_node.Repair.Resume.{prepare_phase, prepare_transaction}
use s3_storage_node.Repair.Journal.{
  Names, Controller, same_id, job_for, put_back, handed, on_transaction,
}
use s3_storage_node.Repair.Upstream.{prepare_each, prepare_offline}
use s3_storage_node.Repair.Journaled.{saved_in-All}
use s3_storage_node.Repair.Recovery.Install.{same_artifact-mode}

-- The phases that a guardian may start its writers with: over, not yet installed, or installed and
-- waiting for the validation.
abbrev pub is_settled : Phase → Bool
is_settled p = is_terminal p || is_preinstall p || is_awaiting p

-- It raises, or the record that it leaves is settled.
abbrev Settles : Transaction → Result RepairError (Unit {0}) × Job → Type 0
Settles t out =
    (is_ok out.0 ≡ false)
    ⊎ ((out.1.saved.transaction_id ≡ t.transaction_id) × (is_settled out.1.saved.phase ≡ true))

module _ (sha256 : List ℕ → String) where
  install_from-Settles :
      (candidate : Option FileEntry) (old expected : Option Artifact) (j : Job)
      → Settles j.transaction (install_from sha256 candidate old expected j)
  unfolding prepare_temporary
  install_from-Settles candidate old none j = inl refl
  install_from-Settles none old (some expected) j = inl refl
  install_from-Settles (some c) none (some expected) j =
      elim (Bool-cases (same_artifact sha256 (some c) (some expected))) [
        | inl h ↦ rw h (inl refl)
        | inr h ↦ rw h (inl refl)
      ]
  install_from-Settles (some c) (some old) (some expected) j =
      elim (Bool-cases (same_artifact sha256 (some c) (some expected))) [
        | inr h ↦ rw h (inl refl)
        | inl h ↦ elim (Bool-cases (same_artifact sha256 j.files.installing (some expected))) [
          | inl i ↦ rw h (rw i (rw i (inr (refl, refl))))
          | inr i ↦ rw h (
              rw i (
                rw (same_artifact-mode sha256 c (mode_or_default old.mode) expected h)
                  (inr (refl, refl))))
        ]
      ]

  recover_from-Settles :
      (is_new is_old ready : Bool) (j : Job)
      → Settles j.transaction (recover_from sha256 is_new is_old ready j)
  unfolding install_candidate
  recover_from-Settles true is_old ready j = inr (refl, refl)
  recover_from-Settles false true true j = inr (refl, refl)
  recover_from-Settles false false ready j = inl refl
  recover_from-Settles false true false j = elim (Bool-cases j.transaction.has_install_temp) [
    | inl h ↦
        rw h (
          install_from-Settles j.files.candidate j.transaction.old_idx j.transaction.candidate_idx
            _)
    | inr h ↦ rw h (inl refl)
  ]

  -- A record that is left alone.
  alone :
      (p : Phase) (j : Job)
      → j.transaction.phase ≡ p
      → j.saved ≡ j.transaction
      → is_settled p ≡ true
      → Settles j.transaction (ok tt, j)
  alone p j e s h =
      inr (ap (λ t. t.transaction_id) s, ap (λ t. is_settled t.phase) s ∙ ap is_settled e ∙ h)

  awaiting_settled : (p : Phase) → is_awaiting p ≡ true → is_settled p ≡ true
  awaiting_settled p h = ground arith

  validate-Settles :
      (j : Job)
      → j.saved ≡ j.transaction
      → Settles j.transaction (validate_installed_artifacts sha256 j)
  unfolding validate_installed_artifacts
  validate-Settles j s =
      elim (Bool-cases (same_artifact sha256 j.files.live_idx j.transaction.candidate_idx)) [
        | inr h ↦ rw h (inl refl)
        | inl h ↦ elim (Bool-cases (is_some j.files.live_sdx)) [
          | inl x ↦ rw h (rw x (inl refl))
          | inr x ↦ elim (Bool-cases (is_awaiting j.transaction.phase)) [
            | inl w ↦ rw h (
                rw x (
                  rw w
                    (alone j.transaction.phase j refl s (awaiting_settled j.transaction.phase w))))
            | inr w ↦ rw h (rw x (rw w (inr (refl, refl))))
          ]
        ]
      ]

  prepare_phase-Settles :
      (p : Phase) (j : Job)
      → j.transaction.phase ≡ p
      → j.saved ≡ j.transaction
      → Settles j.transaction (prepare_phase sha256 p j)
  unfolding prepare_phase recover_interrupted_install
  prepare_phase-Settles installing_candidate j e s = recover_from-Settles _ _ _ j
  prepare_phase-Settles rolled_back j e s = inr (refl, refl)
  prepare_phase-Settles (other _) j e s = inr (refl, refl)
  prepare_phase-Settles candidate_installed j e s = validate-Settles j s
  prepare_phase-Settles awaiting_upstream_validation j e s = validate-Settles j s
  prepare_phase-Settles detected j e s = alone detected j e s refl
  prepare_phase-Settles writers_stopped j e s = alone writers_stopped j e s refl
  prepare_phase-Settles source_mounted_readonly j e s = alone source_mounted_readonly j e s refl
  prepare_phase-Settles candidate_building j e s = alone candidate_building j e s refl
  prepare_phase-Settles candidate_built j e s = alone candidate_built j e s refl
  prepare_phase-Settles backup_created j e s = alone backup_created j e s refl
  prepare_phase-Settles failed_preinstall j e s = alone failed_preinstall j e s refl
  prepare_phase-Settles verified j e s = alone verified j e s refl
  prepare_phase-Settles manual_intervention_required j e s =
      alone manual_intervention_required j e s refl
  prepare_phase-Settles resolved_without_install j e s = alone resolved_without_install j e s refl
  prepare_phase-Settles tail_recovered j e s = alone tail_recovered j e s refl

  module _ (names : Names) where
    abbrev Inv : List Transaction → Transaction → Type 0
    Inv rest u = (is_settled u.phase ≡ true) ⊎ Mem u rest

    replaced :
        (t t' : Transaction) (ts : List Transaction) (u : Transaction)
        → t'.transaction_id ≡ t.transaction_id
        → Inv (t ∷ ts) u
        → same_id t' u ≡ false
        → Inv ts u
    replaced t t' ts u e (inl d) h = inl d
    replaced t t' ts _ e (inr (here _ _)) h =
        absurd (
          false≢true (sym h ∙ ap (λ x. str_eq t.transaction_id x) e ∙ str_eq_refl t.transaction_id))
    replaced t t' ts u e (inr (there _ _ _ m)) h = inr m

    -- One transaction, and the rest from there.
    step :
        (t : Transaction) (ts : List Transaction) (c : Controller)
        (out : Result RepairError (Unit {0}) × Job)
        → Settles t out
        → All (Inv (t ∷ ts)) c.journal
        → ((c' : Controller)
            → All (Inv ts) c'.journal
            → is_ok (prepare_each sha256 names ts c').0 ≡ true
            → All (Inv []) (prepare_each sha256 names ts c').1.journal)
        → let next =
            then_do
              (handed out.0 out.1.transaction, put_back names t out.1 c)
              (λ _. prepare_each sha256 names ts) in
          is_ok next.0 ≡ true → All (Inv []) next.1.journal
    step t ts c (ok x, j) (inl r) a rest h = absurd (false≢true (sym r))
    step t ts c (ok x, j) (inr (e, st)) a rest h =
        rest (put_back names t j c)
          (saved_in-All names (Inv ts) (Inv (t ∷ ts)) j.saved c.journal (inl st)
            (λ u. replaced t j.saved ts u e) a)
          h
    step t ts c (err x, j) s a rest h = absurd (false≢true h)

    prepare_each-settled :
        (ts : List Transaction) (c : Controller)
        → All (Inv ts) c.journal
        → is_ok (prepare_each sha256 names ts c).0 ≡ true
        → All (Inv []) (prepare_each sha256 names ts c).1.journal
    unfolding on_transaction
    prepare_each-settled [] c a h = a
    prepare_each-settled (t ∷ ts) c a h =
        step t ts c (prepare_transaction sha256 (job_for t c))
          (prepare_phase-Settles t.phase (job_for t c) refl refl) a (prepare_each-settled ts) h

    -- When `prepare_offline` returns, the phase of every record of the journal is one at the end, one
    -- before the installation, or the one that awaits the validation.
    pub prepare_offline-settled :
        (c : Controller)
        → is_ok (prepare_offline sha256 names c).0 ≡ true
        → All (λ u. is_settled u.phase ≡ true) (prepare_offline sha256 names c).1.journal
    unfolding prepare_offline
    prepare_offline-settled c h =
        All-settled (prepare_each sha256 names c.journal c).1.journal (
          prepare_each-settled c.journal c (All-from-Mem (Inv c.journal) c.journal (λ u m. inr m))
            h)
      where
        All-settled :
            (us : List Transaction) → All (Inv []) us → All (λ u. is_settled u.phase ≡ true) us
        All-settled [] a = tt
        All-settled (u ∷ us) (inl d, a) = (d, All-settled us a)
        All-settled (u ∷ us) (inr m, a) = elim m [ ]
