-- ===== src/Repair/Settled.antt =====
-- What the loop body of `prepare_offline` makes of one transaction and its files, in every phase.
use s3_storage_node.Common.{
  ℕ, String, ◌≡◌, refl, sym, ap, ◌∙◌, ◌⊎◌, inl, inr, Bool, true, false, List, Option, none, some,
  is_some, Bool-cases, false≢true, ◌&&◌, and_true, str_eq,
}
use s3_storage_node.Common.Result.{Result, ok}
use s3_storage_node.Common.Effect.Keeps.{is_ok}
use s3_storage_node.Repair.Phase.{
  Phase, detected, writers_stopped, source_mounted_readonly, candidate_building, candidate_built,
  backup_created, failed_preinstall, installing_candidate, candidate_installed,
  awaiting_upstream_validation, verified, manual_intervention_required, rolled_back,
  resolved_without_install, tail_recovered, other, is_terminal, is_preinstall, is_awaiting,
}
use s3_storage_node.Repair.Transaction.{Artifact}
use s3_storage_node.Repair.Job.{FileEntry, Job, RepairError, same_artifact}
use s3_storage_node.Repair.Install.{
  mode_or_default, prepare_temporary, install_from, install_candidate, recover_from,
  recover_interrupted_install, validate_installed_artifacts,
}
use s3_storage_node.Repair.Resume.{prepare_phase, prepare_transaction, reason_or}
use s3_storage_node.Repair.Recovery.Install.{same_artifact-mode}

-- The phases between the begin of an installation and its validation.
pub data IsInstalling : Phase → Type 0 where
  begun : IsInstalling installing_candidate
  done : IsInstalling candidate_installed
  waiting : IsInstalling awaiting_upstream_validation

-- The phases that an operator has to look at.
pub data NeedsNote : Phase → Type 0 where
  undone : NeedsNote rolled_back
  unknown : (name : String) → NeedsNote (other name)

-- The phases in which nothing was installed, or all is over.
abbrev pub IsIdle : Phase → Type 0
IsIdle p = (is_terminal p ≡ true) ⊎ (is_preinstall p ≡ true)

str_or :
    (default reason : String)
    → str_eq default "" ≡ false
    → str_eq (reason_or default reason) "" ≡ false
str_or default reason h = elim (Bool-cases (str_eq reason "")) [
  | inl e ↦ rw e h
  | inr e ↦ rw (e, reason_or) e
]

module _ (sha256 : List ℕ → String) where
  -- An operator is needed, with a reason given; the files are as they were.
  abbrev pub IsNoted : Job → Job → Type 0
  IsNoted j k =
      (k.saved.phase ≡ manual_intervention_required)
      × (str_eq k.saved.failure_reason "" ≡ false)
      × (k.files ≡ j.files)

  -- The candidate is live, without a sorted index, and awaits the validation.
  abbrev pub IsLive : Option Artifact → Job → Type 0
  IsLive expected k =
      (k.saved.phase ≡ awaiting_upstream_validation)
      × (same_artifact sha256 k.files.live_idx expected ≡ true)
      × (k.files.live_sdx ≡ none)

  -- It raises, or the installation is finished.
  abbrev pub Finishes : Option Artifact → Result RepairError (Unit {0}) × Job → Type 0
  Finishes expected out = (is_ok out.0 ≡ false) ⊎ IsLive expected out.1

  install_from-Finishes :
      (candidate : Option FileEntry) (old expected : Option Artifact) (j : Job)
      → Finishes expected (install_from sha256 candidate old expected j)
  unfolding prepare_temporary
  install_from-Finishes candidate old none j = inl refl
  install_from-Finishes none old (some expected) j = inl refl
  install_from-Finishes (some c) none (some expected) j =
      elim (Bool-cases (same_artifact sha256 (some c) (some expected))) [
        | inl h ↦ rw h (inl refl)
        | inr h ↦ rw h (inl refl)
      ]
  install_from-Finishes (some c) (some old) (some expected) j =
      elim (Bool-cases (same_artifact sha256 (some c) (some expected))) [
        | inr h ↦ rw h (inl refl)
        | inl h ↦ elim (Bool-cases (same_artifact sha256 j.files.installing (some expected))) [
          | inl i ↦ rw h (rw i (rw i (inr (refl, i, refl))))
          | inr i ↦
              let m = same_artifact-mode sha256 c (mode_or_default old.mode) expected h in
              rw h (rw i (rw m (inr (refl, m, refl))))
        ]
      ]

  recover_from-Finishes :
      (is_new is_old ready : Bool) (j : Job)
      → (is_new ≡ true → same_artifact sha256 j.files.live_idx j.transaction.candidate_idx ≡ true)
      → (ready ≡ true → same_artifact sha256 j.files.installing j.transaction.candidate_idx ≡ true)
      → Finishes j.transaction.candidate_idx (recover_from sha256 is_new is_old ready j)
  unfolding install_candidate
  recover_from-Finishes true is_old ready j new made = inr (refl, new refl, refl)
  recover_from-Finishes false true true j new made = inr (refl, made refl, refl)
  recover_from-Finishes false false ready j new made = inl refl
  recover_from-Finishes false true false j new made =
      elim (Bool-cases j.transaction.has_install_temp) [
        | inl h ↦ rw h (
            install_from-Finishes j.files.candidate j.transaction.old_idx
              j.transaction.candidate_idx _)
        | inr h ↦ rw h (inl refl)
      ]

  recover-Finishes :
      (j : Job) → Finishes j.transaction.candidate_idx (recover_interrupted_install sha256 j)
  unfolding recover_interrupted_install
  recover-Finishes j =
      recover_from-Finishes (same_artifact sha256 j.files.live_idx j.transaction.candidate_idx)
        (same_artifact sha256 j.files.live_idx j.transaction.old_idx)
        (j.transaction.has_install_temp
          && is_some j.files.installing
          && same_artifact sha256 j.files.installing j.transaction.candidate_idx)
        j (λ h. h)
        (λ h.
          (and_true (j.transaction.has_install_temp && is_some j.files.installing)
            (same_artifact sha256 j.files.installing j.transaction.candidate_idx) h).1)

  validate-Finishes :
      (j : Job)
      → (j.transaction.phase ≡ candidate_installed) ⊎ (j.saved.phase ≡ awaiting_upstream_validation)
      → Finishes j.transaction.candidate_idx (validate_installed_artifacts sha256 j)
  unfolding validate_installed_artifacts
  validate-Finishes j p =
      elim (Bool-cases (same_artifact sha256 j.files.live_idx j.transaction.candidate_idx)) [
        | inr h ↦ rw h (inl refl)
        | inl h ↦ elim (Bool-cases (is_some j.files.live_sdx)) [
          | inl x ↦ rw h (rw x (inl refl))
          | inr x ↦ elim (Bool-cases (is_awaiting j.transaction.phase)) [
            | inl w ↦ rw h (rw x (rw w (inr (still p w, h, none_left j.files.live_sdx x))))
            | inr w ↦ rw h (rw x (rw w (inr (refl, h, none_left j.files.live_sdx x))))
          ]
        ]
      ]
    where
      none_left : (o : Option FileEntry) → is_some o ≡ false → o ≡ none
      none_left none h = refl
      none_left (some g) h = absurd (false≢true (sym h))

      still :
          (j.transaction.phase ≡ candidate_installed)
            ⊎ (j.saved.phase ≡ awaiting_upstream_validation)
          → is_awaiting j.transaction.phase ≡ true
          → j.saved.phase ≡ awaiting_upstream_validation
      still (inl e) w = absurd (false≢true (sym (ap is_awaiting e) ∙ w))
      still (inr e) w = e

  by_phase :
      (p : Phase) (j : Job)
      → j.transaction.phase ≡ p
      → j.saved ≡ j.transaction
      → (IsIdle p × (prepare_phase sha256 p j ≡ (ok tt, j)))
        ⊎ (NeedsNote p
            × ((prepare_phase sha256 p j).0 ≡ ok tt)
            × IsNoted j (prepare_phase sha256 p j).1)
        ⊎ (IsInstalling p × Finishes j.transaction.candidate_idx (prepare_phase sha256 p j))
  unfolding prepare_phase
  by_phase installing_candidate j e s = inr (inr (begun, recover-Finishes j))
  by_phase candidate_installed j e s = inr (inr (done, validate-Finishes j (inl e)))
  by_phase awaiting_upstream_validation j e s =
      inr (inr (waiting, validate-Finishes j (inr (ap (λ t. t.phase) s ∙ e))))
  by_phase rolled_back j e s = inr (
      inl (
        undone,
        refl,
        (refl, str_or "candidate was rolled back" j.transaction.failure_reason refl, refl),
      ))
  by_phase (other name) j e s = inr (inl (unknown name, refl, (refl, refl, refl)))
  by_phase detected j e s = inl (inr refl, refl)
  by_phase writers_stopped j e s = inl (inr refl, refl)
  by_phase source_mounted_readonly j e s = inl (inr refl, refl)
  by_phase candidate_building j e s = inl (inr refl, refl)
  by_phase candidate_built j e s = inl (inr refl, refl)
  by_phase backup_created j e s = inl (inr refl, refl)
  by_phase failed_preinstall j e s = inl (inr refl, refl)
  by_phase verified j e s = inl (inl refl, refl)
  by_phase manual_intervention_required j e s = inl (inl refl, refl)
  by_phase resolved_without_install j e s = inl (inl refl, refl)
  by_phase tail_recovered j e s = inl (inl refl, refl)

  -- For a transaction as the journal has it, if no access to files or journal fails: in a phase
  -- before the installation or at the end, the loop body of `prepare_offline` changes nothing; after
  -- a rollback, or in an unknown phase, it journals that an operator is needed, and a reason; in a
  -- phase of the installation it raises, or the candidate is live without a sorted index and the
  -- journal awaits its validation.
  pub prepare_transaction-IsPrepared :
      (j : Job)
      → j.saved ≡ j.transaction
      → (IsIdle j.transaction.phase × (prepare_transaction sha256 j ≡ (ok tt, j)))
        ⊎ (NeedsNote j.transaction.phase
            × ((prepare_transaction sha256 j).0 ≡ ok tt)
            × IsNoted j (prepare_transaction sha256 j).1)
        ⊎ (IsInstalling j.transaction.phase
            × Finishes j.transaction.candidate_idx (prepare_transaction sha256 j))
  prepare_transaction-IsPrepared j s = by_phase j.transaction.phase j refl s
