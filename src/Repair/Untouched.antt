-- ===== src/Repair/Untouched.antt =====
-- Which methods leave the live files as they were: all that only journal, and the others when they
-- raise.
pub mod Build
pub mod Controller
pub mod Raise
use s3_storage_node.Common.{
  ℕ, ◌+◌, String, ◌≡◌, refl, sym, ap, subst, ◌∙◌, ◌⊎◌, inl, inr, Bool, true, false, not, ◌&&◌, ◌||◌,
  List, [], ◌∷◌, Option, none, some, is_some, Bool-cases, if◌then◌else◌, str_eq, leb,
}
use text.Mathlib.TextEquality.{eq_iff}
use s3_storage_node.Common.Result.{Result, ok, err}
use s3_storage_node.Common.Effect.{
  Effect, then_do, ◌>>=◌, return, raise, raise_when, get_state, modify, need,
}
use s3_storage_node.Common.Effect.Keeps.{
  Keeps, Spared, Spares, is_ok, Keeps-Spares, bind-Keeps, bind-Spares, return-Spares, return-Keeps,
  raise-Keeps, get_state-Keeps, if-Keeps, if-Spares,
}
use s3_storage_node.Helper.Bounds.{BoundsReport}
use s3_storage_node.Repair.Phase.{Phase, backup_created, candidate_built}
use s3_storage_node.Repair.Transaction.{Artifact, SourceIdentity, SourceFingerprint, Transaction}
use s3_storage_node.Repair.Job.{
  FileEntry, Files, Job, RepairError, Work, change, update, save, transition, manual, same_artifact,
}
use s3_storage_node.Repair.Install.{
  give_up, backed_up, record_backup, backup_idx, backup_sdx, create_backups, install_from,
  install_candidate, prepare_temporary, switch, mode_or_default,
}
use s3_storage_node.Repair.Resume.{resume_transaction, resume_phase, artifact_eq}
use s3_storage_node.Repair.Attempt.{Built, Helpers, record_preinstall_failure}
use s3_storage_node.Repair.Build.{
  fail_preinstall, after_recovery, build_failed, install_built, built_from, build_and_install,
  resume_or_build,
}
use s3_storage_node.Repair.Journal.{Names}
use s3_storage_node.Repair.Recovery.Install.{same_artifact-mode}

-- The live files of the volume of a transaction.
abbrev pub live_of : Job → Option FileEntry × Option FileEntry
live_of j = (j.files.live_idx, j.files.live_sdx)

pub update-Keeps : (f : Transaction → Transaction) → Keeps live_of (update f)
update-Keeps f = record { same = λ j. refl }

pub transition-Keeps : (p : Phase) → Keeps live_of (transition p)
transition-Keeps p = record { same = λ j. refl }

pub manual-Keeps : (reason : String) → Keeps live_of (manual reason)
manual-Keeps reason = record { same = λ j. refl }

module _ (sha256 : List ℕ → String) where
  record_backup-Keeps :
      (r : Result RepairError FileEntry) (place : FileEntry → Files → Files)
      (mark : Transaction → Transaction)
      → ((f : FileEntry) → Keeps live_of (change (place f)))
      → Keeps live_of (record_backup sha256 r place mark)
  record_backup-Keeps (err e) place mark h = raise-Keeps
  record_backup-Keeps (ok f) place mark h = bind-Keeps (h f) (λ _. update-Keeps mark)

  backup_idx-Keeps : (o : Option Artifact) → Keeps live_of (backup_idx sha256 o)
  backup_idx-Keeps none = record { same = λ j. refl }
  backup_idx-Keeps (some a) = record {
    same = λ j.
        (record_backup-Keeps (backed_up sha256 j.files.live_idx j.files.backup_idx a) _ _
            (λ f. record { same = λ j. refl })).same
          j;
  }

  backup_sdx-Keeps : (o : Option Artifact) → Keeps live_of (backup_sdx sha256 o)
  backup_sdx-Keeps none = record { same = λ j. refl }
  backup_sdx-Keeps (some a) = record {
    same = λ j.
        (record_backup-Keeps (backed_up sha256 j.files.live_sdx j.files.backup_sdx a) _ _
            (λ f. record { same = λ j. refl })).same
          j;
  }

  pub create_backups-Keeps : Keeps live_of (create_backups sha256)
  unfolding create_backups
  create_backups-Keeps = record {
    same = λ j.
        (bind-Keeps (backup_idx-Keeps j.transaction.old_idx) (λ _.
            bind-Keeps (backup_sdx-Keeps j.transaction.old_sdx)
              (λ _. transition-Keeps backup_created))).same
          j;
  }

  -- Once the temporary file is ready, the installation does not raise.
  switch-ok :
      (expected : Artifact) (j : Job)
      → same_artifact sha256 j.files.installing (some expected) ≡ true
      → is_ok (switch sha256 expected j).0 ≡ true
  switch-ok expected j ready = rw ready refl

  prepared-ok :
      (c : FileEntry) (mode : ℕ) (expected : Artifact) (j : Job)
      → same_artifact sha256 (some (record { content = c.content; mode = mode })) (some expected)
        ≡ true
      → is_ok (then_do (prepare_temporary sha256 c mode expected j) (λ _. switch sha256 expected)).0
        ≡ true
  unfolding prepare_temporary
  prepared-ok c mode expected j same =
      elim (Bool-cases (same_artifact sha256 j.files.installing (some expected))) [
        | inl h ↦ rw h (switch-ok expected j h)
        | inr h ↦ rw h (rw same refl)
      ]

  install_from-Spared :
      (candidate : Option FileEntry) (old expected : Option Artifact) (j : Job)
      → Spared live_of j (install_from sha256 candidate old expected j)
  install_from-Spared candidate old none j = inr refl
  install_from-Spared none old (some expected) j = inr refl
  install_from-Spared (some c) none (some expected) j =
      elim (Bool-cases (same_artifact sha256 (some c) (some expected))) [
        | inl h ↦ rw h (inr refl)
        | inr h ↦ rw h (inr refl)
      ]
  install_from-Spared (some c) (some old) (some expected) j =
      elim (Bool-cases (same_artifact sha256 (some c) (some expected))) [
        | inl h ↦ rw h (
            inl (
              prepared-ok c (mode_or_default old.mode) expected j
                (same_artifact-mode sha256 c _ expected h)))
        | inr h ↦ rw h (inr refl)
      ]

  pub install_candidate-Spares : Spares live_of (install_candidate sha256)
  unfolding install_candidate
  install_candidate-Spares = record {
    same = λ j.
        install_from-Spared j.files.candidate j.transaction.old_idx j.transaction.candidate_idx j;
  }

  pub install_built-Spares :
      (names : Names) (helpers : Helpers) → Spares live_of (install_built sha256 names helpers)
  install_built-Spares names helpers =
      bind-Spares (transition-Keeps candidate_built)
        (λ _. bind-Spares create_backups-Keeps (λ _. return-Spares true install_candidate-Spares))
