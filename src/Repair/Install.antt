-- ===== src/Repair/Install.antt =====
-- The installation of a candidate, its backups, its recovery after a crash, and its rollback.
use s3_storage_node.Common.{
  ℕ, String, Bool, true, false, not, ◌&&◌, List, [], ◌∷◌, ◌++◌, map, Option, none, some, is_some,
  if◌then◌else◌,
}
use s3_storage_node.Common.Result.{Result, ok, err}
use s3_storage_node.Common.Effect.{◌>>=◌, raise, raise_when, get_state, need}
use s3_storage_node.Repair.Phase.{
  backup_created, installing_candidate, candidate_installed, awaiting_upstream_validation,
  rolled_back, is_awaiting,
}
use s3_storage_node.Repair.Transaction.{Artifact, Transaction}
use s3_storage_node.Repair.Job.{
  FileEntry, Files, Durable, Job, RepairError, manual_intervention, repair_error, os_error,
  key_error, Work, change, update, transition, manual, same_artifact,
}

-- `… .get("mode", 0o644)`
abbrev pub mode_or_default : Option ℕ → ℕ
mode_or_default none = 420
mode_or_default (some mode) = mode

abbrev pub prefixes : List ℕ → List (List ℕ)
prefixes [] = [] ∷ []
prefixes (x ∷ xs) = [] ∷ map (λ p. x ∷ p) (prefixes xs)

module _ (sha256 : List ℕ → String) where
  -- `_manual` followed by a raise.
  abbrev pub give_up : {A : Type 0} → String → String → Work A
  give_up reason message = manual reason >>= λ _. raise (manual_intervention message)

  -- `_backup_one`, which links or copies the source; the destination appears whole.
  unfoldable pub backed_up :
      Option FileEntry → Option FileEntry → Artifact → Result RepairError FileEntry
  backed_up source (some existing) expected =
      if same_artifact sha256 (some existing) (some expected)
      then ok existing
      else err (repair_error "existing repair backup has the wrong hash")
  backed_up none none expected = err os_error
  backed_up (some f) none expected =
      if same_artifact sha256 (some f) (some expected)
      then ok f
      else err (repair_error "repair backup verification failed")

  -- The path of a backup that was made is recorded, and saved with the next transition.
  abbrev pub record_backup :
      Result RepairError FileEntry
      → (FileEntry → Files → Files)
      → (Transaction → Transaction)
      → Work (Unit {0})
  record_backup (err e) place mark = raise e
  record_backup (ok f) place mark = change (place f) >>= λ _. update mark

  abbrev pub backup_idx : Option Artifact → Work (Unit {0})
  backup_idx none j = (err key_error, j)
  backup_idx (some expected) j =
      record_backup (backed_up j.files.live_idx j.files.backup_idx expected)
        (λ f d. record d { backup_idx = some f }) (λ t. record t { has_backup_idx = true }) j

  -- The sorted index is backed up if there was one.
  abbrev pub backup_sdx : Option Artifact → Work (Unit {0})
  backup_sdx none j = (ok tt, j)
  backup_sdx (some expected) j =
      record_backup (backed_up j.files.live_sdx j.files.backup_sdx expected)
        (λ f d. record d { backup_sdx = some f }) (λ t. record t { has_backup_sdx = true }) j

  -- `_create_backups`
  unfoldable pub create_backups : Work (Unit {0})
  unfolding backed_up
  create_backups j =
      (backup_idx j.transaction.old_idx >>= λ _.
      backup_sdx j.transaction.old_sdx >>= λ _. transition backup_created)
        j

  -- `_remove_stale_sdx`
  abbrev pub remove_stale_sdx : Work (Unit {0})
  remove_stale_sdx = change (λ d. record d { live_sdx = none })

  -- The states of the temporary file while it is written; a crash may leave any part of it.
  abbrev pub torn : Job → FileEntry → List (List ℕ) → List Durable
  torn j f [] = []
  torn j f (p ∷ ps) =
      record {
        saved = j.saved;
        disk = record j.files { installing = some (record f { content = p }) };
      }
      ∷ torn j f ps

  abbrev pub without_temporary : Job → Durable
  without_temporary j = record { saved = j.saved; disk = record j.files { installing = none } }

  -- The temporary file: an old one with another hash is removed, and a copy is made if there is none.
  unfoldable pub prepare_temporary : FileEntry → ℕ → Artifact → Work (Unit {0})
  prepare_temporary candidate mode expected j =
      let f : FileEntry = record { content = candidate.content; mode = mode } in
      if same_artifact sha256 j.files.installing (some expected) then (ok tt, j) else (
        ok tt,
        record j {
          files = record j.files { installing = some f };
          past = torn j f (prefixes f.content) ++ without_temporary j ∷ j.past;
        },
      )

  -- `os.replace(temporary, live_idx)`
  abbrev pub replace_live : Work (Unit {0})
  replace_live = change (λ d. record d { live_idx = d.installing; installing = none })

  abbrev pub finish_install : Work (Unit {0})
  finish_install = transition candidate_installed >>= λ _. transition awaiting_upstream_validation

  -- From the temporary file that is ready. The check reads the live index again, which nothing else
  -- writes; an error of an access is a stop in one of the states passed through.
  abbrev pub switch : Artifact → Work (Unit {0})
  switch expected = do
    _ ← update (λ t. record t { has_install_temp = true })
    _ ← transition installing_candidate
    _ ← replace_live
    _ ← remove_stale_sdx
    j ← get_state
    _ ←
        raise_when (not (same_artifact sha256 j.files.live_idx (some expected)))
          (repair_error "live index does not match candidate after atomic installation")
    finish_install

  abbrev pub install_from : Option FileEntry → Option Artifact → Option Artifact → Work (Unit {0})
  install_from candidate old none = raise key_error
  install_from none old (some expected) =
      give_up "candidate artifact no longer matches its journaled hash"
        "candidate artifact is missing or changed"
  install_from (some candidate) old (some expected) =
      if not (same_artifact sha256 (some candidate) (some expected))
      then give_up "candidate artifact no longer matches its journaled hash"
          "candidate artifact is missing or changed"
      else need old key_error >>= λ o.
          prepare_temporary candidate (mode_or_default o.mode) expected >>= λ _. switch expected

  -- `_install_candidate`
  unfoldable pub install_candidate : Work (Unit {0})
  unfolding prepare_temporary
  install_candidate j =
      install_from j.files.candidate j.transaction.old_idx j.transaction.candidate_idx j

  -- The end of `_recover_interrupted_install` when the live index is the old one. Without a
  -- recorded path the temporary file is `Path("")`, a directory, which `unlink` refuses.
  abbrev pub resume_install : Bool → Work (Unit {0})
  resume_install true = replace_live >>= λ _. remove_stale_sdx >>= λ _. finish_install
  resume_install false = do
    j ← get_state
    _ ← raise_when (not j.transaction.has_install_temp) os_error
    _ ← change (λ d. record d { installing = none })
    install_candidate

  abbrev pub recover_from : Bool → Bool → Bool → Work (Unit {0})
  recover_from true is_old ready = remove_stale_sdx >>= λ _. finish_install
  recover_from false true ready = resume_install ready
  recover_from false false ready =
      give_up "interrupted install left an unrecognized live index"
        "interrupted install cannot be reconciled safely"

  -- `_recover_interrupted_install`
  unfoldable pub recover_interrupted_install : Work (Unit {0})
  unfolding install_candidate
  recover_interrupted_install j =
      recover_from (same_artifact sha256 j.files.live_idx j.transaction.candidate_idx)
        (same_artifact sha256 j.files.live_idx j.transaction.old_idx)
        (j.transaction.has_install_temp
          && is_some j.files.installing
          && same_artifact sha256 j.files.installing j.transaction.candidate_idx)
        j

  -- `_validate_installed_artifacts`
  unfoldable pub validate_installed_artifacts : Work (Unit {0})
  validate_installed_artifacts j =
      if not (same_artifact sha256 j.files.live_idx j.transaction.candidate_idx)
      then give_up "installed live index does not match the journaled candidate"
          "live index is inconsistent with its repair journal" j
      else if is_some j.files.live_sdx
      then give_up "stale .sdx exists after candidate installation"
          "stale .sdx after repair installation" j
      else if is_awaiting j.transaction.phase
      then (ok tt, j)
      else transition awaiting_upstream_validation j

  -- `_restore_one`: what the destination holds afterwards.
  unfoldable pub restored : Option FileEntry → Artifact → Result RepairError FileEntry
  restored none expected = err (manual_intervention "repair backup is missing or changed")
  restored (some backup) expected =
      if same_artifact sha256 (some backup) (some expected)
      then ok (record backup { mode = mode_or_default expected.mode })
      else err (manual_intervention "repair backup is missing or changed")

  -- The rollback of the sorted index, which is removed if there was none.
  abbrev pub restore_sdx : Option Artifact → Work (Unit {0})
  restore_sdx none j = change (λ d. record d { live_sdx = none }) j
  restore_sdx (some expected) j =
      if not j.transaction.has_backup_sdx
      then (err key_error, j)
      else elim (restored j.files.backup_sdx expected) [
        | err e ↦ (err e, j)
        | ok f ↦ change (λ d. record d { live_sdx = some f }) j
      ]

  abbrev pub mark_rolled_back : String → Work (Unit {0})
  mark_rolled_back reason =
      update (λ t. record t { rolled_back = true; failure_reason = reason }) >>= λ _.
      transition rolled_back >>= λ _. manual reason

  -- `_rollback`
  unfoldable pub rollback : String → Work (Unit {0})
  unfolding restored
  rollback reason j = elim j.transaction.old_idx [
    | none ↦ (err key_error, j)
    | some expected ↦
        if not j.transaction.has_backup_idx
        then (err key_error, j)
        else elim (restored j.files.backup_idx expected) [
          | err e ↦ (err e, j)
          | ok f ↦
              (change (λ d. record d { live_idx = some f }) >>= λ _.
              restore_sdx j.transaction.old_sdx >>= λ _. mark_rolled_back reason)
                j
        ]
  ]
