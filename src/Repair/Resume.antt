-- ===== src/Repair/Resume.antt =====
-- What a guardian that starts again does with one transaction: the body of the loop of
-- `prepare_offline`, and the branch of `_repair_one` that resumes a transaction.
use s3_storage_node.Common.{
  ℕ, String, Bool, true, false, not, ◌&&◌, ◌||◌, List, [], Option, none, some, ◌==◌, if◌then◌else◌,
  str_eq,
}
use s3_storage_node.Common.Result.{Result, ok}
use s3_storage_node.Common.Effect.{◌>>=◌, return}
use s3_storage_node.Repair.Phase.{
  Phase, candidate_built, backup_created, installing_candidate, candidate_installed,
  awaiting_upstream_validation, manual_intervention_required, rolled_back, other, is_preinstall,
  is_failed_preinstall,
}
use s3_storage_node.Repair.Transaction.{Artifact}
use s3_storage_node.Repair.Job.{
  Durable, Job, RepairError, Work, update, transition, manual, hash_opt,
}
use s3_storage_node.Repair.Install.{
  give_up, create_backups, install_candidate, recover_interrupted_install,
  validate_installed_artifacts,
}

-- `==` on the journaled dictionaries.
abbrev pub opt_eq : Option ℕ → Option ℕ → Bool
opt_eq none none = true
opt_eq (some m) (some n) = m == n
opt_eq _ _ = false

abbrev pub artifact_eq : Option Artifact → Option Artifact → Bool
artifact_eq none none = true
artifact_eq (some a) (some b) = a.size == b.size && str_eq a.sha256 b.sha256 && opt_eq a.mode b.mode
artifact_eq _ _ = false

-- The job of a guardian that starts from a durable state.
abbrev pub restarted : ℕ → Durable → Job
restarted now d = record {
  transaction = d.saved;
  saved = d.saved;
  files = d.disk;
  now = now;
  past = [];
}

-- The default applies when no reason was ever recorded, which the empty string stands for.
abbrev pub reason_or : String → String → String
reason_or default reason = if str_eq reason "" then default else reason

module _ (sha256 : List ℕ → String) where
  -- The loop body of `prepare_offline`, by the phase.
  unfoldable pub prepare_phase : Phase → Work (Unit {0})
  prepare_phase installing_candidate = recover_interrupted_install sha256
  prepare_phase candidate_installed = validate_installed_artifacts sha256
  prepare_phase awaiting_upstream_validation = validate_installed_artifacts sha256
  prepare_phase rolled_back =
      update
        (λ t. record t { failure_reason = reason_or "candidate was rolled back" t.failure_reason })
      >>= λ _. transition manual_intervention_required
  prepare_phase (other _) = manual "unknown crash-recovery phase"
  prepare_phase _ = return tt

  abbrev pub prepare_transaction : Work (Unit {0})
  prepare_transaction j = prepare_phase j.transaction.phase j

  -- Whether the transaction has a candidate that is still to be installed, and what installs it.
  -- The other phases of a transaction that is resumed build the candidate again.
  abbrev pub resume_phase : Phase → Work Bool
  resume_phase backup_created = install_candidate sha256 >>= λ _. return true
  resume_phase candidate_built = do
    _ ← create_backups sha256
    _ ← install_candidate sha256
    return true
  resume_phase _ = return false

  -- The branch of `_repair_one` for a transaction that can be resumed, given the hashes of the
  -- live files; it tells whether the method returns there.
  unfoldable pub resume_transaction : Option Artifact → Option Artifact → Work Bool
  resume_transaction old_idx old_sdx j =
      if not (artifact_eq j.transaction.old_idx old_idx)
        || not (artifact_eq j.transaction.old_sdx old_sdx)
      then give_up sha256 "live derived state changed while a repair transaction was pending"
          "live index state changed during crash recovery" j
      else resume_phase j.transaction.phase j

  -- The branch alone: what `_repair_one` checks before it is in `Repair.Build`.
  abbrev pub resume_preinstall : Work (Unit {0})
  resume_preinstall j =
      if is_preinstall j.transaction.phase && not (is_failed_preinstall j.transaction.phase)
      then (resume_transaction (hash_opt sha256 j.files.live_idx) (hash_opt sha256 j.files.live_sdx)
            >>= λ _. return tt)
          j
      else (ok tt, j)

  -- What a new guardian does with the transaction. It prepares it; then `resumed` tells whether
  -- `_repair_one` gets to its branch for a transaction that can be resumed, which it does for a
  -- volume that the upstream status reports again, if the preflight finds the same fingerprint and
  -- neither the attempts that were made nor the live files forbid it.
  unfoldable pub restart : Bool → ℕ → Durable → Result RepairError (Unit {0}) × Job
  unfolding prepare_phase resume_transaction
  restart resumed now d =
      (prepare_transaction >>= λ _. if resumed then resume_preinstall else return tt)
        (restarted now d)
