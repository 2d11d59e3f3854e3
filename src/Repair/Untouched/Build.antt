-- ===== src/Repair/Untouched/Build.antt =====
-- The end of `_repair_one` leaves the live files as they were when it raises.
use s3_storage_node.Common.{
  ℕ, String, ◌≡◌, refl, inl, inr, Bool, true, false, not, ◌&&◌, ◌||◌, List, Option, none, some,
  Bool-cases, if◌then◌else◌, leb, false≢true,
}
use s3_storage_node.Common.Result.{Result, ok, err}
use s3_storage_node.Common.Effect.{then_do, ◌>>=◌, return}
use s3_storage_node.Common.Effect.Keeps.{
  Keeps, Spared, Spared-trans, Spares, Keeps-Spares, bind-Keeps, bind-Spares, return-Keeps,
  raise-Keeps, get_state-Keeps, if-Keeps, if-Spares,
}
use s3_storage_node.Helper.Bounds.{BoundsReport}
use s3_storage_node.Repair.Phase.{
  Phase, writers_stopped, source_mounted_readonly, candidate_building, failed_preinstall,
  backup_created, candidate_built,
}
use s3_storage_node.Repair.Transaction.{Artifact, SourceFingerprint}
use s3_storage_node.Repair.Job.{
  FileEntry, Job, RepairError, manual_intervention, repair_error, unsafe_candidate, os_error,
  key_error, Work, change, same_artifact,
}
use s3_storage_node.Repair.Install.{create_backups, install_candidate}
use s3_storage_node.Repair.Resume.{resume_transaction, resume_phase, artifact_eq}
use s3_storage_node.Repair.Attempt.{
  Built, Helpers, record_preinstall_failure, preinstall_retry_limit, same_source,
}
use s3_storage_node.Repair.Build.{
  fail_preinstall, after_recovery, build_failed, built_from, build_outcome, check_identical,
  check_reported, check_exposure, refuse_identical, is_identical, reported, build_and_install,
  resume_or_build,
}
use s3_storage_node.Repair.Journal.{Names}
use s3_storage_node.Repair.Untouched.{
  live_of, update-Keeps, transition-Keeps, manual-Keeps, create_backups-Keeps,
  install_candidate-Spares, install_built-Spares,
}

pub record_preinstall_failure-Keeps :
    (sha256 : List ℕ → String) (names : Names) (helpers : Helpers) (reason : String)
    → Keeps live_of (record_preinstall_failure sha256 names helpers reason)
record_preinstall_failure-Keeps sha256 names helpers reason =
    bind-Keeps (update-Keeps (λ t. record t { failure_reason = reason })) (λ _.
      bind-Keeps (transition-Keeps failed_preinstall) (λ _. bind-Keeps get_state-Keeps (λ j.
        if-Keeps (leb preinstall_retry_limit j.transaction.attempt_count) (manual-Keeps reason)
          return-Keeps)))

module _ (sha256 : List ℕ → String) (names : Names) (helpers : Helpers) where
  fail_preinstall-Keeps :
      {A : Type 0} (reason : String)
      → Keeps live_of (fail_preinstall sha256 names helpers {A = A} reason)
  fail_preinstall-Keeps reason =
      bind-Keeps (record_preinstall_failure-Keeps sha256 names helpers reason) (λ _. raise-Keeps)

  after_recovery-Keeps :
      (m : String) (bounds : Option BoundsReport) (r : Result RepairError Bool)
      → Keeps live_of (after_recovery sha256 names helpers m bounds r)
  after_recovery-Keeps m bounds (err e) = raise-Keeps
  after_recovery-Keeps m bounds (ok true) = record { same = λ j. refl }
  after_recovery-Keeps m bounds (ok false) = record { same = λ j. refl }

  build_failed-Keeps : (e : RepairError) → Keeps live_of (build_failed sha256 names helpers e)
  build_failed-Keeps (unsafe_candidate m bounds) =
      bind-Keeps get_state-Keeps
        (λ j. after_recovery-Keeps m bounds (helpers.recover_tail j.transaction bounds))
  build_failed-Keeps (manual_intervention m) = record { same = λ j. refl }
  build_failed-Keeps (repair_error m) = fail_preinstall-Keeps m
  build_failed-Keeps os_error = fail_preinstall-Keeps ""
  build_failed-Keeps key_error = fail_preinstall-Keeps ""

  place_candidate-Keeps :
      (c : Option FileEntry) → Keeps live_of (change (λ d. record d { candidate = c }))
  place_candidate-Keeps c = record { same = λ j. refl }

  refuse_identical-Keeps : Keeps live_of (refuse_identical sha256 names helpers)
  refuse_identical-Keeps = record { same = λ j. refl }

  check_identical-Spares :
      (allow : Bool) (old : Option Artifact) (b : Built)
      → Spares live_of (check_identical sha256 names helpers allow old b)
  check_identical-Spares allow old b =
      if-Spares (is_identical sha256 names helpers old b && not allow)
        (Keeps-Spares refuse_identical-Keeps) (install_built-Spares sha256 names helpers)

  check_reported-Spares :
      (allow : Bool) (old : Option Artifact) (b : Built)
      → Spares live_of (check_reported sha256 names helpers allow old b)
  check_reported-Spares allow old b =
      if-Spares (not (same_artifact sha256 b.candidate (some (reported sha256 names helpers b))))
        (Keeps-Spares (
          fail_preinstall-Keeps
            "reconstructed candidate does not match its reported size and hash"))
        (check_identical-Spares allow old b)

  check_exposure-Spares :
      (allow : Bool) (fingerprint : SourceFingerprint) (old : Option Artifact) (b : Built)
      → Spares live_of (check_exposure sha256 names helpers allow fingerprint old b)
  check_exposure-Spares allow fingerprint old b =
      if-Spares
        (not (
          same_source
            (record {
              identity = fingerprint.identity;
              fingerprint = some b.source_fingerprint_after;
            })
            fingerprint))
        (Keeps-Spares (
          bind-Keeps (place_candidate-Keeps none) (λ _.
            fail_preinstall-Keeps
              "authoritative .dat changed between preflight and candidate reconstruction")))
        (if-Spares (not b.readonly_mount_verified || not b.write_rejected)
          (Keeps-Spares (fail_preinstall-Keeps "read-only source exposure was not proven"))
          (bind-Spares
            (update-Keeps
              (λ t. record t { candidate_idx = some (reported sha256 names helpers b) }))
            (λ _. check_reported-Spares allow old b)))

  built_from-Spares :
      (allow : Bool) (fingerprint : SourceFingerprint) (old : Option Artifact) (b : Built)
      → Spares live_of (built_from sha256 names helpers allow fingerprint old b)
  unfolding built_from
  built_from-Spares allow fingerprint old b =
      bind-Spares (place_candidate-Keeps b.candidate)
        (λ _. check_exposure-Spares allow fingerprint old b)

  outcome-Spares :
      (allow : Bool) (fingerprint : SourceFingerprint) (old : Option Artifact)
      (r : Result RepairError Built)
      → Spares live_of (build_outcome sha256 names helpers allow fingerprint old r)
  outcome-Spares allow fingerprint old (err e) = Keeps-Spares (build_failed-Keeps e)
  outcome-Spares allow fingerprint old (ok b) = built_from-Spares allow fingerprint old b

  pub build_and_install-Spares :
      (allow : Bool) (fingerprint : SourceFingerprint) (old : Option Artifact)
      → Spares live_of (build_and_install sha256 names helpers allow fingerprint old)
  unfolding build_and_install
  build_and_install-Spares allow fingerprint old =
      bind-Spares (transition-Keeps writers_stopped) (λ _.
        bind-Spares (transition-Keeps source_mounted_readonly) (λ _.
          bind-Spares (transition-Keeps candidate_building) (λ _.
            bind-Spares get_state-Keeps
              (λ j. outcome-Spares allow fingerprint old (helpers.build j.transaction)))))

  -- A first part that returns `true` or raises, each with the files as `Spared` says.
  resumed-Spared :
      (m : Work Bool) (j : Job) (out : Result RepairError (Unit {0}) × Job)
      → Spared live_of j out
      → Spared live_of j
          (then_do (then_do out (λ _. return true)) (λ done. if done then return true else m))
  resumed-Spared m j (ok a, j') h = inl refl
  resumed-Spared m j (err e, j') (inl r) = absurd (false≢true r)
  resumed-Spared m j (err e, j') (inr r) = inr r

  backed-Spared :
      (m : Work Bool) (j : Job) (out : Result RepairError (Unit {0}) × Job)
      → live_of out.1 ≡ live_of j
      → Spared live_of j (
          then_do
            (then_do out (λ _. install_candidate sha256 >>= λ _. return true))
            (λ done. if done then return true else m))
  backed-Spared m j (ok a, j') h =
      Spared-trans live_of {s = j} {t = j'}
        (then_do (then_do (install_candidate sha256 j') (λ _. return true))
          (λ done. if done then return true else m))
        h
        (resumed-Spared m j' (install_candidate sha256 j')
          ((install_candidate-Spares sha256).same j'))
  backed-Spared m j (err e, j') h = inr h

  resume_phase-Spared :
      (m : Work Bool) (p : Phase) (j : Job)
      → Spares live_of m
      → Spared live_of j
          (then_do (resume_phase sha256 p j) (λ done. if done then return true else m))
  resume_phase-Spared m backup_created j k =
      resumed-Spared m j _ ((install_candidate-Spares sha256).same j)
  resume_phase-Spared m candidate_built j k =
      backed-Spared m j (create_backups sha256 j) ((create_backups-Keeps sha256).same j)
  resume_phase-Spared m _ j k = k.same j

  pub resume_or_build-Spares :
      (allow : Bool) (fingerprint : SourceFingerprint) (old_idx old_sdx : Option Artifact)
      → Spares live_of (resume_or_build sha256 names helpers allow fingerprint old_idx old_sdx)
  unfolding resume_transaction
  resume_or_build-Spares allow fingerprint old_idx old_sdx = record {
    same = λ j.
        elim (Bool-cases (
          not (artifact_eq j.transaction.old_idx old_idx)
          || not (artifact_eq j.transaction.old_sdx old_sdx))) [
            | inl h ↦ rw h (inr refl)
            | inr h ↦ rw h (
                resume_phase-Spared _ j.transaction.phase j (
                  bind-Spares (place_candidate-Keeps none)
                    (λ _. build_and_install-Spares allow fingerprint old_idx)))
          ];
  }
