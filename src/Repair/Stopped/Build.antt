-- ===== src/Repair/Stopped/Build.antt =====
-- The states in which the end of `_repair_one` may stop.
use s3_storage_node.Common.{
  ℕ, String, ◌≡◌, refl, inl, inr, Bool, true, false, not, ◌&&◌, ◌||◌, List, Option, none, some,
  Bool-cases, if◌then◌else◌, leb, All,
}
use s3_storage_node.Common.Result.{Result, ok, err}
use s3_storage_node.Common.Effect.{then_do, ◌>>=◌, return}
use s3_storage_node.Helper.Bounds.{BoundsReport}
use s3_storage_node.Repair.Phase.{
  Phase, writers_stopped, source_mounted_readonly, candidate_building, failed_preinstall,
  backup_created, candidate_built,
}
use s3_storage_node.Repair.Transaction.{Artifact, SourceFingerprint, Transaction}
use s3_storage_node.Repair.Job.{
  FileEntry, Durable, Job, RepairError, manual_intervention, repair_error, unsafe_candidate,
  os_error, key_error, Work, change, same_artifact,
}
use s3_storage_node.Repair.Install.{create_backups, install_candidate}
use s3_storage_node.Repair.Resume.{resume_transaction, resume_phase, artifact_eq}
use s3_storage_node.Repair.Attempt.{
  Built, Helpers, record_preinstall_failure, preinstall_retry_limit, same_source,
}
use s3_storage_node.Repair.Build.{
  fail_preinstall, after_recovery, build_failed, built_from, build_outcome, check_identical,
  check_reported, check_exposure, refuse_identical, is_identical, reported, build_and_install,
  resume_or_build,
}
use s3_storage_node.Repair.Journal.{Names, Controller, job_for}
use s3_storage_node.Repair.Stopped.{
  Live, live_in, IsAccounted, Quiet, Last, Quiet-Last, bind-Quiet, bind-Last, return-Quiet,
  raise-Quiet, get_state-Quiet, if-Quiet, if-Last, update-Quiet, transition-Quiet, manual-Quiet,
  change-Quiet, create_backups-Quiet, install_candidate-Last, install_built-Last,
}

pub record_preinstall_failure-Quiet :
    {live : Live} (sha256 : List ℕ → String) (names : Names) (helpers : Helpers) (reason : String)
    → Quiet live (record_preinstall_failure sha256 names helpers reason)
record_preinstall_failure-Quiet sha256 names helpers reason =
    bind-Quiet (update-Quiet (λ t. record t { failure_reason = reason })) (λ _.
      bind-Quiet (transition-Quiet failed_preinstall) (λ _. bind-Quiet get_state-Quiet (λ j.
        if-Quiet (leb preinstall_retry_limit j.transaction.attempt_count) (manual-Quiet reason)
          return-Quiet)))

-- A resumption that returns ends the work.
resumed-past :
    (P : Durable → Type 0) (m : Work Bool) (out : Result RepairError (Unit {0}) × Job)
    → All P out.1.past
    → All P
        (then_do (then_do out (λ _. return true)) (λ done. if done then return true else m)).1.past
resumed-past P m (ok a, j) p = p
resumed-past P m (err e, j) p = p

module _ {live : Live} (sha256 : List ℕ → String) (names : Names) (helpers : Helpers) where
  fail_preinstall-Quiet :
      {A : Type 0} (reason : String)
      → Quiet live (fail_preinstall sha256 names helpers {A = A} reason)
  fail_preinstall-Quiet reason =
      bind-Quiet (record_preinstall_failure-Quiet sha256 names helpers reason) (λ _. raise-Quiet)

  after_recovery-Quiet :
      (m : String) (bounds : Option BoundsReport) (r : Result RepairError Bool)
      → Quiet live (after_recovery sha256 names helpers m bounds r)
  after_recovery-Quiet m bounds (err e) = raise-Quiet
  after_recovery-Quiet m bounds (ok true) = record { same = λ j h p. (h, (inl h, p)) }
  after_recovery-Quiet m bounds (ok false) = record { same = λ j h p. (h, (inl h, p)) }

  build_failed-Quiet : (e : RepairError) → Quiet live (build_failed sha256 names helpers e)
  build_failed-Quiet (unsafe_candidate m bounds) =
      bind-Quiet get_state-Quiet
        (λ j. after_recovery-Quiet m bounds (helpers.recover_tail j.transaction bounds))
  build_failed-Quiet (manual_intervention m) = record { same = λ j h p. (h, (inl h, p)) }
  build_failed-Quiet (repair_error m) = fail_preinstall-Quiet m
  build_failed-Quiet os_error = fail_preinstall-Quiet ""
  build_failed-Quiet key_error = fail_preinstall-Quiet ""

  place_candidate-Quiet :
      (c : Option FileEntry) → Quiet live (change (λ d. record d { candidate = c }))
  place_candidate-Quiet c = change-Quiet _ (λ d. refl)

  refuse_identical-Quiet : Quiet live (refuse_identical sha256 names helpers)
  refuse_identical-Quiet = record { same = λ j h p. (h, (inl h, p)) }

  check_identical-Last :
      (allow : Bool) (old : Option Artifact) (b : Built)
      → Last live (check_identical sha256 names helpers allow old b)
  check_identical-Last allow old b =
      if-Last (is_identical sha256 names helpers old b && not allow)
        (Quiet-Last refuse_identical-Quiet) (install_built-Last sha256 names helpers)

  check_reported-Last :
      (allow : Bool) (old : Option Artifact) (b : Built)
      → Last live (check_reported sha256 names helpers allow old b)
  check_reported-Last allow old b =
      if-Last (not (same_artifact sha256 b.candidate (some (reported sha256 names helpers b))))
        (Quiet-Last (
          fail_preinstall-Quiet
            "reconstructed candidate does not match its reported size and hash"))
        (check_identical-Last allow old b)

  check_exposure-Last :
      (allow : Bool) (fingerprint : SourceFingerprint) (old : Option Artifact) (b : Built)
      → Last live (check_exposure sha256 names helpers allow fingerprint old b)
  check_exposure-Last allow fingerprint old b =
      if-Last
        (not (
          same_source
            (record {
              identity = fingerprint.identity;
              fingerprint = some b.source_fingerprint_after;
            })
            fingerprint))
        (Quiet-Last (
          bind-Quiet (place_candidate-Quiet none) (λ _.
            fail_preinstall-Quiet
              "authoritative .dat changed between preflight and candidate reconstruction")))
        (if-Last (not b.readonly_mount_verified || not b.write_rejected)
          (Quiet-Last (fail_preinstall-Quiet "read-only source exposure was not proven"))
          (bind-Last
            (update-Quiet
              (λ t. record t { candidate_idx = some (reported sha256 names helpers b) }))
            (λ _. check_reported-Last allow old b)))

  built_from-Last :
      (allow : Bool) (fingerprint : SourceFingerprint) (old : Option Artifact) (b : Built)
      → Last live (built_from sha256 names helpers allow fingerprint old b)
  unfolding built_from
  built_from-Last allow fingerprint old b =
      bind-Last (place_candidate-Quiet b.candidate)
        (λ _. check_exposure-Last allow fingerprint old b)

  outcome-Last :
      (allow : Bool) (fingerprint : SourceFingerprint) (old : Option Artifact)
      (r : Result RepairError Built)
      → Last live (build_outcome sha256 names helpers allow fingerprint old r)
  outcome-Last allow fingerprint old (err e) = Quiet-Last (build_failed-Quiet e)
  outcome-Last allow fingerprint old (ok b) = built_from-Last allow fingerprint old b

  pub build_and_install-Last :
      (allow : Bool) (fingerprint : SourceFingerprint) (old : Option Artifact)
      → Last live (build_and_install sha256 names helpers allow fingerprint old)
  unfolding build_and_install
  build_and_install-Last allow fingerprint old = bind-Last (transition-Quiet writers_stopped) (λ _.
      bind-Last (transition-Quiet source_mounted_readonly) (λ _.
        bind-Last (transition-Quiet candidate_building) (λ _.
          bind-Last get_state-Quiet
            (λ j. outcome-Last allow fingerprint old (helpers.build j.transaction)))))

  backed-past :
      (m : Work Bool) (out : Result RepairError (Unit {0}) × Job)
      → live_in out.1.files ≡ live
      → All (IsAccounted live) out.1.past
      → All
          (IsAccounted live)
          (then_do
            (then_do out (λ _. install_candidate sha256 >>= λ _. return true))
            (λ done. if done then return true else m)).1.past
  backed-past m (ok a, j) h p =
      resumed-past (IsAccounted live) m (install_candidate sha256 j)
        ((install_candidate-Last sha256).past j h p)
  backed-past m (err e, j) h p = p

  resume_phase-past :
      (m : Work Bool) (phase : Phase) (j : Job)
      → Last live m
      → live_in j.files ≡ live
      → All (IsAccounted live) j.past
      → All
          (IsAccounted live)
          (then_do (resume_phase sha256 phase j) (λ done. if done then return true else m)).1.past
  resume_phase-past m backup_created j k h p =
      resumed-past (IsAccounted live) m _ ((install_candidate-Last sha256).past j h p)
  resume_phase-past m candidate_built j k h p =
      let (h', p') = (create_backups-Quiet sha256).same j h p in
      backed-past m (create_backups sha256 j) h' p'
  resume_phase-past m _ j k h p = k.past j h p

  resume_or_build-Last :
      (allow : Bool) (fingerprint : SourceFingerprint) (old_idx old_sdx : Option Artifact)
      → Last live (resume_or_build sha256 names helpers allow fingerprint old_idx old_sdx)
  unfolding resume_transaction
  resume_or_build-Last allow fingerprint old_idx old_sdx = record {
    past = λ j h p.
        elim (Bool-cases (
          not (artifact_eq j.transaction.old_idx old_idx)
          || not (artifact_eq j.transaction.old_sdx old_sdx))) [
            | inl d ↦ rw d (inl h, p)
            | inr d ↦ rw d (
                resume_phase-past _ j.transaction.phase j
                  (bind-Last (place_candidate-Quiet none)
                    (λ _. build_and_install-Last allow fingerprint old_idx))
                  h p)
          ];
  }

-- The states that the work of `_repair_one` on a transaction passes through, in one of which a raise,
-- an error of an access to files or journal, or a crash stops it: the live index and sorted index
-- are as they were before, or the journal has the transaction in a phase of the installation. This
-- holds of a transaction that is resumed and of one whose candidate is built, whatever the helper
-- processes report.
pub repair_work-IsAccounted :
    (sha256 : List ℕ → String) (names : Names) (helpers : Helpers) (allow : Bool)
    (fingerprint : SourceFingerprint) (old_idx old_sdx : Option Artifact) (t : Transaction)
    (c : Controller)
    → let j = job_for t c in
      All
        (IsAccounted (live_in j.files))
        (resume_or_build sha256 names helpers allow fingerprint old_idx old_sdx j).1.past
      × All
          (IsAccounted (live_in j.files))
          (build_and_install sha256 names helpers allow fingerprint old_idx j).1.past
repair_work-IsAccounted sha256 names helpers allow fingerprint old_idx old_sdx t c = (
  (resume_or_build-Last sha256 names helpers allow fingerprint old_idx old_sdx).past (job_for t c)
      refl tt,
  (build_and_install-Last sha256 names helpers allow fingerprint old_idx).past (job_for t c) refl
      tt,
)
