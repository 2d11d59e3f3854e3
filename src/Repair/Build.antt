-- ===== src/Repair/Build.antt =====
-- `_repair_one`: the decision to try, and the build and installation of a candidate.
use s3_storage_node.Common.{
  ℕ, ◌+◌, String, Bool, true, false, not, ◌&&◌, ◌||◌, List, [], ◌∷◌, Option, none, some, is_some,
  ◌==◌, if◌then◌else◌, str_eq, any, select_if, leb,
}
use Prim.Native.String.{◌++◌ as ◌+++◌}
use s3_storage_node.Common.Int.{ℤ, eq_ℤ}
use s3_storage_node.Common.Result.{Result, ok, err}
use s3_storage_node.Common.Effect.{◌>>=◌, return, raise, get_state}
use s3_storage_node.Helper.Bounds.{BoundsReport}
use s3_storage_node.Repair.Phase.{
  writers_stopped, source_mounted_readonly, candidate_building, candidate_built, tail_recovered,
  is_manual, is_verified, is_resolved, is_terminal, is_pending_validation, is_preinstall,
  is_failed_preinstall,
}
use s3_storage_node.Repair.Transaction.{Artifact, SourceIdentity, SourceFingerprint, Transaction}
use s3_storage_node.Repair.Job.{
  RepairError, manual_intervention, repair_error, unsafe_candidate, os_error, Work, change, update,
  transition, manual, hash_opt, same_artifact,
}
use s3_storage_node.Repair.Install.{create_backups, install_candidate}
use s3_storage_node.Repair.Resume.{resume_transaction}
use s3_storage_node.Repair.Journal.{
  Names, Controller, Method, save_transaction, on_transaction, latest_of, is_authorized,
}
use s3_storage_node.Repair.Attempt.{
  Built, Helpers, preinstall_retry_limit, same_source, most_attempts, create,
  record_preinstall_failure, authorize_unfingerprinted_retry, record_unfingerprinted_failure,
  record_structural_failure,
}

-- What `except (IndexRepairError, KeyError, TypeError, ValueError)` catches.
abbrev pub is_caught : RepairError → Bool
is_caught os_error = false
is_caught _ = true

-- `str(exc)`, whose text for an exception of Python is not modelled.
abbrev pub reason_of : RepairError → String
reason_of (manual_intervention m) = m
reason_of (repair_error m) = m
reason_of (unsafe_candidate m bounds) = m
reason_of _ = ""

abbrev pub preflight_reason : RepairError → String
preflight_reason e = "source preflight failed: " +++ reason_of e

abbrev pub outdated : String
outdated = "authoritative .dat fingerprint changed before transaction resume"

module _ (sha256 : List ℕ → String) (names : Names) (helpers : Helpers) where
  -- The preflight, whose failure is journaled.
  abbrev pub preflight_source : SourceIdentity → String → Bool → Method SourceFingerprint
  preflight_source identity base_name authorized = elim (helpers.preflight identity) [
    | ok f ↦ return (record { identity = identity; fingerprint = some f })
    | err e ↦
        if is_caught e
        then (record_unfingerprinted_failure sha256 names helpers identity base_name
              (preflight_reason e) authorized
            >>= λ _. raise (repair_error (preflight_reason e)))
        else raise e
  ]

  -- The transactions on the same source.
  abbrev pub on_source : SourceFingerprint → Controller → List Transaction
  on_source fingerprint c = select_if (λ t. same_source t.source_fingerprint fingerprint) c.journal

  -- No second repair of a source that was verified; one retry for each request of an operator after
  -- a failure that needs manual intervention.
  unfoldable pub authorize_retry : List Transaction → Method Bool
  authorize_retry same c =
      if any (λ t. is_verified t.phase) same
      then (
        err (
            manual_intervention
              "this authoritative .dat fingerprint was already repaired and verified; refusing a repair loop"),
        c,
      )
      else elim (latest_of (select_if (λ t. is_manual t.phase) same)) [
        | none ↦ (ok false, c)
        | some t ↦
            if not (is_authorized t)
            then (
              err (
                  manual_intervention
                    "this authoritative .dat fingerprint requires explicit operator retry"),
              c,
            )
            else (save_transaction names (record t { operator_retry_consumed = true }) >>= λ _.
                  return true)
                c
      ]

  abbrev pub attempts_of : List Transaction → ℕ
  attempts_of same = most_attempts (select_if (λ t. not (is_resolved t.phase)) same)

  abbrev pub exhausted : String
  exhausted = "bounded automatic repair attempts are exhausted for this .dat"

  abbrev pub give_up_latest : Option Transaction → Method (Unit {0})
  give_up_latest none = raise (manual_intervention exhausted)
  give_up_latest (some t) =
      on_transaction names t (manual exhausted) >>= λ _. raise (manual_intervention exhausted)

  -- The bound on automatic attempts.
  unfoldable pub check_attempts : List Transaction → Bool → Method (Unit {0})
  unfolding on_transaction
  check_attempts same authorized =
      if leb preinstall_retry_limit (attempts_of same) && not authorized
      then give_up_latest (latest_of (select_if (λ t. is_failed_preinstall t.phase) same))
      else return tt

  -- A transaction of the volume on another state of its source that is neither over nor installed.
  abbrev pub is_outdated : ℤ → SourceFingerprint → Transaction → Bool
  is_outdated volume_id fingerprint t =
      eq_ℤ t.volume_id volume_id
      && not (same_source t.source_fingerprint fingerprint)
      && not (is_terminal t.phase)
      && not (is_pending_validation t.phase)

  abbrev pub close_outdated : ℤ → SourceFingerprint → List Transaction → Method (Unit {0})
  close_outdated volume_id fingerprint [] = return tt
  close_outdated volume_id fingerprint (t ∷ ts) =
      if is_outdated volume_id fingerprint t
      then (on_transaction names t (manual outdated) >>= λ _.
          close_outdated volume_id fingerprint ts)
      else close_outdated volume_id fingerprint ts

  abbrev pub refuse_structure :
      SourceIdentity → SourceFingerprint → String → ℕ → String → Method (Unit {0})
  refuse_structure identity fingerprint base_name attempts reason =
      record_structural_failure sha256 names helpers identity fingerprint base_name attempts reason
      >>= λ _. raise (manual_intervention reason)

  -- Of the live index: is it a file; of the sorted index: is it a symbolic link.
  abbrev pub check_files :
      Bool → Bool → SourceIdentity → SourceFingerprint → String → ℕ → Method (Unit {0})
  check_files false symlink identity fingerprint base_name attempts =
      refuse_structure identity fingerprint base_name attempts "live index is missing or unsafe"
  check_files true true identity fingerprint base_name attempts =
      refuse_structure identity fingerprint base_name attempts "live sorted index is unsafe"
  check_files true false identity fingerprint base_name attempts = return tt

  -- The checks of the live files, whose failure is journaled.
  unfoldable pub check_live : SourceIdentity → SourceFingerprint → String → ℕ → Method (Unit {0})
  unfolding on_transaction create
  check_live identity fingerprint base_name attempts c =
      check_files (is_some (c.live base_name).live_idx) (c.live base_name).sdx_is_symlink identity
        fingerprint base_name attempts c

  -- A failure before the installation, journaled and raised.
  abbrev pub fail_preinstall : {A : Type 0} → String → Work A
  fail_preinstall reason =
      record_preinstall_failure sha256 names helpers reason >>= λ _. raise (repair_error reason)

  -- What the helper's exceptions lead to; `false` asks for another pass after a recovered tail.
  abbrev pub after_recovery : String → Option BoundsReport → Result RepairError Bool → Work Bool
  after_recovery m bounds (err e) = raise e
  after_recovery m bounds (ok true) = update (λ t. record t { success = true }) >>= λ _.
      transition tail_recovered >>= λ _. return false
  after_recovery m bounds (ok false) = manual m >>= λ _. raise (unsafe_candidate m bounds)

  abbrev pub build_failed : RepairError → Work Bool
  build_failed (unsafe_candidate m bounds) = do
    j ← get_state
    after_recovery m bounds (helpers.recover_tail j.transaction bounds)
  build_failed (manual_intervention m) = manual m >>= λ _. raise (manual_intervention m)
  build_failed e = fail_preinstall (reason_of e)

  abbrev pub install_built : Work Bool
  install_built = do
    _ ← transition candidate_built
    _ ← create_backups sha256
    _ ← install_candidate sha256
    return true

  abbrev pub identical : String
  identical = "reconstructed candidate is byte-for-byte identical to the live index"

  -- The size and hash that are reported of the candidate are those of the live index.
  abbrev pub is_identical : Option Artifact → Built → Bool
  is_identical none b = false
  is_identical (some old) b = b.candidate_size == old.size && str_eq b.candidate_sha256 old.sha256

  abbrev pub reported : Built → Artifact
  reported b = record { size = b.candidate_size; sha256 = b.candidate_sha256; mode = none }

  abbrev pub refuse_identical : Work Bool
  refuse_identical = manual identical >>= λ _. raise (manual_intervention identical)

  abbrev pub check_identical : Bool → Option Artifact → Built → Work Bool
  check_identical allow_identical old b =
      if is_identical old b && not allow_identical then refuse_identical else install_built

  abbrev pub check_reported : Bool → Option Artifact → Built → Work Bool
  check_reported allow_identical old b =
      if not (same_artifact sha256 b.candidate (some (reported b)))
      then fail_preinstall "reconstructed candidate does not match its reported size and hash"
      else check_identical allow_identical old b

  abbrev pub record_candidate : Built → Work (Unit {0})
  record_candidate b = update (λ t. record t { candidate_idx = some (reported b) })

  -- The helper has shown that the source was exposed read-only, and that it did not change.
  abbrev pub check_exposure : Bool → SourceFingerprint → Option Artifact → Built → Work Bool
  check_exposure allow_identical fingerprint old b =
      if not (
        same_source
          (record {
            identity = fingerprint.identity;
            fingerprint = some b.source_fingerprint_after;
          })
          fingerprint)
      then (change (λ d. record d { candidate = none }) >>= λ _.
          fail_preinstall
            "authoritative .dat changed between preflight and candidate reconstruction")
      else if not b.readonly_mount_verified || not b.write_rejected
      then fail_preinstall "read-only source exposure was not proven"
      else record_candidate b >>= λ _. check_reported allow_identical old b

  -- From the helper's report of a candidate.
  unfoldable pub built_from : Bool → SourceFingerprint → Option Artifact → Built → Work Bool
  unfolding create_backups install_candidate
  built_from allow_identical fingerprint old b =
      change (λ d. record d { candidate = b.candidate }) >>= λ _.
      check_exposure allow_identical fingerprint old b

  abbrev pub build_outcome :
      Bool → SourceFingerprint → Option Artifact → Result RepairError Built → Work Bool
  build_outcome allow_identical fingerprint old (err e) = build_failed e
  build_outcome allow_identical fingerprint old (ok b) =
      built_from allow_identical fingerprint old b

  -- The end of `_repair_one`, on a transaction that is to be built.
  unfoldable pub build_and_install : Bool → SourceFingerprint → Option Artifact → Work Bool
  unfolding built_from
  build_and_install allow_identical fingerprint old = do
    _ ← transition writers_stopped
    _ ← transition source_mounted_readonly
    _ ← transition candidate_building
    j ← get_state
    build_outcome allow_identical fingerprint old (helpers.build j.transaction)

  abbrev pub is_resumable : Transaction → Bool
  is_resumable t = is_preinstall t.phase && not (is_failed_preinstall t.phase)

  -- A transaction that is resumed either installs its candidate or has it built again.
  abbrev pub resume_or_build :
      Bool → SourceFingerprint → Option Artifact → Option Artifact → Work Bool
  resume_or_build allow_identical fingerprint old_idx old_sdx = do
    done ← resume_transaction sha256 old_idx old_sdx
    if done
        then return true
        else (change (λ d. record d { candidate = none }) >>= λ _.
            build_and_install allow_identical fingerprint old_idx)

  -- With the hashes of the live files.
  abbrev pub go_on :
      Bool
      → SourceIdentity
      → SourceFingerprint
      → String
      → ℕ
      → List Transaction
      → Option Artifact
      → Option Artifact
      → Method (Bool × Transaction)
  go_on allow_identical identity fingerprint base_name attempts same old_idx old_sdx =
      elim (latest_of (select_if is_resumable same)) [
        | some t ↦
            on_transaction names t (resume_or_build allow_identical fingerprint old_idx old_sdx)
        | none ↦
            create sha256 names helpers identity fingerprint false (attempts + 1) base_name old_idx
              old_sdx
            >>= λ t. on_transaction names t (build_and_install allow_identical fingerprint old_idx)
      ]

  abbrev pub begin_work :
      Bool
      → SourceIdentity
      → String
      → SourceFingerprint
      → List Transaction
      → Method (Bool × Transaction)
  begin_work allow_identical identity base_name fingerprint same = do
    c ← get_state
    go_on allow_identical identity fingerprint base_name (attempts_of same) same
        (hash_opt sha256 (c.live base_name).live_idx) (hash_opt sha256 (c.live base_name).live_sdx)

  abbrev pub check_and_begin :
      Bool
      → SourceIdentity
      → String
      → SourceFingerprint
      → List Transaction
      → Method (Bool × Transaction)
  check_and_begin allow_identical identity base_name fingerprint same =
      check_live identity fingerprint base_name (attempts_of same + 1) >>= λ _.
      begin_work allow_identical identity base_name fingerprint same

  abbrev pub close_and_begin :
      Bool
      → SourceIdentity
      → String
      → SourceFingerprint
      → List Transaction
      → Method (Bool × Transaction)
  close_and_begin allow_identical identity base_name fingerprint same = do
    c ← get_state
    _ ← close_outdated identity.volume_id fingerprint c.journal
    check_and_begin allow_identical identity base_name fingerprint same

  abbrev pub attempt_source :
      Bool
      → SourceIdentity
      → String
      → SourceFingerprint
      → List Transaction
      → Bool
      → Method (Bool × Transaction)
  attempt_source allow_identical identity base_name fingerprint same authorized =
      check_attempts same authorized >>= λ _.
      close_and_begin allow_identical identity base_name fingerprint same

  -- From the fingerprint of the source.
  unfoldable pub repair_source :
      Bool → SourceIdentity → String → SourceFingerprint → Method (Bool × Transaction)
  unfolding on_transaction create authorize_retry check_attempts check_live build_and_install
      resume_transaction
  repair_source allow_identical identity base_name fingerprint c =
      (authorize_retry (on_source fingerprint c) >>= λ authorized.
      attempt_source allow_identical identity base_name fingerprint (on_source fingerprint c)
        authorized)
        c

  -- One pass of `_repair_one`: `false` means that the method calls itself again, allowing a
  -- candidate that is identical to the live index.
  unfoldable pub repair_one : Bool → SourceIdentity → String → Method (Bool × Transaction)
  unfolding repair_source authorize_unfingerprinted_retry record_unfingerprinted_failure
  repair_one allow_identical identity base_name = do
    authorized ← authorize_unfingerprinted_retry sha256 names helpers identity
    fingerprint ← preflight_source identity base_name authorized
    repair_source allow_identical identity base_name fingerprint
