-- ===== src/Repair/Tests.antt =====
-- The theorems of `index_repair.py` at concrete inputs.
use s3_storage_node.Common.{
  Option, ℕ, zero, suc, String, ◌≡◌, refl, true, false, List, [], ◌∷◌, none, some, inl, ◌⊎◌, All,
  here, there,
}
use s3_storage_node.Common.Int.{pos}
use s3_storage_node.Common.Result.{ok, err}
use s3_storage_node.Repair.Phase.{
  installing_candidate, candidate_built, verified, awaiting_upstream_validation,
}
use s3_storage_node.Repair.Transaction.{Artifact, SourceIdentity, SourceFingerprint, Transaction}
use s3_storage_node.Repair.Job.{FileEntry, Job, repair_error, Durable, same_artifact}
use s3_storage_node.Repair.Install.{
  rollback, create_backups, backed_up, install_candidate, prepare_temporary,
}
use s3_storage_node.Repair.Resume.{restart, prepare_phase, prepare_transaction, resume_transaction}
use s3_storage_node.Repair.Recovery.{IsInstalled}
use s3_storage_node.Repair.Recovery.Crashes.{
  Crashes, no_crash, crash, built_state, IsOldOrNew, crashes-IsOldOrNew, crashes-IsInstalled,
  crashes-IsRolledBack,
}
use s3_storage_node.Repair.Recovery.Rollback.{IsRolledBack}
use s3_storage_node.Helper.Fingerprint.{Fingerprint}
use s3_storage_node.Seaweed.{VolumeStatus}
use s3_storage_node.Repair.Journal.{Names, Artifacts, Controller, job_for}
use s3_storage_node.Repair.Attempt.{Helpers}
use s3_storage_node.Repair.Build.{repair_one, repair_source, resume_or_build, build_and_install}
use s3_storage_node.Repair.Untouched.Controller.{live_at}
use s3_storage_node.Repair.Untouched.Raise.{IsRefused, repair_one-raise}
use s3_storage_node.Repair.Stopped.{live_in, IsAccounted}
use s3_storage_node.Repair.Stopped.Build.{repair_work-IsAccounted}
use s3_storage_node.Repair.Closed.{repair_source-refuses}
use s3_storage_node.Helper.Bounds.{BoundsReport}
use s3_storage_node.Helper.Tail.{check_candidate}
use s3_storage_node.Repair.Tail.{
  TailSetting, proven_tail, helper_tail, rejected_candidate, proven_tail-check_candidate,
}
use s3_storage_node.Repair.Settled.{
  IsInstalling, NeedsNote, IsIdle, IsNoted, Finishes, prepare_transaction-IsPrepared,
}

abbrev digest : List ℕ → String
digest [] = "0"
digest (_ ∷ []) = "1"
digest _ = "2"

abbrev live_file : FileEntry
live_file = record { content = 1 ∷ []; mode = 416 }

abbrev sorted_file : FileEntry
sorted_file = record { content = 9 ∷ []; mode = 420 }

abbrev candidate_file : FileEntry
candidate_file = record { content = 1 ∷ 2 ∷ []; mode = 384 }

abbrev candidate_artifact : Artifact
candidate_artifact = record { size = 2; sha256 = "2"; mode = none }

abbrev identity : SourceIdentity
identity = record {
  dataset_sentinel_id = "ds";
  active_transport = "cifs";
  collection = "";
  volume_id = pos 3;
}

abbrev transaction : Transaction
transaction = record {
  transaction_id = "t1";
  volume_id = pos 3;
  base_name = "3";
  source_identity = identity;
  source_fingerprint = record { identity = identity; fingerprint = none };
  fingerprint_unavailable = false;
  attempt_count = 1;
  phase = candidate_built;
  phase_history = [];
  updated_at = 5;
  old_idx = none;
  old_sdx = none;
  candidate_idx = none;
  has_install_temp = false;
  has_backup_idx = false;
  has_backup_sdx = false;
  failure_reason = "";
  resolution_reason = "";
  success = false;
  rolled_back = false;
  operator_retry_requested = false;
  operator_retry_consumed = false;
}

abbrev start : Durable
start =
    built_state digest live_file (some sorted_file) candidate_file candidate_artifact transaction

abbrev nth : ℕ → List Durable → Durable
nth n [] = start
nth zero (d ∷ ds) = d
nth (suc n) (d ∷ ds) = nth n ds

-- A crash just after the candidate has replaced the live index.
abbrev crashed : Durable
crashed = nth 3 (restart digest true 7 start).1.past

same : same_artifact digest (some candidate_file) (some candidate_artifact) ≡ true
unfolding same_artifact
same = refl

crashed-Crashes : Crashes digest start crashed
unfolding restart create_backups same_artifact install_candidate prepare_phase resume_transaction
    backed_up prepare_temporary
crashed-Crashes =
    crash true 7 start crashed crashed (there _ _ _ (there _ _ _ (there _ _ _ (here _ _))))
      (no_crash _)

crashes-IsOldOrNew_example :
    IsOldOrNew digest live_file (some sorted_file) candidate_file candidate_artifact same crashed
crashes-IsOldOrNew_example =
    crashes-IsOldOrNew digest live_file (some sorted_file) candidate_file candidate_artifact same
      transaction crashed crashed-Crashes

crashes-IsInstalled_example :
    let out = restart digest true 8 crashed in
    (out.0 ≡ ok tt) × IsInstalled digest live_file (some sorted_file) candidate_artifact out.1
crashes-IsInstalled_example =
    crashes-IsInstalled digest live_file (some sorted_file) candidate_file candidate_artifact same
      transaction crashed 8 crashed-Crashes

crashes-IsRolledBack_example :
    IsRolledBack digest live_file
      (some sorted_file)
      (rollback digest "upstream validation failed" (restart digest true 8 crashed).1)
crashes-IsRolledBack_example =
    crashes-IsRolledBack digest live_file (some sorted_file) candidate_file candidate_artifact same
      transaction crashed 8 "upstream validation failed" crashed-Crashes

abbrev names : Names
names = record { before = λ a b. false; uuid = λ n. "t2" }

abbrev source_state : Fingerprint
source_state = record {
  size = 8;
  mtime_ns = 1;
  head_bytes = 8;
  head_sha256 = "a";
  tail_offset = 0;
  tail_bytes = 8;
  tail_sha256 = "a";
}

abbrev helpers : Helpers
helpers = record {
  preflight = λ i. ok source_state;
  build = λ t. err (repair_error "index repair helper failed");
  recover_tail = λ t bounds. ok false;
}

abbrev no_artifacts : Artifacts
no_artifacts = record { candidate = none; installing = none; backup_idx = none; backup_sdx = none }

abbrev with_journal : List Transaction → Controller
with_journal ts = record {
  journal = ts;
  live = λ base. record {
    live_idx = some live_file;
    live_sdx = some sorted_file;
    sdx_is_symlink = false;
  };
  artifacts = λ id. no_artifacts;
  now = 9;
  drawn = 0;
}

abbrev repaired : Transaction
repaired = record transaction {
  phase = verified;
  source_fingerprint = record { identity = identity; fingerprint = some source_state };
}

abbrev installed_candidate : Transaction
installed_candidate = record transaction { phase = awaiting_upstream_validation }

repair_one-raise_example :
    live_at "3" (repair_one digest names helpers false identity "3" (with_journal [])).1
    ≡ live_at "3" (with_journal [])
unfolding repair_one
repair_one-raise_example =
    repair_one-raise digest names helpers false identity "3" "3"
      (repair_error "index repair helper failed") (with_journal []) refl

abbrev fingerprint : SourceFingerprint
fingerprint = record { identity = identity; fingerprint = some source_state }

repair_source-refuses_example : IsRefused digest names helpers (with_journal (repaired ∷ [])) (
    repair_source digest names helpers false identity "3" fingerprint
      (with_journal (repaired ∷ [])))
repair_source-refuses_example =
    repair_source-refuses digest names helpers false identity "3" fingerprint
      (with_journal (repaired ∷ [])) (inl (repaired, (here _ _, refl), refl))

-- A candidate was built, and the guardian stopped.
abbrev pending : Transaction
pending = record transaction { source_fingerprint = fingerprint }

abbrev status : VolumeStatus
status = record {
  checked = true;
  total = 1;
  readonly = 0;
  writable = 1;
  expected_readonly = 0;
  unexpected_readonly = 0;
  readonly_volume_ids = [];
  unexpected_readonly_volume_ids = [];
  volume_details =
      record { id = pos 3; collection = ""; readonly = false; expected_readonly = false } ∷ [];
  collections = [];
}

abbrev tail_bounds : BoundsReport
tail_bounds = record {
  version = 3;
  source_size = 100;
  index_size = 32;
  entry_count = 2;
  maximum_needle_end = 120;
  maximum_valid_needle_end = 80;
  maximum_entry_offset = 80;
  violations =
      record { needle_id = 7; offset = 80; size = pos 40; end = 120; bytes_past_eof = 20 } ∷ [];
}

abbrev tail_setting : TailSetting
tail_setting = record { enabled = true; max_bytes = 64 }

proven_tail-check_candidate_example :
    ◌≡◌ {A = Option (ℕ × ℕ)}
      (some (80, 20))
      (helper_tail (check_candidate 64 (rejected_candidate (some tail_bounds))))
unfolding proven_tail
proven_tail-check_candidate_example =
    proven_tail-check_candidate tail_setting (some tail_bounds) refl

-- The guardian stopped when the live index was replaced already.
abbrev interrupted : Transaction
interrupted = record transaction {
  phase = installing_candidate;
  candidate_idx = some (record { size = 1; sha256 = "1"; mode = none });
}

abbrev interrupted_job : Job
interrupted_job = job_for interrupted (with_journal (interrupted ∷ []))

prepare_transaction-IsPrepared_example :
    (IsIdle installing_candidate
      × (prepare_transaction digest interrupted_job ≡ (ok tt, interrupted_job)))
    ⊎ (NeedsNote installing_candidate
        × ((prepare_transaction digest interrupted_job).0 ≡ ok tt)
        × IsNoted digest interrupted_job (prepare_transaction digest interrupted_job).1)
    ⊎ (IsInstalling installing_candidate
        × Finishes digest interrupted.candidate_idx (prepare_transaction digest interrupted_job))
prepare_transaction-IsPrepared_example = prepare_transaction-IsPrepared digest interrupted_job refl

repair_work-IsAccounted_example :
    let j = job_for pending (with_journal (pending ∷ [])) in
    All
      (IsAccounted (live_in j.files))
      (resume_or_build digest names helpers false fingerprint none none j).1.past
    × All
        (IsAccounted (live_in j.files))
        (build_and_install digest names helpers false fingerprint none j).1.past
repair_work-IsAccounted_example =
    repair_work-IsAccounted digest names helpers false fingerprint none none pending
      (with_journal (pending ∷ []))
