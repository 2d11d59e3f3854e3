-- ===== src/Repair/Transaction.antt =====
-- A repair transaction, as the journal holds it.
use s3_storage_node.Common.{ℕ, String, Bool, false, List, [], ◌∷◌, ◌++◌, Option}
use s3_storage_node.Common.Int.{ℤ}
use s3_storage_node.Helper.Fingerprint.{Fingerprint}
use s3_storage_node.Repair.Phase.{Phase, manual_intervention_required}

-- `_hash_file`; the journaled candidate has no mode.
pub record Artifact : Type 0 where
  pub size : ℕ
  pub sha256 : String
  pub mode : Option ℕ

pub record SourceIdentity : Type 0 where
  pub dataset_sentinel_id : String
  pub active_transport : String
  pub collection : String
  pub volume_id : ℤ

-- `source_fingerprint`: the identity with the file's fingerprint, or marked as unavailable.
pub record SourceFingerprint : Type 0 where
  pub identity : SourceIdentity
  pub fingerprint : Option Fingerprint

-- The paths are kept as the files that they name, in `Files`; of those that may be missing there
-- is a mark that they were recorded.
pub record Transaction : Type 0 where
  pub transaction_id : String
  pub volume_id : ℤ
  pub base_name : String
  pub source_identity : SourceIdentity
  pub source_fingerprint : SourceFingerprint
  pub fingerprint_unavailable : Bool
  pub attempt_count : ℕ
  pub phase : Phase
  pub phase_history : List (Phase × ℕ)
  pub updated_at : ℕ
  pub old_idx : Option Artifact
  pub old_sdx : Option Artifact
  pub candidate_idx : Option Artifact
  pub has_install_temp : Bool
  pub has_backup_idx : Bool
  pub has_backup_sdx : Bool
  pub failure_reason : String
  pub resolution_reason : String
  pub success : Bool
  pub rolled_back : Bool
  pub operator_retry_requested : Bool
  pub operator_retry_consumed : Bool

-- What `transition` does to the transaction, before it is saved.
abbrev pub moved : ℕ → Phase → Transaction → Transaction
moved now phase t = record t {
  phase = phase;
  updated_at = now;
  phase_history = t.phase_history ++ (phase, now) ∷ [];
}

-- `_manual`, before it is saved.
abbrev pub made_manual : ℕ → String → Transaction → Transaction
made_manual now reason t =
    moved now manual_intervention_required (record t { success = false; failure_reason = reason })
