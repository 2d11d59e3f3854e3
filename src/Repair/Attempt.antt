-- ===== src/Repair/Attempt.antt =====
-- `_repair_one`: the preflight, the retry decisions, the checks of the live files, and the build and
-- installation of a candidate for one volume.
use s3_storage_node.Common.{
  ℕ, ◌+◌, String, Bool, true, false, not, ◌&&◌, List, [], ◌∷◌, Option, none, some, if◌then◌else◌,
  str_eq, select_if, max, leb,
}
use s3_storage_node.Common.Int.{eq_ℤ}
use s3_storage_node.Common.Result.{Result, ok, err}
use s3_storage_node.Common.Effect.{◌>>=◌, return, get_state, modify}
use s3_storage_node.Helper.Bounds.{BoundsReport}
use s3_storage_node.Helper.Fingerprint.{Fingerprint, same_fingerprint}
use s3_storage_node.Repair.Phase.{detected, failed_preinstall, is_manual}
use s3_storage_node.Repair.Transaction.{Artifact, SourceIdentity, SourceFingerprint, Transaction}
use s3_storage_node.Repair.Job.{
  FileEntry, RepairError, manual_intervention, Work, update, transition, manual,
}
use s3_storage_node.Repair.Journal.{
  Names, Controller, Method, save_transaction, on_transaction, latest_of, is_authorized,
}

abbrev pub preinstall_retry_limit : ℕ
preinstall_retry_limit = 2

abbrev pub same_identity : SourceIdentity → SourceIdentity → Bool
same_identity a b =
    str_eq a.dataset_sentinel_id b.dataset_sentinel_id
    && str_eq a.active_transport b.active_transport
    && str_eq a.collection b.collection
    && eq_ℤ a.volume_id b.volume_id

abbrev pub opt_same : Option Fingerprint → Option Fingerprint → Bool
opt_same none none = true
opt_same (some a) (some b) = same_fingerprint a b
opt_same _ _ = false

-- `==` on the two dicts.
abbrev pub same_source : SourceFingerprint → SourceFingerprint → Bool
same_source a b = same_identity a.identity b.identity && opt_same a.fingerprint b.fingerprint

-- `max(… attempt_count …, default=0)`
abbrev pub most_attempts : List Transaction → ℕ
most_attempts [] = 0
most_attempts (t ∷ ts) = max t.attempt_count (most_attempts ts)

-- What a transaction is created with.
abbrev pub new_transaction :
    String → SourceIdentity → SourceFingerprint → Bool → ℕ → ℕ → String → Transaction
new_transaction id identity fingerprint unavailable attempts now base_name = record {
  transaction_id = id;
  volume_id = identity.volume_id;
  base_name = base_name;
  source_identity = identity;
  source_fingerprint = fingerprint;
  fingerprint_unavailable = unavailable;
  attempt_count = attempts;
  phase = detected;
  phase_history = (detected, now) ∷ [];
  updated_at = now;
  old_idx = none;
  old_sdx = none;
  candidate_idx = none;
  has_install_temp = false;
  has_backup_idx = false;
  has_backup_sdx = false;
  failure_reason = "";
  resolution_reason = "";
  success = false;
  rolled_back = false;
  operator_retry_requested = false;
  operator_retry_consumed = false;
}

-- What the helper reports of a candidate, and the file that it left at the candidate's path.
pub record Built : Type 0 where
  pub source_fingerprint_after : Fingerprint
  pub readonly_mount_verified : Bool
  pub write_rejected : Bool
  pub candidate : Option FileEntry
  pub candidate_size : ℕ
  pub candidate_sha256 : String

-- The helper process, which runs outside: its two modes, and the recovery of an incomplete tail,
-- which tells whether the tail was cut off.
pub record Helpers : Type 0 where
  pub preflight : SourceIdentity → Result RepairError Fingerprint
  pub build : Transaction → Result RepairError Built
  pub recover_tail : Transaction → Option BoundsReport → Result RepairError Bool

module _ (sha256 : List ℕ → String) (names : Names) (helpers : Helpers) where
  -- `RepairJournal.create`
  unfoldable pub create :
      SourceIdentity
      → SourceFingerprint
      → Bool
      → ℕ
      → String
      → Option Artifact
      → Option Artifact
      → Method Transaction
  create identity fingerprint unavailable attempts base_name old_idx old_sdx c =
      let t : Transaction =
        record (new_transaction (names.uuid c.drawn) identity fingerprint unavailable attempts c.now
          base_name) { old_idx = old_idx; old_sdx = old_sdx } in
      (modify (λ c. record c { drawn = c.drawn + 1 }) >>= λ _.
      save_transaction names t >>= λ _. return t)
        c

  -- `_record_preinstall_failure`
  abbrev pub record_preinstall_failure : String → Work (Unit {0})
  record_preinstall_failure reason = do
    _ ← update (λ t. record t { failure_reason = reason })
    _ ← transition failed_preinstall
    j ← get_state
    if leb preinstall_retry_limit j.transaction.attempt_count then manual reason else return tt

  -- The transactions of failed preflights on the source.
  abbrev pub unfingerprinted : SourceIdentity → Controller → List Transaction
  unfingerprinted identity c =
      select_if (λ t. same_identity t.source_identity identity && t.fingerprint_unavailable)
        c.journal

  -- `_authorize_unfingerprinted_retry`
  unfoldable pub authorize_unfingerprinted_retry : SourceIdentity → Method Bool
  authorize_unfingerprinted_retry identity c =
      elim (latest_of (select_if (λ t. is_manual t.phase) (unfingerprinted identity c))) [
        | none ↦ (ok false, c)
        | some t ↦
            if not (is_authorized t)
            then (
              err (manual_intervention "source preflight failures require explicit operator retry"),
              c,
            )
            else (save_transaction names (record t { operator_retry_consumed = true }) >>= λ _.
                  return true)
                c
      ]

  -- `_record_unfingerprinted_failure`
  unfoldable pub record_unfingerprinted_failure :
      SourceIdentity → String → String → Bool → Method (Unit {0})
  unfolding create on_transaction
  record_unfingerprinted_failure identity base_name reason authorized c =
      let attempts = most_attempts (unfingerprinted identity c) in
      if leb preinstall_retry_limit attempts && not authorized
      then (
        err (manual_intervention "bounded automatic source preflight attempts are exhausted"),
        c,
      )
      else (do
        t ←
            create identity (record { identity = identity; fingerprint = none }) true (attempts + 1)
              base_name none none
        _ ← on_transaction names t (record_preinstall_failure reason)
        return tt)
          c

  -- `_record_structural_failure`
  abbrev pub record_structural_failure :
      SourceIdentity → SourceFingerprint → String → ℕ → String → Method (Unit {0})
  record_structural_failure identity fingerprint base_name attempts reason = do
    t ← create identity fingerprint false attempts base_name none none
    _ ← on_transaction names t (manual reason)
    return tt
