-- ===== src/Repair/Recovery/Rollback.antt =====
-- `rollback` from its backups.
use s3_storage_node.Common.{
  ℕ, String, ◌≡◌, refl, sym, ap, subst, ◌⊎◌, inl, inr, true, List, Option, none, some, is_some,
  false≢true,
}
use s3_storage_node.Common.Result.{Result, ok, err, err_ok_absurd}
use s3_storage_node.Common.Effect.{then_do}
use s3_storage_node.Repair.Phase.{manual_intervention_required}
use s3_storage_node.Repair.Job.{FileEntry, Job, RepairError, change, hash_opt}
use s3_storage_node.Repair.Install.{rollback, restored, restore_sdx, mark_rolled_back}
use s3_storage_node.Repair.Recovery.{HasBackups}
use s3_storage_node.Repair.Recovery.Install.{same_artifact-hash_file}

module _ (sha256 : List ℕ → String) where
  -- What a finished rollback leaves.
  abbrev pub IsRolledBack :
      FileEntry → Option FileEntry → Result RepairError (Unit {0}) × Job → Type 0
  IsRolledBack f s out =
      (out.0 ≡ ok tt)
      × (out.1.files.live_idx ≡ some f)
      × (out.1.files.live_sdx ≡ s)
      × (out.1.saved.phase ≡ manual_intervention_required)
      × (out.1.saved.rolled_back ≡ true)

  -- Of the sorted index: what is expected is recorded and kept, or there was none.
  restore_sdx-ok :
      (s : Option FileEntry) (j : Job)
      → j.transaction.old_sdx ≡ hash_opt sha256 s
      → (j.transaction.has_backup_sdx ≡ true) ⊎ (s ≡ none)
      → (j.files.backup_sdx ≡ s) ⊎ (s ≡ none)
      → let out = restore_sdx sha256 (hash_opt sha256 s) j in
        (out.0 ≡ ok tt) × (out.1.files.live_sdx ≡ s) × (out.1.files.live_idx ≡ j.files.live_idx)
  unfolding restored
  restore_sdx-ok none j e r k = (refl, refl, refl)
  restore_sdx-ok (some g) j e (inl r) (inl k) =
      rw (r, k, same_artifact-hash_file sha256 g) (refl, refl, refl)
  restore_sdx-ok (some g) j e (inr n) k = absurd (false≢true (ap is_some (sym n)))
  restore_sdx-ok (some g) j e (inl r) (inr n) = absurd (false≢true (ap is_some (sym n)))

  mark-IsRolledBack :
      (f : FileEntry) (s : Option FileEntry) (reason : String)
      (out : Result RepairError (Unit {0}) × Job)
      → out.0 ≡ ok tt
      → out.1.files.live_sdx ≡ s
      → out.1.files.live_idx ≡ some f
      → IsRolledBack f s (then_do out (λ _. mark_rolled_back sha256 reason))
  mark-IsRolledBack f s reason (ok a, j) e x i = (refl, i, x, refl, refl)
  mark-IsRolledBack f s reason (err o, j) e x i = err_ok_absurd o tt e

  rollback-restore :
      (f : FileEntry) (s : Option FileEntry) (reason : String) (j : Job)
      → HasBackups sha256 f s j
      → rollback sha256 reason j
        ≡ then_do
            (restore_sdx sha256
              (hash_opt sha256 s)
              (change (λ d. record d { live_idx = some f }) j).1)
            (λ _. mark_rolled_back sha256 reason)
  unfolding rollback restored
  rollback-restore f s reason j h =
      simp (rollback, restored, h.idx, h.recorded, h.kept, same_artifact-hash_file sha256 f, h.sdx)

  pub rollback-IsRolledBack :
      (f : FileEntry) (s : Option FileEntry) (reason : String) (j : Job)
      → HasBackups sha256 f s j
      → IsRolledBack f s (rollback sha256 reason j)
  rollback-IsRolledBack f s reason j h =
      let (o, x, i) =
        restore_sdx-ok s (change (λ d. record d { live_idx = some f }) j).1 h.sdx h.sdx_recorded
          h.sdx_kept in
      subst (IsRolledBack f s) (sym (rollback-restore f s reason j h))
        (mark-IsRolledBack f s reason _ o x i)
