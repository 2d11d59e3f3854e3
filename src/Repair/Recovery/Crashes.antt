-- ===== src/Repair/Recovery/Crashes.antt =====
-- Crashes in a row: a guardian crashes, the next one starts from what it left, and so on.
use s3_storage_node.Common.{
  ℕ, String, ◌≡◌, refl, ◌⊎◌, inl, inr, Bool, true, List, Option, none, some, Mem, All-Mem,
}
use s3_storage_node.Common.Result.{ok}
use s3_storage_node.Repair.Phase.{candidate_built}
use s3_storage_node.Repair.Transaction.{Artifact, Transaction}
use s3_storage_node.Repair.Job.{FileEntry, Durable, same_artifact}
use s3_storage_node.Repair.Install.{rollback}
use s3_storage_node.Repair.Resume.{restart}
use s3_storage_node.Repair.Recovery.{
  staged, missing, Resumable, built, backed, ready, replaced, installed, awaiting, IsInstalled,
}
use s3_storage_node.Repair.Recovery.Restart.{restart-IsResumed, restart-Resumable}
use s3_storage_node.Repair.Recovery.Rollback.{IsRolledBack, rollback-IsRolledBack}

-- The last state is left by a crash of a guardian that started from the state before it, whether or
-- not it got to resume the transaction.
pub data Crashes (sha256 : List ℕ → String) : Durable → Durable → Type 0 where
  no_crash : (d : Durable) → Crashes sha256 d d
  crash :
      (resumed : Bool) (now : ℕ) (d e g : Durable)
      → Mem e (restart sha256 resumed now d).1.past
      → Crashes sha256 e g
      → Crashes sha256 d g

-- The candidate is built and journaled, and nothing of it is installed yet.
abbrev pub built_state :
    (List ℕ → String) → FileEntry → Option FileEntry → FileEntry → Artifact → Transaction → Durable
built_state sha256 f s c expected t = record {
  saved = staged sha256 f s expected candidate_built t.has_install_temp t;
  disk = record {
    live_idx = some f;
    live_sdx = s;
    candidate = some c;
    installing = none;
    backup_idx = none;
    backup_sdx = none;
  };
}

module _ (sha256 : List ℕ → String) (f : FileEntry) (s : Option FileEntry) (c : FileEntry)
    (expected : Artifact) (same : same_artifact sha256 (some c) (some expected) ≡ true) where
  Crashes-Resumable :
      (d g : Durable)
      → Resumable sha256 f s c expected d
      → Crashes sha256 d g
      → Resumable sha256 f s c expected g
  Crashes-Resumable d g r (no_crash _) = r
  Crashes-Resumable d g r (crash resumed now _ e _ m rest) =
      let past = restart-Resumable sha256 f s c expected resumed now d same r in
      Crashes-Resumable e g (All-Mem (Resumable sha256 f s c expected) e _ m past) rest

  built_state-Resumable :
      (t : Transaction) → Resumable sha256 f s c expected (built_state sha256 f s c expected t)
  built_state-Resumable t = built t t.has_install_temp none none none (missing _) (missing _)

  -- The live index is the old one, whole and with its sorted index, or matches the candidate.
  abbrev pub IsOldOrNew : Durable → Type 0
  IsOldOrNew d =
      ((d.disk.live_idx ≡ some f) × (d.disk.live_sdx ≡ s))
      ⊎ (same_artifact sha256 d.disk.live_idx (some expected) ≡ true)

  Resumable-IsOldOrNew : (d : Durable) → Resumable sha256 f s c expected d → IsOldOrNew d
  Resumable-IsOldOrNew d (built _ _ _ _ _ _ _) = inl (refl, refl)
  Resumable-IsOldOrNew d (backed _ _ _ _ _) = inl (refl, refl)
  Resumable-IsOldOrNew d (ready _ _ _ _) = inl (refl, refl)
  Resumable-IsOldOrNew d (replaced _ _ _ _ _ _ _ h) = inr h
  Resumable-IsOldOrNew d (installed _ _ _ _ _ _ h) = inr h
  Resumable-IsOldOrNew d (awaiting _ _ _ _ _ _ h) = inr h

  -- However often the guardian crashes between the journaling of a built candidate and the end of
  -- its installation, each state on the disk has the old index, whole and with its sorted index, or
  -- an index with the candidate's size and hash, if the candidate matches its journaled hash.
  pub crashes-IsOldOrNew :
      (t : Transaction) (d : Durable)
      → Crashes sha256 (built_state sha256 f s c expected t) d
      → IsOldOrNew d
  crashes-IsOldOrNew t d k =
      Resumable-IsOldOrNew d (Crashes-Resumable _ d (built_state-Resumable t) k)

  -- From each state that such crashes leave, a guardian that starts again and whose `_repair_one`
  -- gets to the branch that resumes, if no access to files or journal fails, finishes the
  -- installation without an error: the candidate is live, there is no sorted index, the journal
  -- awaits the validation, and what a rollback reads is journaled and on the disk.
  pub crashes-IsInstalled :
      (t : Transaction) (d : Durable) (now : ℕ)
      → Crashes sha256 (built_state sha256 f s c expected t) d
      → let out = restart sha256 true now d in
        (out.0 ≡ ok tt) × IsInstalled sha256 f s expected out.1
  crashes-IsInstalled t d now k =
      let (e, i, _) =
        restart-IsResumed sha256 f s c expected now d same
          (Crashes-Resumable _ d (built_state-Resumable t) k) in
      (e, i)

  -- After any such crashes and a restart that resumes and so finishes the installation, a rollback restores the
  -- index and the sorted index that were live before, contents and modes, and journals that manual
  -- intervention is required.
  pub crashes-IsRolledBack :
      (t : Transaction) (d : Durable) (now : ℕ) (reason : String)
      → Crashes sha256 (built_state sha256 f s c expected t) d
      → IsRolledBack sha256 f s (rollback sha256 reason (restart sha256 true now d).1)
  crashes-IsRolledBack t d now reason k =
      let (_, i) = crashes-IsInstalled t d now k in
      rollback-IsRolledBack sha256 f s reason (restart sha256 true now d).1 i.backups
