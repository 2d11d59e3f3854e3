-- ===== src/Repair/Recovery.antt =====
-- The states in which an installation can crash, and what a guardian that starts again makes of
-- each of them.
pub mod Install
pub mod Restart
pub mod Rollback
pub mod Crashes
use s3_storage_node.Common.{
  ℕ, String, ◌≡◌, refl, sym, ap, subst, ◌∙◌, ◌⊎◌, inl, inr, Bool, true, false, not, ◌&&◌, ◌||◌,
  List, [], ◌∷◌, ◌++◌, Option, none, some, is_some, arith, Bool-cases, if◌then◌else◌, ◌==◌, str_eq,
  All, length,
}
use s3_storage_node.Common.Result.{Result, ok, err}
use s3_storage_node.Common.Effect.{then_do, ◌>>=◌, return}
use s3_storage_node.Repair.Phase.{
  Phase, candidate_built, backup_created, installing_candidate, candidate_installed,
  awaiting_upstream_validation,
}
use s3_storage_node.Repair.Transaction.{Artifact, Transaction, moved}
use s3_storage_node.Repair.Job.{
  FileEntry, Files, Durable, Job, Work, hash_file, hash_opt, same_artifact,
}
use s3_storage_node.Repair.Install.{
  create_backups, install_candidate, recover_interrupted_install, validate_installed_artifacts,
  prepare_temporary, backed_up, torn, without_temporary, prefixes,
}
use s3_storage_node.Repair.Resume.{
  restarted, prepare_phase, prepare_transaction, resume_transaction, artifact_eq, opt_eq,
}

-- The transaction whose journal holds the hashes of the live files and of the candidate.
abbrev pub staged :
    (List ℕ → String)
    → FileEntry
    → Option FileEntry
    → Artifact
    → Phase
    → Bool
    → Transaction
    → Transaction
staged sha256 f s expected phase temp t = record t {
  phase = phase;
  old_idx = some (hash_file sha256 f);
  old_sdx = hash_opt sha256 s;
  candidate_idx = some expected;
  has_install_temp = temp;
}

-- What is at the path of a backup: nothing yet, or the whole file.
pub data Copy : Option FileEntry → Option FileEntry → Type 0 where
  missing : (x : Option FileEntry) → Copy x none
  copied : (x : Option FileEntry) → Copy x x

-- The backup of the sorted index is there, if there was one.
pub data Kept : Option FileEntry → Option FileEntry → Type 0 where
  none_kept : (bs : Option FileEntry) → Kept none bs
  some_kept : (g : FileEntry) → Kept (some g) (some g)

abbrev pub with_backups : Option FileEntry → Transaction → Transaction
with_backups s t = record t {
  has_backup_idx = true;
  has_backup_sdx = is_some s || t.has_backup_sdx;
}

-- What `rollback` reads.
pub record HasBackups (sha256 : List ℕ → String) (f : FileEntry) (s : Option FileEntry) (j : Job)
    : Type 0 where
  pub idx : j.transaction.old_idx ≡ some (hash_file sha256 f)
  pub sdx : j.transaction.old_sdx ≡ hash_opt sha256 s
  pub recorded : j.transaction.has_backup_idx ≡ true
  pub kept : j.files.backup_idx ≡ some f
  pub sdx_recorded : (j.transaction.has_backup_sdx ≡ true) ⊎ (s ≡ none)
  pub sdx_kept : (j.files.backup_sdx ≡ s) ⊎ (s ≡ none)

-- The durable states from which the candidate can still be installed, or is.
pub data Resumable (sha256 : List ℕ → String) (f : FileEntry) (s : Option FileEntry) (c : FileEntry)
    (expected : Artifact) : Durable → Type 0 where
  built :
      (t : Transaction) (temp : Bool) (i bi bs : Option FileEntry)
      → Copy (some f) bi
      → Copy s bs
      → Resumable sha256 f s c expected (record {
        saved = staged sha256 f s expected candidate_built temp t;
        disk = record {
          live_idx = some f;
          live_sdx = s;
          candidate = some c;
          installing = i;
          backup_idx = bi;
          backup_sdx = bs;
        };
      })
  backed :
      (t : Transaction) (temp : Bool) (i bs : Option FileEntry)
      → Kept s bs
      → Resumable sha256 f s c expected (record {
        saved = staged sha256 f s expected backup_created temp (with_backups s t);
        disk = record {
          live_idx = some f;
          live_sdx = s;
          candidate = some c;
          installing = i;
          backup_idx = some f;
          backup_sdx = bs;
        };
      })
  ready :
      (t : Transaction) (i bs : Option FileEntry)
      → Kept s bs
      → Resumable sha256 f s c expected (record {
        saved = staged sha256 f s expected installing_candidate true (with_backups s t);
        disk = record {
          live_idx = some f;
          live_sdx = s;
          candidate = some c;
          installing = i;
          backup_idx = some f;
          backup_sdx = bs;
        };
      })
  replaced :
      (t : Transaction) (temp : Bool) (g sdx i bs : Option FileEntry)
      → Kept s bs
      → same_artifact sha256 g (some expected) ≡ true
      → Resumable sha256 f s c expected (record {
        saved = staged sha256 f s expected installing_candidate temp (with_backups s t);
        disk = record {
          live_idx = g;
          live_sdx = sdx;
          candidate = some c;
          installing = i;
          backup_idx = some f;
          backup_sdx = bs;
        };
      })
  installed :
      (t : Transaction) (temp : Bool) (g i bs : Option FileEntry)
      → Kept s bs
      → same_artifact sha256 g (some expected) ≡ true
      → Resumable sha256 f s c expected (record {
        saved = staged sha256 f s expected candidate_installed temp (with_backups s t);
        disk = record {
          live_idx = g;
          live_sdx = none;
          candidate = some c;
          installing = i;
          backup_idx = some f;
          backup_sdx = bs;
        };
      })
  awaiting :
      (t : Transaction) (temp : Bool) (g i bs : Option FileEntry)
      → Kept s bs
      → same_artifact sha256 g (some expected) ≡ true
      → Resumable sha256 f s c expected (record {
        saved = staged sha256 f s expected awaiting_upstream_validation temp (with_backups s t);
        disk = record {
          live_idx = g;
          live_sdx = none;
          candidate = some c;
          installing = i;
          backup_idx = some f;
          backup_sdx = bs;
        };
      })

-- What a finished installation leaves: the candidate is live without a sorted index, and waits for
-- its validation, in the journal too.
pub record IsInstalled (sha256 : List ℕ → String) (f : FileEntry) (s : Option FileEntry)
    (expected : Artifact) (j : Job) : Type 0 where
  pub live : same_artifact sha256 j.files.live_idx (some expected) ≡ true
  pub sdx : j.files.live_sdx ≡ none
  pub phase : j.saved.phase ≡ awaiting_upstream_validation
  pub saved : j.saved ≡ j.transaction
  pub backups : HasBackups sha256 f s j
