-- ===== src/Repair/Resumed.antt =====
-- The sources on which `_repair_one` resumes a transaction.
use s3_storage_node.Common.{ℕ, String, ◌≡◌, Bool, List, some}
use s3_storage_node.Repair.Phase.{Phase}
use s3_storage_node.Repair.Transaction.{SourceIdentity, SourceFingerprint, Transaction}
use s3_storage_node.Repair.Job.{FileEntry, hash_file, hash_opt}
use s3_storage_node.Repair.Journal.{Names, Controller, on_transaction}
use s3_storage_node.Repair.Attempt.{Helpers}
use s3_storage_node.Repair.Build.{repair_source, resume_or_build}

module _ (sha256 : List ℕ → String) (names : Names) (helpers : Helpers) where
  abbrev Resumes :
      Bool
      → SourceIdentity
      → String
      → SourceFingerprint
      → Transaction
      → FileEntry
      → Controller
      → Type 0
  Resumes allow identity base_name fingerprint t f c =
      repair_source sha256 names helpers allow identity base_name fingerprint c
      ≡ on_transaction names t
          (resume_or_build sha256 names helpers allow fingerprint (some (hash_file sha256 f))
            (hash_opt sha256 (c.live base_name).live_sdx))
          c
