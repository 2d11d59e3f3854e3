-- ===== src/Repair/Job.antt =====
-- The work on one transaction: the transaction in memory and in the journal, the files that its
-- paths name, and the durable states that the work passes through, in each of which it may crash.
use s3_storage_node.Common.{
  ℕ, String, Bool, false, not, ◌&&◌, List, ◌∷◌, Option, none, some, is_some, ◌==◌, str_eq, length,
}
use s3_storage_node.Common.Result.{ok}
use s3_storage_node.Common.Effect.{Effect, modify}
use s3_storage_node.Helper.Bounds.{BoundsReport}
use s3_storage_node.Repair.Phase.{Phase}
use s3_storage_node.Repair.Transaction.{Artifact, Transaction, moved, made_manual}

pub record FileEntry : Type 0 where
  pub content : List ℕ
  pub mode : ℕ

-- The files of one transaction: the live index and sorted index of its volume, the candidate, the
-- temporary file `.….installing` beside the live index, and the backups.
pub record Files : Type 0 where
  pub live_idx : Option FileEntry
  pub live_sdx : Option FileEntry
  pub candidate : Option FileEntry
  pub installing : Option FileEntry
  pub backup_idx : Option FileEntry
  pub backup_sdx : Option FileEntry

pub record Durable : Type 0 where
  pub saved : Transaction
  pub disk : Files

pub record Job : Type 0 where
  pub transaction : Transaction
  pub saved : Transaction
  pub files : Files
  pub now : ℕ
  pub past : List Durable

-- `IndexRepairManualIntervention`, `IndexRepairError`, `IndexRepairUnsafeCandidate` with the bounds
-- of its payload, and the exceptions of Python that a missing
-- file or key raises.
pub data RepairError : Type 0 where
  manual_intervention repair_error : String → RepairError
  unsafe_candidate : String → Option BoundsReport → RepairError
  os_error key_error : RepairError

abbrev pub Work : Type 0 → Type 0
Work A = Effect RepairError Job A

abbrev pub durable : Job → Durable
durable j = record { saved = j.saved; disk = j.files }

-- A change of the files, after which a crash may come.
abbrev pub change : (Files → Files) → Work (Unit {0})
change f j =
    let j' : Job = record j { files = f j.files } in
    (ok tt, record j' { past = durable j' ∷ j.past })

abbrev pub update : (Transaction → Transaction) → Work (Unit {0})
update f = modify (λ j. record j { transaction = f j.transaction })

-- `journal.save`, an atomic replacement.
abbrev pub save : Work (Unit {0})
save j =
    let j' : Job = record j { saved = j.transaction } in
    (ok tt, record j' { past = durable j' ∷ j.past })

-- `journal.transition`
abbrev pub transition : Phase → Work (Unit {0})
transition phase j =
    let j' : Job = record j {
      transaction = moved j.now phase j.transaction;
      saved = moved j.now phase j.transaction;
    } in
    (ok tt, record j' { past = durable j' ∷ j.past })

-- `_manual`
abbrev pub manual : String → Work (Unit {0})
manual reason j =
    let j' : Job = record j {
      transaction = made_manual j.now reason j.transaction;
      saved = made_manual j.now reason j.transaction;
    } in
    (ok tt, record j' { past = durable j' ∷ j.past })

module _ (sha256 : List ℕ → String) where
  -- `_hash_file`
  abbrev pub hash_file : FileEntry → Artifact
  hash_file f = record { size = length f.content; sha256 = sha256 f.content; mode = some f.mode }

  -- The hash of a file that may be missing.
  abbrev pub hash_opt : Option FileEntry → Option Artifact
  hash_opt none = none
  hash_opt (some f) = some (hash_file f)

  -- `_same_artifact`
  unfoldable pub same_artifact : Option FileEntry → Option Artifact → Bool
  same_artifact file none = not (is_some file)
  same_artifact none (some expected) = false
  same_artifact (some f) (some expected) =
      length f.content == expected.size && str_eq (sha256 f.content) expected.sha256
