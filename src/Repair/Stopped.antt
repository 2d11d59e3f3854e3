-- ===== src/Repair/Stopped.antt =====
-- The states in which the work on a transaction may stop, by an exception of the code, an error of a
-- file or journal access, or a crash: the live files are as they were until the journal says that
-- an installation has begun.
pub mod Build
use s3_storage_node.Common.{
  ℕ, String, ◌≡◌, refl, ◌∙◌, ◌⊎◌, inl, inr, Bool, true, false, not, List, [], ◌∷◌, ◌++◌, Option,
  none, some, Bool-cases, if◌then◌else◌, All,
}
use s3_storage_node.Common.Result.{Result, ok, err}
use s3_storage_node.Common.Effect.{then_do, ◌>>=◌, return, raise, get_state}
use s3_storage_node.Repair.Phase.{Phase, backup_created, candidate_built}
use s3_storage_node.Repair.Transaction.{Artifact, Transaction}
use s3_storage_node.Repair.Job.{
  FileEntry, Files, Durable, Job, RepairError, Work, change, update, transition, manual,
  same_artifact,
}
use s3_storage_node.Repair.Install.{
  backed_up, record_backup, backup_idx, backup_sdx, create_backups, install_from, install_candidate,
  prepare_temporary, switch, torn, prefixes, mode_or_default,
}
use s3_storage_node.Repair.Build.{install_built}
use s3_storage_node.Repair.Attempt.{Helpers}
use s3_storage_node.Repair.Journal.{Names}
use s3_storage_node.Repair.Settled.{IsInstalling, begun, done, waiting}

abbrev pub Live : Type 0
Live = Option FileEntry × Option FileEntry

abbrev pub live_in : Files → Live
live_in d = (d.live_idx, d.live_sdx)

-- The live files are as they were, or the journal has the transaction in a phase of the installation.
abbrev pub IsAccounted : Live → Durable → Type 0
IsAccounted live d = (live_in d.disk ≡ live) ⊎ IsInstalling d.saved.phase

-- Work that leaves the live files alone.
pub record Quiet {A : Type 0} (live : Live) (m : Work A) : Type 0 where
  pub same :
      (j : Job)
      → live_in j.files ≡ live
      → All (IsAccounted live) j.past
      → (live_in (m j).1.files ≡ live) × All (IsAccounted live) (m j).1.past

-- Work whose states are all accounted for, and which is the last.
pub record Last {A : Type 0} (live : Live) (m : Work A) : Type 0 where
  pub past :
      (j : Job)
      → live_in j.files ≡ live
      → All (IsAccounted live) j.past
      → All (IsAccounted live) (m j).1.past

-- Work that hands a result on adds no state.
pub returned :
    {A B : Type 0} (P : Durable → Type 0) (out : Result RepairError A × Job) (b : B)
    → All P out.1.past
    → All P (then_do out (λ _. return b)).1.past
returned P (ok a, j) b p = p
returned P (err e, j) b p = p

module _ {live : Live} where
  pub Quiet-Last : {A : Type 0} {m : Work A} → Quiet live m → Last live m
  Quiet-Last k = record { past = λ j h a. (k.same j h a).1 }

  then-Quiet :
      {A B : Type 0} (out : Result RepairError A × Job) (f : A → Work B)
      → live_in out.1.files ≡ live
      → All (IsAccounted live) out.1.past
      → ((a : A) → Quiet live (f a))
      → (live_in (then_do out f).1.files ≡ live) × All (IsAccounted live) (then_do out f).1.past
  then-Quiet (ok a, j) f h p k = (k a).same j h p
  then-Quiet (err e, j) f h p k = (h, p)

  then-Last :
      {A B : Type 0} (out : Result RepairError A × Job) (f : A → Work B)
      → live_in out.1.files ≡ live
      → All (IsAccounted live) out.1.past
      → ((a : A) → Last live (f a))
      → All (IsAccounted live) (then_do out f).1.past
  then-Last (ok a, j) f h p k = (k a).past j h p
  then-Last (err e, j) f h p k = p

  pub bind-Quiet :
      {A B : Type 0} {m : Work A} {f : A → Work B}
      → Quiet live m
      → ((a : A) → Quiet live (f a))
      → Quiet live (m >>= f)
  bind-Quiet {m = m} {f = f} q k = record {
    same = λ j h p. let (h', p') = q.same j h p in then-Quiet (m j) f h' p' k;
  }

  pub bind-Last :
      {A B : Type 0} {m : Work A} {f : A → Work B}
      → Quiet live m
      → ((a : A) → Last live (f a))
      → Last live (m >>= f)
  bind-Last {m = m} {f = f} q k = record {
    past = λ j h p. let (h', p') = q.same j h p in then-Last (m j) f h' p' k;
  }

  pub return-Last :
      {A B : Type 0} {m : Work A} (b : B) → Last live m → Last live (m >>= λ _. return b)
  return-Last {m = m} b l = record {
    past = λ j h p. returned (IsAccounted live) (m j) b (l.past j h p);
  }

  pub return-Quiet : {A : Type 0} {a : A} → Quiet live (return a)
  return-Quiet = record { same = λ j h p. (h, p) }

  pub raise-Quiet : {A : Type 0} {e : RepairError} → Quiet live (raise {A = A} e)
  raise-Quiet = record { same = λ j h p. (h, p) }

  pub get_state-Quiet : Quiet live get_state
  get_state-Quiet = record { same = λ j h p. (h, p) }

  pub if-Quiet :
      {A : Type 0} (b : Bool) {m n : Work A}
      → Quiet live m
      → Quiet live n
      → Quiet live (if b then m else n)
  if-Quiet true h k = h
  if-Quiet false h k = k

  pub if-Last :
      {A : Type 0} (b : Bool) {m n : Work A}
      → Last live m
      → Last live n
      → Last live (if b then m else n)
  if-Last true h k = h
  if-Last false h k = k

  pub update-Quiet : (f : Transaction → Transaction) → Quiet live (update f)
  update-Quiet f = record { same = λ j h p. (h, p) }

  pub transition-Quiet : (phase : Phase) → Quiet live (transition phase)
  transition-Quiet phase = record { same = λ j h p. (h, (inl h, p)) }

  pub manual-Quiet : (reason : String) → Quiet live (manual reason)
  manual-Quiet reason = record { same = λ j h p. (h, (inl h, p)) }

  pub change-Quiet :
      (f : Files → Files) → ((d : Files) → live_in (f d) ≡ live_in d) → Quiet live (change f)
  change-Quiet f k = record { same = λ j h p. (k j.files ∙ h, (inl (k j.files ∙ h), p)) }

module _ (sha256 : List ℕ → String) {live : Live} where
  record_backup-Quiet :
      (r : Result RepairError FileEntry) (place : FileEntry → Files → Files)
      (mark : Transaction → Transaction)
      → ((f : FileEntry) (d : Files) → live_in (place f d) ≡ live_in d)
      → Quiet live (record_backup sha256 r place mark)
  record_backup-Quiet (err e) place mark k = raise-Quiet
  record_backup-Quiet (ok f) place mark k =
      bind-Quiet (change-Quiet (place f) (k f)) (λ _. update-Quiet mark)

  backup_idx-Quiet : (o : Option Artifact) → Quiet live (backup_idx sha256 o)
  backup_idx-Quiet none = record { same = λ j h p. (h, p) }
  backup_idx-Quiet (some a) = record {
    same = λ j.
        (record_backup-Quiet (backed_up sha256 j.files.live_idx j.files.backup_idx a) _ _
            (λ f d. refl)).same
          j;
  }

  backup_sdx-Quiet : (o : Option Artifact) → Quiet live (backup_sdx sha256 o)
  backup_sdx-Quiet none = record { same = λ j h p. (h, p) }
  backup_sdx-Quiet (some a) = record {
    same = λ j.
        (record_backup-Quiet (backed_up sha256 j.files.live_sdx j.files.backup_sdx a) _ _
            (λ f d. refl)).same
          j;
  }

  pub create_backups-Quiet : Quiet live (create_backups sha256)
  unfolding create_backups
  create_backups-Quiet = record {
    same = λ j.
        (bind-Quiet (backup_idx-Quiet j.transaction.old_idx) (λ _.
            bind-Quiet (backup_sdx-Quiet j.transaction.old_sdx)
              (λ _. transition-Quiet backup_created))).same
          j;
  }

  torn-All :
      (j : Job) (f : FileEntry) (parts : List (List ℕ)) (rest : List Durable)
      → live_in j.files ≡ live
      → All (IsAccounted live) rest
      → All (IsAccounted live) (torn sha256 j f parts ++ rest)
  torn-All j f [] rest h p = p
  torn-All j f (x ∷ xs) rest h p = (inl h, torn-All j f xs rest h p)

  prepare_temporary-Quiet :
      (c : FileEntry) (mode : ℕ) (expected : Artifact)
      → Quiet live (prepare_temporary sha256 c mode expected)
  unfolding prepare_temporary
  prepare_temporary-Quiet c mode expected = record {
    same = λ j h p. elim (Bool-cases (same_artifact sha256 j.files.installing (some expected))) [
      | inl i ↦ rw i (h, p)
      | inr i ↦ rw i (
        h,
        torn-All j (record { content = c.content; mode = mode }) (prefixes c.content) _ h
            (inl h, p),
      )
    ];
  }

  -- From the journaling of the installation on.
  switch-Last : (expected : Artifact) → Last live (switch sha256 expected)
  switch-Last expected = record {
    past = λ j h p. elim (Bool-cases (same_artifact sha256 j.files.installing (some expected))) [
      | inl i ↦ rw i (inr waiting, (inr done, (inr begun, (inr begun, (inl h, p)))))
      | inr i ↦ rw i (inr begun, (inr begun, (inl h, p)))
    ];
  }

  install_from-Last :
      (candidate : Option FileEntry) (old expected : Option Artifact)
      → Last live (install_from sha256 candidate old expected)
  install_from-Last candidate old none = record { past = λ j h p. p }
  install_from-Last none old (some expected) = record { past = λ j h p. (inl h, p) }
  install_from-Last (some c) none (some expected) =
      if-Last (not (same_artifact sha256 (some c) (some expected)))
        (record { past = λ j h p. (inl h, p) }) (record { past = λ j h p. p })
  install_from-Last (some c) (some old) (some expected) =
      if-Last (not (same_artifact sha256 (some c) (some expected)))
        (record { past = λ j h p. (inl h, p) })
        (bind-Last (prepare_temporary-Quiet c (mode_or_default old.mode) expected)
          (λ _. switch-Last expected))

  pub install_candidate-Last : Last live (install_candidate sha256)
  unfolding install_candidate
  install_candidate-Last = record {
    past = λ j.
        (install_from-Last j.files.candidate j.transaction.old_idx j.transaction.candidate_idx).past
          j;
  }

  pub install_built-Last :
      (names : Names) (helpers : Helpers) → Last live (install_built sha256 names helpers)
  install_built-Last names helpers =
      bind-Last (transition-Quiet candidate_built)
        (λ _. bind-Last create_backups-Quiet (λ _. return-Last true install_candidate-Last))
