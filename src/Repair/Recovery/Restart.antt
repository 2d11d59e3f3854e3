-- ===== src/Repair/Recovery/Restart.antt =====
-- What a guardian that starts again makes of each state in which the installation can crash.
use s3_storage_node.Common.{
  ℕ, String, ◌≡◌, refl, sym, ap, subst, ◌∙◌, inl, inr, Bool, true, false, not, ◌&&◌, List, [],
  Option, none, some, is_some, ==_iff, Bool-cases, and_true, str_eq_refl, All, length,
}
use s3_storage_node.Common.Result.{Result, ok, err, err_ok_absurd}
use s3_storage_node.Common.Effect.{then_do, ◌>>=◌, return}
use s3_storage_node.Repair.Phase.{
  backup_created, installing_candidate, candidate_installed, awaiting_upstream_validation,
  is_preinstall, is_failed_preinstall,
}
use s3_storage_node.Repair.Transaction.{Artifact, Transaction, moved}
use s3_storage_node.Repair.Job.{FileEntry, Durable, Job, RepairError, hash_opt, same_artifact}
use s3_storage_node.Repair.Install.{
  install_candidate, recover_interrupted_install, validate_installed_artifacts,
}
use s3_storage_node.Repair.Resume.{
  restarted, prepare_phase, resume_transaction, artifact_eq, resume_preinstall, restart,
}
use s3_storage_node.Repair.Recovery.{
  staged, Kept, with_backups, Resumable, built, backed, ready, replaced, installed, awaiting,
  IsInstalled,
}
use s3_storage_node.Repair.Recovery.Install.{
  same_artifact-hash_file, Kept-recorded, Kept-same, install_candidate-IsInstalled,
  create_backups-AreCreated,
}

module _ (sha256 : List ℕ → String) where
  artifact_eq-hash_opt :
      (x : Option FileEntry) → artifact_eq (hash_opt sha256 x) (hash_opt sha256 x) ≡ true
  artifact_eq-hash_opt none = refl
  artifact_eq-hash_opt (some f) =
      rw ((==_iff (length f.content) (length f.content)).1 refl)
        (rw (str_eq_refl (sha256 f.content)) ((==_iff f.mode f.mode).1 refl))

  -- The installation is finished, and a crash on the way leaves a state that can be resumed.
  abbrev pub IsResumed :
      FileEntry
      → Option FileEntry
      → FileEntry
      → Artifact
      → Result RepairError (Unit {0}) × Job
      → Type 0
  IsResumed f s c expected out =
      (out.0 ≡ ok tt)
      × IsInstalled sha256 f s expected out.1
      × All (Resumable sha256 f s c expected) out.1.past

  IsResumed-then_do :
      (f : FileEntry) (s : Option FileEntry) (c : FileEntry) (expected : Artifact)
      (out : Result RepairError (Unit {0}) × Job)
      → IsResumed f s c expected out
      → IsResumed f s c expected (then_do (then_do out (λ _. return true)) (λ _. return tt))
  IsResumed-then_do f s c expected (ok a, j) (e, i, past) = (refl, i, past)
  IsResumed-then_do f s c expected (err e, j) (h, i, past) = err_ok_absurd e tt h

  IsResumed-resume_preinstall :
      (f : FileEntry) (s : Option FileEntry) (c : FileEntry) (expected : Artifact)
      (out : Result RepairError (Unit {0}) × Job)
      → IsResumed f s c expected out
      → IsResumed f s c expected (then_do out (λ _. resume_preinstall sha256))
  IsResumed-resume_preinstall f s c expected (ok a, j) (e, i, past) =
      let phase : j.transaction.phase ≡ awaiting_upstream_validation =
        ap (λ t. t.phase) (sym i.saved) ∙ i.phase in
      let rest : (is_preinstall j.transaction.phase
            && not (is_failed_preinstall j.transaction.phase))
          ≡ false =
        ap (λ p. is_preinstall p && not (is_failed_preinstall p)) phase in
      rw rest (refl, i, past)
  IsResumed-resume_preinstall f s c expected (err e, j) (h, i, past) = err_ok_absurd e tt h

  module _ (f : FileEntry) (s : Option FileEntry) (c : FileEntry) (expected : Artifact) (now : ℕ)
      (same : same_artifact sha256 (some c) (some expected) ≡ true) where
    recover-IsResumed :
        (t : Transaction) (i bs : Option FileEntry)
        → Kept s bs
        → IsResumed f s c expected (
            recover_interrupted_install sha256 (
              restarted now (record {
                saved = staged sha256 f s expected installing_candidate true (with_backups s t);
                disk = record {
                  live_idx = some f;
                  live_sdx = s;
                  candidate = some c;
                  installing = i;
                  backup_idx = some f;
                  backup_sdx = bs;
                };
              })))
    unfolding recover_interrupted_install
    recover-IsResumed t i bs y =
        let t2 = moved now candidate_installed t in
        let t3 = moved now awaiting_upstream_validation t2 in
        elim (Bool-cases (same_artifact sha256 (some f) (some expected))) [
          | inl h ↦ rw h (
            refl,
            record {
              live = h;
              sdx = refl;
              phase = refl;
              saved = refl;
              backups = record {
                idx = refl;
                sdx = refl;
                recorded = refl;
                kept = refl;
                sdx_recorded = Kept-recorded s bs t y;
                sdx_kept = Kept-same s bs y;
              };
            },
            (
              awaiting t3 true (some f) i bs y h,
              (installed t2 true (some f) i bs y h, (replaced t true (some f) none i bs y h, tt)),
            ),
          )
          | inr h ↦ rw h (
              rw (same_artifact-hash_file sha256 f)
                (elim (Bool-cases (is_some i && same_artifact sha256 i (some expected))) [
                  | inl r ↦
                      let m = (and_true (is_some i) (same_artifact sha256 i (some expected)) r).1 in
                      rw r (
                        refl,
                        record {
                          live = m;
                          sdx = refl;
                          phase = refl;
                          saved = refl;
                          backups = record {
                            idx = refl;
                            sdx = refl;
                            recorded = refl;
                            kept = refl;
                            sdx_recorded = Kept-recorded s bs t y;
                            sdx_kept = Kept-same s bs y;
                          };
                        },
                        (
                          awaiting t3 true i none bs y m,
                          (
                            installed t2 true i none bs y m,
                            (
                              replaced t true i none none bs y m,
                              (replaced t true i s none bs y m, tt),
                            ),
                          ),
                        ),
                      )
                  | inr r ↦ rw r (
                      install_candidate-IsInstalled sha256 f s c expected same installing_candidate
                        true t none bs now _ y (λ x. ready t x bs y) (ready t none bs y, tt))
                ]))
        ]

  pub restart-IsResumed :
      (f : FileEntry) (s : Option FileEntry) (c : FileEntry) (expected : Artifact) (now : ℕ)
      (d : Durable)
      → same_artifact sha256 (some c) (some expected) ≡ true
      → Resumable sha256 f s c expected d
      → IsResumed f s c expected (restart sha256 true now d)
  unfolding restart prepare_phase resume_transaction recover_interrupted_install
      validate_installed_artifacts
  restart-IsResumed f s c expected now d same (built t temp i bi bs x y) =
      rw (artifact_eq-hash_opt (some f)) (
        rw (artifact_eq-hash_opt s) (
          let (t', bs', y', e, a) =
            create_backups-AreCreated sha256 f c expected s temp t i bi bs now [] x y tt same in
          subst
            (λ o. IsResumed f s c expected (
              then_do (then_do o (λ _. install_candidate sha256 >>= λ _. return true))
                (λ _. return tt)))
            (sym e)
            (IsResumed-then_do f s c expected _ (
              install_candidate-IsInstalled sha256 f s c expected same backup_created temp t' i bs'
                now _ y' (λ x. backed t' temp x bs' y') a))))
  restart-IsResumed f s c expected now d same (backed t temp i bs y) =
      rw (artifact_eq-hash_opt (some f)) (
        rw (artifact_eq-hash_opt s) (
          IsResumed-then_do f s c expected _ (
            install_candidate-IsInstalled sha256 f s c expected same backup_created temp t i bs now
              [] y (λ x. backed t temp x bs y) tt)))
  restart-IsResumed f s c expected now d same (ready t i bs y) =
      IsResumed-resume_preinstall f s c expected _
        (recover-IsResumed f s c expected now same t i bs y)
  restart-IsResumed f s c expected now d same (replaced t temp g sdx i bs y h) = rw h (
    refl,
    record {
      live = h;
      sdx = refl;
      phase = refl;
      saved = refl;
      backups = record {
        idx = refl;
        sdx = refl;
        recorded = refl;
        kept = refl;
        sdx_recorded = Kept-recorded s bs t y;
        sdx_kept = Kept-same s bs y;
      };
    },
    (
      awaiting (moved now awaiting_upstream_validation (moved now candidate_installed t)) temp g i
          bs y h,
      (
        installed (moved now candidate_installed t) temp g i bs y h,
        (replaced t temp g none i bs y h, tt),
      ),
    ),
  )
  restart-IsResumed f s c expected now d same (installed t temp g i bs y h) = rw h (
    refl,
    record {
      live = h;
      sdx = refl;
      phase = refl;
      saved = refl;
      backups = record {
        idx = refl;
        sdx = refl;
        recorded = refl;
        kept = refl;
        sdx_recorded = Kept-recorded s bs t y;
        sdx_kept = Kept-same s bs y;
      };
    },
    (awaiting (moved now awaiting_upstream_validation t) temp g i bs y h, tt),
  )
  restart-IsResumed f s c expected now d same (awaiting t temp g i bs y h) = rw h (
    refl,
    record {
      live = h;
      sdx = refl;
      phase = refl;
      saved = refl;
      backups = record {
        idx = refl;
        sdx = refl;
        recorded = refl;
        kept = refl;
        sdx_recorded = Kept-recorded s bs t y;
        sdx_kept = Kept-same s bs y;
      };
    },
    tt,
  )

  then_return-past :
      (f : FileEntry) (s : Option FileEntry) (c : FileEntry) (expected : Artifact)
      (out : Result RepairError (Unit {0}) × Job)
      → All (Resumable sha256 f s c expected) out.1.past
      → All (Resumable sha256 f s c expected) (then_do out (λ _. return tt)).1.past
  then_return-past f s c expected (ok a, j) h = h
  then_return-past f s c expected (err e, j) h = h

  -- A crash leaves a state that can be resumed, also of a guardian that only prepares.
  pub restart-Resumable :
      (f : FileEntry) (s : Option FileEntry) (c : FileEntry) (expected : Artifact) (resumed : Bool)
      (now : ℕ) (d : Durable)
      → same_artifact sha256 (some c) (some expected) ≡ true
      → Resumable sha256 f s c expected d
      → All (Resumable sha256 f s c expected) (restart sha256 resumed now d).1.past
  unfolding restart prepare_phase validate_installed_artifacts recover_interrupted_install
  restart-Resumable f s c expected true now d same r =
      (restart-IsResumed f s c expected now d same r).2
  restart-Resumable f s c expected false now d same (built t temp i bi bs x y) = tt
  restart-Resumable f s c expected false now d same (backed t temp i bs y) = tt
  restart-Resumable f s c expected false now d same (ready t i bs y) =
      let (_, _, past) = recover-IsResumed f s c expected now same t i bs y in
      then_return-past f s c expected _ past
  restart-Resumable f s c expected false now d same (replaced t temp g sdx i bs y h) = rw h (
    awaiting (moved now awaiting_upstream_validation (moved now candidate_installed t)) temp g i bs
        y h,
    (
      installed (moved now candidate_installed t) temp g i bs y h,
      (replaced t temp g none i bs y h, tt),
    ),
  )
  restart-Resumable f s c expected false now d same (installed t temp g i bs y h) =
      rw h (awaiting (moved now awaiting_upstream_validation t) temp g i bs y h, tt)
  restart-Resumable f s c expected false now d same (awaiting t temp g i bs y h) = rw h tt
