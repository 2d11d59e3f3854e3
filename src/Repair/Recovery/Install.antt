-- ===== src/Repair/Recovery/Install.antt =====
-- `install_candidate` and the backups before it, from each state where they start.
use s3_storage_node.Common.{
  ℕ, String, ◌≡◌, refl, ◌⊎◌, inl, inr, Bool, true, ◌||◌, List, [], ◌∷◌, ◌++◌, Option, none, some,
  is_some, ==_iff, Bool-cases, str_eq_refl, All, length,
}
use s3_storage_node.Common.Result.{Result, ok}
use s3_storage_node.Repair.Phase.{
  Phase, candidate_built, backup_created, installing_candidate, candidate_installed,
  awaiting_upstream_validation,
}
use s3_storage_node.Repair.Transaction.{Artifact, Transaction, moved}
use s3_storage_node.Repair.Job.{
  FileEntry, Files, Durable, Job, RepairError, hash_file, same_artifact,
}
use s3_storage_node.Repair.Install.{
  create_backups, install_candidate, prepare_temporary, backed_up, torn, prefixes, backup_sdx,
}
use s3_storage_node.Repair.Recovery.{
  staged, Copy, missing, copied, Kept, none_kept, some_kept, with_backups, Resumable, built, backed,
  ready, replaced, installed, awaiting, IsInstalled,
}

abbrev pub job_of : Transaction → Files → ℕ → List Durable → Job
job_of t files now past = record {
  transaction = t;
  saved = t;
  files = files;
  now = now;
  past = past;
}

pub Kept-recorded :
    (s bs : Option FileEntry) (t : Transaction)
    → Kept s bs
    → ((is_some s || t.has_backup_sdx) ≡ true) ⊎ (s ≡ none)
Kept-recorded s bs t (none_kept _) = inr refl
Kept-recorded s bs t (some_kept g) = inl refl

pub Kept-same : (s bs : Option FileEntry) → Kept s bs → (bs ≡ s) ⊎ (s ≡ none)
Kept-same s bs (none_kept _) = inr refl
Kept-same s bs (some_kept g) = inl refl

module _ (sha256 : List ℕ → String) where
  pub torn-All :
      (P : Durable → Type 0) (j : Job) (f : FileEntry) (ps : List (List ℕ)) (rest : List Durable)
      → ((x : Option FileEntry)
          → P (record { saved = j.saved; disk = record j.files { installing = x } }))
      → All P rest
      → All P (torn sha256 j f ps ++ rest)
  torn-All P j f [] rest k a = a
  torn-All P j f (p ∷ ps) rest k a =
      (k (some (record f { content = p })), torn-All P j f ps rest k a)

  -- The comparison does not read the mode.
  pub same_artifact-mode :
      (f : FileEntry) (m : ℕ) (expected : Artifact)
      → same_artifact sha256 (some f) (some expected) ≡ true
      → same_artifact sha256 (some (record { content = f.content; mode = m })) (some expected)
        ≡ true
  unfolding same_artifact
  same_artifact-mode f m expected h = h

  pub same_artifact-hash_file :
      (f : FileEntry) → same_artifact sha256 (some f) (some (hash_file sha256 f)) ≡ true
  unfolding same_artifact
  same_artifact-hash_file f =
      rw ((==_iff (length f.content) (length f.content)).1 refl) (str_eq_refl (sha256 f.content))

  module _ (f : FileEntry) (s : Option FileEntry) (c : FileEntry) (expected : Artifact)
      (same : same_artifact sha256 (some c) (some expected) ≡ true) where
    pub install_candidate-IsInstalled :
        (p : Phase) (temp : Bool) (t : Transaction) (i bs : Option FileEntry) (now : ℕ)
        (past : List Durable)
        → Kept s bs
        → ((x : Option FileEntry)
            → Resumable sha256 f s c expected (record {
              saved = staged sha256 f s expected p temp (with_backups s t);
              disk = record {
                live_idx = some f;
                live_sdx = s;
                candidate = some c;
                installing = x;
                backup_idx = some f;
                backup_sdx = bs;
              };
            }))
        → All (Resumable sha256 f s c expected) past
        → let out = install_candidate sha256 (
            job_of
              (staged sha256 f s expected p temp (with_backups s t))
              (record {
                live_idx = some f;
                live_sdx = s;
                candidate = some c;
                installing = i;
                backup_idx = some f;
                backup_sdx = bs;
              })
              now
              past) in
          (out.0 ≡ ok tt)
          × IsInstalled sha256 f s expected out.1
          × All (Resumable sha256 f s c expected) out.1.past
    unfolding install_candidate prepare_temporary
    install_candidate-IsInstalled p temp t i bs now past y k a =
        let t1 = moved now installing_candidate t in
        let t2 = moved now candidate_installed t1 in
        let t3 = moved now awaiting_upstream_validation t2 in
        let f' : FileEntry = record { content = c.content; mode = f.mode } in
        let same' : same_artifact sha256 (some f') (some expected) ≡ true =
          same_artifact-mode c f.mode expected same in
        elim (Bool-cases (same_artifact sha256 i (some expected))) [
          | inl h ↦ rw same (
              rw h (
                rw h (
                  refl,
                  record {
                    live = h;
                    sdx = refl;
                    phase = refl;
                    saved = refl;
                    backups = record {
                      idx = refl;
                      sdx = refl;
                      recorded = refl;
                      kept = refl;
                      sdx_recorded = Kept-recorded s bs t y;
                      sdx_kept = Kept-same s bs y;
                    };
                  },
                  (
                    awaiting t3 true i none bs y h,
                    (
                      installed t2 true i none bs y h,
                      (
                        replaced t1 true i none none bs y h,
                        (replaced t1 true i s none bs y h, (ready t1 i bs y, a)),
                      ),
                    ),
                  ),
                )))
          | inr h ↦ rw same (
              rw h (
                rw same' (
                  refl,
                  record {
                    live = same';
                    sdx = refl;
                    phase = refl;
                    saved = refl;
                    backups = record {
                      idx = refl;
                      sdx = refl;
                      recorded = refl;
                      kept = refl;
                      sdx_recorded = Kept-recorded s bs t y;
                      sdx_kept = Kept-same s bs y;
                    };
                  },
                  (
                    awaiting t3 true (some f') none bs y same',
                    (
                      installed t2 true (some f') none bs y same',
                      (
                        replaced t1 true (some f') none none bs y same',
                        (
                          replaced t1 true (some f') s none bs y same',
                          (
                            ready t1 (some f') bs y,
                            torn-All (Resumable sha256 f s c expected)
                                (job_of (staged sha256 f s expected p temp (with_backups s t))
                                  (record {
                                    live_idx = some f;
                                    live_sdx = s;
                                    candidate = some c;
                                    installing = i;
                                    backup_idx = some f;
                                    backup_sdx = bs;
                                  })
                                  now past)
                                f' (prefixes c.content) _ k (k none, a),
                          ),
                        ),
                      ),
                    ),
                  ),
                )))
        ]

    -- What `create_backups` leaves.
    abbrev pub AreCreated :
        Bool → Option FileEntry → ℕ → Result RepairError (Unit {0}) × Job → Type 0
    AreCreated temp i now out =
        (t' : Transaction) × (bs' : Option FileEntry) × Kept s bs'
        × (out ≡ (
          ok tt,
          job_of (staged sha256 f s expected backup_created temp (with_backups s t'))
              (record {
                live_idx = some f;
                live_sdx = s;
                candidate = some c;
                installing = i;
                backup_idx = some f;
                backup_sdx = bs';
              })
              now out.1.past,
        ))
        × All (Resumable sha256 f s c expected) out.1.past

  module _ (f : FileEntry) (c : FileEntry) (expected : Artifact) where
    pub create_backups-AreCreated :
        (s : Option FileEntry) (temp : Bool) (t : Transaction) (i bi bs : Option FileEntry)
        (now : ℕ) (past : List Durable)
        → Copy (some f) bi
        → Copy s bs
        → All (Resumable sha256 f s c expected) past
        → (same : same_artifact sha256 (some c) (some expected) ≡ true)
        → AreCreated f s c expected same temp i now (
            create_backups sha256 (
              job_of
                (staged sha256 f s expected candidate_built temp t)
                (record {
                  live_idx = some f;
                  live_sdx = s;
                  candidate = some c;
                  installing = i;
                  backup_idx = bi;
                  backup_sdx = bs;
                })
                now
                past))
    unfolding create_backups backed_up
    create_backups-AreCreated none temp t i bi bs now past (missing _) y a same =
        rw (same_artifact-hash_file f, create_backups)
          (
            moved now backup_created t,
            bs,
            none_kept bs,
            refl,
            (
              backed (moved now backup_created t) temp i bs (none_kept bs),
              (built t temp i (some f) bs (copied _) y, a),
            ),
          )
    create_backups-AreCreated none temp t i bi bs now past (copied _) y a same =
        rw (same_artifact-hash_file f, create_backups)
          (
            moved now backup_created t,
            bs,
            none_kept bs,
            refl,
            (
              backed (moved now backup_created t) temp i bs (none_kept bs),
              (built t temp i (some f) bs (copied _) y, a),
            ),
          )
    create_backups-AreCreated (some g) temp t i bi bs now past (missing _) (missing _) a same =
        rw (same_artifact-hash_file f, create_backups)
          (rw (same_artifact-hash_file g, backup_sdx, backed_up)
            (
              moved now backup_created t,
              some g,
              some_kept g,
              refl,
              (
                backed (moved now backup_created t) temp i (some g) (some_kept g),
                (
                  built t temp i (some f) (some g) (copied _) (copied _),
                  (built t temp i (some f) none (copied _) (missing _), a),
                ),
              ),
            ))
    create_backups-AreCreated (some g) temp t i bi bs now past (missing _) (copied _) a same =
        rw (same_artifact-hash_file f, create_backups)
          (rw (same_artifact-hash_file g, backup_sdx, backed_up)
            (
              moved now backup_created t,
              some g,
              some_kept g,
              refl,
              (
                backed (moved now backup_created t) temp i (some g) (some_kept g),
                (
                  built t temp i (some f) (some g) (copied _) (copied _),
                  (built t temp i (some f) (some g) (copied _) (copied _), a),
                ),
              ),
            ))
    create_backups-AreCreated (some g) temp t i bi bs now past (copied _) (missing _) a same =
        rw (same_artifact-hash_file f, create_backups)
          (rw (same_artifact-hash_file g, backup_sdx, backed_up)
            (
              moved now backup_created t,
              some g,
              some_kept g,
              refl,
              (
                backed (moved now backup_created t) temp i (some g) (some_kept g),
                (
                  built t temp i (some f) (some g) (copied _) (copied _),
                  (built t temp i (some f) none (copied _) (missing _), a),
                ),
              ),
            ))
    create_backups-AreCreated (some g) temp t i bi bs now past (copied _) (copied _) a same =
        rw (same_artifact-hash_file f, create_backups)
          (rw (same_artifact-hash_file g, backup_sdx, backed_up)
            (
              moved now backup_created t,
              some g,
              some_kept g,
              refl,
              (
                backed (moved now backup_created t) temp i (some g) (some_kept g),
                (
                  built t temp i (some f) (some g) (copied _) (copied _),
                  (built t temp i (some f) (some g) (copied _) (copied _), a),
                ),
              ),
            ))
