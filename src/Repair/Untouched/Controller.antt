-- ===== src/Repair/Untouched/Controller.antt =====
-- `_repair_one` leaves the live files of every volume as they were when it raises.
use s3_storage_node.Common.{
  ℕ, ◌+◌, String, ◌≡◌, refl, sym, ap, ◌∙◌, inl, inr, Bool, true, false, not, ◌&&◌, List, [], ◌∷◌,
  Option, none, some, is_some, Bool-cases, Option-cases, str_eq, leb, any, select_if,
}
use text.Mathlib.TextEquality.{eq_iff}
use s3_storage_node.Common.Int.{ℤ}
use s3_storage_node.Common.Result.{Result, ok, err, Result-cases}
use s3_storage_node.Common.Effect.Keeps.{
  Keeps, Spares, is_ok, bind-Keeps, bind-Spares, return-Keeps, raise-Keeps, get_state-Keeps,
  if-Keeps,
}
use s3_storage_node.Repair.Phase.{is_manual, is_verified, is_failed_preinstall}
use s3_storage_node.Repair.Transaction.{Artifact, SourceIdentity, SourceFingerprint, Transaction}
use s3_storage_node.Repair.Job.{
  FileEntry, Job, RepairError, manual_intervention, repair_error, Work, manual, hash_opt,
}
use s3_storage_node.Repair.Journal.{
  Names, Controller, job_for, put_back, save_transaction, handed, on_transaction, latest_of,
  is_authorized,
}
use s3_storage_node.Repair.Attempt.{
  Helpers, preinstall_retry_limit, most_attempts, create, record_preinstall_failure,
  unfingerprinted, authorize_unfingerprinted_retry, record_unfingerprinted_failure,
  record_structural_failure,
}
use s3_storage_node.Repair.Build.{
  is_caught, preflight_reason, preflight_source, on_source, authorize_retry, attempts_of, exhausted,
  give_up_latest, check_attempts, is_outdated, outdated, close_outdated, check_live,
  refuse_structure, check_files, build_and_install, resume_or_build, is_resumable, go_on,
  begin_work, attempt_source, repair_source, repair_one,
}
use s3_storage_node.Repair.Untouched.{live_of, manual-Keeps}
use s3_storage_node.Repair.Untouched.Build.{
  record_preinstall_failure-Keeps, build_and_install-Spares, resume_or_build-Spares,
}

-- The live files of a volume.
abbrev pub live_at : String → Controller → Option FileEntry × Option FileEntry
live_at b c = ((c.live b).live_idx, (c.live b).live_sdx)

module _ (names : Names) (b : String) where
  -- The files that the work leaves as they were are put back as they were.
  put_back-same :
      (t : Transaction) (j : Job) (c : Controller)
      → live_of j ≡ live_of (job_for t c)
      → live_at b (put_back names t j c) ≡ live_at b c
  put_back-same t j c h = elim (Bool-cases (str_eq b t.base_name)) [
    | inl e ↦ rw e (h ∙ ap (λ x. live_at x c) (sym ((eq_iff b t.base_name).0 e)))
    | inr e ↦ rw e refl
  ]

  on_transaction-Keeps :
      {A : Type 0} (t : Transaction) (w : Work A)
      → Keeps live_of w
      → Keeps (live_at b) (on_transaction names t w)
  unfolding on_transaction
  on_transaction-Keeps t w k = record {
    same = λ c. put_back-same t (w (job_for t c)).1 c (k.same _);
  }

  handed-ok :
      {A : Type 0} (r : Result RepairError A) (t : Transaction)
      → is_ok r ≡ true
      → is_ok (handed r t) ≡ true
  handed-ok (ok a) t h = refl
  handed-ok (err e) t h = h

  on_transaction-Spares :
      {A : Type 0} (t : Transaction) (w : Work A)
      → Spares live_of w
      → Spares (live_at b) (on_transaction names t w)
  unfolding on_transaction
  on_transaction-Spares t w k = record {
    same = λ c. elim (k.same (job_for t c)) [
      | inl h ↦ inl (handed-ok _ (w (job_for t c)).1.transaction h)
      | inr h ↦ inr (put_back-same t (w (job_for t c)).1 c h)
    ];
  }

  save_transaction-Keeps : (t : Transaction) → Keeps (live_at b) (save_transaction names t)
  save_transaction-Keeps t = record { same = λ c. refl }

  module _ (sha256 : List ℕ → String) (helpers : Helpers) where
    create-Keeps :
        (i : SourceIdentity) (f : SourceFingerprint) (u : Bool) (n : ℕ) (base : String)
        (x y : Option Artifact)
        → Keeps (live_at b) (create sha256 names helpers i f u n base x y)
    unfolding create
    create-Keeps i f u n base x y = record { same = λ c. refl }

    record_structural_failure-Keeps :
        (i : SourceIdentity) (f : SourceFingerprint) (base : String) (n : ℕ) (reason : String)
        → Keeps (live_at b) (record_structural_failure sha256 names helpers i f base n reason)
    record_structural_failure-Keeps i f base n reason =
        bind-Keeps (create-Keeps i f false n base none none) (λ t.
          bind-Keeps (on_transaction-Keeps t (manual reason) (manual-Keeps reason))
            (λ _. return-Keeps))

    authorize_unfingerprinted_retry-Keeps :
        (i : SourceIdentity)
        → Keeps (live_at b) (authorize_unfingerprinted_retry sha256 names helpers i)
    unfolding authorize_unfingerprinted_retry
    authorize_unfingerprinted_retry-Keeps i = record {
      same = λ c.
          elim (Option-cases (
            latest_of
              (select_if (λ t. is_manual t.phase) (unfingerprinted sha256 names helpers i c)))) [
                | inl e ↦ rw (authorize_unfingerprinted_retry, e) refl
                | inr (t, e) ↦ elim (Bool-cases (not (is_authorized t))) [
                  | inl h ↦ rw (authorize_unfingerprinted_retry, e, h) refl
                  | inr h ↦ rw (authorize_unfingerprinted_retry, e, h) refl
                ]
              ];
    }

    record_unfingerprinted_failure-Keeps :
        (i : SourceIdentity) (base reason : String) (authorized : Bool)
        → Keeps
            (live_at b)
            (record_unfingerprinted_failure sha256 names helpers i base reason authorized)
    unfolding record_unfingerprinted_failure
    record_unfingerprinted_failure-Keeps i base reason authorized = record {
      same = λ c.
          let attempts = most_attempts (unfingerprinted sha256 names helpers i c) in
          elim (Bool-cases (leb preinstall_retry_limit attempts && not authorized)) [
            | inl h ↦ rw h refl
            | inr h ↦ rw h (
                (bind-Keeps
                    (create-Keeps i (record { identity = i; fingerprint = none }) true
                      (attempts + 1) base none none)
                    (λ t.
                      bind-Keeps
                        (on_transaction-Keeps t
                          (record_preinstall_failure sha256 names helpers reason)
                          (record_preinstall_failure-Keeps sha256 names helpers reason))
                        (λ _. return-Keeps {a = tt}))).same
                  c)
          ];
    }

    preflight_source-Keeps :
        (i : SourceIdentity) (base : String) (authorized : Bool)
        → Keeps (live_at b) (preflight_source sha256 names helpers i base authorized)
    preflight_source-Keeps i base authorized = elim (Result-cases (helpers.preflight i)) [
      | inl (f, e) ↦ rw (preflight_source, e) return-Keeps
      | inr (x, e) ↦
          rw (preflight_source, e)
            (if-Keeps (is_caught x)
              (bind-Keeps
                (record_unfingerprinted_failure-Keeps i base (preflight_reason x) authorized)
                (λ _. raise-Keeps {e = repair_error (preflight_reason x)}))
              raise-Keeps)
    ]

    authorize_retry-Keeps :
        (same : List Transaction) → Keeps (live_at b) (authorize_retry sha256 names helpers same)
    unfolding authorize_retry
    authorize_retry-Keeps same = record {
      same = λ c. elim (Bool-cases (any (λ t. is_verified t.phase) same)) [
        | inl v ↦ rw v refl
        | inr v ↦ elim (Option-cases (latest_of (select_if (λ t. is_manual t.phase) same))) [
          | inl e ↦ rw v (rw e refl)
          | inr (t, e) ↦ elim (Bool-cases (not (is_authorized t))) [
            | inl h ↦ rw v (rw e (rw h refl))
            | inr h ↦ rw v (rw e (rw h refl))
          ]
        ]
      ];
    }

    pub give_up_latest-Keeps :
        (o : Option Transaction) → Keeps (live_at b) (give_up_latest sha256 names helpers o)
    give_up_latest-Keeps none = raise-Keeps
    give_up_latest-Keeps (some t) =
        bind-Keeps
          (on_transaction-Keeps t (manual (exhausted sha256 names helpers))
            (manual-Keeps (exhausted sha256 names helpers)))
          (λ _. raise-Keeps {e = manual_intervention (exhausted sha256 names helpers)})

    check_attempts-Keeps :
        (same : List Transaction) (authorized : Bool)
        → Keeps (live_at b) (check_attempts sha256 names helpers same authorized)
    unfolding check_attempts
    check_attempts-Keeps same authorized =
        if-Keeps
          (leb preinstall_retry_limit (attempts_of sha256 names helpers same) && not authorized)
          (give_up_latest-Keeps (latest_of (select_if (λ t. is_failed_preinstall t.phase) same)))
          return-Keeps

    close_outdated-Keeps :
        (id : ℤ) (f : SourceFingerprint) (ts : List Transaction)
        → Keeps (live_at b) (close_outdated sha256 names helpers id f ts)
    close_outdated-Keeps id f [] = return-Keeps
    close_outdated-Keeps id f (t ∷ ts) =
        if-Keeps (is_outdated sha256 names helpers id f t)
          (bind-Keeps (on_transaction-Keeps t (manual outdated) (manual-Keeps outdated))
            (λ _. close_outdated-Keeps id f ts))
          (close_outdated-Keeps id f ts)

    refuse_structure-Keeps :
        (i : SourceIdentity) (f : SourceFingerprint) (base : String) (n : ℕ) (reason : String)
        → Keeps (live_at b) (refuse_structure sha256 names helpers i f base n reason)
    refuse_structure-Keeps i f base n reason =
        bind-Keeps (record_structural_failure-Keeps i f base n reason)
          (λ _. raise-Keeps {e = manual_intervention reason})

    check_files-Keeps :
        (x y : Bool) (i : SourceIdentity) (f : SourceFingerprint) (base : String) (n : ℕ)
        → Keeps (live_at b) (check_files sha256 names helpers x y i f base n)
    check_files-Keeps false y i f base n = refuse_structure-Keeps i f base n _
    check_files-Keeps true true i f base n = refuse_structure-Keeps i f base n _
    check_files-Keeps true false i f base n = return-Keeps

    check_live-Keeps :
        (i : SourceIdentity) (f : SourceFingerprint) (base : String) (n : ℕ)
        → Keeps (live_at b) (check_live sha256 names helpers i f base n)
    unfolding check_live
    check_live-Keeps i f base n = record {
      same = λ c.
          (check_files-Keeps (is_some (c.live base).live_idx) (c.live base).sdx_is_symlink i f base
              n).same
            c;
    }

    go_on-Spares :
        (allow : Bool) (i : SourceIdentity) (f : SourceFingerprint) (base : String) (n : ℕ)
        (same : List Transaction) (x y : Option Artifact)
        → Spares (live_at b) (go_on sha256 names helpers allow i f base n same x y)
    go_on-Spares allow i f base n same x y =
        elim (Option-cases (latest_of (select_if (is_resumable sha256 names helpers) same))) [
          | inl e ↦
              rw (go_on, e)
                (bind-Spares (create-Keeps i f false (n + 1) base x y) (λ t.
                  on_transaction-Spares t (build_and_install sha256 names helpers allow f x)
                    (build_and_install-Spares sha256 names helpers allow f x)))
          | inr (t, e) ↦
              rw (go_on, e)
                (on_transaction-Spares t (resume_or_build sha256 names helpers allow f x y)
                  (resume_or_build-Spares sha256 names helpers allow f x y))
        ]

    begin_work-Spares :
        (allow : Bool) (i : SourceIdentity) (base : String) (f : SourceFingerprint)
        (same : List Transaction)
        → Spares (live_at b) (begin_work sha256 names helpers allow i base f same)
    begin_work-Spares allow i base f same = bind-Spares get_state-Keeps (λ c.
        go_on-Spares allow i f base (attempts_of sha256 names helpers same) same
          (hash_opt sha256 (c.live base).live_idx) (hash_opt sha256 (c.live base).live_sdx))

    attempt_source-Spares :
        (allow : Bool) (i : SourceIdentity) (base : String) (f : SourceFingerprint)
        (same : List Transaction) (authorized : Bool)
        → Spares (live_at b) (attempt_source sha256 names helpers allow i base f same authorized)
    attempt_source-Spares allow i base f same authorized =
        bind-Spares (check_attempts-Keeps same authorized) (λ _. bind-Spares get_state-Keeps (λ c.
          bind-Spares (close_outdated-Keeps i.volume_id f c.journal) (λ _.
            bind-Spares (check_live-Keeps i f base (attempts_of sha256 names helpers same + 1))
              (λ _. begin_work-Spares allow i base f same))))

    repair_source-Spares :
        (allow : Bool) (i : SourceIdentity) (base : String) (f : SourceFingerprint)
        → Spares (live_at b) (repair_source sha256 names helpers allow i base f)
    unfolding repair_source
    repair_source-Spares allow i base f = record {
      same = λ c.
          (bind-Spares (authorize_retry-Keeps (on_source sha256 names helpers f c))
              (attempt_source-Spares allow i base f (on_source sha256 names helpers f c))).same
            c;
    }

    pub repair_one-Spares :
        (allow : Bool) (i : SourceIdentity) (base : String)
        → Spares (live_at b) (repair_one sha256 names helpers allow i base)
    unfolding repair_one
    repair_one-Spares allow i base = bind-Spares (authorize_unfingerprinted_retry-Keeps i) (λ a.
        bind-Spares (preflight_source-Keeps i base a) (λ f. repair_source-Spares allow i base f))
