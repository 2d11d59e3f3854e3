-- ===== src/Guardian/Safety.antt =====
-- The guardian goes on after a failure only when the generation that failed is cut off.
use s3_storage_node.Common.{
  ℕ, ◌-◌, ◌+◌, String, ◌≡◌, refl, sym, ap, subst, ◌∙◌, ◌⊎◌, inl, inr, Bool, true, false, not, ◌&&◌,
  List, [], ◌∷◌, Option, none, some, if◌then◌else◌, str_eq, false≢true, Bool-cases, leb,
}
use s3_storage_node.Common.Result.{Result, ok, err}
use s3_storage_node.History.Counters.{finish-idle}
use s3_storage_node.Generation.System.{System, Text}
use s3_storage_node.Generation.Machine.{GenerationError, Worker, Machine, continue}
use s3_storage_node.Generation.Worker.{
  persist, fence, fence_unless, stop_both, stop_dns_proxy, stop_keeper, retire,
}
use s3_storage_node.Generation.Detached.{
  LinkLaws, stop_some-linked, persist-keeps, Fenced, fence-Fenced,
}
use s3_storage_node.Guardian.{
  Target, Setting, Guardian, detach_one, detach_each, repair_targets, stop_processes, fence_outcome,
  fence_generation, after_fence, after_stop, fence_and_record, terminate_generation, retire_outcome,
  retire_generation, after_failure,
}
use s3_storage_node.Guardian.Process.{reverse}

-- The helper that unmounts a target does not bring the link back.
abbrev pub UnmountKeeps : {W : Type 0} → Setting W → (W → Bool) → Type 0
UnmountKeeps {W = W} setting linked =
    (name : String) (t : ℕ) (w : W) → linked w ≡ false → linked (setting.unmount name t w).1 ≡ false

module _ {W : Type 0} (os : System W) (text : Text) (setting : Setting W) (linked : W → Bool)
    (laws : LinkLaws os linked) (unmounts : UnmountKeeps setting linked) where
  detach_one-linked :
      (deadline : Option ℕ) (target : Target) (w : W)
      → linked w ≡ false
      → linked (detach_one os text setting deadline target w).1 ≡ false
  detach_one-linked none target w h = unmounts target.name setting.startup_timeout w h
  detach_one-linked (some deadline) target w h = elim (Bool-cases (leb (deadline - os.clock w) 0)) [
    | inl e ↦ rw e h
    | inr e ↦ rw e (unmounts target.name (deadline - os.clock w) w h)
  ]

  detach_each-linked :
      (unmount_all : Bool) (deadline : Option ℕ) (targets : List Target) (w : W)
      → linked w ≡ false
      → linked (detach_each os text setting unmount_all deadline targets w).1 ≡ false
  unfolding detach_each
  detach_each-linked unmount_all deadline [] w h = h
  detach_each-linked unmount_all deadline (target ∷ rest) w h =
      elim (Bool-cases (target.is_path && not unmount_all)) [
        | inl e ↦ rw e (detach_each-linked unmount_all deadline rest w h)
        | inr e ↦
            rw e (
              detach_each-linked unmount_all deadline rest _
                (detach_one-linked deadline target w h))
      ]

  -- Retiring a fenced generation leaves the link away.
  retire-linked :
      (s : Machine W)
      → s.worker.fenced ≡ true
      → linked s.world ≡ false
      → linked (retire os text s).1.world ≡ false
  unfolding retire fence stop_dns_proxy stop_keeper
  retire-linked s f h =
      let reason =
        if str_eq s.worker.fence_reason "" then "generation retired" else s.worker.fence_reason in
      subst
        (λ b.
          linked
            (continue (stop_both os text (fence_unless os text b reason s))
              (λ _. persist os text "retired")).1.world
          ≡ false)
        (sym f)
        ((persist-keeps os text linked laws "retired" (stop_both os text (ok tt, s)).1).1 (
          stop_some-linked os text linked laws s.worker.keeper _
            (stop_some-linked os text linked laws s.worker.dns_proxy s.world h)))

  -- The generation is fenced, and in the mode `namespace` its link to the host is gone.
  abbrev pub Gone : Worker → Guardian W → Type 0
  Gone worker g =
      (w : Worker) × (g.generation ≡ some w)
      × (w.fenced ≡ true)
      × (str_eq worker.mode "namespace" ≡ true → linked g.world ≡ false)

  -- What the guardian knows after `_terminate_generation`.
  abbrev pub Verdict : Worker → Bool × Guardian W → Type 0
  Verdict worker out =
      (out.1.history.active ≡ none)
      × (((out.0 ≡ true) × Gone worker out.1)
          ⊎ ((out.0 ≡ false) × (out.1.fatal_fence_failure ≡ true)))

  outcome-Verdict :
      (worker : Worker) (clean : Bool) (reason cause phase : String) (unmount_all : Bool)
      (g : Guardian W) (out : Result GenerationError (Unit {0}) × Machine W)
      → Fenced os text linked laws (record { worker = worker; world = g.world }) out
      → Verdict worker (
          after_fence os text setting clean reason cause phase unmount_all
            (fence_outcome os text setting out g))
  unfolding repair_targets
  outcome-Verdict worker clean reason cause phase unmount_all g (ok a, m) (d, marked, mode) =
      let gone = λ (ns : str_eq worker.mode "namespace" ≡ true).
        d (marked refl) (ap (λ x. str_eq x "namespace") mode ∙ ns) in
      (
        finish-idle _ _ _,
        inl (
          refl,
          elim (Bool-cases clean) [
            | inl e ↦ rw e (m.worker, refl, marked refl, gone)
            | inr e ↦ rw e (
              m.worker,
              refl,
              marked refl,
              λ ns. detach_each-linked unmount_all none (reverse setting.targets) m.world (gone ns),
            )
          ],
        ),
      )
  outcome-Verdict worker clean reason cause phase unmount_all g (err e, m) (d, marked, mode) = (
    finish-idle _ _ _,
    inr (refl, elim (Bool-cases clean) [ inl h ↦ rw h refl | inr h ↦ rw h refl ]),
  )

  fence_and_record-Verdict :
      (worker : Worker) (stopped detached : Bool) (reason cause phase : String) (unmount_all : Bool)
      (g : Guardian W)
      → worker.fenced ≡ false
      → g.generation ≡ some worker
      → Verdict worker
          (fence_and_record os text setting stopped detached reason cause phase unmount_all g)
  unfolding fence_generation
  fence_and_record-Verdict worker stopped detached reason cause phase unmount_all g live h =
      let s : Machine W = record { worker = worker; world = g.world } in
      subst
        (λ o. Verdict worker (
          after_fence os text setting (stopped && detached) reason cause phase unmount_all
            (elim o as (λ _. Bool × Guardian W) [
              | none ↦ (true, g)
              | some worker ↦
                  fence_outcome os text setting
                    (fence os text reason (record { worker = worker; world = g.world })) g
            ])))
        (sym h)
        (outcome-Verdict worker (stopped && detached) reason cause phase unmount_all g
          (fence os text reason s)
          (fence-Fenced os text linked laws reason s (λ f. absurd (false≢true (sym live ∙ f)))))

  after_stop-Verdict :
      (worker : Worker) (deadline : ℕ) (reason cause phase : String) (unmount_all : Bool)
      (out : Bool × Guardian W)
      → worker.fenced ≡ false
      → out.1.generation ≡ some worker
      → Verdict worker (after_stop os text setting deadline reason cause phase unmount_all out)
  unfolding repair_targets
  after_stop-Verdict worker deadline reason cause phase unmount_all (true, g) live h =
      fence_and_record-Verdict worker true _ reason cause phase unmount_all _ live h
  after_stop-Verdict worker deadline reason cause phase unmount_all (false, g) live h =
      fence_and_record-Verdict worker false false reason cause phase unmount_all g live h

  -- Under the laws of the link, and if unmounting does not bring it back, ending a generation that
  -- is not fenced yet leaves none active in the history, and either reports the fence as verified,
  -- with the generation fenced and in the mode `namespace` its link gone, or reports that it is not
  -- and marks the failure as fatal.
  pub terminate_generation-Verdict :
      (worker : Worker) (reason cause phase : String) (unmount_all : Bool) (g : Guardian W)
      → worker.fenced ≡ false
      → Verdict worker (
          terminate_generation os text setting reason cause phase unmount_all
            (record g { generation = some worker }))
  unfolding terminate_generation stop_processes repair_targets
  terminate_generation-Verdict worker reason cause phase unmount_all g live =
      let deadline = os.clock g.world + setting.shutdown_grace in
      after_stop-Verdict worker deadline reason cause phase unmount_all
        (stop_processes os text setting deadline (record g { generation = some worker })) live refl

  -- No generation is left, and that of `worker` has no link in the mode `namespace`.
  abbrev pub IsCutOff : Worker → Guardian W → Type 0
  IsCutOff worker g =
      (g.generation ≡ none) × (str_eq worker.mode "namespace" ≡ true → linked g.world ≡ false)

  retire_outcome-IsCutOff :
      (worker : Worker) (out : Result GenerationError (Unit {0}) × Machine W) (g : Guardian W)
      → (str_eq worker.mode "namespace" ≡ true → linked out.1.world ≡ false)
      → IsCutOff worker (retire_outcome os text setting out g)
  unfolding stop_keeper
  retire_outcome-IsCutOff worker (ok a, m) g k = (refl, k)
  retire_outcome-IsCutOff worker (err e, m) g k =
      (refl, λ ns. stop_some-linked os text linked laws m.worker.keeper m.world (k ns))

  retire_generation-IsCutOff :
      (worker : Worker) (g : Guardian W)
      → Gone worker g
      → IsCutOff worker (retire_generation os text setting g)
  unfolding retire_generation
  retire_generation-IsCutOff worker g (w, e, f, gone) =
      let s : Machine W = record { worker = w; world = g.world } in
      subst
        (λ o. IsCutOff worker (elim o as (λ _. Guardian W) [
          | none ↦ g
          | some worker ↦
              retire_outcome os text setting
                (retire os text (record { worker = worker; world = g.world })) g
        ]))
        (sym e)
        (retire_outcome-IsCutOff worker (retire os text s) g (λ ns. retire-linked s f (gone ns)))

  go_on-IsCutOff :
      (worker : Worker) (out : Bool × Guardian W)
      → Verdict worker out
      → let g' =
          if out.0
          then retire_generation os text setting out.1
          else record out.1 { stopping = true } in
        (g'.stopping ≡ true) ⊎ IsCutOff worker g'
  go_on-IsCutOff worker (fenced, g) (idle, inl (f, gone)) =
      rw f (inr (retire_generation-IsCutOff worker g gone))
  go_on-IsCutOff worker (fenced, g) (idle, inr (f, fatal)) = rw f (inl refl)

  -- Under the same laws, after a failure with a generation that is not fenced yet the guardian
  -- either stops for good, or is left without a generation and, in the mode `namespace`, without
  -- the link of the one that failed, whichever calls of the system failed on the way.
  pub after_failure-IsCutOff :
      (worker : Worker) (reason cause phase : String) (g : Guardian W)
      → worker.fenced ≡ false
      → let g' =
          after_failure os text setting reason cause phase
            (record g { generation = some worker }) in
        (g'.stopping ≡ true) ⊎ IsCutOff worker g'
  unfolding after_failure
  after_failure-IsCutOff worker reason cause phase g live =
      go_on-IsCutOff worker
        (terminate_generation os text setting reason cause phase false
          (record g { generation = some worker }))
        (terminate_generation-Verdict worker reason cause phase false g live)
