-- ===== src/Generation/Detached.antt =====
-- `fence` and `retire` of `WorkerGeneration`, and the link to the host.
use s3_storage_node.Common.{
  ℕ, String, ◌≡◌, refl, ◌↔◌, inl, inr, Bool, true, false, false≢true, sym, ◌∙◌, List, [], ◌∷◌,
  Option, none, some, arith, Bool-cases, Option-cases, ◌==◌, str_eq, if◌then◌else◌,
}
use s3_storage_node.Common.Json.{Json}
use s3_storage_node.Common.Result.{Result, ok, err, err_ok_absurd}
use s3_storage_node.Generation.System.{System, Text, Signal, sigterm, sigkill}
use s3_storage_node.Generation.Machine.{
  still_linked, Machine, GenerationError, when, continue, written,
}
use s3_storage_node.Generation.Worker.{
  del_link, show_link, persist, payload, worker_ip, stop_process, stop_some, stop_dns_proxy,
  stop_keeper, unlink, fence, mark_fenced, fence_unless, retire, stop_both,
}

-- What the guardian does with a generation that it has started.
pub data Operation : Type 0 where
  fence_for : String → Operation
  retiring stopping_keeper stopping_proxy : Operation

module _ {W : Type 0} (os : System W) (text : Text) where
  unfoldable pub perform : Operation → Machine W → Machine W
  unfolding fence retire stop_keeper stop_dns_proxy
  perform (fence_for reason) s = (fence os text reason s).1
  perform retiring s = (retire os text s).1
  perform stopping_keeper s = (stop_keeper os text s).1
  perform stopping_proxy s = (stop_dns_proxy os text s).1

  unfoldable pub perform_all : List Operation → Machine W → Machine W
  unfolding perform
  perform_all [] s = s
  perform_all (o ∷ os') s = perform_all os' (perform o s)

-- What the operating system documents of the link, where `linked` says that it exists: `ip link
-- show` exits with 0 just when it does, and neither a signal, nor a wait, nor a written file
-- brings it back.
pub record LinkLaws {W : Type 0} (os : System W) (linked : W → Bool) : Type 0 where
  pub shown : (w : W) → ((os.call show_link w).0 ≡ 0) ↔ (linked (os.call show_link w).1 ≡ true)
  pub killed :
      (signal : Signal) (pid : ℕ) (w : W)
      → linked w ≡ false
      → linked (os.killpg signal pid w).1 ≡ false
  pub waited : (pid t : ℕ) (w : W) → linked w ≡ false → linked (os.wait pid t w).1 ≡ false
  pub wrote :
      (path : String) (json : Json) (w : W)
      → linked w ≡ false
      → linked (os.write_json path json w).1 ≡ false

module _ {W : Type 0} (os : System W) (text : Text) (linked : W → Bool)
    (laws : LinkLaws os linked) where
  -- A fenced generation in a namespace of its own has no link to the host.
  abbrev pub Detached : Machine W → Type 0
  Detached s =
      s.worker.fenced ≡ true → str_eq s.worker.mode "namespace" ≡ true → linked s.world ≡ false

  pub stop_some-linked :
      (pid : Option ℕ) (w : W) → linked w ≡ false → linked (stop_some os text pid w) ≡ false
  unfolding stop_process
  stop_some-linked none w h = h
  stop_some-linked (some pid) w h =
      let (found, w₁) = os.killpg sigterm pid w in
      let (ended, w₂) = os.wait pid 2000 w₁ in
      let force = λ (v : W) (k : linked v ≡ false).
        laws.waited pid 2000 (os.killpg sigkill pid v).1 (laws.killed sigkill pid v k) in
      let k₁ = laws.killed sigterm pid w h in
      let k₂ = laws.waited pid 2000 w₁ k₁ in ground (arith, h, k₂, force w₁ k₁, force w₂ k₂)

  pub persist-keeps :
      (state : String) (s : Machine W)
      → ((persist os text state s).1.worker ≡ s.worker)
        × (linked s.world ≡ false → linked (persist os text state s).1.world ≡ false)
  unfolding persist written
  persist-keeps state s = elim (Option-cases (worker_ip os text s.worker)) [
    | inl e ↦ rw e (refl, λ h. h)
    | inr (ip, e) ↦ rw e (
      ground arith,
      λ h. ground (
        arith,
        laws.wrote (text.child s.worker.state_dir "generation.json")
            (payload os text s.worker state ip (os.time s.world)) s.world h,
      ),
    )
  ]

  unlink-linked :
      (s : Machine W)
      → ((unlink os text s).0 ≡ ok tt → linked (unlink os text s).1.world ≡ false)
        × ((unlink os text s).1.worker.fenced ≡ s.worker.fenced)
        × ((unlink os text s).1.worker.mode ≡ s.worker.mode)
  unfolding unlink stop_dns_proxy
  unlink-linked s =
      let w = (os.call del_link s.world).1 in
      let (code, shown) = os.call show_link w in
      elim (Bool-cases (code == 0)) [
        | inl e ↦ rw e (λ r. err_ok_absurd (still_linked s.worker.generation) tt r, refl, refl)
        | inr e ↦ rw e (
          λ r. stop_some-linked s.worker.dns_proxy shown (elim (Bool-cases (linked shown)) [
            | inl k ↦ ground (arith, (laws.shown w).1 k, e)
            | inr k ↦ k
          ]),
          refl,
          refl,
        )
      ]

  -- What a call of `fence` is to reach from `s`.
  abbrev pub Fenced : Machine W → Result GenerationError (Unit {0}) × Machine W → Type 0
  Fenced s (r, t) =
      Detached t × (r ≡ ok tt → t.worker.fenced ≡ true) × (t.worker.mode ≡ s.worker.mode)

  -- The end of `fence`, once the link is gone.
  mark_fenced-Fenced :
      (reason : String) (s : Machine W)
      → (str_eq s.worker.mode "namespace" ≡ true → linked s.world ≡ false)
      → Fenced s (mark_fenced os text reason s)
  mark_fenced-Fenced reason s h =
      let s' : Machine W = record s {
        worker = record s.worker { fenced = true; fence_reason = reason };
      } in
      let (same, quiet) = persist-keeps "fenced" s' in rw same (λ f m. quiet (h m), λ r. refl, refl)

  continue-Fenced :
      (reason : String) (s : Machine W) (out : Result GenerationError (Unit {0}) × Machine W)
      → s.worker.fenced ≡ false
      → (out.0 ≡ ok tt → linked out.1.world ≡ false)
      → out.1.worker.fenced ≡ s.worker.fenced
      → out.1.worker.mode ≡ s.worker.mode
      → Fenced s (continue out (λ _. mark_fenced os text reason))
  continue-Fenced reason s (ok u, t) f gone same mode =
      let (d, marked, m) = mark_fenced-Fenced reason t (λ _. gone refl) in (d, marked, m ∙ mode)
  continue-Fenced reason s (err e, t) f gone same mode =
      (λ k. absurd (false≢true (sym f ∙ sym same ∙ k)), λ r. err_ok_absurd e tt r, mode)

  fence_open-Fenced :
      (m : Bool) (reason : String) (s : Machine W)
      → str_eq s.worker.mode "namespace" ≡ m
      → s.worker.fenced ≡ false
      → Fenced s (continue (when m (unlink os text) s) (λ _. mark_fenced os text reason))
  fence_open-Fenced true reason s m f =
      let (gone, same, mode) = unlink-linked s in
      continue-Fenced reason s (unlink os text s) f gone same mode
  fence_open-Fenced false reason s m f =
      mark_fenced-Fenced reason s (λ k. absurd (false≢true (sym m ∙ k)))

  fence_unless-Fenced :
      (b : Bool) (reason : String) (s : Machine W)
      → s.worker.fenced ≡ b
      → Detached s
      → Fenced s (fence_unless os text b reason s)
  fence_unless-Fenced true reason s f d = (d, λ r. f, refl)
  fence_unless-Fenced false reason s f d =
      fence_open-Fenced (str_eq s.worker.mode "namespace") reason s refl f

  pub fence-Fenced :
      (reason : String) (s : Machine W) → Detached s → Fenced s (fence os text reason s)
  unfolding fence
  fence-Fenced reason s d = fence_unless-Fenced s.worker.fenced reason s refl d

  stop_both-Fenced :
      (s : Machine W) (out : Result GenerationError (Unit {0}) × Machine W)
      → Fenced s out
      → Fenced s (stop_both os text out)
  unfolding stop_dns_proxy stop_keeper
  stop_both-Fenced s (r, t) (d, marked, mode) = (
    λ f m. stop_some-linked t.worker.keeper _ (stop_some-linked t.worker.dns_proxy _ (d f m)),
    marked,
    mode,
  )

  -- The last step of `retire`.
  retired-Fenced :
      (s : Machine W) (out : Result GenerationError (Unit {0}) × Machine W)
      → Fenced s out
      → Fenced s (continue out (λ _. persist os text "retired"))
  retired-Fenced s (ok u, t) (d, marked, mode) =
      let (same, quiet) = persist-keeps "retired" t in
      rw same (λ f m. quiet (d f m), λ r. marked refl, mode)
  retired-Fenced s (err e, t) h = h

  retire-Fenced : (s : Machine W) → Detached s → Fenced s (retire os text s)
  unfolding retire
  retire-Fenced s d =
      let reason =
        if str_eq s.worker.fence_reason "" then "generation retired" else s.worker.fence_reason in
      let out = fence os text reason s in
      retired-Fenced s (stop_both os text out) (stop_both-Fenced s out (fence-Fenced reason s d))

  -- Under the laws of the link, no sequence of `fence`, `retire`, `stop_keeper` and
  -- `stop_dns_proxy`, whichever of them raise, leaves a generation that counts as fenced while its
  -- link to the host exists, if it did not start so.
  pub perform_all-Detached :
      (operations : List Operation) (s : Machine W)
      → Detached s
      → Detached (perform_all os text operations s)
  unfolding perform_all perform
  perform_all-Detached [] s d = d
  perform_all-Detached (fence_for reason ∷ rest) s d =
      perform_all-Detached rest _ (fence-Fenced reason s d).0
  perform_all-Detached (retiring ∷ rest) s d = perform_all-Detached rest _ (retire-Fenced s d).0
  perform_all-Detached (stopping_keeper ∷ rest) s d =
      perform_all-Detached rest _
        (unfold stop_keeper in λ f m. stop_some-linked s.worker.keeper s.world (d f m))
  perform_all-Detached (stopping_proxy ∷ rest) s d =
      perform_all-Detached rest _
        (unfold stop_dns_proxy in λ f m. stop_some-linked s.worker.dns_proxy s.world (d f m))
