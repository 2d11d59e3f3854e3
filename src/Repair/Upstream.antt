-- ===== src/Repair/Upstream.antt =====
-- The controller's methods that run before the writers start and after them: the recovery at the
-- start, and what the upstream status decides on installed candidates and on stale work.
use s3_storage_node.Common.{
  ℕ, String, Bool, true, false, not, ◌&&◌, List, [], ◌∷◌, ◌++◌, map, Option, none, some,
  if◌then◌else◌, any, select_if,
}
use s3_storage_node.Common.Int.{ℤ, eq_ℤ, leb_ℤ}
use s3_storage_node.Common.Effect.{◌>>=◌, return}
use s3_storage_node.Seaweed.{VolumeDetail, VolumeStatus}
use s3_storage_node.Repair.Phase.{
  verified, resolved_without_install, is_pending_validation, is_preinstall,
}
use s3_storage_node.Repair.Transaction.{Transaction}
use s3_storage_node.Repair.Job.{Work, update, transition}
use s3_storage_node.Repair.Install.{rollback}
use s3_storage_node.Repair.Resume.{prepare_transaction}
use s3_storage_node.Repair.Journal.{Names, Controller, Method, on_transaction}

-- `sorted` on a set of identifiers.
abbrev pub insert_id : ℤ → List ℤ → List ℤ
insert_id x [] = x ∷ []
insert_id x (y ∷ ys) =
    if eq_ℤ x y then y ∷ ys else if leb_ℤ x y then x ∷ y ∷ ys else y ∷ insert_id x ys

abbrev pub sort_ids : List ℤ → List ℤ
sort_ids [] = []
sort_ids (x ∷ xs) = insert_id x (sort_ids xs)

-- `sorted` on a list.
abbrev pub insert_sorted : ℤ → List ℤ → List ℤ
insert_sorted x [] = x ∷ []
insert_sorted x (y ∷ ys) = if leb_ℤ x y then x ∷ y ∷ ys else y ∷ insert_sorted x ys

abbrev pub sorted : List ℤ → List ℤ
sorted [] = []
sorted (x ∷ xs) = insert_sorted x (sorted xs)

abbrev pub mem_id : ℤ → List ℤ → Bool
mem_id x xs = any (λ y. eq_ℤ x y) xs

-- `{int(item["id"]): item for item in …}.get(volume_id)`: the last item with the identifier.
abbrev pub detail_of : ℤ → List VolumeDetail → Option VolumeDetail
detail_of id [] = none
detail_of id (d ∷ ds) = elim (detail_of id ds) [
  | some e ↦ some e
  | none ↦ if eq_ℤ d.id id then some d else none
]

-- `awaiting`
abbrev pub awaiting : Controller → List Transaction
awaiting c = select_if (λ t. is_pending_validation t.phase) c.journal

-- `has_awaiting_validation`
abbrev pub has_awaiting_validation : Controller → Bool
has_awaiting_validation c = any (λ t. is_pending_validation t.phase) c.journal

module _ (sha256 : List ℕ → String) (names : Names) where
  abbrev pub prepare_each : List Transaction → Method (Unit {0})
  prepare_each [] = return tt
  prepare_each (t ∷ ts) =
      on_transaction names t (prepare_transaction sha256) >>= λ _. prepare_each ts

  -- `prepare_offline`
  unfoldable pub prepare_offline : Method (Unit {0})
  unfolding on_transaction
  prepare_offline c = prepare_each c.journal c

  -- Whether the candidate is to be rolled back: the volume is missing upstream, or still read-only.
  abbrev pub is_rejected : VolumeStatus → Transaction → Bool
  is_rejected status t = elim (detail_of t.volume_id status.volume_details) [
    | none ↦ true
    | some d ↦ d.readonly
  ]

  abbrev pub mark_verified : Work (Unit {0})
  mark_verified = update (λ t. record t { success = true }) >>= λ _. transition verified

  -- The loop of `validate_upstream`, from the identifiers verified and rejected so far.
  unfoldable pub validate_each :
      VolumeStatus → List Transaction → List ℤ → List ℤ → Method (List ℤ × List ℤ)
  unfolding on_transaction
  validate_each status [] done rejected = return (done, rejected)
  validate_each status (t ∷ ts) done rejected =
      if is_rejected status t
      then validate_each status ts done (rejected ++ t.volume_id ∷ [])
      else on_transaction names t mark_verified >>= λ _.
          validate_each status ts (done ++ t.volume_id ∷ []) rejected

  -- `validate_upstream`, whose loads and saves of the journal do not fail here.
  abbrev pub validate_upstream : VolumeStatus → Method (List ℤ × List ℤ)
  validate_upstream status c = validate_each status (awaiting c) [] [] c

  abbrev pub rollback_each : String → List Transaction → Method (Unit {0})
  rollback_each reason [] = return tt
  rollback_each reason (t ∷ ts) =
      on_transaction names t (rollback sha256 reason) >>= λ _. rollback_each reason ts

  -- `rollback_rejected`
  unfoldable pub rollback_rejected : List ℤ → String → Method (Unit {0})
  unfolding on_transaction
  rollback_rejected volume_ids reason c =
      rollback_each reason (select_if (λ t. mem_id t.volume_id volume_ids) (awaiting c)) c

  -- Whether `reconcile_resolved_preinstall` closes the transaction.
  abbrev pub is_stale : VolumeStatus → Transaction → Bool
  is_stale status t =
      is_preinstall t.phase
      && any (λ d. eq_ℤ t.volume_id d.id) status.volume_details
      && not (mem_id t.volume_id status.unexpected_readonly_volume_ids)

  abbrev pub close_stale : Work (Unit {0})
  close_stale =
      update (λ t. record t {
        success = false;
        resolution_reason =
            "stable upstream status no longer reports this volume as unexpectedly read-only";
      })
      >>= λ _. transition resolved_without_install

  unfoldable pub reconcile_each : VolumeStatus → List Transaction → List ℤ → Method (List ℤ)
  unfolding on_transaction
  reconcile_each status [] resolved = return resolved
  reconcile_each status (t ∷ ts) resolved =
      if is_stale status t
      then (on_transaction names t close_stale >>= λ _.
          reconcile_each status ts (resolved ++ t.volume_id ∷ []))
      else reconcile_each status ts resolved

  -- `reconcile_resolved_preinstall`
  abbrev pub reconcile_resolved_preinstall : VolumeStatus → Method (List ℤ)
  reconcile_resolved_preinstall status c =
      (reconcile_each status c.journal [] >>= λ ids. return (sorted ids)) c

-- `unresolved_unexpected`
abbrev pub unresolved_unexpected : VolumeStatus → Controller → List ℤ
unresolved_unexpected status c = sort_ids (
    select_if (λ id. not (mem_id id (map (λ t. t.volume_id) (awaiting c))))
      status.unexpected_readonly_volume_ids)
