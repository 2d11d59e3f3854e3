-- ===== src/Repair/Journaled.antt =====
-- What holds of the whole journal after a method has gone through its transactions.
use s3_storage_node.Common.{
  ℕ, String, ◌≡◌, refl, sym, ap, ◌∙◌, ◌⊎◌, inl, inr, true, false, false≢true, not, List, [], ◌∷◌,
  ◌++◌, append-nil, append_assoc, map, Bool-cases, or_false, str_eq_refl, any, select_if, All,
  All-from-Mem, Mem-select_if, Mem, here, there,
}
use s3_storage_node.Common.Int.{ℤ}
use s3_storage_node.Common.Result.{Result, ok}
use s3_storage_node.Seaweed.{VolumeStatus}
use s3_storage_node.Repair.Phase.{is_pending_validation}
use s3_storage_node.Repair.Transaction.{Transaction}
use s3_storage_node.Repair.Job.{RepairError}
use s3_storage_node.Repair.Journal.{
  Names, Controller, same_id, overwrite, insert_by_name, saved_in, job_for, put_back,
  on_transaction,
}
use s3_storage_node.Repair.Upstream.{
  awaiting, is_rejected, mark_verified, validate_each, validate_upstream,
}

module _ (names : Names) (P Q : Transaction → Type 0) (t : Transaction) where
  overwrite-All :
      (us : List Transaction)
      → P t
      → ((u : Transaction) → Q u → same_id t u ≡ false → P u)
      → All Q us
      → All P (map (overwrite t) us)
  overwrite-All [] p k a = tt
  overwrite-All (u ∷ us) p k (q, a) = elim (Bool-cases (same_id t u)) [
    | inl h ↦ rw h (p, overwrite-All us p k a)
    | inr h ↦ rw h (k u q h, overwrite-All us p k a)
  ]

  insert_by_name-All :
      (us : List Transaction)
      → P t
      → ((u : Transaction) → Q u → same_id t u ≡ false → P u)
      → any (same_id t) us ≡ false
      → All Q us
      → All P (insert_by_name names t us)
  insert_by_name-All [] p k n a = (p, tt)
  insert_by_name-All (u ∷ us) p k n (q, a) =
      let (h, r) = or_false (same_id t u) (any (same_id t) us) n in
      elim (Bool-cases (names.before t.transaction_id u.transaction_id)) [
        | inl b ↦ rw b (p, (k u q h, rest us r a))
        | inr b ↦ rw b (k u q h, insert_by_name-All us p k r a)
      ]
    where
      rest : (us : List Transaction) → any (same_id t) us ≡ false → All Q us → All P us
      rest [] n a = tt
      rest (u ∷ us) n (q, a) =
          let (h, r) = or_false (same_id t u) (any (same_id t) us) n in (k u q h, rest us r a)

  -- After a save, the record holds of the others what held of them, and of the one saved.
  pub saved_in-All :
      (us : List Transaction)
      → P t
      → ((u : Transaction) → Q u → same_id t u ≡ false → P u)
      → All Q us
      → All P (saved_in names t us)
  unfolding saved_in
  saved_in-All us p k a = elim (Bool-cases (any (same_id t) us)) [
    | inl h ↦ rw h (overwrite-All us p k a)
    | inr h ↦ rw h (insert_by_name-All us p k h a)
  ]

module _ (sha256 : List ℕ → String) (names : Names) (status : VolumeStatus) where
  -- Decided already, or still to come.
  abbrev Inv : List Transaction → Transaction → Type 0
  Inv rest u =
      ((is_pending_validation u.phase ≡ false) ⊎ (is_rejected sha256 names status u ≡ true))
      ⊎ Mem u rest

  passed :
      (t : Transaction) (ts : List Transaction) (u : Transaction)
      → Inv (t ∷ ts) u
      → is_rejected sha256 names status t ≡ true
      → Inv ts u
  passed t ts u (inl d) h = inl d
  passed t ts _ (inr (here _ _)) h = inl (inr h)
  passed t ts u (inr (there _ _ _ m)) h = inr m

  replaced :
      (t : Transaction) (ts : List Transaction) (u : Transaction)
      → Inv (t ∷ ts) u
      → same_id t u ≡ false
      → Inv ts u
  replaced t ts u (inl d) h = inl d
  replaced t ts _ (inr (here _ _)) h = absurd (false≢true (sym h ∙ str_eq_refl t.transaction_id))
  replaced t ts u (inr (there _ _ _ m)) h = inr m

  All-passed :
      (t : Transaction) (ts us : List Transaction)
      → All (Inv (t ∷ ts)) us
      → is_rejected sha256 names status t ≡ true
      → All (Inv ts) us
  All-passed t ts [] a h = tt
  All-passed t ts (u ∷ us) (i, a) h = (passed t ts u i h, All-passed t ts us a h)

  abbrev AreDecided :
      List Transaction
      → List ℤ
      → List ℤ
      → Result RepairError (List ℤ × List ℤ) × Controller
      → Type 0
  AreDecided ts done rejected out =
      (out.0
        ≡ ok (
          done
              ++ map (λ t. t.volume_id)
                  (select_if (λ t. not (is_rejected sha256 names status t)) ts),
          rejected
              ++ map (λ t. t.volume_id) (select_if (λ t. is_rejected sha256 names status t) ts),
        ))
      × All (Inv []) out.1.journal

  validate_each-AreDecided :
      (ts : List Transaction) (done rejected : List ℤ) (c : Controller)
      → All (Inv ts) c.journal
      → AreDecided ts done rejected (validate_each sha256 names status ts done rejected c)
  unfolding validate_each on_transaction
  validate_each-AreDecided [] done rejected c a =
      rw (append-nil done, append-nil rejected) (refl, a)
  validate_each-AreDecided (t ∷ ts) done rejected c a =
      elim (Bool-cases (is_rejected sha256 names status t)) [
        | inl h ↦ rw h (
            let (e, q) =
              validate_each-AreDecided ts done (rejected ++ t.volume_id ∷ []) c
                (All-passed t ts c.journal a h) in
            (
              e
                  ∙ ap
                      (λ x. ok (
                        done
                            ++ map (λ t. t.volume_id)
                                (select_if (λ t. not (is_rejected sha256 names status t)) ts),
                        x,
                      ))
                      (append_assoc rejected (t.volume_id ∷ []) (
                        map (λ t. t.volume_id)
                          (select_if (λ t. is_rejected sha256 names status t) ts))),
              q,
            ))
        | inr h ↦ rw h (
            let c' = put_back names t (mark_verified sha256 names (job_for t c)).1 c in
            let (e, q) = validate_each-AreDecided ts (done ++ t.volume_id ∷ []) rejected c' (
              saved_in-All names (Inv ts) (Inv (t ∷ ts))
                (mark_verified sha256 names (job_for t c)).1.saved c.journal (inl (inl refl))
                (replaced t ts) a) in
            (
              e
                  ∙ ap
                      (λ x. ok (
                        x,
                        rejected
                            ++ map (λ t. t.volume_id)
                                (select_if (λ t. is_rejected sha256 names status t) ts),
                      ))
                      (append_assoc done (t.volume_id ∷ []) (
                        map (λ t. t.volume_id)
                          (select_if (λ t. not (is_rejected sha256 names status t)) ts))),
              q,
            ))
      ]

  awaiting-Inv : (c : Controller) → All (Inv (awaiting c)) c.journal
  awaiting-Inv c = All-from-Mem (Inv (awaiting c)) c.journal (λ u m.
      elim (Bool-cases (is_pending_validation u.phase)) [
        | inl h ↦ inr (Mem-select_if (λ t. is_pending_validation t.phase) u c.journal h m)
        | inr h ↦ inl (inl h)
      ])

  Inv-decided :
      (us : List Transaction)
      → All (Inv []) us
      → All
          (λ u.
            (is_pending_validation u.phase ≡ false) ⊎ (is_rejected sha256 names status u ≡ true))
          us
  Inv-decided [] a = tt
  Inv-decided (u ∷ us) (inl d, a) = (d, Inv-decided us a)
  Inv-decided (u ∷ us) (inr m, a) = elim m [ ]

  -- `validate_upstream` does not raise; it returns the volumes of the installed candidates that the
  -- upstream status has and does not call read-only, and those of the others, in the journal's
  -- order; and every record that still awaits the validation afterwards is one to be rejected.
  pub validate_upstream-decides :
      (c : Controller)
      → let out = validate_upstream sha256 names status c in
        (out.0
          ≡ ok (
            map
                (λ t. t.volume_id)
                (select_if (λ t. not (is_rejected sha256 names status t)) (awaiting c)),
            map
                (λ t. t.volume_id)
                (select_if (λ t. is_rejected sha256 names status t) (awaiting c)),
          ))
        × All
            (λ u.
              (is_pending_validation u.phase ≡ false) ⊎ (is_rejected sha256 names status u ≡ true))
            out.1.journal
  validate_upstream-decides c =
      let (e, a) = validate_each-AreDecided (awaiting c) [] [] c (awaiting-Inv c) in
      (e, Inv-decided _ a)
