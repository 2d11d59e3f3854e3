-- ===== src/Failover/Selector/Safety.antt =====
-- What a sequence of operations of `TransportSelector` guarantees of the transport in use.
use s3_storage_node.Common.{
  ℕ, String, ◌≡◌, refl, inl, inr, true, false, List, [], ◌∷◌, ◌++◌, mem_text, arith, Bool-cases,
  str_eq, str_eq_refl,
}
use s3_storage_node.Common.Dict.{contains}
use s3_storage_node.Common.Json.{str, Builtins}
use s3_storage_node.Common.Result.{ok, >>=-eq-ok}
use s3_storage_node.Failover.Order.{ExclusiveFailover, ordered_names, has_transport}
use s3_storage_node.Failover.State.{Document, TransportState, load, save}
use s3_storage_node.Failover.Selector.{
  Scan, scan, choose, select_fresh, select_in, select, take_request, keeps,
}
use s3_storage_node.Failover.Selector.Choice.{FirstOf, scan-FirstOf}

mem_text-append :
    (s : String) (before after : List String) → mem_text s (before ++ s ∷ after) ≡ true
mem_text-append s [] after = ground (arith, str_eq_refl s)
mem_text-append s (x ∷ xs) after = ground (arith, mem_text-append s xs after)

choose-eq_ok :
    (now : ℕ) (r : Scan) (name : String)
    → choose now r ≡ ok name
    → (rest : List String) × (r.candidates ≡ name ∷ rest)
unfolding choose
choose-eq_ok now r name e = go r.candidates refl e
  where
    go :
        (names : List String)
        → r.candidates ≡ names
        → choose now (record r { candidates = names }) ≡ ok name
        → (rest : List String) × (r.candidates ≡ name ∷ rest)
    go (n ∷ rest) c e' = (rest, ground arith)
    go [] c e' = ground arith

module _ (py : Builtins) (config : ExclusiveFailover) (now : ℕ) (s : TransportState) where
  has_transport_of_FirstOf :
      (name : String)
      → FirstOf py config now s name (ordered_names config)
      → has_transport config name ≡ true
  unfolding has_transport
  has_transport_of_FirstOf name (before, after, e, held, usable) =
      rw e (mem_text-append name before after)

  -- A fresh choice is the first usable transport of the configured order.
  pub select_fresh-FirstOf :
      (name : String) (document : Document)
      → select_fresh py config now s ≡ ok (name, document)
      → FirstOf py config now s name (ordered_names config)
        × (document ≡ save now (record s { active = str name }))
  unfolding select_fresh
  select_fresh-FirstOf name document e =
      let (found, scanned, e') = >>=-eq-ok (scan py config now s (ordered_names config)) _ e in
      let (n, chosen, e'') = >>=-eq-ok (choose now found) _ e' in
      let (rest, c) = choose-eq_ok now found n chosen in
      let same : n ≡ name = ground arith in
      (
        scan-FirstOf py config now s (ordered_names config) found name rest scanned (rw same at c),
        ground arith,
      )

  -- What `select` returns is configured and not quarantined, whichever way it was chosen.
  select_in-IsUsable :
      (document : Document) (name : String) (document' : Document)
      → select_in py config now document s ≡ ok (name, document')
      → (has_transport config name ≡ true) × (contains name s.quarantined ≡ false)
  unfolding select_in take_request keeps
  select_in-IsUsable document name document' e =
      elim (Bool-cases (str_eq (py.str_of s.requested) "")) [
        | inl idle ↦ elim (Bool-cases (keeps config s (py.str_of s.active))) [
          | inl kept ↦ ground arith
          | inr fresh ↦
              let (first, _) = select_fresh-FirstOf name document' (ground arith) in
              (has_transport_of_FirstOf name first, first.4.0)
        ]
        | inr asked ↦ ground arith
      ]

-- Whatever document is read, the transport that `select` returns is configured, and it is not
-- among the quarantined transports of that document.
pub select-IsUsable :
    (py : Builtins) (config : ExclusiveFailover) (now : ℕ) (document : Document)
    {s : TransportState} (name : String) (document' : Document)
    → load document ≡ ok s
    → select py config now document ≡ ok (name, document')
    → (has_transport config name ≡ true) × (contains name s.quarantined ≡ false)
unfolding select
select-IsUsable py config now document {s} name document' l e =
    select_in-IsUsable py config now s document name document' (rw l at e)
