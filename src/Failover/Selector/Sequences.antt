-- ===== src/Failover/Selector/Sequences.antt =====
-- What one operation of `TransportSelector` means for the `select` calls that follow it.
use s3_storage_node.Common.{
  ℕ, ◌+◌, ◌<◌, String, ◌≡◌, ◌≢◌, inl, inr, true, false, some, arith, Bool-cases, eq_iff,
  str_eq_refl, Option-cases,
}
use s3_storage_node.Common.Dict.{Dict, insert, lookup, contains, lookup-insert, lookup-erase}
use s3_storage_node.Common.Json.{Json, str, float, as_str, Builtins}
use s3_storage_node.Common.Result.{ok, Result-cases, ok-injective}
use s3_storage_node.Failover.Order.{ExclusiveFailover, has_transport}
use s3_storage_node.Failover.State.{Document, TransportState, load, save}
use s3_storage_node.Failover.Selector.{
  is_text, milliseconds, failure_entry, available_at, select_fresh, select_in, select, take_request,
  keeps, record_failure, quarantine, record_success, request, pending_request,
}
use s3_storage_node.Failover.Selector.Load.{load-save}
use s3_storage_node.Failover.Selector.Safety.{select-IsUsable, select_fresh-FirstOf}

contains-insert_self :
    (name : String) (v : Json) (d : Dict Json) → contains name (insert name v d) ≡ true
contains-insert_self name v d = rw (lookup-insert, str_eq_refl name)

-- The state after each operation, as the next call reads it.
module _ (config : ExclusiveFailover) (t : ℕ) (name reason : String) (d₀ d₁ : Document) where
  quarantine_effect :
      {s : TransportState}
      → load d₀ ≡ ok s
      → quarantine config t name reason d₀ ≡ ok d₁
      → load d₁
        ≡ ok (record s {
          quarantined = insert name (failure_entry t reason) s.quarantined;
          verification_fingerprint = str "";
          updated_at = float t;
        })
  unfolding quarantine
  quarantine_effect l q = elim (Bool-cases (has_transport config name)) [
    | inl known ↦ rw (← ok-injective (rw (known, l) at q)) (load-save _ _)
    | inr gone ↦ cc (rw gone at q)
  ]

  quarantine_loaded :
      quarantine config t name reason d₀ ≡ ok d₁ → (s : TransportState) × (load d₀ ≡ ok s)
  unfolding quarantine
  quarantine_loaded q = elim (Result-cases (load d₀)) [
    | inl found ↦ found
    | inr (e, l) ↦ ground arith
  ]

other_text : (v : Json) (name : String) → as_str v ≢ some name → is_text v name ≡ false
other_text v name a = elim (Option-cases (as_str v)) [
  | inl nothing ↦ rw (nothing, is_text)
  | inr (s, e) ↦ ground (arith, eq_iff s name)
]

request_effect :
    (config : ExclusiveFailover) (t : ℕ) (name : String) (d₀ d₁ : Document) {s : TransportState}
    → load d₀ ≡ ok s
    → as_str s.active ≢ some name
    → request config t name d₀ ≡ ok d₁
    → (load d₁ ≡ ok (record s { requested = str name; updated_at = float t }))
      × (has_transport config name ≡ true)
      × (contains name s.quarantined ≡ false)
unfolding request
request_effect config t name d₀ d₁ {s} l a e = elim (Bool-cases (has_transport config name)) [
  | inl known ↦ elim (Bool-cases (contains name s.quarantined)) [
    | inl held ↦ cc (rw (known, l, held) at e)
    | inr free ↦ (
      rw (← ok-injective (rw (known, l, free, other_text s.active name a) at e)) (load-save _ _),
      known,
      free,
    )
  ]
  | inr gone ↦ cc (rw gone at e)
]

-- After a transport was quarantined, `select` never returns it, whatever was requested before.
pub select-quarantine :
    (py : Builtins) (config : ExclusiveFailover) (t now : ℕ) (name reason : String)
    (d₀ d₁ d₂ : Document) (chosen : String)
    → quarantine config t name reason d₀ ≡ ok d₁
    → select py config now d₁ ≡ ok (chosen, d₂)
    → chosen ≢ name
select-quarantine py config t now name reason d₀ d₁ d₂ chosen q e same =
    let (s, l) = quarantine_loaded config t name reason d₀ d₁ q in
    let (_, free) =
      select-IsUsable py config now d₁ chosen d₂ (quarantine_effect config t name reason d₀ d₁ l q)
        e in
    cc (free, same, contains-insert_self name (failure_entry t reason) s.quarantined)

-- A transport that was used with success stays selected, whatever its priority: with no pending
-- request and no quarantine, `select` returns it and leaves the document alone.
pub select-record_success :
    (py : Builtins) (config : ExclusiveFailover) (t now : ℕ) (name : String) (d₀ d₁ : Document)
    {s : TransportState}
    → load d₀ ≡ ok s
    → s.requested ≡ str ""
    → name ≢ ""
    → has_transport config name ≡ true
    → contains name s.quarantined ≡ false
    → record_success t name d₀ ≡ ok d₁
    → select py config now d₁ ≡ ok (name, d₁)
unfolding record_success select select_in keeps
select-record_success py config t now name d₀ d₁ {s} l r n h q e = rw (← ok-injective (rw l at e)) (
    rw load-save (
      ground (
        arith,
        py.str_of_str "",
        py.str_of_str name,
        eq_iff (py.str_of s.requested) "",
        eq_iff (py.str_of (str name)) "",
        lookup-erase name name s.failed,
        str_eq_refl name,
      )))

-- A request for another configured transport that is not quarantined is taken by the next
-- `select`, and is no longer pending after it.
pub select-request :
    (py : Builtins) (config : ExclusiveFailover) (t now : ℕ) (name : String) (d₀ d₁ : Document)
    {s : TransportState}
    → load d₀ ≡ ok s
    → name ≢ ""
    → as_str s.active ≢ some name
    → request config t name d₀ ≡ ok d₁
    → (d₂ : Document) × (select py config now d₁ ≡ ok (name, d₂))
      × (pending_request py config d₂ ≡ ok "")
unfolding select select_in take_request pending_request
select-request py config t now name d₀ d₁ {s} l n a e =
    let s' : TransportState = record s { requested = str name; updated_at = float t } in
    let taken : TransportState = record s' { active = str name; requested = str "" } in
    let (l₁, known, free) = request_effect config t name d₀ d₁ l a e in
    (
      save now taken,
      rw l₁ (ground (arith, known, free, py.str_of_str name, eq_iff (py.str_of (str name)) "")),
      rw load-save (ground (arith, py.str_of_str "", eq_iff (py.str_of (str "")) "")),
    )

-- What `at` of a failure record gives, and when its transport may be used again.
available_at-failure_entry :
    (py : Builtins) (config : ExclusiveFailover) (t : ℕ) (name reason : String) (s : TransportState)
    → lookup name s.failed ≡ some (failure_entry t reason)
    → available_at py config s name ≡ ok (some (t + milliseconds config.failure_cooldown_seconds))
unfolding available_at lookup
available_at-failure_entry py config t name reason s e =
    rw (e, available_at) (rw (py.float_of_float t))

record_failure_effect :
    (config : ExclusiveFailover) (t : ℕ) (name reason : String) (d₀ d₁ : Document)
    {s : TransportState}
    → load d₀ ≡ ok s
    → has_transport config name ≡ true
    → record_failure config t name reason d₀ ≡ ok d₁
    → load d₁
      ≡ ok (record s {
        failed = insert name (failure_entry t reason) s.failed;
        active = str name;
        updated_at = float t;
      })
unfolding record_failure
record_failure_effect config t name reason d₀ d₁ l known e =
    rw (← ok-injective (rw (known, l) at e)) (load-save _ _)

-- After a failure of a configured transport was recorded, and until its cooldown is over, a
-- `select` with no pending request returns another transport.
pub select-record_failure :
    (py : Builtins) (config : ExclusiveFailover) (t now : ℕ) (name reason : String)
    (d₀ d₁ d₂ : Document) (chosen : String) {s : TransportState}
    → load d₀ ≡ ok s
    → s.requested ≡ str ""
    → has_transport config name ≡ true
    → now < t + milliseconds config.failure_cooldown_seconds
    → record_failure config t name reason d₀ ≡ ok d₁
    → select py config now d₁ ≡ ok (chosen, d₂)
    → chosen ≢ name
unfolding select select_in keeps
select-record_failure py config t now name reason d₀ d₁ d₂ chosen {s} l r known early f e same =
    let s' : TransportState = record s {
      failed = insert name (failure_entry t reason) s.failed;
      active = str name;
      updated_at = float t;
    } in
    let listed : lookup name s'.failed ≡ some (failure_entry t reason) =
      rw (lookup-insert, str_eq_refl name) in
    let cooling = available_at-failure_entry py config t name reason s' listed in
    let l₁ = record_failure_effect config t name reason d₀ d₁ l known f in
    let fresh : select_fresh py config now s' ≡ ok (chosen, d₂) = ground (
      arith,
      rw l₁ at e,
      listed,
      py.str_of_str "",
      py.str_of_str name,
      eq_iff (py.str_of s.requested) "",
    ) in
    let (first, _) = select_fresh-FirstOf py config now s' chosen d₂ fresh in
    elim first.4.1 [
      | inl never ↦ cc (never, cooling, same)
      | inr (u, due, le) ↦ ground (arith, due, cooling)
    ]
