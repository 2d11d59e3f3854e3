-- ===== src/Failover/Selector.antt =====
-- `TransportSelector`: every operation reads the state file under its lock and writes it back,
-- so an operation is a function of the document. The time is an argument, in milliseconds.
pub mod Load
pub mod Choice
pub mod Safety
pub mod Sequences
mod Tests
use s3_storage_node.Common.{
  ℕ, ◌+◌, ◌-◌, ◌*◌, ◌/◌, max, String, Bool, true, false, not, ◌&&◌, ◌||◌, List, [], ◌∷◌, Option,
  none, some, if◌then◌else◌, leb, ltb, ◌==◌, str_eq,
}
use s3_storage_node.Common.Dict.{Dict, lookup, contains, insert, erase}
use s3_storage_node.Common.Json.{Json, str, float, object, as_dict, as_str, Builtins}
use s3_storage_node.Common.Result.{Result, ok, err, ◌>>=◌, ◌>>◌, raise_if, or_raise}
use s3_storage_node.Failover.Order.{ExclusiveFailover, text_le, ordered_names, has_transport}
use s3_storage_node.Failover.State.{
  SelectError, bad_time, all_quarantined, is_quarantined, not_configured, unknown, cooling_down,
  Document, TransportState, get, load, save, truncate,
}

-- The transports that may be chosen, and those that cool down, in the order of the loop.
pub record Scan : Type 0 where
  pub candidates : List String
  pub cooling : List (ℕ × String)

abbrev pub milliseconds : ℕ → ℕ
milliseconds seconds = seconds * 1000

-- `min(cooling)` on a list that is not empty: the least time, then the least name.
pub earliest : ℕ × String → List (ℕ × String) → ℕ × String
earliest best [] = best
earliest (t, n) ((u, m) ∷ rest) =
    earliest (if ltb u t || (u == t && not (text_le n m)) then (u, m) else (t, n)) rest

-- `{"at": now, "reason": reason[:1000]}`
abbrev pub failure_entry : ℕ → String → Json
failure_entry now reason = object (("at", float now) ∷ ("reason", str (truncate 1000 reason)) ∷ [])

abbrev pub add_candidate : String → Scan → Scan
add_candidate name r = record r { candidates = name ∷ r.candidates }

abbrev pub add_cooling : ℕ → String → Scan → Scan
add_cooling at name r = record r { cooling = (at, name) ∷ r.cooling }

abbrev pub note_time : ℕ → String → Option ℕ → Scan → Scan
note_time now name none r = add_candidate name r
note_time now name (some t) r = if leb t now then add_candidate name r else add_cooling t name r

-- The first candidate, or the reason that there is none.
pub choose : ℕ → Scan → Result SelectError String
unfolding earliest
choose now found = elim found.candidates [
  | name ∷ names ↦ ok name
  | [] ↦ elim found.cooling [
    | [] ↦ err all_quarantined
    | first ∷ rest ↦
        let (t, n) = earliest first rest in err (cooling_down n (max 1 ((t - now + 999) / 1000)))
  ]
]

pub record_success : ℕ → String → Document → Result SelectError Document
record_success now name document = load document >>= λ s. ok (
    save now
      (record s { failed = erase name s.failed; active = str name; last_success_at = float now }))

-- `state.get("active") == name`
abbrev pub is_text : Json → String → Bool
is_text v name = elim (as_str v) [ none ↦ false | some s ↦ str_eq s name ]

pub startup_verification_required : String → Document → Result SelectError Bool
startup_verification_required fingerprint document =
    load document >>= λ s. ok (not (is_text s.verification_fingerprint fingerprint))

pub record_startup_verification : ℕ → String → List String → Document → Result SelectError Document
record_startup_verification now fingerprint names document = load document >>= λ s. ok (
    save now (record s {
      verification_fingerprint = str fingerprint;
      verified_at = float now;
      verified_transports = names;
    }))

module _ (config : ExclusiveFailover) where
  -- A pending request is taken up, unless its transport is quarantined or gone.
  pub take_request : ℕ → TransportState → String → Result SelectError (String × Document)
  take_request now s requested = do
    raise_if (contains requested s.quarantined) (is_quarantined requested)
    raise_if (not (has_transport config requested)) (not_configured requested)
    ok (requested, save now (record s { active = str requested; requested = str "" }))

  -- Whether the active transport is kept.
  pub keeps : TransportState → String → Bool
  keeps s active =
      not (str_eq active "")
      && has_transport config active
      && not (contains active s.failed)
      && not (contains active s.quarantined)

  pub record_failure : ℕ → String → String → Document → Result SelectError Document
  record_failure now name reason document =
      if not (has_transport config name)
      then ok document
      else load document >>= λ s. ok (
          save now (record s {
            failed = insert name (failure_entry now reason) s.failed;
            active = str name;
          }))

  pub quarantine : ℕ → String → String → Document → Result SelectError Document
  quarantine now name reason document = do
    raise_if (not (has_transport config name)) (unknown name)
    s ← load document
    ok (
        save now (record s {
          quarantined = insert name (failure_entry now reason) s.quarantined;
          verification_fingerprint = str "";
        }))

  pub clear_quarantine : ℕ → String → Document → Result SelectError Document
  clear_quarantine now name document = do
    raise_if (not (has_transport config name)) (unknown name)
    s ← load document
    ok (
        save now
          (record s { quarantined = erase name s.quarantined; verification_fingerprint = str "" }))

  pub request : ℕ → String → Document → Result SelectError Document
  request now name document = do
    raise_if (not (has_transport config name)) (unknown name)
    s ← load document
    raise_if (contains name s.quarantined) (is_quarantined name)
    ok (save now (record s { requested = if is_text s.active name then str "" else str name }))

module _ (py : Builtins) (config : ExclusiveFailover) where
  -- The time at which a failed transport may be used again; `none` if it has no failure record.
  pub available_at : TransportState → String → Result SelectError (Option ℕ)
  available_at s name = elim (lookup name s.failed) [
    | none ↦ ok none
    | some v ↦ elim (as_dict v) [
      | none ↦ ok none
      | some failure ↦ or_raise (py.float_of (get "at" (float 0) failure)) bad_time >>= λ at.
          ok (some (at + milliseconds config.failure_cooldown_seconds))
    ]
  ]

  -- The loop over the ordered names.
  pub scan : ℕ → TransportState → List String → Result SelectError Scan
  scan now s [] = ok (record { candidates = []; cooling = [] })
  scan now s (name ∷ names) =
      let rest = scan now s names in
      if contains name s.quarantined
      then rest
      else available_at s name >>= λ at. rest >>= λ r. ok (note_time now name at r)

  pub select_fresh : ℕ → TransportState → Result SelectError (String × Document)
  select_fresh now s = do
    found ← scan now s (ordered_names config)
    name ← choose now found
    ok (name, save now (record s { active = str name }))

  pub select_in : ℕ → Document → TransportState → Result SelectError (String × Document)
  select_in now document s =
      let requested = py.str_of s.requested in
      let active = py.str_of s.active in
      if not (str_eq requested "")
      then take_request config now s requested
      else if keeps config s active
      then ok (active, document)
      else select_fresh now s

  pub select : ℕ → Document → Result SelectError (String × Document)
  select now document = load document >>= λ s. select_in now document s

  pub pending_request : Document → Result SelectError String
  pending_request document = do
    s ← load document
    raise_if
        (not (str_eq (py.str_of s.requested) "")
          && not (has_transport config (py.str_of s.requested)))
        (not_configured (py.str_of s.requested))
    ok (py.str_of s.requested)
