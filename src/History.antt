-- ===== src/History.antt =====
-- `generation_history.py`: the bounded history that explains why generations turn over, with
-- the certification of the volume indexes. Times are in milliseconds.
pub mod Store
pub mod Counters
pub mod Certified
mod Tests
use Prim.Native.String.{◌++◌ as join}
use s3_storage_node.Common.{
  ℕ, ◌+◌, ◌-◌, String, Bool, true, false, ◌||◌, List, [], ◌∷◌, ◌++◌, Option, none, some, last_n,
  if◌then◌else◌, mem_text, str_eq,
}
use s3_storage_node.Common.Dict.{Dict, lookup, insert}

abbrev pub max_history : ℕ
max_history = 64

pub record ActiveGeneration : Type 0 where
  pub generation : ℕ
  pub transport : String
  pub mode : String
  pub started_at : ℕ

pub record FinishedGeneration : Type 0 where
  pub active : ActiveGeneration
  pub ended_at : ℕ
  pub duration : ℕ
  pub cause : String
  pub reason : String
  pub phase : String
  pub clean_shutdown : Bool
  pub fence_verified : Bool

-- Why the indexes are, or are not, certified.
pub data CertificationReason : Type 0 where
  no_unclean_generation history_unreadable : CertificationReason
  ended_uncleanly : ℕ → String → CertificationReason
  certified_by : String → CertificationReason

pub record HistoryState : Type 0 where
  pub counters : Dict ℕ
  pub history : List FinishedGeneration
  pub active : Option ActiveGeneration
  pub indexes_certified : Bool
  pub certification_reason : CertificationReason
  pub certified_at : ℕ

-- A key of the stored object: not there, there with a value of the wrong type, or well typed.
pub data Slot {ℓ} (A : Type ℓ) : Type ℓ where
  absent malformed : Slot A
  present : A → Slot A

pub record StoredHistory : Type 0 where
  pub counters : Slot (Dict ℕ)
  pub history : Slot (List FinishedGeneration)
  pub active : Slot (Option ActiveGeneration)
  pub indexes_certified : Slot Bool
  pub certification_reason : Slot CertificationReason
  pub certified_at : Slot ℕ

-- The history file: absent, not decodable or no object, or a decoded object.
pub data HistoryFile : Type 0 where
  missing unreadable : HistoryFile
  decoded : StoredHistory → HistoryFile

abbrev pub slot_or {ℓ} : {A : Type ℓ} → A → Slot A → A
slot_or default (present a) = a
slot_or default _ = default

abbrev is_malformed {ℓ} : {A : Type ℓ} → Slot A → Bool
is_malformed malformed = true
is_malformed _ = false

abbrev empty_stored : StoredHistory
empty_stored = record {
  counters = absent;
  history = absent;
  active = absent;
  indexes_certified = absent;
  certification_reason = absent;
  certified_at = absent;
}

-- The end of `_load`: `uncertain` withdraws the certification.
pub normalised : Bool → StoredHistory → HistoryState
normalised uncertain p = record {
  counters = slot_or [] p.counters;
  history = slot_or [] p.history;
  active = slot_or none p.active;
  indexes_certified = if uncertain then false else slot_or true p.indexes_certified;
  certification_reason =
      if uncertain
      then history_unreadable
      else slot_or no_unclean_generation p.certification_reason;
  certified_at = if uncertain then 0 else slot_or 0 p.certified_at;
}

unfoldable pub load : HistoryFile → HistoryState
unfolding normalised
load missing = normalised false empty_stored
load unreadable = normalised true empty_stored
load (decoded p) =
    normalised
      (is_malformed p.counters
        || is_malformed p.history
        || is_malformed p.active
        || is_malformed p.indexes_certified)
      p

-- `_persist`: what the file then holds.
unfoldable pub persist : HistoryState → HistoryFile
persist s = decoded (record {
  counters = present s.counters;
  history = present s.history;
  active = present s.active;
  indexes_certified = present s.indexes_certified;
  certification_reason = present s.certification_reason;
  certified_at = present s.certified_at;
})

-- `int(counters.get(name, 0))`
unfoldable pub counter : String → Dict ℕ → ℕ
counter name d = elim (lookup name d) [ none ↦ 0 | some n ↦ n ]

-- `_increment`
unfoldable pub increment : String → HistoryState → HistoryState
unfolding counter
increment name s = record s { counters = insert name (counter name s.counters + 1) s.counters }

pub record Ending : Type 0 where
  pub cause : String
  pub reason : String
  pub phase : String
  pub clean_shutdown : Bool
  pub fence_verified : Bool

abbrev pub finished : ActiveGeneration → ℕ → Ending → FinishedGeneration
finished active now e = record {
  active = active;
  ended_at = now;
  duration = now - active.started_at;
  cause = e.cause;
  reason = e.reason;
  phase = e.phase;
  clean_shutdown = e.clean_shutdown;
  fence_verified = e.fence_verified;
}

-- The record moves from `active` to the end of the history, which keeps its newest entries.
pub close_record : ActiveGeneration → ℕ → Ending → HistoryState → HistoryState
close_record active now e s = record s {
  history = last_n max_history (s.history ++ finished active now e ∷ []);
  active = none;
}

pub note_shutdown : ActiveGeneration → Ending → HistoryState → HistoryState
unfolding increment
note_shutdown active e s =
    if e.clean_shutdown
    then increment "clean_shutdowns_total" s
    else record (increment "unclean_shutdowns_total" s) {
      indexes_certified = false;
      certification_reason = ended_uncleanly active.generation e.reason;
      certified_at = 0;
    }

pub note_fence : Ending → HistoryState → HistoryState
unfolding increment
note_fence e s =
    increment (if e.fence_verified then "verified_fences_total" else "unverified_fences_total") s

-- `_finish_active`, for the record that is active.
unfoldable pub finish_active : ActiveGeneration → ℕ → Ending → HistoryState → HistoryState
unfolding close_record note_shutdown note_fence increment
finish_active active now e s = note_fence e (
    note_shutdown active e (
      increment (join "cause:" e.cause)
        (increment "generations_completed_total" (close_record active now e s))))

abbrev pub superseded : Ending
superseded = record {
  cause = "superseded_without_outcome";
  reason = "a replacement generation started without a recorded prior outcome";
  phase = "creating_generation";
  clean_shutdown = false;
  fence_verified = false;
}

abbrev pub restarted : Ending
restarted = record {
  cause = "guardian_restart_detected";
  reason = "guardian restarted before the prior generation recorded an outcome";
  phase = "startup";
  clean_shutdown = false;
  fence_verified = false;
}

-- `finish`: nothing happens when no generation is active.
unfoldable pub finish : ℕ → Ending → HistoryState → HistoryState
unfolding finish_active
finish now e s = elim s.active [ none ↦ s | some a ↦ finish_active a now e s ]

-- `recover_interrupted_active`
unfoldable pub recover_interrupted_active : ℕ → HistoryState → HistoryState × Bool
unfolding finish_active
recover_interrupted_active now s = elim s.active [
  | none ↦ (s, false)
  | some a ↦ (finish_active a now restarted s, true)
]

-- `start`, with the times of the finish and of the new record.
unfoldable pub start : ℕ → ℕ → String → String → HistoryState → HistoryState
unfolding finish increment
start now generation transport mode s =
    let s' = increment "generations_created_total" (finish now superseded s) in
    record s' {
      active = some (record {
        generation = generation;
        transport = transport;
        mode = mode;
        started_at = now;
      });
    }

unfoldable pub certify_indexes : ℕ → String → HistoryState → HistoryState
unfolding increment
certify_indexes now reason s = increment "index_certifications_total" (record s {
  indexes_certified = true;
  certification_reason = certified_by reason;
  certified_at = now;
})

-- `classify_cause`, from the name of the exception's type and the phase.
unfoldable pub classify_cause : String → String → String
classify_cause name phase =
    if str_eq name "TransportSwitchRequested"
    then "operator_transport_switch"
    else if str_eq name "StorageError"
    then "storage_failure"
    else if str_eq name "ProcessError"
    then "process_failure"
    else if mem_text name ("SeaweedHealthError" ∷ "UnexpectedReadonlyVolumes" ∷ [])
    then "seaweed_volume_health_failure"
    else if mem_text name (
        "IndexRepairError" ∷ "IndexRepairJournalError" ∷ "IndexRepairManualIntervention"
        ∷ "IndexValidationRequired" ∷ [])
    then "seaweed_index_repair_failure"
    else if str_eq name "S3CheckError"
    then "s3_canary_failure"
    else if mem_text phase ("MOUNTING" ∷ "VERIFYING_STORAGE" ∷ "VERIFYING_TRANSPORTS" ∷ [])
    then "storage_startup_failure"
    else if str_eq phase "STARTING_SEAWEED"
    then "seaweed_startup_failure"
    else if str_eq phase "CREATING_GENERATION"
    then "generation_creation_failure"
    else "runtime_failure"

-- An operation of the guardian on its history, with the time of the call.
pub data Operation : Type 0 where
  begin : ℕ → ℕ → String → String → Operation
  end : ℕ → Ending → Operation
  recover : ℕ → Operation
  certify : ℕ → String → Operation

unfoldable pub apply : Operation → HistoryState → HistoryState
unfolding start finish recover_interrupted_active certify_indexes
apply (begin now generation transport mode) s = start now generation transport mode s
apply (end now e) s = finish now e s
apply (recover now) s = (recover_interrupted_active now s).0
apply (certify now reason) s = certify_indexes now reason s

unfoldable pub run : List Operation → HistoryState → HistoryState
unfolding apply
run [] s = s
run (op ∷ ops) s = run ops (apply op s)
