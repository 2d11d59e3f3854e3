-- ===== src/Health.antt =====
-- `health.py`: the state that the guardian publishes, and the answers of its HTTP server. The lock
-- makes each method atomic. Times are in milliseconds.
pub mod Probes
mod Tests
use s3_storage_node.Common.{
  ℕ, ◌+◌, String, Bool, true, false, not, ◌||◌, List, [], ◌∷◌, if◌then◌else◌, str_eq,
}
use s3_storage_node.Common.Int.{pos}
use s3_storage_node.Common.Dict.{Dict, insert}
use s3_storage_node.Common.Json.{Json, str, int, bool, float, object, array}

pub record HealthState : Type 0 where
  pub state : String
  pub ready : Bool
  pub reason : String
  pub since : ℕ
  pub storage : Dict Json
  pub recovery_attempts : ℕ
  pub failures_total : ℕ
  pub consecutive_probe_successes : ℕ
  pub last_probe_at : ℕ
  pub probe_started_monotonic : ℕ
  pub admission : Dict Json
  pub blocked_recovery : Dict Json
  pub last_probe_duration : ℕ
  pub last_failure_at : ℕ
  pub last_failure : String
  pub recovery_stable_since : ℕ
  pub writer : Dict Json
  pub generation : Dict Json
  pub generation_history : Dict Json
  pub seaweed_volumes : Dict Json
  pub index_repair : Dict Json

abbrev zero_json : Json
zero_json = int (pos 0)

abbrev no_json : Json
no_json = bool false

abbrev empty_list : Json
empty_list = array []

-- `__init__`
unfoldable pub initial : ℕ → HealthState
initial now = record {
  state = "BOOTSTRAPPING";
  ready = false;
  reason = "starting";
  since = now;
  storage = [];
  recovery_attempts = 0;
  failures_total = 0;
  consecutive_probe_successes = 0;
  last_probe_at = 0;
  probe_started_monotonic = 0;
  admission = [];
  blocked_recovery = [];
  last_probe_duration = 0;
  last_failure_at = 0;
  last_failure = "";
  recovery_stable_since = 0;
  writer = ("scope", str "local") ∷ ("held", no_json) ∷ [];
  generation =
      ("id", zero_json)
      ∷ ("mode", str "disabled")
      ∷ ("state", str "none")
      ∷ ("fenced", bool true)
      ∷ [];
  generation_history =
      ("indexes_certified", bool true) ∷ ("counters", object []) ∷ ("recent", empty_list) ∷ [];
  seaweed_volumes =
      ("checked", no_json)
      ∷ ("total", zero_json)
      ∷ ("readonly", zero_json)
      ∷ ("writable", zero_json)
      ∷ ("unexpected_readonly", zero_json)
      ∷ ("orphan_deletion_safe", no_json)
      ∷ ("collections", object [])
      ∷ [];
  index_repair =
      ("enabled", no_json)
      ∷ ("state", str "idle")
      ∷ ("transaction_id", str "")
      ∷ ("pending_volume_ids", empty_list)
      ∷ ("current_volume_id", zero_json)
      ∷ ("verified_volume_ids", empty_list)
      ∷ ("resolved_without_install_volume_ids", empty_list)
      ∷ ("failed_volume_ids", empty_list)
      ∷ ("last_error", str "")
      ∷ ("started_at", float 0)
      ∷ ("updated_at", float 0)
      ∷ ("counters", object [])
      ∷ [];
}

-- The methods that change the state.
pub data Update : Type 0 where
  set : String → Bool → String → Update
  set_storage : String → Dict Json → Update
  start_probe : Update
  set_admission set_blocked_recovery : Dict Json → Update
  record_probe : Bool → ℕ → String → Update
  set_recovery_stable_since : ℕ → Update
  set_writer : Bool → String → String → Update
  set_generation set_generation_history set_seaweed_volumes set_index_repair : Dict Json → Update
  increment_failure increment_recovery : Update

-- `record_probe`
abbrev pub probed : ℕ → Bool → ℕ → String → HealthState → HealthState
probed now true duration error s = record s {
  probe_started_monotonic = 0;
  last_probe_at = now;
  last_probe_duration = duration;
  consecutive_probe_successes = s.consecutive_probe_successes + 1;
}
probed now false duration error s = record s {
  probe_started_monotonic = 0;
  last_probe_at = now;
  last_probe_duration = duration;
  consecutive_probe_successes = 0;
  last_failure_at = now;
  last_failure = error;
}

-- One update at the wall time `now` and the monotonic time `mono`.
unfoldable pub apply : ℕ → ℕ → Update → HealthState → HealthState
apply now mono (set state ready reason) s = record s {
  since = if str_eq state s.state then s.since else now;
  state = state;
  ready = ready;
  reason = reason;
}
apply now mono (set_storage name values) s = record s {
  storage = insert name (object values) s.storage;
}
apply now mono start_probe s = record s { probe_started_monotonic = mono }
apply now mono (set_admission values) s = record s { admission = values }
apply now mono (set_blocked_recovery values) s = record s { blocked_recovery = values }
apply now mono (record_probe success duration error) s = probed now success duration error s
apply now mono (set_recovery_stable_since value) s = record s { recovery_stable_since = value }
apply now mono (set_writer held scope owner) s = record s {
  writer = ("scope", str scope) ∷ ("held", bool held) ∷ ("owner", str owner) ∷ [];
}
apply now mono (set_generation values) s = record s { generation = values }
apply now mono (set_generation_history values) s = record s { generation_history = values }
apply now mono (set_seaweed_volumes values) s = record s { seaweed_volumes = values }
apply now mono (set_index_repair values) s = record s { index_repair = values }
apply now mono increment_failure s = record s {
  failures_total = s.failures_total + 1;
  last_failure_at = now;
}
apply now mono increment_recovery s = record s { recovery_attempts = s.recovery_attempts + 1 }

-- An update and the two clocks at it.
abbrev pub Timed : Type 0
Timed = ℕ × ℕ × Update

unfoldable pub apply_all : List Timed → HealthState → HealthState
apply_all [] s = s
apply_all ((now, mono, u) ∷ us) s = apply_all us (apply now mono u s)

-- The status code of `do_GET`.
unfoldable pub status_code : String → HealthState → ℕ
status_code path s =
    if str_eq path "/live"
    then 200
    else if str_eq path "/ready" || str_eq path "/healthz"
    then (if s.ready then 200 else 503)
    else if str_eq path "/metrics"
    then 200
    else 404
