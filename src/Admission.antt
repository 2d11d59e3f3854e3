-- ===== src/Admission.antt =====
-- `admission.py`: the feedback control of HAProxy's shared write budget. Times are in
-- milliseconds; HAProxy's answers are arguments, and the commands sent to it are results.
pub mod Budget
pub mod Tick
mod Tests
use s3_storage_node.Common.{
  ℕ, ◌+◌, ◌*◌, min, String, Bool, true, false, ◌&&◌, List, [], ◌∷◌, Option, none, some, leb, ltb,
  if◌then◌else◌, str_eq,
}
use s3_storage_node.Common.Int.{ℤ, pos, leb_ℤ, eq_ℤ}
use s3_storage_node.Common.Dict.{Dict, lookup}
use s3_storage_node.Common.Json.{str, Builtins}
use s3_storage_node.Common.Result.{Result, ok, err, ◌>>=◌, or_raise}

pub record WriteBudget : Type 0 where
  pub ceiling : ℕ
  pub healthy_window : ℕ
  pub limit : ℕ
  pub healthy_since : Option ℕ
  pub backoffs : ℕ

unfoldable pub new_budget : ℕ → ℕ → WriteBudget
new_budget ceiling healthy_window = record {
  ceiling = ceiling;
  healthy_window = healthy_window;
  limit = 1;
  healthy_since = none;
  backoffs = 0;
}

-- `update`, whose result is the new `limit`. The clock does not go back, so the elapsed time
-- `now - since` is compared as `since + window <= now`.
unfoldable pub update : ℕ → Bool → WriteBudget → WriteBudget
update now false b = record b {
  backoffs = if ltb 1 b.limit then b.backoffs + 1 else b.backoffs;
  limit = 1;
  healthy_since = none;
}
update now true b = elim b.healthy_since [
  | none ↦ record b { healthy_since = some now }
  | some since ↦
      if leb (since + b.healthy_window * 1000) now
      then record b { limit = min b.ceiling (b.limit + 1); healthy_since = some now }
      else b
]

-- A row of HAProxy's statistics, by column name. `csv.DictReader` gives `None` to the columns that a
-- short row lacks.
abbrev pub Row : Type 0
Row = Dict (Option String)

-- What `runtime_command` raises: an `OSError`, or a `UnicodeDecodeError`, which is a `ValueError`.
pub data ExchangeError : Type 0 where
  os_error : String → ExchangeError
  not_text : ExchangeError

-- What a round raises: `rejected` is an `OSError`, `missing_statistics` and `bad_number` are
-- `ValueError`, `no_column` is a `KeyError`, `no_value` a `TypeError` of `int(None)`, and `bad_csv` a
-- `csv.Error`.
pub data ControlError : Type 0 where
  exchange : ExchangeError → ControlError
  rejected : String → ControlError
  missing_statistics bad_number no_column no_value bad_csv : ControlError

-- What `except (OSError, ValueError, KeyError)` catches.
abbrev pub is_caught : ControlError → Bool
is_caught no_value = false
is_caught bad_csv = false
is_caught _ = true

abbrev pub cell_is : String → String → Row → Bool
cell_is column value row = elim (lookup column row) [
  | none ↦ false
  | some none ↦ false
  | some (some v) ↦ str_eq v value
]

abbrev max_ℤ : ℤ → ℤ → ℤ
max_ℤ a b = if leb_ℤ a b then b else a

-- `backend_queue or 0`
abbrev or_zero : Option ℤ → ℤ
or_zero none = pos 0
or_zero (some z) = z

module _ (py : Builtins) where
  -- `int(row[column])`
  pub int_cell : String → Row → Result ControlError ℤ
  int_cell column row = do
    cell ← or_raise (lookup column row) no_column
    v ← or_raise cell no_value
    or_raise (py.int_of (str v)) bad_number

  pub note_backend : Row → Option ℤ → Result ControlError (Option ℤ)
  note_backend row queue =
      if cell_is "pxname" "seaweed_s3_write" row && cell_is "svname" "BACKEND" row
      then (int_cell "qcur" row >>= λ q. ok (some q))
      else ok queue

  pub note_server : Row → Option (ℤ × ℤ) → Result ControlError (Option (ℤ × ℤ))
  note_server row server =
      if cell_is "pxname" "seaweed_s3_write" row && cell_is "svname" "worker_s3_write" row
      then (int_cell "qcur" row >>= λ q. int_cell "scur" row >>= λ a. ok (some (q, a)))
      else ok server

  -- The loop of `write_stats` over the rows that `csv.DictReader` yields.
  pub stats_from :
      List Row → Option ℤ → Option (ℤ × ℤ) → Result ControlError (Option ℤ × Option (ℤ × ℤ))
  stats_from [] queue server = ok (queue, server)
  stats_from (row ∷ rows) queue server = do
    queue' ← note_backend row queue
    server' ← note_server row server
    stats_from rows queue' server'

  unfoldable pub write_stats : List Row → Result ControlError (ℤ × ℤ)
  unfolding stats_from note_backend note_server int_cell
  write_stats rows = stats_from rows none none >>= λ found. elim found.1 [
    | none ↦ err missing_statistics
    | some (queue, active) ↦ ok (max_ℤ queue (or_zero found.0), active)
  ]

-- The fields of the health snapshot that a tick reads.
pub record ProbeStatus : Type 0 where
  pub ready : Bool
  pub last_probe_at : ℕ
  pub last_probe_duration : ℕ
  pub probe_started : ℕ

pub record AdmissionConfig : Type 0 where
  pub slow_probe_seconds : ℕ
  pub probe_interval_seconds : ℕ
  pub probe_timeout_seconds : ℕ

-- The answers of HAProxy in one tick: the rows of the statistics, the reply to a new limit, and the
-- reply to the limit of 1 that the handler of an error sets.
pub record Runtime : Type 0 where
  pub show_stat : Result ControlError (List Row)
  pub set_limit : ℕ → Result ExchangeError String
  pub set_one : Result ExchangeError String

pub data Command : Type 0 where
  show_stat : Command
  set_maxconn : ℕ → Command

pub record Controller : Type 0 where
  pub budget : WriteBudget
  pub errors : ℕ

-- What a tick publishes as `health.admission`.
pub record Report : Type 0 where
  pub write_limit : ℕ
  pub queue : ℤ
  pub active : ℤ
  pub backoffs_total : ℕ
  pub control_errors_total : ℕ
  pub last_error : Option ControlError

-- A tick publishes a report, or raises.
pub record Outcome : Type 0 where
  pub controller : Controller
  pub commands : List Command
  pub result : Result ControlError Report

-- `healthy` in `tick`; `now` is the monotonic clock and `wall` the wall clock.
unfoldable pub is_healthy : AdmissionConfig → ℕ → ℕ → ProbeStatus → Bool
is_healthy config now wall p =
    p.ready
    && ltb 0 p.last_probe_at
    && ltb wall (
        p.last_probe_at + (config.probe_interval_seconds + config.probe_timeout_seconds + 2) * 1000)
    && ltb p.last_probe_duration (config.slow_probe_seconds * 1000)
    && (if leb p.probe_started 0
        then true
        else ltb now (p.probe_started + config.slow_probe_seconds * 1000))

abbrev report_of : Controller → ℤ → ℤ → Option ControlError → Report
report_of c queue active error = record {
  write_limit = c.budget.limit;
  queue = queue;
  active = active;
  backoffs_total = c.budget.backoffs;
  control_errors_total = c.errors;
  last_error = error;
}

-- The report that follows the command of the handler, which ignores an `OSError` alone.
abbrev pub unless_escaped : Result ExchangeError String → Report → Result ControlError Report
unless_escaped (ok reply) report = ok report
unless_escaped (err (os_error message)) report = ok report
unless_escaped (err not_text) report = err (exchange not_text)

-- The handler of an error: the budget falls back to 1, and HAProxy is told so.
pub fail_closed : Runtime → ℕ → Controller → List Command → ℤ → ℤ → ControlError → Outcome
fail_closed haproxy now c sent queue active error =
    let c' : Controller = record { budget = update now false c.budget; errors = c.errors + 1 } in
    record {
      controller = c';
      commands = set_maxconn 1 ∷ sent;
      result = unless_escaped haproxy.set_one (report_of c' queue active (some error));
    }

-- The reply to a new limit, which must be empty. What its exchange raises is caught.
pub applied : Runtime → ℕ → Controller → ℤ → ℤ → Result ExchangeError String → Outcome
unfolding fail_closed
applied haproxy now c queue active (err error) =
    fail_closed haproxy now c (set_maxconn c.budget.limit ∷ show_stat ∷ []) queue active
      (exchange error)
applied haproxy now c queue active (ok reply) =
    if str_eq reply ""
    then record {
      controller = c;
      commands = set_maxconn c.budget.limit ∷ show_stat ∷ [];
      result = ok (report_of c queue active none);
    }
    else fail_closed haproxy now c (set_maxconn c.budget.limit ∷ show_stat ∷ []) queue active
        (rejected reply)

-- The round once the statistics are known, or could not be read.
pub respond :
    AdmissionConfig
    → ℕ
    → ℕ
    → ProbeStatus
    → Runtime
    → Controller
    → Result ControlError (ℤ × ℤ)
    → Outcome
unfolding applied fail_closed
respond config now wall probe haproxy c (err error) =
    if is_caught error
    then fail_closed haproxy now c (show_stat ∷ []) (pos 0) (pos 0) error
    else record { controller = c; commands = show_stat ∷ []; result = err error }
respond config now wall probe haproxy c (ok (queue, active)) =
    let healthy = is_healthy config now wall probe && eq_ℤ queue (pos 0) in
    let c' : Controller = record c { budget = update now healthy c.budget } in
    applied haproxy now c' queue active (haproxy.set_limit c'.budget.limit)

-- `tick`. The commands come latest first; the reply is the stripped text.
unfoldable pub tick :
    Builtins → AdmissionConfig → ℕ → ℕ → ProbeStatus → Runtime → Controller → Outcome
unfolding respond
tick py config now wall probe haproxy c =
    respond config now wall probe haproxy c (haproxy.show_stat >>= write_stats py)
