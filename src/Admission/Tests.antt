-- ===== src/Admission/Tests.antt =====
-- The budget over three events, and one tick.
use s3_storage_node.Common.{ℕ, ◌+◌, ◌-◌, ◌*◌, ◌≤◌, refl, Bool, true, false, List, [], ◌∷◌, arith}
use s3_storage_node.Common.Result.{ok, err}
use s3_storage_node.Admission.{
  new_budget, Runtime, ProbeStatus, AdmissionConfig, Controller, exchange, os_error,
}
use s3_storage_node.Admission.Budget.{run_updates, healthy_from, write_limit_bounds}

abbrev events : List (ℕ × Bool)
events = (0, true) ∷ (300000, true) ∷ (300001, false) ∷ (700000, true) ∷ []

write_limit_bounds_example :
    let b = run_updates events (new_budget 4 300) in
    (1 ≤ b.limit) × (b.limit ≤ 4) × (healthy_from 0 events + (b.limit - 1) * (300 * 1000) ≤ 700000)
write_limit_bounds_example =
    write_limit_bounds 4 300 0 700000 events (omega arith)
      (omega arith, (omega arith, (omega arith, (omega arith, refl))))

abbrev controller : Controller
controller = record { budget = new_budget 4 300; errors = 0 }

abbrev settings : AdmissionConfig
settings = record { slow_probe_seconds = 2; probe_interval_seconds = 5; probe_timeout_seconds = 15 }

abbrev probe : ProbeStatus
probe = record { ready = true; last_probe_at = 1000; last_probe_duration = 20; probe_started = 0 }

-- HAProxy does not answer.
abbrev silent : Runtime
silent = record {
  show_stat = err (exchange (os_error "refused"));
  set_limit = λ n. ok "";
  set_one = ok "";
}
