-- ===== src/Repair/Phase.antt =====
-- The phases of a repair transaction, and the sets of them that the controller tests.
use s3_storage_node.Common.{String, Bool, true, false}

pub data Phase : Type 0 where
  detected writers_stopped source_mounted_readonly candidate_building candidate_built : Phase
  backup_created failed_preinstall installing_candidate candidate_installed : Phase
  awaiting_upstream_validation verified manual_intervention_required rolled_back : Phase
  resolved_without_install tail_recovered : Phase
  other : String → Phase

-- `TERMINAL_PHASES`
abbrev pub is_terminal : Phase → Bool
is_terminal verified = true
is_terminal manual_intervention_required = true
is_terminal resolved_without_install = true
is_terminal tail_recovered = true
is_terminal _ = false

-- `PENDING_VALIDATION_PHASES`
abbrev pub is_pending_validation : Phase → Bool
is_pending_validation candidate_installed = true
is_pending_validation awaiting_upstream_validation = true
is_pending_validation _ = false

-- `PREINSTALL_PHASES`
abbrev pub is_preinstall : Phase → Bool
is_preinstall detected = true
is_preinstall writers_stopped = true
is_preinstall source_mounted_readonly = true
is_preinstall candidate_building = true
is_preinstall candidate_built = true
is_preinstall backup_created = true
is_preinstall failed_preinstall = true
is_preinstall _ = false

abbrev pub is_manual : Phase → Bool
is_manual manual_intervention_required = true
is_manual _ = false

abbrev pub is_verified : Phase → Bool
is_verified verified = true
is_verified _ = false

abbrev pub is_resolved : Phase → Bool
is_resolved resolved_without_install = true
is_resolved _ = false

abbrev pub is_failed_preinstall : Phase → Bool
is_failed_preinstall failed_preinstall = true
is_failed_preinstall _ = false

abbrev pub is_awaiting : Phase → Bool
is_awaiting awaiting_upstream_validation = true
is_awaiting _ = false
