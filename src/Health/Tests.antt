-- ===== src/Health/Tests.antt =====
-- Two probes and a failure.
use s3_storage_node.Common.{◌+◌, ◌≡◌, true, false, List, [], ◌∷◌}
use s3_storage_node.Health.{initial, Timed, set, record_probe, increment_failure, apply_all}
use s3_storage_node.Health.Probes.{streak, failures, latest_ready, apply_all_counts}

abbrev updates : List Timed
updates =
    (1, 1, record_probe false 20 "slow")
    ∷ (2, 2, increment_failure)
    ∷ (3, 3, record_probe true 10 "")
    ∷ (4, 4, set "ONLINE" true "all checks passed")
    ∷ []

apply_all_counts_example :
    let t = apply_all updates (initial 0) in
    (t.consecutive_probe_successes ≡ streak 0 updates)
    × (t.failures_total ≡ 0 + failures updates)
    × (t.ready ≡ latest_ready false updates)
unfolding initial
apply_all_counts_example = apply_all_counts updates (initial 0)
