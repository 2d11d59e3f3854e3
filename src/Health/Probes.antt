-- ===== src/Health/Probes.antt =====
-- The published state after any sequence of updates.
use s3_storage_node.Common.{ℕ, ◌+◌, ◌≡◌, refl, ◌↔◌, Bool, true, false, List, [], ◌∷◌, arith}
use s3_storage_node.Health.{
  HealthState, set, set_storage, start_probe, set_admission, set_blocked_recovery, record_probe,
  set_recovery_stable_since, set_writer, set_generation, set_generation_history,
  set_seaweed_volumes, set_index_repair, increment_failure, increment_recovery, apply, Timed,
  apply_all, status_code,
}

-- The successes of probes since the last failure, if there were `n` before.
abbrev pub streak : ℕ → List Timed → ℕ
streak n [] = n
streak n ((now, mono, record_probe true duration error) ∷ us) = streak (n + 1) us
streak n ((now, mono, record_probe false duration error) ∷ us) = streak 0 us
streak n ((now, mono, _) ∷ us) = streak n us

-- How often `increment_failure` was called.
abbrev pub failures : List Timed → ℕ
failures [] = 0
failures ((now, mono, increment_failure) ∷ us) = failures us + 1
failures ((now, mono, _) ∷ us) = failures us

-- The readiness of the latest `set`, or the first one.
abbrev pub latest_ready : Bool → List Timed → Bool
latest_ready b [] = b
latest_ready b ((now, mono, set state ready reason) ∷ us) = latest_ready ready us
latest_ready b ((now, mono, _) ∷ us) = latest_ready b us

-- After any updates, the success count is the number of probes that succeeded since the last one
-- that failed, the failure total has grown by one for each call of `increment_failure`, and
-- the readiness is that of the latest `set`.
pub apply_all_counts :
    (us : List Timed) (s : HealthState)
    → let t = apply_all us s in
      (t.consecutive_probe_successes ≡ streak s.consecutive_probe_successes us)
      × (t.failures_total ≡ s.failures_total + failures us)
      × (t.ready ≡ latest_ready s.ready us)
unfolding apply_all apply
apply_all_counts [] s = (refl, omega arith, refl)
apply_all_counts ((now, mono, set state ready reason) ∷ us) s = apply_all_counts us _
apply_all_counts ((now, mono, set_storage name values) ∷ us) s = apply_all_counts us _
apply_all_counts ((now, mono, start_probe) ∷ us) s = apply_all_counts us _
apply_all_counts ((now, mono, set_admission values) ∷ us) s = apply_all_counts us _
apply_all_counts ((now, mono, set_blocked_recovery values) ∷ us) s = apply_all_counts us _
apply_all_counts ((now, mono, record_probe true duration error) ∷ us) s = apply_all_counts us _
apply_all_counts ((now, mono, record_probe false duration error) ∷ us) s = apply_all_counts us _
apply_all_counts ((now, mono, set_recovery_stable_since value) ∷ us) s = apply_all_counts us _
apply_all_counts ((now, mono, set_writer held scope owner) ∷ us) s = apply_all_counts us _
apply_all_counts ((now, mono, set_generation values) ∷ us) s = apply_all_counts us _
apply_all_counts ((now, mono, set_generation_history values) ∷ us) s = apply_all_counts us _
apply_all_counts ((now, mono, set_seaweed_volumes values) ∷ us) s = apply_all_counts us _
apply_all_counts ((now, mono, set_index_repair values) ∷ us) s = apply_all_counts us _
apply_all_counts ((now, mono, increment_failure) ∷ us) s =
    let (a, b, c) = apply_all_counts us (apply now mono increment_failure s) in
    (a, omega (arith, b), c)
apply_all_counts ((now, mono, increment_recovery) ∷ us) s = apply_all_counts us _

-- After any updates, `/ready` is answered with 200 just when the latest `set` was to ready.
pub status_code-latest_ready :
    (us : List Timed) (s : HealthState)
    → (status_code "/ready" (apply_all us s) ≡ 200) ↔ (latest_ready s.ready us ≡ true)
unfolding status_code
status_code-latest_ready us s = let (a, b, c) = apply_all_counts us s in ground (arith, c)
