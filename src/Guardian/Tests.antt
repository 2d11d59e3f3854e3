-- ===== src/Guardian/Tests.antt =====
-- The guardian over a system whose only state is the link and a clock.
use s3_storage_node.Common.{◌+◌, ◌≡◌, refl, ◌⊎◌, true, false, [], ◌∷◌, none, some}
use s3_storage_node.Common.Result.{err}
use s3_storage_node.History.{HistoryState, missing, load, start}
use s3_storage_node.Generation.Example.{World, os, text, linked, laws, worker}
use s3_storage_node.Guardian.{Setting, Guardian, after_failure, terminate_generation}
use s3_storage_node.Guardian.Safety.{
  IsCutOff, Verdict, after_failure-IsCutOff, terminate_generation-Verdict,
}

abbrev setting : Setting World
setting = record {
  shutdown_grace = 30000;
  startup_timeout = 60000;
  fencing_mode = "namespace";
  targets =
      record { name = "data"; is_path = false } ∷ record { name = "index"; is_path = true } ∷ [];
  unmount = λ name t w. (true, (w.0, w.1 + 5));
  create = λ w. (err "no number", w);
  last_allocated = λ w. 0;
}

abbrev history : HistoryState
unfolding load start
history = start 10 4 "cifs" "namespace" (load missing)

abbrev guardian : Guardian World
guardian = record {
  generation = none;
  world = (true, 20);
  processes = record { name = "weed"; identity = 1; pid = some 50 } ∷ [];
  lingering = [];
  history = history;
  active_transport = "cifs";
  fatal_fence_failure = false;
  stopping = false;
}

after_failure-IsCutOff_example :
    let g' =
      after_failure os text setting "probe failed" "storage_failure" "ONLINE"
        (record guardian { generation = some worker }) in
    (g'.stopping ≡ true) ⊎ IsCutOff os text setting linked laws (λ name t w h. h) worker g'
after_failure-IsCutOff_example =
    after_failure-IsCutOff os text setting linked laws (λ name t w h. h) worker "probe failed"
      "storage_failure" "ONLINE" guardian refl

terminate_generation-Verdict_example :
    Verdict os text setting linked laws
      (λ name t w h. h)
      worker
      (terminate_generation os text setting "stopping" "container_shutdown" "STOPPING" true
        (record guardian { generation = some worker }))
terminate_generation-Verdict_example =
    terminate_generation-Verdict os text setting linked laws (λ name t w h. h) worker "stopping"
      "container_shutdown" "STOPPING" true guardian refl
