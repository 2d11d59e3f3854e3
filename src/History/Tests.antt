-- ===== src/History/Tests.antt =====
-- A generation that starts, is interrupted, and is recovered.
use s3_storage_node.Common.{◌≡◌, true, false, List, [], ◌∷◌, arith}
use s3_storage_node.History.{
  HistoryState, missing, ActiveGeneration, Ending, Operation, begin, end, recover, certify, load,
  run, start,
}
use s3_storage_node.History.Store.{IsBounded, run-IsBounded}
use s3_storage_node.History.Counters.{IsBalanced, run-IsBalanced}
use s3_storage_node.History.Certified.{view, after_ops, view-run}

abbrev crash : Ending
crash = record {
  cause = "storage_failure";
  reason = "timeout";
  phase = "ONLINE";
  clean_shutdown = false;
  fence_verified = true;
}

abbrev ops : List Operation
ops =
    begin 10 1 "cifs" "namespace"
    ∷ end 20 crash
    ∷ begin 30 2 "ssh" "namespace"
    ∷ recover 40
    ∷ certify 50 "checked"
    ∷ []

abbrev first : HistoryState
unfolding load
first = load missing

abbrev started : HistoryState
unfolding start load
started = start 10 1 "cifs" "namespace" first

run-IsBounded_example : IsBounded (run ops first)
unfolding load
run-IsBounded_example = run-IsBounded ops first (omega arith)

run-IsBalanced_example : IsBalanced (run ops (load missing))
run-IsBalanced_example = run-IsBalanced ops

view-run_example : view (run ops first) ≡ after_ops ops (view first)
view-run_example = view-run ops first

abbrev generation : ActiveGeneration
generation = record { generation = 1; transport = "cifs"; mode = "namespace"; started_at = 10 }
