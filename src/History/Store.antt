-- ===== src/History/Store.antt =====
-- The history file, and the length of its list.
use s3_storage_node.Common.{
  ℕ, ◌≤◌, ◌≡◌, refl, inl, inr, List, [], ◌∷◌, ◌++◌, arith, length, length-last_n, Option-cases,
}
use s3_storage_node.History.{
  finished, Ending, ActiveGeneration, HistoryState, Operation, begin, end, recover, certify,
  max_history, load, persist, finish_active, close_record, note_shutdown, note_fence, increment,
  finish, superseded, restarted, start, certify_indexes, recover_interrupted_active, apply, run,
}

-- A state that was persisted is loaded as it was.
pub load-persist : (s : HistoryState) → load (persist s) ≡ s
unfolding load persist
load-persist s = refl

abbrev pub IsBounded : HistoryState → Type 0
IsBounded s = length s.history ≤ max_history

close_record-IsBounded :
    (a : ActiveGeneration) (now : ℕ) (e : Ending) (s : HistoryState)
    → IsBounded (close_record a now e s)
unfolding close_record
close_record-IsBounded a now e s =
    omega (arith, length-last_n max_history (s.history ++ finished a now e ∷ []))

finish_active-history :
    (a : ActiveGeneration) (now : ℕ) (e : Ending) (s : HistoryState)
    → (finish_active a now e s).history ≡ (close_record a now e s).history
unfolding finish_active close_record note_shutdown note_fence increment
finish_active-history a now e s = ground arith

finish-IsBounded :
    (now : ℕ) (e : Ending) (s : HistoryState) → IsBounded s → IsBounded (finish now e s)
unfolding finish
finish-IsBounded now e s h = elim (Option-cases s.active) [
  | inl idle ↦ rw (idle, finish) h
  | inr (a, busy) ↦
      rw (busy, finish) (rw (finish_active-history a now e s) (close_record-IsBounded a now e s))
]

apply-IsBounded : (op : Operation) (s : HistoryState) → IsBounded s → IsBounded (apply op s)
unfolding apply start increment certify_indexes recover_interrupted_active
apply-IsBounded (begin now g t m) s h = finish-IsBounded now superseded s h
apply-IsBounded (end now e) s h = finish-IsBounded now e s h
apply-IsBounded (recover now) s h = elim (Option-cases s.active) [
  | inl idle ↦ rw (idle, recover_interrupted_active) h
  | inr (a, busy) ↦
      rw (busy, recover_interrupted_active)
        (rw (finish_active-history a now restarted s) (close_record-IsBounded a now restarted s))
]
apply-IsBounded (certify now reason) s h = h

-- However many operations run, at most 64 finished generations are kept, if no more were kept
-- before.
pub run-IsBounded : (ops : List Operation) (s : HistoryState) → IsBounded s → IsBounded (run ops s)
unfolding run
run-IsBounded [] s h = h
run-IsBounded (op ∷ ops) s h = run-IsBounded ops (apply op s) (apply-IsBounded op s h)
