-- ===== src/History/Certified.antt =====
-- The certification of the indexes, over any operations of the guardian.
use s3_storage_node.Common.{
  ℕ, ◌≡◌, refl, ap, ◌∙◌, inl, inr, not, Bool, true, false, ◌&&◌, ◌||◌, List, [], ◌∷◌, arith,
  Option-cases, is_some,
}
use s3_storage_node.History.{
  ActiveGeneration, Ending, HistoryState, Operation, begin, end, recover, certify, finish_active,
  close_record, note_shutdown, note_fence, increment, finish, start, certify_indexes,
  recover_interrupted_active, superseded, restarted, apply, run,
}

-- What the history should say: a certification certifies, an unclean end of the active generation
-- withdraws it, and a generation that is followed or found without an outcome ended uncleanly.
abbrev pub after_op : Operation → Bool × Bool → Bool × Bool
after_op (begin now g t m) (live, certified) = (true, certified && not live)
after_op (end now e) (live, certified) = (false, certified && (not live || e.clean_shutdown))
after_op (recover now) (live, certified) = (false, certified && not live)
after_op (certify now reason) (live, certified) = (live, true)

abbrev pub after_ops : List Operation → Bool × Bool → Bool × Bool
after_ops [] v = v
after_ops (op ∷ ops) v = after_ops ops (after_op op v)

abbrev pub view : HistoryState → Bool × Bool
view s = (is_some s.active, s.indexes_certified)

view-finish_active :
    (a : ActiveGeneration) (now : ℕ) (e : Ending) (s : HistoryState)
    → view (finish_active a now e s) ≡ (false, s.indexes_certified && e.clean_shutdown)
unfolding finish_active close_record note_shutdown note_fence increment
view-finish_active a now e s = ground arith

view-finish :
    (now : ℕ) (e : Ending) (s : HistoryState)
    → view (finish now e s)
      ≡ (false, s.indexes_certified && (not (is_some s.active) || e.clean_shutdown))
unfolding finish
view-finish now e s = elim (Option-cases s.active) [
  | inl idle ↦ rw (idle, finish) (rw idle (ground arith))
  | inr (a, busy) ↦ rw (busy, finish) (view-finish_active a now e s)
]

view-apply : (op : Operation) (s : HistoryState) → view (apply op s) ≡ after_op op (view s)
unfolding apply start certify_indexes recover_interrupted_active increment
view-apply (begin now g t m) s = ground (arith, view-finish now superseded s)
view-apply (end now e) s = view-finish now e s
view-apply (recover now) s = elim (Option-cases s.active) [
  | inl idle ↦ ground arith
  | inr (a, busy) ↦ ground (arith, view-finish_active a now restarted s)
]
view-apply (certify now reason) s = refl

-- Over any operations the indexes are certified exactly when they were, or were certified since,
-- and no generation has ended uncleanly after that; a generation is active exactly when one was
-- begun after the last end.
pub view-run : (ops : List Operation) (s : HistoryState) → view (run ops s) ≡ after_ops ops (view s)
unfolding run
view-run [] s = refl
view-run (op ∷ ops) s = view-run ops (apply op s) ∙ ap (after_ops ops) (view-apply op s)
