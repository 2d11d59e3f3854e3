-- ===== src/Admission/Budget.antt =====
-- The write limit over any sequence of updates: its range and its rate of growth.
use native.Mathlib.Nat.{mul-le-mul_right}
use s3_storage_node.Common.{
  inl, inr, Option-cases, zero, suc, ℕ, ◌+◌, ◌-◌, ◌*◌, ◌≤◌, min, max, ◌≡◌, refl, subst, ◌∙◌, Bool,
  true, false, List, [], ◌∷◌, none, some, arith,
}
use s3_storage_node.Admission.{WriteBudget, new_budget, update}

-- The updates in order, each with its time and whether the appliance was healthy.
pub run_updates : List (ℕ × Bool) → WriteBudget → WriteBudget
run_updates [] b = b
run_updates ((now, healthy) ∷ rest) b = run_updates rest (update now healthy b)

-- The times from `t` on do not go back, and `end` is the last.
abbrev pub InOrder : ℕ → List (ℕ × Bool) → ℕ → Type 0
InOrder t [] end = t ≡ end
InOrder t ((now, healthy) ∷ rest) end = (t ≤ now) × InOrder now rest end

-- The time of the last update that was not healthy, or the start.
pub healthy_from : ℕ → List (ℕ × Bool) → ℕ
healthy_from start [] = start
healthy_from start ((now, true) ∷ rest) = healthy_from start rest
healthy_from start ((now, false) ∷ rest) = healthy_from now rest

-- The time that the growth since `start` has taken, at the least.
abbrev pub Grown : ℕ → WriteBudget → ℕ → Type 0
Grown start b t = elim b.healthy_since [
  | none ↦ (b.limit ≡ 1) × (start ≤ t)
  | some since ↦ (start + (b.limit - 1) * (b.healthy_window * 1000) ≤ since) × (since ≤ t)
]

abbrev pub InRange : WriteBudget → Type 0
InRange b = (1 ≤ b.limit) × (b.limit ≤ max 1 b.ceiling) × (1 ≤ b.ceiling)

update-InRange :
    (now : ℕ) (healthy : Bool) (b : WriteBudget) → InRange b → InRange (update now healthy b)
unfolding update
update-InRange now healthy b h = ground arith

-- One more window pays for one more request.
window_step :
    (start limit ceiling window since now : ℕ)
    → 1 ≤ limit
    → start + (limit - 1) * window ≤ since
    → since + window ≤ now
    → start + (min ceiling (limit + 1) - 1) * window ≤ now
window_step start zero ceiling window since now h g e = absurd (omega arith)
window_step start (suc k) ceiling window since now h g e =
    let capped : (min ceiling (suc k + 1) - 1) * window ≤ (k + 1) * window =
      mul-le-mul_right window (omega arith) in
    grind (arith, capped)

update-Grown :
    (start t now : ℕ) (b : WriteBudget)
    → InRange b
    → t ≤ now
    → Grown start b t
    → Grown start (update now true b) now
unfolding update
update-Grown start t now b r le g = elim (Option-cases b.healthy_since) [
  | inl none_yet ↦ ground arith
  | inr (since, e) ↦
      ground (arith, window_step start b.limit b.ceiling (b.healthy_window * 1000) since now)
]

-- An update that is not healthy takes all growth back.
update_unhealthy-Grown : (now : ℕ) (b : WriteBudget) → Grown now (update now false b) now
unfolding update
update_unhealthy-Grown now b = (refl, omega arith)

update-constants :
    (now : ℕ) (healthy : Bool) (b : WriteBudget)
    → ((update now healthy b).ceiling ≡ b.ceiling)
      × ((update now healthy b).healthy_window ≡ b.healthy_window)
unfolding update
update-constants now healthy b = ground arith

run_updates-Grown :
    (ceiling window start t end : ℕ) (events : List (ℕ × Bool)) (b : WriteBudget)
    → InOrder t events end
    → InRange b
    → Grown start b t
    → b.ceiling ≡ ceiling
    → b.healthy_window ≡ window
    → let b' = run_updates events b in
      InRange b'
      × Grown (healthy_from start events) b' end
      × (b'.ceiling ≡ ceiling)
      × (b'.healthy_window ≡ window)
unfolding run_updates healthy_from
run_updates-Grown ceiling window start t end [] b o r g c w =
    (r, subst (λ u. Grown start b u) o g, c, w)
run_updates-Grown ceiling window start t end ((now, true) ∷ rest) b (le, o) r g c w =
    let (c', w') = update-constants now true b in
    run_updates-Grown ceiling window start now end rest (update now true b) o
      (update-InRange now true b r) (update-Grown start t now b r le g) (c' ∙ c) (w' ∙ w)
run_updates-Grown ceiling window start t end ((now, false) ∷ rest) b (le, o) r g c w =
    let (c', w') = update-constants now false b in
    run_updates-Grown ceiling window now now end rest (update now false b) o
      (update-InRange now false b r) (update_unhealthy-Grown now b) (c' ∙ c) (w' ∙ w)

-- Over any updates from the start on, with a clock that does not go back, the write limit stays
-- between 1 and the ceiling, and since the last update that was not healthy, or the start, at least
-- one window has passed for each request above the first.
pub write_limit_bounds :
    (ceiling window start end : ℕ) (events : List (ℕ × Bool))
    → 1 ≤ ceiling
    → InOrder start events end
    → let b = run_updates events (new_budget ceiling window) in
      (1 ≤ b.limit)
      × (b.limit ≤ ceiling)
      × (healthy_from start events + (b.limit - 1) * (window * 1000) ≤ end)
unfolding new_budget
write_limit_bounds ceiling window start end events h o =
    let b = run_updates events (new_budget ceiling window) in
    let (r, g, c, w) =
      run_updates-Grown ceiling window start start end events (new_budget ceiling window) o
        (ground arith) (refl, omega arith) refl refl in
    (
      r.0,
      omega (arith, r.1, r.2, c),
      elim (Option-cases b.healthy_since) [
        | inl e ↦ ground (arith, w, g)
        | inr (since, e) ↦ ground (arith, w, g)
      ],
    )
