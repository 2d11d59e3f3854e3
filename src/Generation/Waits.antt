-- ===== src/Generation/Waits.antt =====
-- The bounded waits of `start` and `_configure_dns`.
use s3_storage_node.Common.{
  ℕ, zero, suc, ◌+◌, ◌*◌, ◌≤◌, ◌≡◌, refl, inl, inr, ◌⊎◌, Bool, true, false, arith, Bool-cases, ltb,
}
use s3_storage_node.Common.Result.{Result, ok}
use s3_storage_node.Generation.System.{System, Text}
use s3_storage_node.Generation.Machine.{Machine, GenerationError}
use s3_storage_node.Generation.Worker.{Waited, ready, exited, timeout, wait_until}

module _ {W : Type 0} (os : System W) (text : Text) (done dead : W → Bool) where
  -- The verdict agrees with the state in which the wait ends.
  abbrev pub Honest : ℕ → Result GenerationError Waited × Machine W → Type 0
  Honest deadline out =
      ((out.0 ≡ ok ready) × (done out.1.world ≡ true))
      ⊎ ((out.0 ≡ ok exited) × (dead out.1.world ≡ true))
      ⊎ ((out.0 ≡ ok timeout) × (deadline ≤ os.clock out.1.world))

  abbrev slept_on : Machine W → Machine W
  slept_on s = record s { world = os.sleep 50 s.world }

  -- If a sleep of 50 ms advances the clock by at least that much, then a wait whose deadline is
  -- within 50 ms for each unit of fuel but one ends with a true verdict: the condition holds, or
  -- the process has ended, or the deadline has passed.
  pub wait_until-Honest :
      (dead_first : Bool)
      → ((w : W) → os.clock w + 50 ≤ os.clock (os.sleep 50 w))
      → (fuel deadline : ℕ) (s : Machine W) → deadline + 50 ≤ os.clock s.world + fuel * 50
      → Honest deadline (wait_until os text fuel deadline done dead dead_first s)
  unfolding wait_until
  wait_until-Honest dead_first slept zero deadline s h = inr (inr (refl, omega (arith, h)))
  wait_until-Honest true slept (suc fuel) deadline s h =
      let later =
        wait_until-Honest true slept fuel deadline (slept_on s) (omega (arith, h, slept s.world)) in
      elim (Bool-cases (ltb (os.clock s.world) deadline)) [
        | inr e ↦ rw e (inr (inr (refl, ground (arith, e))))
        | inl e ↦ rw e (elim (Bool-cases (dead s.world)) [
          | inl d ↦ rw d (inr (inl (refl, d)))
          | inr d ↦ rw d (elim (Bool-cases (done s.world)) [
            | inl g ↦ rw g (inl (refl, g))
            | inr g ↦ rw g later
          ])
        ])
      ]
  wait_until-Honest false slept (suc fuel) deadline s h =
      let later =
        wait_until-Honest false slept fuel deadline (slept_on s)
          (omega (arith, h, slept s.world)) in
      elim (Bool-cases (ltb (os.clock s.world) deadline)) [
        | inr e ↦ rw e (inr (inr (refl, ground (arith, e))))
        | inl e ↦ rw e (elim (Bool-cases (done s.world)) [
          | inl g ↦ rw g (inl (refl, g))
          | inr g ↦ rw g (elim (Bool-cases (dead s.world)) [
            | inl d ↦ rw d (inr (inl (refl, d)))
            | inr d ↦ rw d later
          ])
        ])
      ]
