-- ===== src/Generation/Lease.antt =====
-- `LocalWriterLease`: the exclusive lock on `writer.lock` that a guardian holds while it runs.
use s3_storage_node.Common.{
  ℕ, ◌≡◌, sym, ◌∙◌, inl, inr, Bool, true, false, List, [], ◌∷◌, Option, none, some, arith,
  Bool-cases, Option-cases, ◌==◌, if◌then◌else◌,
}

-- `fcntl.flock` on the lock file, whose states are `L`. A guardian is a number.
pub record Flock (L : Type 0) : Type 0 where
  -- `LOCK_EX | LOCK_NB`; `none` is a BlockingIOError.
  pub lock : ℕ → L → Option L
  pub unlock : ℕ → L → L

-- The guardians' leases on one state directory: `held g` is `_handle is not None`.
pub record Leases (L : Type 0) : Type 0 where
  pub file : L
  pub held : ℕ → Bool

module _ {L : Type 0} (flock : Flock L) where
  abbrev set_held : ℕ → Bool → (ℕ → Bool) → ℕ → Bool
  set_held g value held h = if h == g then value else held h

  abbrev acquired : ℕ → Leases L → Option L → Bool × Leases L
  acquired g s none = (false, s)
  acquired g s (some file) = (true, record { file = file; held = set_held g true s.held })

  -- `acquire`; false is the GenerationError, which leaves the lease as it was.
  unfoldable pub acquire : ℕ → Leases L → Bool × Leases L
  acquire g s = acquired g s (flock.lock g s.file)

  unfoldable pub release : ℕ → Leases L → Leases L
  release g s =
      if s.held g
      then record { file = flock.unlock g s.file; held = set_held g false s.held }
      else s

pub data Action : Type 0 where
  acquiring releasing : ℕ → Action

module _ {L : Type 0} (flock : Flock L) where
  -- Any guardians' calls, in any order.
  unfoldable pub run_actions : List Action → Leases L → Leases L
  unfolding acquire release
  run_actions [] s = s
  run_actions (acquiring g ∷ rest) s = run_actions rest (acquire flock g s).1
  run_actions (releasing g ∷ rest) s = run_actions rest (release flock g s)

-- What `flock` documents, where `owner` says who has the exclusive lock: it is given only when
-- nobody has it, and given up by its owner.
pub record FlockLaws {L : Type 0} (flock : Flock L) (owner : L → Option ℕ) : Type 0 where
  pub locks : (g : ℕ) (l l' : L) → flock.lock g l ≡ some l' → (owner l ≡ none) × (owner l' ≡ some g)
  pub unlocks : (g : ℕ) (l : L) → owner l ≡ some g → owner (flock.unlock g l) ≡ none

module _ {L : Type 0} (flock : Flock L) (owner : L → Option ℕ) (laws : FlockLaws flock owner) where
  -- Who holds a lease has the lock.
  abbrev pub Owned : Leases L → Type 0
  Owned s = (g : ℕ) → s.held g ≡ true → owner s.file ≡ some g

  acquire-Owned : (g : ℕ) (s : Leases L) → Owned s → Owned (acquire flock g s).1
  unfolding acquire
  acquire-Owned g s o = elim (Option-cases (flock.lock g s.file)) [
    | inl e ↦ rw e o
    | inr (l, e) ↦ rw e (λ h held.
        let (free, mine) = laws.locks g s.file l e in ground (arith, mine, free, o h, held))
  ]

  release-Owned : (g : ℕ) (s : Leases L) → Owned s → Owned (release flock g s)
  unfolding release
  release-Owned g s o = elim (Bool-cases (s.held g)) [
    | inl e ↦ rw e (λ h held. ground (arith, o g e, o h, held))
    | inr e ↦ rw e o
  ]

  -- Under the laws of `flock`, whatever the order of calls of `acquire` and `release`, two
  -- guardians never hold the lease at once, if everyone who held it at first had the lock.
  pub run_actions_exclusive :
      (actions : List Action) (s : Leases L) (g h : ℕ)
      → Owned s
      → (run_actions flock actions s).held g ≡ true
      → (run_actions flock actions s).held h ≡ true
      → g ≡ h
  unfolding run_actions
  run_actions_exclusive [] s g h o a b = let same = sym (o g a) ∙ o h b in cc
  run_actions_exclusive (acquiring i ∷ rest) s g h o a b =
      run_actions_exclusive rest _ g h (acquire-Owned i s o) a b
  run_actions_exclusive (releasing i ∷ rest) s g h o a b =
      run_actions_exclusive rest _ g h (release-Owned i s o) a b
