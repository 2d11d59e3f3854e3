-- ===== src/Guardian/Process.antt =====
-- `processes.py`, `ManagedProcess.stop_until`, and `_stop_seaweed` of `guardian.py`, over the model of
-- the operating system of `Generation`.
use s3_storage_node.Common.{
  ℕ, ◌-◌, String, Bool, true, false, not, ◌&&◌, List, [], ◌∷◌, ◌++◌, Option, none, some,
  if◌then◌else◌, any, ◌==◌,
}
use s3_storage_node.Generation.System.{System, sigterm, sigkill}

-- The identity stands for the fields that `==` compares; there is a process id once it was started.
pub record ManagedProcess : Type 0 where
  pub name : String
  pub identity : ℕ
  pub pid : Option ℕ

abbrev pub reverse : {A : Type 0} → List A → List A
reverse [] = []
reverse (x ∷ xs) = reverse xs ++ x ∷ []

-- `process in self.lingering_processes`
abbrev pub lingers : ManagedProcess → List ManagedProcess → Bool
lingers p ps = any (λ q. q.identity == p.identity) ps

module _ {W : Type 0} (os : System W) where
  -- The wait after SIGKILL, in what is left of the time.
  abbrev pub kill_until : ℕ → ℕ → W → Bool × W
  kill_until pid deadline w =
      let (_, w₁) = os.killpg sigkill pid w in os.wait pid (deadline - os.clock w₁) w₁

  abbrev pub wait_until_deadline : ℕ → ℕ → Bool × W → Bool × W
  wait_until_deadline pid deadline (true, w) = (true, w)
  wait_until_deadline pid deadline (false, w) = kill_until pid deadline w

  -- From the outcome of SIGTERM.
  abbrev pub term_until : ℕ → ℕ → Bool × W → Bool × W
  term_until pid deadline (false, w) = (true, w)
  term_until pid deadline (true, w) =
      wait_until_deadline pid deadline (os.wait pid (deadline - os.clock w) w)

  -- `stop_until`
  unfoldable pub stop_until : ManagedProcess → ℕ → W → Bool × W
  stop_until p deadline w = elim p.pid [
    | none ↦ (true, w)
    | some pid ↦
        if not (os.alive pid w)
        then (true, w)
        else term_until pid deadline (os.killpg sigterm pid w)
  ]

  -- `running`
  abbrev pub running : ManagedProcess → W → Bool
  running p w = elim p.pid [ none ↦ false | some pid ↦ os.alive pid w ]

  abbrev pub note_lingering : Bool → ManagedProcess → List ManagedProcess → List ManagedProcess
  note_lingering true p lingering = lingering
  note_lingering false p lingering = if lingers p lingering then lingering else lingering ++ p ∷ []

  -- The loop of `_stop_seaweed`: whether all stopped, what lingers, and the system afterwards.
  unfoldable pub stop_each :
      ℕ → List ManagedProcess → List ManagedProcess → W → Bool × List ManagedProcess × W
  unfolding stop_until
  stop_each deadline [] lingering w = (true, lingering, w)
  stop_each deadline (p ∷ ps) lingering w =
      let (stopped, w₁) = stop_until p deadline w in
      let (all, lingering', w₂) = stop_each deadline ps (note_lingering stopped p lingering) w₁ in
      (stopped && all, lingering', w₂)

  -- `_stop_seaweed` with a deadline.
  abbrev pub stop_seaweed :
      ℕ → List ManagedProcess → List ManagedProcess → W → Bool × List ManagedProcess × W
  stop_seaweed deadline processes lingering w = stop_each deadline (reverse processes) lingering w
