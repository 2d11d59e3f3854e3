-- ===== src/Guardian.antt =====
-- `generation_guardian.py`: the life of a worker generation under its guardian, composed of the
-- generation's methods, the processes and the generation history.
pub mod Process
pub mod Safety
mod Tests
use s3_storage_node.Common.{
  ℕ, ◌-◌, ◌+◌, String, Bool, true, false, not, ◌&&◌, ◌||◌, List, [], ◌∷◌, Option, none, some,
  if◌then◌else◌, ltb, leb, any, select_if,
}
use s3_storage_node.Common.Result.{Result, ok, err}
use s3_storage_node.History.{HistoryState, Ending, finish, start}
use s3_storage_node.Generation.System.{System, Text}
use s3_storage_node.Generation.Machine.{GenerationError, Worker, Machine}
use s3_storage_node.Generation.Worker.{fence, retire, stop_keeper}
use s3_storage_node.Guardian.Process.{ManagedProcess, reverse, running, stop_each, stop_seaweed}

pub record Target : Type 0 where
  pub name : String
  pub is_path : Bool

-- What the guardian reads of its configuration, with the times in milliseconds, and what runs in
-- other processes: the helper that unmounts a target, whether it succeeded, and the factory of
-- generations with the last number that it allocated.
pub record Setting (W : Type 0) : Type 0 where
  pub shutdown_grace : ℕ
  pub startup_timeout : ℕ
  pub fencing_mode : String
  pub targets : List Target
  pub unmount : String → ℕ → W → Bool × W
  pub create : W → Result String Worker × W
  pub last_allocated : W → ℕ

pub record Guardian (W : Type 0) : Type 0 where
  pub generation : Option Worker
  pub world : W
  pub processes : List ManagedProcess
  pub lingering : List ManagedProcess
  pub history : HistoryState
  pub active_transport : String
  pub fatal_fence_failure : Bool
  pub stopping : Bool

module _ {W : Type 0} (os : System W) (text : Text) (setting : Setting W) where
  -- One target of `_repair_targets`: with no deadline the helper gets the startup timeout.
  abbrev pub detach_one : Option ℕ → Target → W → Bool × W
  detach_one none target w = setting.unmount target.name setting.startup_timeout w
  detach_one (some deadline) target w =
      if leb (deadline - os.clock w) 0
      then (false, w)
      else setting.unmount target.name (deadline - os.clock w) w

  unfoldable pub detach_each : Bool → Option ℕ → List Target → W → Bool × W
  detach_each unmount_all deadline [] w = (true, w)
  detach_each unmount_all deadline (target ∷ rest) w =
      let skipped = detach_each unmount_all deadline rest w in
      let (detached, w₁) = detach_one deadline target w in
      let (all, w₂) = detach_each unmount_all deadline rest w₁ in
      if target.is_path && not unmount_all then skipped else (detached && all, w₂)

  -- `_repair_targets`, with the time that the calls may take together.
  unfoldable pub repair_targets : Bool → Option ℕ → Guardian W → Bool × Guardian W
  unfolding detach_each
  repair_targets unmount_all timeout g =
      let deadline : Option ℕ = elim timeout [
        | none ↦ none
        | some t ↦ some (os.clock g.world + t)
      ] in
      let (detached, w) = detach_each unmount_all deadline (reverse setting.targets) g.world in
      (detached, record g { world = w })

  -- `_stop_seaweed`
  unfoldable pub stop_processes : ℕ → Guardian W → Bool × Guardian W
  unfolding stop_each
  stop_processes deadline g =
      let (stopped, lingering, w) = stop_seaweed os deadline g.processes g.lingering g.world in
      (stopped, record g { processes = []; lingering = lingering; world = w })

  -- The outcome of `fence` on the generation.
  abbrev pub fence_outcome :
      Result GenerationError (Unit {0}) × Machine W → Guardian W → Bool × Guardian W
  fence_outcome (ok a, m) g = (true, record g { generation = some m.worker; world = m.world })
  fence_outcome (err e, m) g =
      (false, record g { generation = some m.worker; world = m.world; fatal_fence_failure = true })

  -- `_fence_generation`
  unfoldable pub fence_generation : String → Guardian W → Bool × Guardian W
  unfolding fence
  fence_generation reason g = elim g.generation [
    | none ↦ (true, g)
    | some worker ↦
        fence_outcome (fence os text reason (record { worker = worker; world = g.world })) g
  ]

  abbrev pub record_end : Ending → Guardian W → Guardian W
  record_end e g = record g { history = finish (os.time g.world) e g.history }

  -- After the fence: without a clean shutdown the storage is detached once more, and the outcome is
  -- recorded.
  abbrev pub after_fence :
      Bool → String → String → String → Bool → Bool × Guardian W → Bool × Guardian W
  after_fence clean reason cause phase unmount_all (fenced, g) =
      let ending : Ending = record {
        cause = cause;
        reason = reason;
        phase = phase;
        clean_shutdown = clean;
        fence_verified = fenced;
      } in
      (fenced, record_end ending (if clean then g else (repair_targets unmount_all none g).1))

  -- With the processes stopped or not, and the storage detached or not.
  abbrev pub fence_and_record :
      Bool → Bool → String → String → String → Bool → Guardian W → Bool × Guardian W
  fence_and_record stopped detached reason cause phase unmount_all g =
      after_fence (stopped && detached) reason cause phase unmount_all (fence_generation reason g)

  abbrev pub after_detach : String → String → String → Bool → Bool × Guardian W → Bool × Guardian W
  after_detach reason cause phase unmount_all (detached, g) =
      fence_and_record true detached reason cause phase unmount_all g

  -- The storage is detached only from processes that stopped, in what is left of the time.
  abbrev pub after_stop :
      ℕ → String → String → String → Bool → Bool × Guardian W → Bool × Guardian W
  after_stop deadline reason cause phase unmount_all (true, g) =
      after_detach reason cause phase unmount_all
        (repair_targets unmount_all (some (deadline - os.clock g.world)) g)
  after_stop deadline reason cause phase unmount_all (false, g) =
      fence_and_record false false reason cause phase unmount_all g

  abbrev pub terminate_active : String → String → String → Bool → Guardian W → Bool × Guardian W
  terminate_active reason cause phase unmount_all g =
      let deadline = os.clock g.world + setting.shutdown_grace in
      after_stop deadline reason cause phase unmount_all (stop_processes deadline g)

  -- `_terminate_generation`
  unfoldable pub terminate_generation :
      String → String → String → Bool → Guardian W → Bool × Guardian W
  unfolding stop_processes repair_targets fence_generation
  terminate_generation reason cause phase unmount_all g = elim g.generation [
    | none ↦
        let (_, g₁) = stop_processes (os.clock g.world + setting.shutdown_grace) g in
        let (_, g₂) = repair_targets unmount_all none g₁ in (true, g₂)
    | some worker ↦ terminate_active reason cause phase unmount_all g
  ]

  abbrev pub retire_outcome :
      Result GenerationError (Unit {0}) × Machine W → Guardian W → Guardian W
  retire_outcome (ok a, m) g = record g { generation = none; world = m.world }
  retire_outcome (err e, m) g = record g {
    generation = none;
    world = (stop_keeper os text m).1.world;
    fatal_fence_failure = true;
  }

  -- `_retire_generation`
  unfoldable pub retire_generation : Guardian W → Guardian W
  unfolding retire
  retire_generation g = elim g.generation [
    | none ↦ g
    | some worker ↦ retire_outcome (retire os text (record { worker = worker; world = g.world })) g
  ]

  -- The end of a round of `run` after an exception: only a fenced generation has a successor.
  unfoldable pub after_failure : String → String → String → Guardian W → Guardian W
  unfolding terminate_generation retire_generation
  after_failure reason cause phase g =
      let (fenced, g₁) = terminate_generation reason cause phase false g in
      if fenced then retire_generation g₁ else record g₁ { stopping = true }

  -- `_ensure_no_lingering_processes`
  abbrev pub drop_stopped : Guardian W → Guardian W
  drop_stopped g = record g { lingering = select_if (λ p. running os p g.world) g.lingering }

  abbrev pub creation_failure : String → Ending
  creation_failure reason = record {
    cause = "generation_creation_failure";
    reason = reason;
    phase = "CREATING_GENERATION";
    clean_shutdown = false;
    fence_verified = false;
  }

  -- A number that was allocated is recorded even if the creation failed.
  abbrev pub create_outcome :
      Result String Worker × W → Guardian W → Result String (Unit {0}) × Guardian W
  create_outcome (ok worker, w) g = (
    ok tt,
    record g {
      generation = some worker;
      world = w;
      history = start (os.time w) worker.generation g.active_transport worker.mode g.history;
    },
  )
  create_outcome (err e, w) g =
      if ltb 0 (setting.last_allocated w)
      then (
        err e,
        record g {
          world = w;
          history = finish (os.time w) (creation_failure e) (
              start (os.time w) (setting.last_allocated w) g.active_transport setting.fencing_mode
                g.history);
        },
      )
      else (err e, record g { world = w })

  -- `_begin_generation`
  unfoldable pub begin_generation : Guardian W → Result String (Unit {0}) × Guardian W
  unfolding retire_generation
  begin_generation g =
      let g₁ = drop_stopped g in
      let g₂ = retire_generation g₁ in
      if any (λ p. true) g₁.lingering
      then (err "previous SeaweedFS processes are still blocked", g₁)
      else create_outcome (setting.create g₂.world) g₂
