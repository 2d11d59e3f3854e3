-- ===== src/Generation/Machine.antt =====
-- The state of `WorkerGeneration`, and its methods' effects: a method takes the state to a result,
-- or an exception, and the state that it leaves.
use s3_storage_node.Common.{
  ℕ, String, Bool, true, false, List, Option, none, some, ◌==◌, if◌then◌else◌,
}
use s3_storage_node.Common.Result.{Result, ok, err}
use s3_storage_node.Generation.System.{System}

pub data GenerationError : Type 0 where
  command_failed : List String → GenerationError
  unreadable : String → GenerationError
  unwritable : String → GenerationError
  forwarding_disabled : String → GenerationError
  bad_nameserver_line : String → GenerationError
  bad_address : String → GenerationError
  no_nameservers unsupported_mode keeper_exited keeper_timeout not_running : GenerationError
  different_subnets proxy_exited proxy_timeout unavailable uid_without_gid : GenerationError
  still_linked : ℕ → GenerationError

pub record Worker : Type 0 where
  pub generation : ℕ
  pub token : String
  pub mode : String
  pub state_dir : String
  pub runtime_dir : String
  pub host_address : String
  pub worker_address : String
  pub gateway : String
  pub resolver_config : String
  pub keeper : Option ℕ
  pub dns_proxy : Option ℕ
  pub fenced : Bool
  pub fence_reason : String

pub record Machine (W : Type 0) : Type 0 where
  pub worker : Worker
  pub world : W

abbrev pub Method : Type 0 → Type 0 → Type 0
Method W A = Machine W → Result GenerationError A × Machine W

module _ {W : Type 0} where
  -- Going on after a call.
  abbrev pub continue :
      {A B : Type 0}
      → Result GenerationError A × Machine W
      → (A → Method W B)
      → Result GenerationError B × Machine W
  continue (ok a, s) f = f a s
  continue (err e, s) f = (err e, s)

  infixl 5 ◌>>=◌
  abbrev pub ◌>>=◌ : {A B : Type 0} → Method W A → (A → Method W B) → Method W B
  (m >>= f) s = continue (m s) f

  abbrev pub return : {A : Type 0} → A → Method W A
  return a s = (ok a, s)

  abbrev pub raise : {A : Type 0} → GenerationError → Method W A
  raise e s = (err e, s)

  -- `if c: m`
  abbrev pub when : Bool → Method W (Unit {0}) → Method W (Unit {0})
  when true m = m
  when false m = return tt

  -- A value, or an exception for its absence.
  abbrev pub need : {A : Type 0} → Option A → GenerationError → Method W A
  need none e = raise e
  need (some a) e = return a

  -- `try: m except Exception: handler; raise`
  abbrev pub recover_with :
      Result GenerationError (Unit {0}) × Machine W
      → Method W (Unit {0})
      → Result GenerationError (Unit {0}) × Machine W
  recover_with (ok a, s) handler = (ok a, s)
  recover_with (err e, s) handler = continue (handler s) (λ _. raise e)

  unfoldable pub on_error : Method W (Unit {0}) → Method W (Unit {0}) → Method W (Unit {0})
  on_error m handler s = recover_with (m s) handler

  abbrev pub modify : (Worker → Worker) → Method W (Unit {0})
  modify f s = (ok tt, record s { worker = f s.worker })

  abbrev pub worker_of : Method W Worker
  worker_of s = (ok s.worker, s)

  abbrev pub world_of : Method W W
  world_of s = (ok s.world, s)

  -- A call of the system.
  abbrev pub system : {A : Type 0} → (W → A × W) → Method W A
  system f s = let (a, w) = f s.world in (ok a, record s { world = w })

  abbrev pub step_world : (W → W) → Method W (Unit {0})
  step_world f s = (ok tt, record s { world = f s.world })

  -- `_run`, the default of `run_command`: any exit code but 0 raises.
  unfoldable pub run_command : System W → List String → Method W (Unit {0})
  run_command os command = system (os.call command) >>= λ code.
      if code == 0 then return tt else raise (command_failed command)

  -- A write that may raise an OSError.
  unfoldable pub written : (W → Bool × W) → GenerationError → Method W (Unit {0})
  written write e = system write >>= λ done. if done then return tt else raise e
