-- ===== src/Generation/System.antt =====
-- What `generation.py` uses of the operating system and of Python's libraries.
use s3_storage_node.Common.{ℕ, String, Bool, List, Option}
use s3_storage_node.Common.Json.{Json}

pub data Signal : Type 0 where
  sigterm sigkill : Signal

-- The text functions; `none` is a raised ValueError.
pub record Text : Type 0 where
  pub splitlines : String → List String
  pub split : String → List String
  pub strip : String → String
  pub starts_with : String → String → Bool
  pub ip_address : String → Option String
  -- The address and the network of an `ip_interface`.
  pub ip_interface : String → Option (String × String)
  pub decimal : ℕ → String
  pub concat : String → String → String
  -- `sys.executable`
  pub executable : String
  -- `path / name`
  pub child : String → String → String

-- The operating system, whose states are `W`.
pub record System (W : Type 0) : Type 0 where
  -- `subprocess.run`, with the exit code.
  pub call : List String → W → ℕ × W
  -- `subprocess.Popen`, with the process id.
  pub spawn : List String → W → ℕ × W
  -- `poll() is None`
  pub alive : ℕ → W → Bool
  -- `os.killpg`; false is a ProcessLookupError.
  pub killpg : Signal → ℕ → W → Bool × W
  -- `wait(timeout)` in milliseconds; false is a TimeoutExpired.
  pub wait : ℕ → ℕ → W → Bool × W
  pub exists : String → W → Bool
  -- Reading a file; `none` is an OSError.
  pub read_text : String → W → Option String
  -- Replacing a file; false is an OSError.
  pub write_text : String → String → W → Bool × W
  pub write_json : String → Json → W → Bool × W
  pub make_directory : String → W → Bool × W
  -- `time.time()` and the monotonic clock, in milliseconds.
  pub time : W → ℕ
  pub clock : W → ℕ
  pub sleep : ℕ → W → W
