-- ===== src/Failover/Order.antt =====
-- `ExclusiveFailoverConfig`: the transports' names sorted by priority, then by name.
use Prim.Native.Char.{code}
use s3_storage_node.Common.{
  ℕ, String, Bool, true, false, List, [], ◌∷◌, map, ◌&&◌, ◌||◌, if◌then◌else◌, ltb, ◌==◌, mem_text,
}

pub record SshfsTransport : Type 0 where
  pub name : String
  pub priority : ℕ
  pub source : String
  pub auth_mode : String
  pub known_hosts_file : String
  pub identity_file : String
  pub credentials_file : String
  pub port : ℕ
  pub mount_options : List String

pub record ExclusiveFailover : Type 0 where
  pub target : String
  pub primary_name : String
  pub primary_priority : ℕ
  pub failback_policy : String
  pub failure_cooldown_seconds : ℕ
  pub verify_all_transports_on_startup : Bool
  pub transports : List SshfsTransport
  pub worker_uid : ℕ
  pub worker_gid : ℕ
  pub runtime_dir : String

-- Texts are ordered by their code points.
abbrev pub text_le : String → String → Bool
text_le String.[] t = true
text_le (String.◌∷◌ c s) String.[] = false
text_le (String.◌∷◌ c s) (String.◌∷◌ d t) =
    ltb (code c) (code d) || (code c == code d && text_le s t)

-- The key `(priority, name)` of the sort, a tuple compared by its parts.
abbrev pub key_le : ℕ × String → ℕ × String → Bool
key_le (p, s) (q, t) = ltb p q || (p == q && text_le s t)

unfoldable pub insert_sorted : ℕ × String → List (ℕ × String) → List (ℕ × String)
insert_sorted e [] = e ∷ []
insert_sorted e (f ∷ fs) = if key_le e f then e ∷ f ∷ fs else f ∷ insert_sorted e fs

-- Python's `sorted` by that key: the stable insertion sort.
unfoldable pub by_priority : List (ℕ × String) → List (ℕ × String)
unfolding insert_sorted
by_priority [] = []
by_priority (e ∷ es) = insert_sorted e (by_priority es)

abbrev pub name_of : ℕ × String → String
name_of (p, n) = n

abbrev pub entry_of : SshfsTransport → ℕ × String
entry_of t = (t.priority, t.name)

unfoldable pub ordered_names : ExclusiveFailover → List String
unfolding by_priority
ordered_names config =
    map name_of (
      by_priority ((config.primary_priority, config.primary_name) ∷ map entry_of config.transports))

-- `contains(name)`
unfoldable pub has_transport : ExclusiveFailover → String → Bool
has_transport config name = mem_text name (ordered_names config)
