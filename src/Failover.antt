-- ===== src/Failover.antt =====
-- `transport_failover.py`: the configured transports of one target, in order of priority, and
-- the target that a transport resolves to. `TargetConfig` is that of `config_types.py`.
pub mod Order
pub mod State
pub mod Selector
pub mod Priority
mod Tests
pub use Order.{SshfsTransport, ExclusiveFailover, by_priority, ordered_names, has_transport}
use s3_storage_node.Common.{
  ℕ, String, Bool, true, false, List, [], ◌∷◌, ◌++◌, if◌then◌else◌, str_eq,
}
use s3_storage_node.Common.Int.{pos}
use s3_storage_node.Common.Json.{Builtins, int}
use s3_storage_node.Common.Result.{Result, ok, err}
use Prim.Native.String.{◌++◌ as join}

pub record TargetConfig : Type 0 where
  pub name : String
  pub type : String
  pub mountpoint : String
  pub subdirectory : String
  pub sentinel_id : String
  pub sentinel_file : String
  pub allow_initialize : Bool
  pub min_free_bytes : ℕ
  pub source : String
  pub credentials_file : String
  pub mount_options : List String
  pub io_failure_policy : String
  pub minimum_smb_dialect : String
  pub handle_reconnect_policy : String
  pub multichannel_policy : String
  pub max_channels : ℕ
  pub require_transport_observability : Bool
  pub device : String
  pub expected_uuid : String
  pub expected_filesystem : String
  pub transport_name : String
  pub ssh_auth_mode : String
  pub ssh_identity_file : String
  pub ssh_credentials_file : String
  pub ssh_known_hosts_file : String
  pub ssh_runtime_identity_file : String
  pub ssh_runtime_pid_file : String
  pub ssh_port : ℕ

-- A transport name that the configuration does not hold.
pub data ResolveError : Type 0 where
  unknown_transport : String → ResolveError

module _ (py : Builtins) where
  -- The text of a number in an f-string.
  abbrev number : ℕ → String
  number n = py.str_of (int (pos n))

  -- `self.runtime_dir / "generated" / f"ssh-{name}{suffix}"`
  pub runtime_file : ExclusiveFailover → String → String → String
  runtime_file config name suffix =
      join config.runtime_dir (join "/generated/ssh-" (join name suffix))

  pub auth_options : ExclusiveFailover → SshfsTransport → List String
  auth_options config transport =
      if str_eq transport.auth_mode "key"
      then join "IdentityFile=" (runtime_file config transport.name ".key")
        ∷ "BatchMode=yes"
        ∷ "PreferredAuthentications=publickey"
        ∷ "PasswordAuthentication=no"
        ∷ "KbdInteractiveAuthentication=no"
        ∷ []
      else "password_stdin" ∷ "BatchMode=no" ∷ "PreferredAuthentications=password"
        ∷ "PubkeyAuthentication=no" ∷ "KbdInteractiveAuthentication=no"
        ∷ "NumberOfPasswordPrompts=1" ∷ []

  pub sshfs_options : ExclusiveFailover → SshfsTransport → List String
  sshfs_options config transport =
      auth_options config transport
      ++ (join "UserKnownHostsFile=" transport.known_hosts_file
          ∷ "StrictHostKeyChecking=yes"
          ∷ join "port=" (number transport.port)
          ∷ "reconnect"
          ∷ "ServerAliveInterval=15"
          ∷ "ServerAliveCountMax=3"
          ∷ "sshfs_sync"
          ∷ "dir_cache=no"
          ∷ "allow_other"
          ∷ "default_permissions"
          ∷ join "uid=" (number config.worker_uid)
          ∷ join "gid=" (number config.worker_gid)
          ∷ "umask=007"
          ∷ transport.mount_options)

  pub sshfs_target : ExclusiveFailover → TargetConfig → SshfsTransport → TargetConfig
  sshfs_target config base transport = record base {
    type = "sshfs";
    source = transport.source;
    credentials_file = "";
    mount_options = sshfs_options config transport;
    io_failure_policy = "";
    minimum_smb_dialect = "";
    handle_reconnect_policy = "disabled";
    multichannel_policy = "disabled";
    max_channels = 2;
    require_transport_observability = false;
    transport_name = transport.name;
    ssh_auth_mode = transport.auth_mode;
    ssh_identity_file = transport.identity_file;
    ssh_credentials_file = transport.credentials_file;
    ssh_known_hosts_file = transport.known_hosts_file;
    ssh_runtime_identity_file =
        if str_eq transport.auth_mode "key" then runtime_file config transport.name ".key" else "";
    ssh_runtime_pid_file = runtime_file config transport.name ".pid";
    ssh_port = transport.port;
  }

  -- The loop of `resolve` over the transports.
  pub resolve_from :
      ExclusiveFailover
      → TargetConfig
      → String
      → List SshfsTransport
      → Result ResolveError TargetConfig
  resolve_from config base name [] = err (unknown_transport name)
  resolve_from config base name (t ∷ ts) =
      if str_eq t.name name
      then ok (sshfs_target config base t)
      else resolve_from config base name ts

  pub resolve : ExclusiveFailover → TargetConfig → String → Result ResolveError TargetConfig
  unfolding resolve_from
  resolve config base name =
      if str_eq name config.primary_name
      then ok (record base { transport_name = name })
      else resolve_from config base name config.transports
