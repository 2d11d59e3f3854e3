-- ===== src/Failover/Tests.antt =====
-- A target resolved through the transports.
use s3_storage_node.Common.{ℕ, String, ◌≡◌, false, List, [], ◌∷◌, map}
use s3_storage_node.Common.Json.{plain}
use mathlib.Core.List.{Perm}
use s3_storage_node.Failover.{TargetConfig, resolve}
use s3_storage_node.Failover.Order.{
  SshfsTransport, ExclusiveFailover, ordered_names, has_transport, entry_of, name_of,
}
use s3_storage_node.Failover.Priority.{InPriorityOrder, is_ok, has_transport-resolve}

abbrev ssh : SshfsTransport
ssh = record {
  name = "ssh";
  priority = 10;
  source = "box:/data";
  auth_mode = "key";
  known_hosts_file = "/etc/known_hosts";
  identity_file = "/etc/id";
  credentials_file = "";
  port = 23;
  mount_options = [];
}

abbrev config : ExclusiveFailover
config = record {
  target = "data";
  primary_name = "cifs";
  primary_priority = 1;
  failback_policy = "manual";
  failure_cooldown_seconds = 300;
  verify_all_transports_on_startup = false;
  transports = ssh ∷ [];
  worker_uid = 10001;
  worker_gid = 10001;
  runtime_dir = "/run";
}

abbrev base : TargetConfig
base = record {
  name = "";
  type = "";
  mountpoint = "";
  subdirectory = "";
  sentinel_id = "";
  sentinel_file = "";
  allow_initialize = false;
  min_free_bytes = 0;
  source = "";
  credentials_file = "";
  mount_options = [];
  io_failure_policy = "";
  minimum_smb_dialect = "";
  handle_reconnect_policy = "";
  multichannel_policy = "";
  max_channels = 0;
  require_transport_observability = false;
  device = "";
  expected_uuid = "";
  expected_filesystem = "";
  transport_name = "";
  ssh_auth_mode = "";
  ssh_identity_file = "";
  ssh_credentials_file = "";
  ssh_known_hosts_file = "";
  ssh_runtime_identity_file = "";
  ssh_runtime_pid_file = "";
  ssh_port = 0;
}

has_transport-resolve_example :
    ((es : List (ℕ × String)) × (ordered_names config ≡ map name_of es)
      × InPriorityOrder es
      × Perm es ((config.primary_priority, config.primary_name) ∷ map entry_of config.transports))
    × (has_transport config "ssh" ≡ is_ok (resolve plain config base "ssh"))
has_transport-resolve_example = has_transport-resolve plain config base "ssh"
