-- ===== src/Config.antt =====
-- `config_types.py`: the configuration's tables with their defaults, and what `Config` derives from
-- them. `TargetConfig` is in `Failover`.
pub mod Values
pub mod Targets
use s3_storage_node.Common.{
  ℕ, String, Bool, true, false, not, List, [], ◌∷◌, ◌++◌, map, Option, none, some, if◌then◌else◌,
  str_eq, mem_text,
}
use s3_storage_node.Common.Int.{ℤ}
use s3_storage_node.Common.Dict.{Dict, lookup}
use s3_storage_node.Failover.{TargetConfig}

pub record ApplianceConfig : Type 0 where
  pub name : String
  pub state_dir : String
  pub runtime_dir : String
  pub uid : ℕ
  pub gid : ℕ
  pub health_host : String
  pub health_port : ℕ
  pub probe_interval_seconds : ℕ
  pub full_probe_interval_seconds : ℕ
  pub probe_timeout_seconds : ℕ
  pub startup_timeout_seconds : ℕ
  pub shutdown_grace_seconds : ℕ
  pub recovery_initial_seconds : ℕ
  pub recovery_max_seconds : ℕ
  pub recovery_stability_seconds : ℕ
  pub recovery_probe_interval_seconds : ℕ
  pub recovery_successes_required : ℕ
  pub s3_canary_enabled : Bool
  pub worker_fencing_mode : String
  pub worker_host_address : String
  pub worker_address : String
  pub worker_gateway : String

abbrev pub default_appliance : ApplianceConfig
default_appliance = record {
  name = "s3-storage-node";
  state_dir = "/var/lib/s3-storage-node";
  runtime_dir = "/run/s3-storage-node";
  uid = 10001;
  gid = 10001;
  health_host = "0.0.0.0";
  health_port = 9090;
  probe_interval_seconds = 5;
  full_probe_interval_seconds = 60;
  probe_timeout_seconds = 15;
  startup_timeout_seconds = 30;
  shutdown_grace_seconds = 45;
  recovery_initial_seconds = 5;
  recovery_max_seconds = 60;
  recovery_stability_seconds = 15;
  recovery_probe_interval_seconds = 2;
  recovery_successes_required = 3;
  s3_canary_enabled = true;
  worker_fencing_mode = "disabled";
  worker_host_address = "169.254.254.1/30";
  worker_address = "169.254.254.2/30";
  worker_gateway = "169.254.254.1";
}

pub record MetadataConfig : Type 0 where
  pub backend : String
  pub target : String
  pub directory : String
  pub postgres_host : String
  pub postgres_port : ℕ
  pub postgres_user : String
  pub postgres_password_file : String
  pub postgres_database : String
  pub postgres_schema : String
  pub postgres_sslmode : String
  pub custom_filer_toml : String

abbrev pub default_metadata : MetadataConfig
default_metadata = record {
  backend = "embedded";
  target = "metadata";
  directory = "filer";
  postgres_host = "";
  postgres_port = 5432;
  postgres_user = "";
  postgres_password_file = "";
  postgres_database = "";
  postgres_schema = "public";
  postgres_sslmode = "require";
  custom_filer_toml = "";
}

pub record IndexConfig : Type 0 where
  pub target : String
  pub directory : String

abbrev pub default_index : IndexConfig
default_index = record { target = "index"; directory = "volume-indexes" }

pub record SeaweedConfig : Type 0 where
  pub binary : String
  pub master_port : ℕ
  pub volume_port : ℕ
  pub filer_port : ℕ
  pub s3_internal_port : ℕ
  pub volume_directory : String
  pub volume_max : ℕ
  pub volume_size_limit_mb : ℕ
  pub default_replication : String
  pub filer_max_mb : ℕ
  pub data_center : String
  pub rack : String
  pub disk_type : String
  pub volume_extra_args : List String
  pub master_extra_args : List String
  pub filer_extra_args : List String
  pub s3_extra_args : List String
  pub encrypt_volume_data : Bool
  pub volume_health_enabled : Bool
  pub expected_readonly_volume_ids : List ℤ
  pub all_readonly_wait_seconds : ℕ
  pub auto_index_repair_enabled : Bool
  pub index_repair_concurrency : ℕ
  pub index_repair_max_volumes : ℕ
  pub index_repair_timeout_seconds : ℕ
  pub auto_tail_recovery_enabled : Bool
  pub auto_tail_recovery_max_bytes : ℕ
  pub concurrent_upload_limit_mb : ℕ
  pub inflight_upload_timeout_seconds : ℕ

abbrev pub default_seaweed : SeaweedConfig
default_seaweed = record {
  binary = "/usr/local/bin/weed";
  master_port = 9333;
  volume_port = 8080;
  filer_port = 8888;
  s3_internal_port = 18333;
  volume_directory = "volumes";
  volume_max = 0;
  volume_size_limit_mb = 30000;
  default_replication = "000";
  filer_max_mb = 16;
  data_center = "";
  rack = "";
  disk_type = "";
  volume_extra_args = [];
  master_extra_args = [];
  filer_extra_args = [];
  s3_extra_args = [];
  encrypt_volume_data = false;
  volume_health_enabled = true;
  expected_readonly_volume_ids = [];
  all_readonly_wait_seconds = 75;
  auto_index_repair_enabled = true;
  index_repair_concurrency = 1;
  index_repair_max_volumes = 2;
  index_repair_timeout_seconds = 3600;
  auto_tail_recovery_enabled = false;
  auto_tail_recovery_max_bytes = 16777216;
  concurrent_upload_limit_mb = 32;
  inflight_upload_timeout_seconds = 15;
}

pub record S3AdmissionConfig : Type 0 where
  pub enabled : Bool
  pub adaptive_enabled : Bool
  pub slow_probe_seconds : ℕ
  pub healthy_window_seconds : ℕ
  pub max_active_read_requests : ℕ
  pub max_active_write_requests : ℕ
  pub max_queued_read_requests : ℕ
  pub max_queued_write_requests : ℕ
  pub queue_timeout_seconds : ℕ

abbrev pub default_admission : S3AdmissionConfig
default_admission = record {
  enabled = true;
  adaptive_enabled = true;
  slow_probe_seconds = 2;
  healthy_window_seconds = 300;
  max_active_read_requests = 16;
  max_active_write_requests = 2;
  max_queued_read_requests = 32;
  max_queued_write_requests = 4;
  queue_timeout_seconds = 3;
}

pub record S3Config : Type 0 where
  pub host : String
  pub port : ℕ
  pub domain_name : String
  pub allowed_origins : String
  pub external_url : String
  pub auth_mode : String
  pub access_key_file : String
  pub secret_key_file : String
  pub auth_config_file : String
  pub canary_access_key_file : String
  pub canary_secret_key_file : String
  pub iam_config_file : String
  pub audit_log_config_file : String
  pub tls_mode : String
  pub tls_pem_file : String
  pub admission : S3AdmissionConfig

abbrev pub default_s3 : S3Config
default_s3 = record {
  host = "0.0.0.0";
  port = 8333;
  domain_name = "";
  allowed_origins = "*";
  external_url = "";
  auth_mode = "static";
  access_key_file = "/run/secrets/s3_access_key";
  secret_key_file = "/run/secrets/s3_secret_key";
  auth_config_file = "";
  canary_access_key_file = "";
  canary_secret_key_file = "";
  iam_config_file = "";
  audit_log_config_file = "";
  tls_mode = "off";
  tls_pem_file = "";
  admission = default_admission;
}

pub record Config : Type 0 where
  pub appliance : ApplianceConfig
  pub targets : Dict TargetConfig
  pub metadata : MetadataConfig
  pub index : IndexConfig
  pub seaweed : SeaweedConfig
  pub s3 : S3Config

-- `tuple(dict.fromkeys(names))`: each name where it stands first.
unfoldable pub from_keys : List String → List String → List String
from_keys seen [] = seen
from_keys seen (name ∷ names) =
    from_keys (if mem_text name seen then seen else seen ++ name ∷ []) names

abbrev pub used_names : Config → List String
used_names c =
    "data"
    ∷ c.index.target
    ∷ (if str_eq c.metadata.backend "embedded" then c.metadata.target ∷ [] else [])

-- `active_target_names`
unfoldable pub active_target_names : Config → List String
unfolding from_keys
active_target_names c = from_keys [] (used_names c)

-- `active_targets`; `none` is a KeyError.
unfoldable pub targets_of : Dict TargetConfig → List String → Option (List TargetConfig)
targets_of targets [] = some []
targets_of targets (name ∷ names) = elim (lookup name targets) [
  | none ↦ none
  | some target ↦ elim (targets_of targets names) [ none ↦ none | some rest ↦ some (target ∷ rest) ]
]

unfoldable pub active_targets : Config → Option (List TargetConfig)
unfolding active_target_names targets_of
active_targets c = targets_of c.targets (active_target_names c)

-- `effective_io_failure_policy`
abbrev pub effective_io_failure_policy : TargetConfig → String
effective_io_failure_policy t =
    if str_eq t.io_failure_policy "" then "soft" else t.io_failure_policy
