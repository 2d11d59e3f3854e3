-- ===== src/Failover/Selector/Tests.antt =====
-- The selector on a configuration of two transports.
use s3_storage_node.Common.{
  ℕ, ◌+◌, ◌<◌, String, ◌≡◌, refl, ◌≢◌, Bool, true, false, List, [], ◌∷◌, ◌++◌, Option, none, some,
  arith, false≢true, sym, ◌∙◌, str_eq, eq_iff,
}
use s3_storage_node.Common.Dict.{contains}
use s3_storage_node.Common.Json.{str, float, plain}
use s3_storage_node.Common.Result.{Result, ok, err}
use s3_storage_node.Failover.Order.{SshfsTransport, ExclusiveFailover, ordered_names, has_transport}
use s3_storage_node.Failover.State.{SelectError, Document, missing, TransportState, load, save}
use s3_storage_node.Failover.Selector.{
  select, select_in, select_fresh, quarantine, record_success, record_failure, request,
  pending_request, scan, available_at, choose,
}
use s3_storage_node.Failover.Selector.Choice.{FirstOf}
use s3_storage_node.Failover.Selector.Safety.{select-IsUsable, select_fresh-FirstOf}
use s3_storage_node.Failover.Selector.Sequences.{
  select-quarantine, select-record_success, select-request, select-record_failure,
}
use s3_storage_node.Failover.Selector.Load.{load-save}

abbrev ssh : SshfsTransport
ssh = record {
  name = "ssh";
  priority = 10;
  source = "box:/data";
  auth_mode = "key";
  known_hosts_file = "/etc/known_hosts";
  identity_file = "/etc/id";
  credentials_file = "";
  port = 23;
  mount_options = [];
}

abbrev config : ExclusiveFailover
config = record {
  target = "data";
  primary_name = "cifs";
  primary_priority = 1;
  failback_policy = "manual";
  failure_cooldown_seconds = 300;
  verify_all_transports_on_startup = false;
  transports = ssh ∷ [];
  worker_uid = 10001;
  worker_gid = 10001;
  runtime_dir = "/run";
}

abbrev no_state : TransportState
no_state = record {
  active = str "";
  requested = str "";
  failed = [];
  quarantined = [];
  last_success_at = float 0;
  verification_fingerprint = str "";
  verified_at = float 0;
  verified_transports = [];
  updated_at = float 0;
}

text_differs : (a b : String) → str_eq a b ≡ false → a ≢ b
text_differs a b h e = false≢true (sym h ∙ (eq_iff a b).1 e)

some_injective : {a b : String} → some a ≡ some b → a ≡ b
some_injective e = cc

option_differs : (a b : String) → str_eq a b ≡ false → some a ≢ some b
option_differs a b h e = text_differs a b h (some_injective e)

abbrev document_of : Result SelectError Document → Document
document_of (ok d) = d
document_of (err e) = missing

load-save_example : load (save 7 no_state) ≡ ok (record no_state { updated_at = float 7 })
load-save_example = load-save 7 no_state

select_fresh-FirstOf_example :
    FirstOf plain config 5 no_state "cifs" (ordered_names config)
    × (save 5 (record no_state { active = str "cifs" })
        ≡ save 5 (record no_state { active = str "cifs" }))
unfolding select_fresh scan available_at choose has_transport ordered_names
    s3_storage_node.Common.Dict.lookup
select_fresh-FirstOf_example = select_fresh-FirstOf plain config 5 no_state "cifs" _ refl

select-IsUsable_example :
    (has_transport config "cifs" ≡ true) × (contains "cifs" no_state.quarantined ≡ false)
unfolding select select_in select_fresh load s3_storage_node.Common.Dict.lookup
    s3_storage_node.Failover.Selector.keeps scan ordered_names available_at choose
select-IsUsable_example = select-IsUsable plain config 5 missing {s = no_state} "cifs" _ refl refl

select-quarantine_example : ◌≢◌ {A = String} "ssh" "cifs"
unfolding quarantine select select_in select_fresh has_transport ordered_names load
    s3_storage_node.Common.Dict.lookup save s3_storage_node.Failover.Selector.keeps scan
    s3_storage_node.Common.Dict.insert available_at choose
select-quarantine_example =
    select-quarantine plain config 3 5 "cifs" "corrupt" missing _ _ "ssh" refl refl

select-record_failure_example : ◌≢◌ {A = String} "ssh" "cifs"
unfolding record_failure select select_in select_fresh load s3_storage_node.Common.Dict.lookup
    has_transport ordered_names save s3_storage_node.Failover.Selector.keeps
    s3_storage_node.Common.Dict.insert scan available_at choose
select-record_failure_example =
    select-record_failure plain config 3 5 "cifs" "timeout" missing _ _ "ssh" {s = no_state} refl
      refl refl (omega arith) refl refl

abbrev after_success : Document
unfolding record_success load
after_success = document_of (record_success 3 "cifs" missing)

abbrev after_request : Document
unfolding request load
after_request = document_of (request config 3 "ssh" missing)

select-record_success_example : select plain config 5 after_success ≡ ok ("cifs", after_success)
unfolding record_success load s3_storage_node.Common.Dict.lookup has_transport ordered_names
select-record_success_example =
    select-record_success plain config 3 5 "cifs" missing after_success {s = no_state} refl refl
      (λ e. absurd (text_differs "cifs" "" refl e)) refl refl refl

select-request_example :
    (d : Document) × (select plain config 5 after_request ≡ ok ("ssh", d))
    × (pending_request plain config d ≡ ok "")
unfolding request load s3_storage_node.Common.Dict.lookup has_transport ordered_names
select-request_example =
    select-request plain config 3 5 "ssh" missing after_request {s = no_state} refl
      (λ e. absurd (text_differs "ssh" "" refl e)) (λ e. absurd (option_differs "" "ssh" refl e))
      refl
