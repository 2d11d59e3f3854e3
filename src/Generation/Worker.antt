-- ===== src/Generation/Worker.antt =====
-- The methods of `WorkerGeneration`.
use s3_storage_node.Common.{
  ℕ, zero, suc, String, Bool, true, false, not, ◌&&◌, List, [], ◌∷◌, Option, none, some, ltb, ◌==◌,
  if◌then◌else◌, str_eq,
}
use s3_storage_node.Common.Int.{pos}
use s3_storage_node.Common.Json.{Json, str, int, bool, null, float, object}
use s3_storage_node.Common.Result.{Result, ok}
use s3_storage_node.Generation.System.{System, Text, sigterm, sigkill}
use s3_storage_node.Generation.Machine.{
  GenerationError, unwritable, not_running, bad_address, different_subnets, still_linked, Worker,
  Machine, Method, continue, ◌>>=◌, return, raise, when, need, modify, worker_of, world_of, system,
  run_command, written,
}
use s3_storage_node.Generation.Network.{ensure_ip_forwarding}

abbrev pub host_link : String
host_link = "s3g-host"

abbrev pub peer_link : String
peer_link = "s3g-peer"

-- How many rounds of 50 ms the waits of 5 s get.
abbrev pub rounds : ℕ
rounds = 101

abbrev pub del_link : List String
del_link = "ip" ∷ "link" ∷ "del" ∷ host_link ∷ []

abbrev pub show_link : List String
show_link = "ip" ∷ "link" ∷ "show" ∷ host_link ∷ []

-- The outcome of a wait.
pub data Waited : Type 0 where
  ready exited timeout : Waited

module _ {W : Type 0} (os : System W) (text : Text) where
  abbrev pub address_of : Option (String × String) → Option String
  address_of none = none
  address_of (some (ip, network)) = some ip

  -- `worker_ip`
  unfoldable pub worker_ip : Worker → Option String
  worker_ip g =
      if not (str_eq g.mode "namespace")
      then some "127.0.0.1"
      else address_of (text.ip_interface g.worker_address)

  abbrev pub pid_json : Option ℕ → Json
  pid_json none = null
  pid_json (some pid) = int (pos pid)

  abbrev pub payload : Worker → String → String → ℕ → Json
  payload g state ip now = object (
      ("generation", int (pos g.generation))
      ∷ ("token", str g.token)
      ∷ ("mode", str g.mode)
      ∷ ("state", str state)
      ∷ ("namespace_pid", pid_json g.keeper)
      ∷ ("worker_ip", str ip)
      ∷ ("fenced", bool g.fenced)
      ∷ ("fence_reason", str g.fence_reason)
      ∷ ("updated_at", float now)
      ∷ [])

  -- `_persist`
  unfoldable pub persist : String → Method W (Unit {0})
  persist state = do
    g ← worker_of
    ip ← need (worker_ip g) (bad_address g.worker_address)
    w ← world_of
    written
        (os.write_json (text.child g.state_dir "generation.json") (payload g state ip (os.time w)))
        (unwritable "generation.json")

  abbrev force_stop : ℕ → W → W
  force_stop pid w = (os.wait pid 2000 (os.killpg sigkill pid w).1).1

  -- The end of `stop_dns_proxy` and of `stop_keeper`.
  unfoldable pub stop_process : ℕ → W → W
  stop_process pid w =
      let (found, signalled) = os.killpg sigterm pid w in
      let (ended, waited) = os.wait pid 2000 signalled in
      if not (os.alive pid w)
      then w
      else if not found
      then force_stop pid signalled
      else if ended
      then waited
      else force_stop pid waited

  abbrev pub stop_some : Option ℕ → W → W
  stop_some none w = w
  stop_some (some pid) w = stop_process pid w

  unfoldable pub stop_dns_proxy : Method W (Unit {0})
  stop_dns_proxy s = (
    ok tt,
    record s {
      worker = record s.worker { dns_proxy = none };
      world = stop_some s.worker.dns_proxy s.world;
    },
  )

  unfoldable pub stop_keeper : Method W (Unit {0})
  stop_keeper s = (
    ok tt,
    record s {
      worker = record s.worker { keeper = none };
      world = stop_some s.worker.keeper s.world;
    },
  )

  -- `if self.mode == "namespace":` in `fence`.
  unfoldable pub unlink : Method W (Unit {0})
  unfolding stop_dns_proxy
  unlink = do
    _ ← system (os.call del_link)
    code ← system (os.call show_link)
    g ← worker_of
    if code == 0 then raise (still_linked g.generation) else stop_dns_proxy

  -- `self.fenced = True`, and what follows it.
  abbrev pub mark_fenced : String → Method W (Unit {0})
  mark_fenced reason =
      modify (λ h. record h { fenced = true; fence_reason = reason }) >>= λ _. persist "fenced"

  -- `fence` in a generation that is fenced already, or is not.
  abbrev pub fence_unless : Bool → String → Method W (Unit {0})
  fence_unless true reason = return tt
  fence_unless false reason = do
    g ← worker_of
    _ ← when (str_eq g.mode "namespace") unlink
    mark_fenced reason

  unfoldable pub fence : String → Method W (Unit {0})
  unfolding unlink persist
  fence reason s = fence_unless s.worker.fenced reason s

  abbrev pub stop_both :
      Result GenerationError (Unit {0}) × Machine W → Result GenerationError (Unit {0}) × Machine W
  stop_both (r, s) = (r, (stop_keeper (stop_dns_proxy s).1).1)

  -- `try: … finally: …`, then the last state is written.
  unfoldable pub retire : Method W (Unit {0})
  unfolding fence stop_keeper stop_dns_proxy persist
  retire s =
      let reason =
        if str_eq s.worker.fence_reason "" then "generation retired" else s.worker.fence_reason in
      continue (stop_both (fence reason s)) (λ _. persist "retired")

  -- `while time.monotonic() < deadline`, on fuel: `done`, or `dead`, or another 50 ms.
  unfoldable pub wait_until : ℕ → ℕ → (W → Bool) → (W → Bool) → Bool → Method W Waited
  wait_until zero deadline done dead dead_first s = (ok timeout, s)
  wait_until (suc fuel) deadline done dead dead_first s =
      let later =
        wait_until fuel deadline done dead dead_first (record s { world = os.sleep 50 s.world }) in
      if not (ltb (os.clock s.world) deadline)
      then (ok timeout, s)
      else if dead_first && dead s.world
      then (ok exited, s)
      else if done s.world
      then (ok ready, s)
      else if dead s.world
      then (ok exited, s)
      else later

  abbrev pub nsenter_net : ℕ → List String → List String
  nsenter_net pid command = "nsenter" ∷ "--target" ∷ text.decimal pid ∷ "--net" ∷ "--" ∷ command

  unfoldable pub ensure_iptables : List String → List String → Method W (Unit {0})
  unfolding run_command
  ensure_iptables check_args add_args =
      system (os.call ("iptables" ∷ "-w" ∷ check_args)) >>= λ code.
      when (not (code == 0)) (run_command os ("iptables" ∷ "-w" ∷ add_args))

  -- The commands of `_configure_network` up to `ensure_ip_forwarding`, in order.
  abbrev pub link_commands : Worker → ℕ → List (List String)
  link_commands g pid =
      ("ip" ∷ "link" ∷ "add" ∷ host_link ∷ "type" ∷ "veth" ∷ "peer" ∷ "name" ∷ peer_link ∷ [])
      ∷ ("ip" ∷ "addr" ∷ "add" ∷ g.host_address ∷ "dev" ∷ host_link ∷ [])
      ∷ ("ip" ∷ "link" ∷ "set" ∷ host_link ∷ "up" ∷ [])
      ∷ ("ip" ∷ "link" ∷ "set" ∷ peer_link ∷ "netns" ∷ text.decimal pid ∷ [])
      ∷ nsenter_net pid ("ip" ∷ "link" ∷ "set" ∷ "lo" ∷ "up" ∷ [])
      ∷ nsenter_net pid ("ip" ∷ "addr" ∷ "add" ∷ g.worker_address ∷ "dev" ∷ peer_link ∷ [])
      ∷ nsenter_net pid ("ip" ∷ "link" ∷ "set" ∷ peer_link ∷ "up" ∷ [])
      ∷ nsenter_net pid ("ip" ∷ "route" ∷ "replace" ∷ "default" ∷ "via" ∷ g.gateway ∷ [])
      ∷ []

  unfoldable pub run_commands : List (List String) → Method W (Unit {0})
  unfolding run_command
  run_commands [] = return tt
  run_commands (c ∷ cs) = run_command os c >>= λ _. run_commands cs

  unfoldable pub configure_network : Method W (Unit {0})
  unfolding run_commands ensure_ip_forwarding ensure_iptables
  configure_network = do
    g ← worker_of
    pid ← need g.keeper not_running
    (host_ip, subnet) ← need (text.ip_interface g.host_address) (bad_address g.host_address)
    (worker_ip, worker_net) ←
        need (text.ip_interface g.worker_address) (bad_address g.worker_address)
    _ ← when (not (str_eq subnet worker_net)) (raise different_subnets)
    _ ← system (os.call del_link)
    _ ← run_commands (link_commands g pid)
    _ ← ensure_ip_forwarding os text
    let masquerade = "POSTROUTING" ∷ "-s" ∷ subnet ∷ "-j" ∷ "MASQUERADE" ∷ []
    let forward_in = "FORWARD" ∷ "-i" ∷ host_link ∷ "-j" ∷ "ACCEPT" ∷ []
    let forward_out =
        "FORWARD" ∷ "-o" ∷ host_link ∷ "-m" ∷ "conntrack" ∷ "--ctstate" ∷ "RELATED,ESTABLISHED"
        ∷ "-j" ∷ "ACCEPT" ∷ []
    _ ← ensure_iptables ("-t" ∷ "nat" ∷ "-C" ∷ masquerade) ("-t" ∷ "nat" ∷ "-A" ∷ masquerade)
    _ ← ensure_iptables ("-C" ∷ forward_in) ("-A" ∷ forward_in)
    ensure_iptables ("-C" ∷ forward_out) ("-A" ∷ forward_out)
