-- ===== src/Generation/Start.antt =====
-- `start`, `_configure_dns` and `enter_command` of `WorkerGeneration`.
use s3_storage_node.Common.{
  ℕ, ◌+◌, String, Bool, true, false, not, List, [], ◌∷◌, Option, none, some, if◌then◌else◌, str_eq,
}
use s3_storage_node.Common.Result.{Result, ok, err}
use s3_storage_node.Generation.System.{System, Text}
use s3_storage_node.Generation.Machine.{
  unwritable, unsupported_mode, keeper_exited, keeper_timeout, not_running, bad_address,
  proxy_exited, proxy_timeout, unavailable, uid_without_gid, Method, GenerationError, ◌>>=◌, return,
  raise, need, on_error, modify, worker_of, world_of, system, run_command, written,
}
use s3_storage_node.Generation.Network.{
  namespace_visible_command, resolver_nameservers, preserved_lines, read_file,
}
use s3_storage_node.Generation.Worker.{
  rounds, Waited, ready, exited, timeout, wait_until, persist, stop_dns_proxy, stop_keeper, fence,
  configure_network,
}

module _ {W : Type 0} (os : System W) (text : Text) where
  abbrev lines_of : List String → String
  lines_of [] = ""
  lines_of (line ∷ lines) = text.concat line (text.concat "\n" (lines_of lines))

  -- `render_worker_resolv_conf`
  unfoldable pub render_worker_resolv_conf : String → String → String → Method W (Unit {0})
  unfolding read_file written
  render_worker_resolv_conf source destination gateway = do
    content ← read_file os text source
    ip ← need (text.ip_address gateway) (bad_address gateway)
    written
        (os.write_text destination (
          lines_of (text.concat "nameserver " ip ∷ preserved_lines text (text.splitlines content))))
        (unwritable destination)

  abbrev upstream_arguments : List String → List String
  upstream_arguments [] = []
  upstream_arguments (upstream ∷ upstreams) = "--upstream" ∷ upstream ∷ upstream_arguments upstreams

  abbrev proxy_alive : Option ℕ → W → Bool
  proxy_alive none w = false
  proxy_alive (some pid) w = os.alive pid w

  unfoldable pub proxy_verdict : Waited → Method W (Unit {0})
  unfolding stop_dns_proxy
  proxy_verdict ready = return tt
  proxy_verdict exited = raise proxy_exited
  proxy_verdict timeout = stop_dns_proxy os text >>= λ _. raise proxy_timeout

  -- `_configure_dns`
  unfoldable pub configure_dns : Method W (Unit {0})
  unfolding resolver_nameservers render_worker_resolv_conf wait_until proxy_verdict run_command
      on_error stop_dns_proxy
  configure_dns = do
    g ← worker_of
    keeper ← need g.keeper not_running
    upstreams ← resolver_nameservers os text g.resolver_config
    gateway ← need (text.ip_address g.gateway) (bad_address g.gateway)
    let worker_resolv = text.child g.runtime_dir "resolv.conf"
    let ready_file = text.child g.runtime_dir "dns-proxy.ready"
    _ ← render_worker_resolv_conf g.resolver_config worker_resolv gateway
    pid ← system (
        os.spawn (
          text.executable
          ∷ "-m"
          ∷ "s3_storage_node.dns_proxy"
          ∷ "--listen-address"
          ∷ gateway
          ∷ "--ready-file"
          ∷ ready_file
          ∷ upstream_arguments upstreams))
    _ ← modify (λ h. record h { dns_proxy = some pid })
    w ← world_of
    waited ←
        wait_until os text rounds (os.clock w + 5000) (os.exists ready_file)
          (λ v. not (os.alive pid v)) false
    _ ← proxy_verdict waited
    on_error
        (run_command os (
          "nsenter"
          ∷ "--target"
          ∷ text.decimal keeper
          ∷ "--mount"
          ∷ "--"
          ∷ "mount"
          ∷ "--bind"
          ∷ worker_resolv
          ∷ "/etc/resolv.conf"
          ∷ []))
        (stop_dns_proxy os text)

  unfoldable pub keeper_verdict : Waited → Method W (Unit {0})
  unfolding stop_keeper
  keeper_verdict ready = return tt
  keeper_verdict exited = raise keeper_exited
  keeper_verdict timeout = stop_keeper os text >>= λ _. raise keeper_timeout

  -- `start` in the mode `namespace`.
  unfoldable pub start_namespace : Method W (Unit {0})
  unfolding wait_until keeper_verdict on_error configure_network configure_dns fence stop_keeper
      persist written
  start_namespace = do
    g ← worker_of
    _ ← written (os.make_directory g.runtime_dir) (unwritable g.runtime_dir)
    pid ← system (
        os.spawn (
          "unshare" ∷ "--mount" ∷ "--net" ∷ "--propagation" ∷ "private" ∷ "--" ∷ "sleep"
          ∷ "infinity" ∷ []))
    _ ← modify (λ h. record h { keeper = some pid })
    w ← world_of
    let namespace = text.child (text.child "/proc" (text.decimal pid)) "ns/net"
    waited ←
        wait_until os text rounds (os.clock w + 5000) (os.exists namespace)
          (λ v. not (os.alive pid v)) true
    _ ← keeper_verdict waited
    _ ←
        on_error (configure_network os text >>= λ _. configure_dns)
          (fence os text "namespace setup failed" >>= λ _. stop_keeper os text)
    persist os text "active"

  -- `start`
  unfoldable pub start : Method W (Unit {0})
  unfolding start_namespace persist
  start = worker_of >>= λ g.
      if str_eq g.mode "disabled"
      then persist os text "active"
      else if not (str_eq g.mode "namespace")
      then raise unsupported_mode
      else start_namespace

  abbrev pub setpriv : ℕ → ℕ → List String → List String
  setpriv uid gid command =
      "setpriv"
      ∷ text.concat "--reuid=" (text.decimal uid)
      ∷ text.concat "--regid=" (text.decimal gid)
      ∷ "--clear-groups"
      ∷ "--"
      ∷ command

  abbrev pub privileges : Option ℕ → Option ℕ → List String → Option (List String)
  privileges none none command = some command
  privileges (some uid) (some gid) command = some (setpriv uid gid command)
  privileges none (some gid) command = none
  privileges (some uid) none command = none

  abbrev pub nsenter : ℕ → List String → List String
  nsenter keeper entered =
      "nsenter" ∷ "--target" ∷ text.decimal keeper ∷ "--mount" ∷ "--net" ∷ "--" ∷ entered

  -- The command for a keeper, given whether it is alive and the command with its privileges.
  abbrev pub enter_alive : ℕ → Bool → Option (List String) → Result GenerationError (List String)
  enter_alive keeper false entered = err unavailable
  enter_alive keeper true none = err uid_without_gid
  enter_alive keeper true (some entered) = ok (nsenter keeper entered)

  abbrev pub enter_keeper :
      Option ℕ → W → Option (List String) → Result GenerationError (List String)
  enter_keeper none w entered = err unavailable
  enter_keeper (some keeper) w entered = enter_alive keeper (os.alive keeper w) entered

  -- `enter_command`; the state is read only.
  unfoldable pub enter_command : List String → Option ℕ → Option ℕ → Method W (List String)
  enter_command command uid gid s = if str_eq s.worker.mode "disabled" then (ok command, s) else (
    enter_keeper s.worker.keeper s.world (privileges uid gid (namespace_visible_command command)),
    s,
  )
