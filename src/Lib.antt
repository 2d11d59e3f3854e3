-- ===== src/Lib.antt =====
-- A model of s3-storage-node, an appliance that runs SeaweedFS on remote storage: a guardian mounts
-- the storage, runs the servers in a worker generation that it can fence off, watches them, and
-- recovers from failures; it is meant to have one writer at the data at any time.
--
-- The parts and their sources:
--   Common      shared types: native numbers, lists, dicts, JSON values, results that may raise.
--   Dns         src/s3_storage_node/dns_proxy.py: the framing of messages on TCP and the choice of an
--               upstream.
--   Config      src/s3_storage_node/config_types.py and config_helpers.py: the tables with their defaults
--               (`Config`), the value checks (`Config.Values`), the active targets (`Config.Targets`).
--   Failover    src/s3_storage_node/transport_failover.py: `Failover.Order` and `Failover` are
--               `ExclusiveFailoverConfig`; `Failover.State` and `Failover.Selector` are
--               `TransportSelector`, each method a function of the state file's document.
--   Admission   src/s3_storage_node/admission.py: `WriteBudget.update`, `write_stats` and one round of
--               `AdmissionController.tick`, with HAProxy's answers as arguments.
--   Seaweed     src/s3_storage_node/seaweed_health.py: `parse_volume_status`, `all_volumes_readonly`.
--   Sentinel    src/s3_storage_node/sentinel.py: the payloads and `validate_sentinel_payload`.
--   History     src/s3_storage_node/generation_history.py: `GenerationHistory`, its file and counters.
--   Helper      src/s3_storage_node/index_repair_helper.py: needle sizes and index records
--               (`Helper.Needle`), `inspect_index_bounds`, `fingerprint`, `recover_incomplete_tail`.
--   Repair      src/s3_storage_node/index_repair.py: `Repair.Phase` and `Repair.Transaction` are a record
--               of the journal, `Repair.Job` the work on one of them with its files, `Repair.Install`
--               the backups, installation, recovery and rollback, `Repair.Resume` what a new guardian
--               does with it, `Repair.Journal` the journal and the controller's state,
--               `Repair.Upstream` `prepare_offline` and what the upstream status decides,
--               `Repair.Attempt` and `Repair.Build` one pass of `_repair_one`, `Repair.Tail` the decision on
--               an incomplete tail. `Repair.Recovery` follows a crash and the restart, `Repair.Resumed`
--               and `Repair.Closed` what the journal makes `_repair_one` do, `Repair.Settled` the
--               loop body of `prepare_offline`, `Repair.Validated` the decision on the status.
--   Generation  src/s3_storage_node/generation.py: `WorkerGeneration` (`Generation.Machine`, `Network`,
--               `Worker`, `Start`), `LocalWriterLease` (`Lease`), `_next_generation` (`Counter`).
--   Guardian    src/s3_storage_node/generation_guardian.py, with `_stop_seaweed`, `_repair_targets` and
--               `_ensure_no_lingering_processes` of guardian.py; `Guardian.Process` is processes.py.
--   Health      src/s3_storage_node/health.py: `HealthState`'s updates and the codes of `do_GET`.
--
-- How the parts meet: the guardian fences a generation with its worker and records the outcome in
-- the history; a generation's history decides whether the indexes are certified; the
-- selector's transport resolves to the target that is mounted and whose sentinel is checked; the
-- admission control reads the health state; the repair controller has the helper build an index for
-- what the volume health reports as read-only, installs it and asks the volume health again.
--
-- Conventions: the operations are functions of explicit states, and an exception is a result.
-- Times are natural numbers of milliseconds and clocks are arguments. `str`, `float` and `int` of
-- Python are the record `Builtins`, the operating system is the record `System`, the text library
-- is `Text`, file locks are `Flock` and SHA-256 is an argument; what a theorem needs of them is a
-- named hypothesis or a field. JSON objects and files are decoded values.
--
-- A repair's files are kept by base name and by transaction, not by path. A job lists the states of
-- the disk and the journal that it passes through; a crash is a stop in one of them, and may leave
-- any part of the temporary file. Renames and journal writes are atomic, a backup appears whole.
-- What a method of the repair raises is what its own code decides, and what the helpers' reports,
-- or missing files and keys, cause. An error of a rename, an `unlink`, a `fsync`, a hash or a
-- journal access is no result of a method: it stops the work in one of the states that the job
-- lists, as a crash does. So the check of the live index after `os.replace` does not fail in the
-- model, and what is said of a method that raises, or that returns, holds if no such access fails;
-- `Repair.Stopped` is about the states themselves. `restart` is told whether `_repair_one` gets to
-- the branch that resumes. The clock is read once for each call of a method, and texts leave paths
-- and exceptions of Python out. One pass of `_repair_one` ends where the method calls itself after
-- a recovered tail.
--
-- Fuel: an index is read with its length as fuel, and each round takes 16 bytes off it; the waits
-- of five seconds get 101 rounds, since 100 sleeps of 50 ms reach the deadline;
-- `_recv_exact` gets as many rounds as bytes asked for, and each takes a byte at least.
--
-- Not modelled: the guardian's loops beyond the end of a round, its start of processes and its
-- probes; the repair controller's threads (`repair_detected`), its summary for the health state and
-- its helper processes, whose reports are arguments; mounts, the sockets and threads of the DNS
-- relay, the loader of the configuration, rendering and the command line; `build_candidate`, whose
-- outcome is an argument of the tail recovery; input and output errors in the middle of the tail
-- recovery; the creation of directories, the owners of files, and their modes but for those of an
-- index.
pub mod Common
pub mod Config
pub mod Dns
pub mod Failover
pub mod Admission
pub mod Seaweed
pub mod Sentinel
pub mod History
pub mod Helper
pub mod Repair
pub mod Generation
pub mod Guardian
pub mod Health
