-- ===== src/Lib.antt =====
-- A model of the endpoint agent: a Go program that enrols a machine with a server, collects
-- measurements in jobs, sends them in batches, and updates itself.
--
-- How the program hangs together. cmd/agent/main.go starts the agent: it loads the configuration,
-- bootstraps if there is none, makes sure of a certificate, and then starts the policy engine, the
-- health monitor and the scheduler. The sender keeps a queue and a buffer on the disk for data that
-- the server does not take. The updater replaces the executable. The logger writes and rotates a
-- file.
--
-- Which file models what:
--   Prelude, Prelude/*     names, lists and integers that all parts share; `wrap64` is Go's int64
--   Host, Host/*           package os: files by path, renames, the environment, failures as inputs
--   Buffer, Buffer/*       internal/buffer/buffer.go: `Buffer` is the struct with the directory's
--                          entries; `write`, `read_all`, `clear`, `size`, `prune` are its methods
--   Retry, Retry/*         internal/identity/retry.go: `retry_with_backoff`, `calculate_delay`
--   Sender, Sender/*       internal/sender/sender.go: `send`, `flush`, `send_with_retry`,
--                          `send_batch`, `flush_buffer`; `tick` is a tick of the goroutine of Start
--   Config, Config/*       internal/config/config.go and errors.go: `load`, `save`, the two
--                          validations, `mark_bootstrapped`, the defaults
--   Identity, Identity/*   internal/identity/bootstrap.go: `Manager`, `run_bootstrap`,
--                          `needs_rebootstrap`, `verify_identity`, `save_certificates`
--   Agent, Agent/*         cmd/agent/main.go: `start_up` is `run` up to step 10, `start_components`
--                          its steps 11 to 13, `serve_until_done` step 14 up to the end
--   Health, Health/*       internal/health/health.go: `start_monitor`, `send_heartbeat`,
--                          `check_health`
--   Updater, Updater/*     internal/updater/updater.go: `perform_update` and what it calls, `rollback`
--   Scheduler, Scheduler/* internal/scheduler/scheduler.go: the operations, and the relation `Step`
--                          of what may happen between them, jobs that end included
--   Logging, Logging/*     internal/logging/logger.go: `log`, `rotate`, `new_logger`; Adapter is
--                          internal/logging/compat.go
--   Audit, Audit/*         internal/logging/audit.go: `log_event` and the events of each method
--   Service, Service/*     internal/service: windows.go in Defs and Manager, linux.go and darwin.go
--                          in Unix: `execute`, `uninstall`, `install_linux`, `uninstall_linux`
--   Policy, Policy/*       internal/policy/policy.go: `refresh`, the two questions to the policy,
--                          and `refreshes`, the loop of step 14 of `run`
--   Text                   package strings on lists of code points
--   Gpu, Gpu/*             internal/collectors/gpu: `parse_uint`, `enrich_nvidia_all`, the listings
--   Collectors, Collectors/*  internal/collectors: the registry and `collect`; cpu, disk, memory, system
--                          and network in Measures; info.go of processes in Processes; kill.go,
--                          start.go, stop.go and restart.go in Control
--   Files, Files/*         internal/collectors/fs: `move_file`, `should_ignore`, `get_roots`, `scan_os`,
--                          `build_fs_tree`, whose nodes are a store with places for pointers
--
-- How state and failures are modelled. A method that holds a mutex for its whole body is one
-- function from a state to the next. A call of the operating system, of the server, of the JSON
-- codec, of crypto/tls or of the clock is an input, a field of a record that the function takes, so
-- that each error path of the source is a branch here. Results are `Result` or `Option` of an error
-- type with a constructor for each error of the source; texts of errors and log lines are left out.
-- Integers of the source are `ℤ` with `wrap64` where a sum could leave the range; sizes of files and
-- times are natural numbers.
--
-- Fuel. The loops are structural, on the list they run over or on the number of rounds that the
-- source bounds. `decimal_digits` has fuel for 20 digits, and a number that fits an int64 has 19 at
-- most. `wait_stopped` has `max_rounds` rounds: the source waits 300 ms in each and gives up after
-- 30 s, so that 102 are enough.
--
-- What is not modelled: the tray icon, the flags and the signals of the process, and file
-- permissions; internal/search, which has no code; the calls that only pass on to a library
-- (RunAsService, IsWindowsService). What gopsutil, ghw, WMI and nvidia-smi say is an input.
-- Concurrency is modelled for the scheduler's jobs and for the mutex that the logger takes twice.
pub mod Prelude
pub mod Buffer
pub mod Host
pub mod Text
pub mod Config
pub mod Identity
pub mod Agent
pub mod Retry
pub mod Sender
pub mod Updater
pub mod Scheduler
pub mod Logging
pub mod Policy
pub mod Audit
pub mod Service
pub mod Health
pub mod Gpu
pub mod Collectors
pub mod Files
