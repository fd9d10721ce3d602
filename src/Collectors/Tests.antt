-- ===== src/Collectors/Tests.antt =====
-- Runs of the collectors and of the control of processes, and the theorems at concrete inputs.
use truespec_agent.Prelude.{
  ℕ, ◌==◌, ◌*◌, ◌≡◌, inl, inr, refl, Bool, true, false, none, some, [], ◌∷◌, ok, err,
}
use truespec_agent.Collectors.Measures.{no_process_info, Interface, memory_info}
use truespec_agent.Collectors.Processes.{Process, process_info, process_infos, processes_info}
use truespec_agent.Collectors.Registry.{network, new_default_collectors, Machine, collect}
use truespec_agent.Collectors.Control.{not_signalled, kill, restart}
use truespec_agent.Collectors.Table.{Task, Table, runs, table_api}
use truespec_agent.Collectors.Hiding.{collect_hides_macs}
use truespec_agent.Collectors.Listing.{ReadsAll, processes_info-ReadsAll}

abbrev card : Interface
card = record {
  name = "eth0";
  mtu = 1500;
  flags = "up" ∷ [];
  addrs = "10.0.0.2/24" ∷ [];
  hardware_addr = "00:11:22:33:44:55";
}

-- Process 1, whose parent 0 cannot be opened, and a child of it.
abbrev first_process : Process ℕ
first_process = record {
  pid = 1;
  parent = some 0;
  command_line = some "init";
  status = some ("S" ∷ []);
  cpu_percent = some 3;
  memory = some 4096;
}

abbrev opens_from_one : ℕ → Bool
opens_from_one pid = pid == 0

abbrev machine : Machine ℕ
machine = record {
  zero = 0;
  go_version = "go1.22";
  num_cpu = 4;
  host = none;
  cpus = some [];
  percentages = some [];
  virtual_memory = none;
  partitions = some [];
  usage = λ mountpoint. none;
  process_list = some (first_process ∷ record first_process { pid = 7; parent = some 1 } ∷ []);
  new_process_fails = opens_from_one;
  interfaces = some (card ∷ []);
}

abbrev other_machine : Machine ℕ
other_machine = record machine {
  interfaces = some (record card { hardware_addr = "66:77:88:99:aa:bb" } ∷ []);
}

-- All processes are lost for the one whose parent cannot be opened.
nothing_listed : processes_info opens_from_one machine.process_list ≡ err no_process_info
unfolding processes_info process_infos process_info
nothing_listed = refl

in_megabytes :
    (memory_info {F = ℕ} (
      some (record {
        total = 2048 * 1024 * 1024;
        available = 0;
        used = 1;
        percent = 0;
        free = 3;
        cached = 0;
        buffers = 0;
      })))
    ≡ ok (record {
      total_mb = 2048;
      available_mb = 0;
      used_mb = 0;
      used_percent = 0;
      free_mb = 0;
      cached_mb = 0;
      buffers_mb = 0;
    })
unfolding memory_info
in_megabytes = refl

collect_hides_macs_example : collect (network false) machine ≡ collect (network false) other_machine
unfolding new_default_collectors
collect_hides_macs_example =
    collect_hides_macs (network false) machine other_machine
      (inr (inr (inr (inr (inr (inl refl)))))) refl

processes_info-ReadsAll_example :
    ReadsAll opens_from_one
      (first_process ∷ [])
      (processes_info opens_from_one (some (first_process ∷ [])))
processes_info-ReadsAll_example = processes_info-ReadsAll opens_from_one (first_process ∷ [])

-- A process that ends when it is asked to, and one that may not be signalled.
abbrev obedient : Task
obedient = record {
  program = "/bin/server";
  line = "server" ∷ "--port" ∷ "80" ∷ [];
  obeys = true;
  guarded = false;
}

abbrev table : Table
table = (5, obedient) ∷ (6, record obedient { guarded = true }) ∷ []

-- The second one runs twice after a restart that gives no error.
both_run :
    let (r, t') = restart table_api "linux" 6 table in
    (r ≡ ok 9) × (runs 6 t' ≡ true) × (runs 9 t' ≡ true)
unfolding restart
both_run = (refl, refl, refl)

-- A process that ends on SIGTERM is an error of `Kill`.
ended_is_error : (kill table_api "linux" 5 table).0 ≡ some not_signalled
unfolding kill
ended_is_error = refl
