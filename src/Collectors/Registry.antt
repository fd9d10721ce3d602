-- ===== src/Collectors/Registry.antt =====
-- The collectors and their names (internal/collectors/collectors.go).
use truespec_agent.Prelude.{ℕ, Bool, false, Option, List, [], ◌∷◌, String, Result, ok, err}
use truespec_agent.Collectors.Measures.{
  CollectError, CpuModel, CpuInfo, DiskUsage, Partition, DiskInfo, VirtualMemory, MemoryInfo,
  HostInfo, OsInfo, Interface, NetInfo, cpu_info, disk_info, memory_info, os_info, network_info,
}
use truespec_agent.Collectors.Processes.{Process, ProcessInfo, processes_info}

pub data Collector : Type 0 where
  system cpu memory disk processes : Collector
  network : Bool → Collector

abbrev pub collector_name : Collector → String
collector_name system = "system"
collector_name cpu = "cpu"
collector_name memory = "memory"
collector_name disk = "disk"
collector_name processes = "processes"
collector_name (network collect_mac) = "network"

-- `NewDefaultCollectors`
unfoldable pub new_default_collectors : List Collector
new_default_collectors = system ∷ cpu ∷ memory ∷ disk ∷ processes ∷ network false ∷ []

-- What the operating system answers to the collectors.
pub record Machine (F : Type 0) : Type 0 where
  pub zero : F
  pub go_version : String
  pub num_cpu : ℕ
  pub host : Option HostInfo
  pub cpus : Option (List (CpuModel F))
  pub percentages : Option (List F)
  pub virtual_memory : Option (VirtualMemory F)
  pub partitions : Option (List Partition)
  pub usage : String → Option (DiskUsage F)
  pub process_list : Option (List (Process F))
  pub new_process_fails : ℕ → Bool
  pub interfaces : Option (List Interface)

pub data Collected (F : Type 0) : Type 0 where
  of_system : OsInfo → Collected F
  of_cpu : CpuInfo F → Collected F
  of_memory : MemoryInfo F → Collected F
  of_disk : List (DiskInfo F) → Collected F
  of_processes : List (ProcessInfo F) → Collected F
  of_network : List NetInfo → Collected F

-- A result as the data that a collector returns.
abbrev pub as_data : {A B : Type 0} → (A → B) → Result CollectError A → Result CollectError B
as_data f (ok a) = ok (f a)
as_data f (err e) = err e

module _ {F : Type 0} where
  -- `Collect` of each collector.
  unfoldable pub collect : Collector → Machine F → Result CollectError (Collected F)
  collect system m = as_data of_system (os_info m.go_version m.num_cpu m.host)
  collect cpu m = as_data of_cpu (cpu_info m.zero m.num_cpu m.cpus m.percentages)
  collect memory m = as_data of_memory (memory_info m.virtual_memory)
  collect disk m = as_data of_disk (disk_info m.usage m.partitions)
  collect processes m = as_data of_processes (processes_info m.new_process_fails m.process_list)
  collect (network collect_mac) m = as_data of_network (network_info collect_mac m.interfaces)
