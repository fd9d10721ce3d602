-- ===== src/Collectors/Measures.antt =====
-- The collectors of cpu, disk, memory, system and network (internal/collectors). What gopsutil says is
-- an input, and so is the type of floating-point numbers.
use truespec_agent.Prelude.{
  ℕ, ◌/◌, Bool, Option, none, some, List, [], ◌∷◌, String, Result, ok, err, if◌then◌else◌,
}

-- The call of gopsutil at which a collection ends with an error.
pub data CollectError : Type 0 where
  no_host no_cpu no_usage no_memory no_partitions no_interfaces no_processes no_process_info :
      CollectError

pub record CpuModel (F : Type 0) : Type 0 where
  pub model_name : String
  pub mhz : F
  pub vendor_id : String

-- `CPUInfo`: the model is there if one was listed.
pub record CpuInfo (F : Type 0) : Type 0 where
  pub usage_percent : F
  pub cores : ℕ
  pub model : Option (CpuModel F)

pub record DiskUsage (F : Type 0) : Type 0 where
  pub total : ℕ
  pub used : ℕ
  pub free : ℕ
  pub percent : F

pub record Partition : Type 0 where
  pub device : String
  pub mountpoint : String
  pub fstype : String

pub record DiskInfo (F : Type 0) : Type 0 where
  pub device : String
  pub mountpoint : String
  pub fstype : String
  pub total_gb : ℕ
  pub used_gb : ℕ
  pub free_gb : ℕ
  pub used_percent : F

pub record VirtualMemory (F : Type 0) : Type 0 where
  pub total : ℕ
  pub available : ℕ
  pub used : ℕ
  pub percent : F
  pub free : ℕ
  pub cached : ℕ
  pub buffers : ℕ

pub record MemoryInfo (F : Type 0) : Type 0 where
  pub total_mb : ℕ
  pub available_mb : ℕ
  pub used_mb : ℕ
  pub used_percent : F
  pub free_mb : ℕ
  pub cached_mb : ℕ
  pub buffers_mb : ℕ

-- `host.Info`
pub record HostInfo : Type 0 where
  pub hostname : String
  pub os : String
  pub platform : String
  pub platform_family : String
  pub platform_version : String
  pub kernel_version : String
  pub kernel_arch : String
  pub uptime : ℕ
  pub boot_time : ℕ

-- `OSInfo`
pub record OsInfo : Type 0 where
  pub host : HostInfo
  pub go_version : String
  pub num_cpu : ℕ

pub record Interface : Type 0 where
  pub name : String
  pub mtu : ℕ
  pub flags : List String
  pub addrs : List String
  pub hardware_addr : String

pub record NetInfo : Type 0 where
  pub name : String
  pub mtu : ℕ
  pub flags : List String
  pub addresses : List String
  pub mac : Option String

abbrev pub to_gb : ℕ → ℕ
to_gb bytes = bytes / 1024 / 1024 / 1024

abbrev pub to_mb : ℕ → ℕ
to_mb bytes = bytes / 1024 / 1024

module _ {F : Type 0} where
  -- `zero` is the number 0, `percentages` the answer of `cpu.Percent`.
  unfoldable pub cpu_info :
      F → ℕ → Option (List (CpuModel F)) → Option (List F) → Result CollectError (CpuInfo F)
  cpu_info zero cores none percentages = err no_cpu
  cpu_info zero cores (some models) none = err no_usage
  cpu_info zero cores (some models) (some percentages) = ok (record {
    usage_percent = elim percentages [ [] ↦ zero | p ∷ _ ↦ p ];
    cores = cores;
    model = elim models [ [] ↦ none | m ∷ _ ↦ some m ];
  })

  -- The loop of `DiskInfo`.
  unfoldable pub disks : (String → Option (DiskUsage F)) → List Partition → List (DiskInfo F)
  disks usage [] = []
  disks usage (p ∷ ps) = elim (usage p.mountpoint) [
    | none ↦ disks usage ps
    | some u ↦
        record {
          device = p.device;
          mountpoint = p.mountpoint;
          fstype = p.fstype;
          total_gb = to_gb u.total;
          used_gb = to_gb u.used;
          free_gb = to_gb u.free;
          used_percent = u.percent;
        }
        ∷ disks usage ps
  ]

  unfoldable pub disk_info :
      (String → Option (DiskUsage F))
      → Option (List Partition)
      → Result CollectError (List (DiskInfo F))
  unfolding disks
  disk_info usage none = err no_partitions
  disk_info usage (some partitions) = ok (disks usage partitions)

  unfoldable pub memory_info : Option (VirtualMemory F) → Result CollectError (MemoryInfo F)
  memory_info none = err no_memory
  memory_info (some vm) = ok (record {
    total_mb = to_mb vm.total;
    available_mb = to_mb vm.available;
    used_mb = to_mb vm.used;
    used_percent = vm.percent;
    free_mb = to_mb vm.free;
    cached_mb = to_mb vm.cached;
    buffers_mb = to_mb vm.buffers;
  })

unfoldable pub os_info : String → ℕ → Option HostInfo → Result CollectError OsInfo
os_info go_version num_cpu none = err no_host
os_info go_version num_cpu (some host) =
    ok (record { host = host; go_version = go_version; num_cpu = num_cpu })

-- The loop of `NetworkInfo`.
unfoldable pub networks : Bool → List Interface → List NetInfo
networks collect_mac [] = []
networks collect_mac (i ∷ is) =
    record {
      name = i.name;
      mtu = i.mtu;
      flags = i.flags;
      addresses = i.addrs;
      mac = if collect_mac then some i.hardware_addr else none;
    }
    ∷ networks collect_mac is

unfoldable pub network_info : Bool → Option (List Interface) → Result CollectError (List NetInfo)
unfolding networks
network_info collect_mac none = err no_interfaces
network_info collect_mac (some interfaces) = ok (networks collect_mac interfaces)
