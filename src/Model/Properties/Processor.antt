-- ===== src/Model/Properties/Processor.antt =====
-- The `CpuCacheEntry`, `LogicalCpuInfo`, `CpuInfo` structs of crates/hw-model/src/properties.rs.
use qurbrix_hwinfo.Common.{ℕ, Bool, false, Option, none, List, [], Text}
use qurbrix_hwinfo.Model.Properties.Numbers.{F32}

pub record CpuCacheEntry : Type 0 where
  pub level : ℕ
  pub kind : Option Text
  pub size : Option Text
  pub size_bytes : Option ℕ
  pub ways_of_associativity : Option ℕ
  pub coherency_line_size : Option ℕ
  pub number_of_sets : Option ℕ
  pub shared_cpu_list : Option Text
  pub shared_cpu_count : Option ℕ

pub record LogicalCpuInfo : Type 0 where
  pub processor : ℕ
  pub physical_id : Option ℕ
  pub core_id : Option ℕ
  pub current_freq_mhz : Option ℕ
  pub min_freq_mhz : Option ℕ
  pub max_freq_mhz : Option ℕ
  pub bogomips : Option Text
  pub online : Bool
  pub temperature_celsius : Option F32

pub record CpuInfo : Type 0 where
  pub name : Option Text
  pub vendor : Option Text
  pub architecture : Option Text
  pub cores : Option ℕ
  pub enabled_cores : Option ℕ
  pub threads : Option ℕ
  pub online_threads : Option ℕ
  pub online_cores : Option ℕ
  pub threads_per_core : Option ℕ
  pub sockets : Option ℕ
  pub socket_designations : List Text
  pub serial_numbers : List Text
  pub max_freq_mhz : Option ℕ
  pub min_freq_mhz : Option ℕ
  pub current_freq_mhz : Option ℕ
  pub external_clock_mhz : Option ℕ
  pub frequency_display : Option Text
  pub frequency_is_range : Bool
  pub overview : Option Text
  pub family : Option Text
  pub cpu_implementer : Option Text
  pub cpu_architecture : Option Text
  pub cpu_variant : Option Text
  pub cpu_part : Option Text
  pub cpu_revision : Option Text
  pub model : Option Text
  pub stepping : Option Text
  pub bogomips : Option Text
  pub virtualization : Option Text
  pub l1d_cache : Option Text
  pub l1i_cache : Option Text
  pub l2_cache : Option Text
  pub l3_cache : Option Text
  pub l4_cache : Option Text
  pub caches : List CpuCacheEntry
  pub clflush_size_bytes : Option ℕ
  pub flags : List Text
  pub extensions : List Text
  pub logical_cpus : List LogicalCpuInfo
  pub hw_platform : Bool
  pub scaling_governor : Option Text
  pub scaling_available_governors : List Text
  pub scaling_available_frequencies_khz : List ℕ
  pub scaling_setspeed_supported : Bool

-- The derived `Default`.
abbrev pub cpu_info_default : CpuInfo
cpu_info_default = record {
  name = none;
  vendor = none;
  architecture = none;
  cores = none;
  enabled_cores = none;
  threads = none;
  online_threads = none;
  online_cores = none;
  threads_per_core = none;
  sockets = none;
  socket_designations = [];
  serial_numbers = [];
  max_freq_mhz = none;
  min_freq_mhz = none;
  current_freq_mhz = none;
  external_clock_mhz = none;
  frequency_display = none;
  frequency_is_range = false;
  overview = none;
  family = none;
  cpu_implementer = none;
  cpu_architecture = none;
  cpu_variant = none;
  cpu_part = none;
  cpu_revision = none;
  model = none;
  stepping = none;
  bogomips = none;
  virtualization = none;
  l1d_cache = none;
  l1i_cache = none;
  l2_cache = none;
  l3_cache = none;
  l4_cache = none;
  caches = [];
  clflush_size_bytes = none;
  flags = [];
  extensions = [];
  logical_cpus = [];
  hw_platform = false;
  scaling_governor = none;
  scaling_available_governors = [];
  scaling_available_frequencies_khz = [];
  scaling_setspeed_supported = false;
}
