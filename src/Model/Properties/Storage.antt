-- ===== src/Model/Properties/Storage.antt =====
-- The `MemoryInfo`, `StorageInfo` structs of crates/hw-model/src/properties.rs.
use qurbrix_hwinfo.Common.{ℕ, Option, none, List, [], Text}
use qurbrix_hwinfo.Model.Properties.Numbers.{F32, I32}

pub record MemoryInfo : Type 0 where
  pub size_bytes : Option ℕ
  pub vendor : Option Text
  pub memory_type : Option Text
  pub speed_mtps : Option ℕ
  pub configured_speed_mtps : Option ℕ
  pub total_width_bits : Option ℕ
  pub data_width_bits : Option ℕ
  pub min_voltage_v : Option F32
  pub max_voltage_v : Option F32
  pub configured_voltage_v : Option F32
  pub locator : Option Text
  pub serial : Option Text
  pub part_number : Option Text
  pub error_information_handle : Option Text
  pub form_factor : Option Text
  pub set : Option Text
  pub bank_locator : Option Text
  pub type_detail : Option Text
  pub asset_tag : Option Text
  pub rank : Option ℕ
  pub module_manufacturer_id : Option Text
  pub module_product_id : Option Text
  pub memory_subsystem_controller_manufacturer_id : Option Text
  pub memory_subsystem_controller_product_id : Option Text
  pub memory_technology : Option Text
  pub memory_operating_mode_capability : Option Text
  pub firmware_version : Option Text
  pub non_volatile_size_bytes : Option ℕ
  pub volatile_size_bytes : Option ℕ
  pub cache_size_bytes : Option ℕ
  pub logical_size_bytes : Option ℕ
  pub overview : Option Text
  pub mem_info : Option Text
  pub memory_array_location : Option Text
  pub memory_array_use : Option Text
  pub memory_array_error_correction_type : Option Text
  pub memory_array_maximum_capacity_bytes : Option ℕ
  pub memory_array_error_information_handle : Option Text
  pub memory_array_number_of_devices : Option ℕ

pub record StorageInfo : Type 0 where
  pub device_node : Option Text
  pub size_bytes : Option ℕ
  pub size_display : Option Text
  pub media_type : Option Text
  pub interface : Option Text
  pub controller_vendor : Option Text
  pub controller_model : Option Text
  pub controller_driver : Option Text
  pub firmware : Option Text
  pub wwn : Option Text
  pub speed : Option Text
  pub rotation_rate : Option Text
  pub ufs_spec_version : Option Text
  pub vid_pid : Option Text
  pub phys_id : Option Text
  pub modalias : Option Text
  pub capabilities : List Text
  pub smart_status : Option Text
  pub temperature_celsius : Option F32
  pub power_on_hours : Option ℕ
  pub power_cycle_count : Option ℕ
  pub available_spare_percent : Option ℕ
  pub available_spare_threshold_percent : Option ℕ
  pub percentage_used : Option ℕ
  pub data_units_read : Option ℕ
  pub data_units_written : Option ℕ
  pub media_errors : Option ℕ
  pub error_log_entries : Option ℕ
  pub temperature_sensors_celsius : List I32
  pub device_number : Option Text
  pub geometry_logical_block_size : Option ℕ
  pub geometry_logical : Option Text
  pub geometry_physical_block_size : Option ℕ
  pub hardware_class : Option Text
  pub description : Option Text

-- The derived `Default`.
abbrev pub memory_info_default : MemoryInfo
memory_info_default = record {
  size_bytes = none;
  vendor = none;
  memory_type = none;
  speed_mtps = none;
  configured_speed_mtps = none;
  total_width_bits = none;
  data_width_bits = none;
  min_voltage_v = none;
  max_voltage_v = none;
  configured_voltage_v = none;
  locator = none;
  serial = none;
  part_number = none;
  error_information_handle = none;
  form_factor = none;
  set = none;
  bank_locator = none;
  type_detail = none;
  asset_tag = none;
  rank = none;
  module_manufacturer_id = none;
  module_product_id = none;
  memory_subsystem_controller_manufacturer_id = none;
  memory_subsystem_controller_product_id = none;
  memory_technology = none;
  memory_operating_mode_capability = none;
  firmware_version = none;
  non_volatile_size_bytes = none;
  volatile_size_bytes = none;
  cache_size_bytes = none;
  logical_size_bytes = none;
  overview = none;
  mem_info = none;
  memory_array_location = none;
  memory_array_use = none;
  memory_array_error_correction_type = none;
  memory_array_maximum_capacity_bytes = none;
  memory_array_error_information_handle = none;
  memory_array_number_of_devices = none;
}

-- The derived `Default`.
abbrev pub storage_info_default : StorageInfo
storage_info_default = record {
  device_node = none;
  size_bytes = none;
  size_display = none;
  media_type = none;
  interface = none;
  controller_vendor = none;
  controller_model = none;
  controller_driver = none;
  firmware = none;
  wwn = none;
  speed = none;
  rotation_rate = none;
  ufs_spec_version = none;
  vid_pid = none;
  phys_id = none;
  modalias = none;
  capabilities = [];
  smart_status = none;
  temperature_celsius = none;
  power_on_hours = none;
  power_cycle_count = none;
  available_spare_percent = none;
  available_spare_threshold_percent = none;
  percentage_used = none;
  data_units_read = none;
  data_units_written = none;
  media_errors = none;
  error_log_entries = none;
  temperature_sensors_celsius = [];
  device_number = none;
  geometry_logical_block_size = none;
  geometry_logical = none;
  geometry_physical_block_size = none;
  hardware_class = none;
  description = none;
}
