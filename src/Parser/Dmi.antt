-- ===== src/Parser/Dmi.antt =====
-- crates/hw-parser/src/dmi.rs: the records that the parsers of dmidecode, lshw and decode-dimms fill.
pub mod Clean
pub mod Units
pub mod Spd
pub mod Memory
pub mod Lshw
pub mod Blocks
pub mod Machine
pub mod Board
use qurbrix_hwinfo.Common.{Option, none, List, [], Text}

pub record DmiMemoryRecord : Type 0 where
  pub name : Option Text
  pub size : Option Text
  pub locator : Option Text
  pub manufacturer : Option Text
  pub serial : Option Text
  pub part_number : Option Text
  pub memory_type : Option Text
  pub speed : Option Text
  pub configured_speed : Option Text
  pub total_width : Option Text
  pub data_width : Option Text
  pub minimum_voltage : Option Text
  pub maximum_voltage : Option Text
  pub configured_voltage : Option Text
  pub error_information_handle : Option Text
  pub form_factor : Option Text
  pub set : Option Text
  pub bank_locator : Option Text
  pub type_detail : Option Text
  pub asset_tag : Option Text
  pub rank : Option Text
  pub module_manufacturer_id : Option Text
  pub module_product_id : Option Text
  pub memory_subsystem_controller_manufacturer_id : Option Text
  pub memory_subsystem_controller_product_id : Option Text
  pub memory_technology : Option Text
  pub memory_operating_mode_capability : Option Text
  pub firmware_version : Option Text
  pub non_volatile_size : Option Text
  pub volatile_size : Option Text
  pub cache_size : Option Text
  pub logical_size : Option Text

-- The derived `Default`.
abbrev pub memory_record_default : DmiMemoryRecord
memory_record_default = record {
  name = none;
  size = none;
  locator = none;
  manufacturer = none;
  serial = none;
  part_number = none;
  memory_type = none;
  speed = none;
  configured_speed = none;
  total_width = none;
  data_width = none;
  minimum_voltage = none;
  maximum_voltage = none;
  configured_voltage = none;
  error_information_handle = none;
  form_factor = none;
  set = none;
  bank_locator = none;
  type_detail = none;
  asset_tag = none;
  rank = none;
  module_manufacturer_id = none;
  module_product_id = none;
  memory_subsystem_controller_manufacturer_id = none;
  memory_subsystem_controller_product_id = none;
  memory_technology = none;
  memory_operating_mode_capability = none;
  firmware_version = none;
  non_volatile_size = none;
  volatile_size = none;
  cache_size = none;
  logical_size = none;
}

pub record DmiBiosBoardRecord : Type 0 where
  pub smbios_version : Option Text
  pub bios_vendor : Option Text
  pub bios_version : Option Text
  pub bios_release_date : Option Text
  pub bios_address : Option Text
  pub bios_runtime_size : Option Text
  pub bios_rom_size : Option Text
  pub bios_characteristics : List Text
  pub bios_revision : Option Text
  pub firmware_revision : Option Text
  pub bios_language_description_format : Option Text
  pub bios_installable_languages : List Text
  pub bios_currently_installed_language : Option Text
  pub board_manufacturer : Option Text
  pub board_product_name : Option Text
  pub board_version : Option Text
  pub board_serial : Option Text
  pub board_asset_tag : Option Text
  pub chipset_family : Option Text
  pub board_features : List Text
  pub board_type : Option Text
  pub board_location_in_chassis : Option Text
  pub board_chassis_handle : Option Text
  pub chassis_manufacturer : Option Text
  pub chassis_type : Option Text
  pub chassis_version : Option Text
  pub chassis_serial : Option Text
  pub chassis_asset_tag : Option Text
  pub chassis_lock : Option Text
  pub chassis_boot_up_state : Option Text
  pub chassis_power_supply_state : Option Text
  pub chassis_thermal_state : Option Text
  pub chassis_security_status : Option Text
  pub chassis_oem_information : Option Text
  pub chassis_height : Option Text
  pub chassis_power_cords : Option Text
  pub chassis_contained_elements : Option Text
  pub chassis_sku_number : Option Text
  pub memory_array_location : Option Text
  pub memory_array_use : Option Text
  pub memory_array_error_correction_type : Option Text
  pub memory_array_maximum_capacity : Option Text
  pub memory_array_error_information_handle : Option Text
  pub memory_array_number_of_devices : Option Text

-- The derived `Default`.
abbrev pub board_record_default : DmiBiosBoardRecord
board_record_default = record {
  smbios_version = none;
  bios_vendor = none;
  bios_version = none;
  bios_release_date = none;
  bios_address = none;
  bios_runtime_size = none;
  bios_rom_size = none;
  bios_characteristics = [];
  bios_revision = none;
  firmware_revision = none;
  bios_language_description_format = none;
  bios_installable_languages = [];
  bios_currently_installed_language = none;
  board_manufacturer = none;
  board_product_name = none;
  board_version = none;
  board_serial = none;
  board_asset_tag = none;
  chipset_family = none;
  board_features = [];
  board_type = none;
  board_location_in_chassis = none;
  board_chassis_handle = none;
  chassis_manufacturer = none;
  chassis_type = none;
  chassis_version = none;
  chassis_serial = none;
  chassis_asset_tag = none;
  chassis_lock = none;
  chassis_boot_up_state = none;
  chassis_power_supply_state = none;
  chassis_thermal_state = none;
  chassis_security_status = none;
  chassis_oem_information = none;
  chassis_height = none;
  chassis_power_cords = none;
  chassis_contained_elements = none;
  chassis_sku_number = none;
  memory_array_location = none;
  memory_array_use = none;
  memory_array_error_correction_type = none;
  memory_array_maximum_capacity = none;
  memory_array_error_information_handle = none;
  memory_array_number_of_devices = none;
}

pub record DmiSystemRecord : Type 0 where
  pub manufacturer : Option Text
  pub product_name : Option Text
  pub version : Option Text
  pub serial : Option Text
  pub uuid : Option Text
  pub wake_up_type : Option Text
  pub sku_number : Option Text
  pub family : Option Text

-- The derived `Default`.
abbrev pub system_record_default : DmiSystemRecord
system_record_default = record {
  manufacturer = none;
  product_name = none;
  version = none;
  serial = none;
  uuid = none;
  wake_up_type = none;
  sku_number = none;
  family = none;
}
