-- ===== src/Model/Properties/Board.antt =====
-- The `SystemDeviceInfo`, `MotherboardInfo`, `BiosInfo` structs of crates/hw-model/src/properties.rs.
use qurbrix_hwinfo.Common.{Option, none, List, [], Text}

pub record SystemDeviceInfo : Type 0 where
  pub hostname : Option Text
  pub os : Option Text
  pub kernel : Option Text
  pub architecture : Option Text
  pub manufacturer : Option Text
  pub product_name : Option Text
  pub version : Option Text
  pub serial : Option Text
  pub uuid : Option Text
  pub wake_up_type : Option Text
  pub sku_number : Option Text
  pub family : Option Text

pub record MotherboardInfo : Type 0 where
  pub manufacturer : Option Text
  pub product_name : Option Text
  pub version : Option Text
  pub serial : Option Text
  pub asset_tag : Option Text
  pub chipset_family : Option Text
  pub board_features : List Text
  pub board_type : Option Text
  pub location_in_chassis : Option Text
  pub chassis_handle : Option Text
  pub chassis_manufacturer : Option Text
  pub chassis_type : Option Text
  pub chassis_version : Option Text
  pub chassis_serial : Option Text
  pub chassis_asset_tag : Option Text
  pub chassis_lock : Option Text
  pub chassis_boot_up_state : Option Text
  pub chassis_power_supply_state : Option Text
  pub chassis_thermal_state : Option Text
  pub chassis_security_status : Option Text
  pub chassis_oem_information : Option Text
  pub chassis_height : Option Text
  pub chassis_power_cords : Option Text
  pub chassis_contained_elements : Option Text
  pub chassis_sku_number : Option Text
  pub memory_array_location : Option Text
  pub memory_array_use : Option Text
  pub memory_array_error_correction_type : Option Text
  pub memory_array_maximum_capacity : Option Text
  pub memory_array_error_information_handle : Option Text
  pub memory_array_number_of_devices : Option Text

pub record BiosInfo : Type 0 where
  pub vendor : Option Text
  pub version : Option Text
  pub release_date : Option Text
  pub smbios_version : Option Text
  pub rom_size : Option Text
  pub runtime_size : Option Text
  pub address : Option Text
  pub characteristics : List Text
  pub bios_revision : Option Text
  pub firmware_revision : Option Text
  pub firmware_type : Option Text
  pub secure_boot : Option Text
  pub language_description_format : Option Text
  pub installable_languages : List Text
  pub currently_installed_language : Option Text
  pub oem_strings : List Text

-- The derived `Default`.
abbrev pub system_device_info_default : SystemDeviceInfo
system_device_info_default = record {
  hostname = none;
  os = none;
  kernel = none;
  architecture = none;
  manufacturer = none;
  product_name = none;
  version = none;
  serial = none;
  uuid = none;
  wake_up_type = none;
  sku_number = none;
  family = none;
}

-- The derived `Default`.
abbrev pub motherboard_info_default : MotherboardInfo
motherboard_info_default = record {
  manufacturer = none;
  product_name = none;
  version = none;
  serial = none;
  asset_tag = none;
  chipset_family = none;
  board_features = [];
  board_type = none;
  location_in_chassis = none;
  chassis_handle = none;
  chassis_manufacturer = none;
  chassis_type = none;
  chassis_version = none;
  chassis_serial = none;
  chassis_asset_tag = none;
  chassis_lock = none;
  chassis_boot_up_state = none;
  chassis_power_supply_state = none;
  chassis_thermal_state = none;
  chassis_security_status = none;
  chassis_oem_information = none;
  chassis_height = none;
  chassis_power_cords = none;
  chassis_contained_elements = none;
  chassis_sku_number = none;
  memory_array_location = none;
  memory_array_use = none;
  memory_array_error_correction_type = none;
  memory_array_maximum_capacity = none;
  memory_array_error_information_handle = none;
  memory_array_number_of_devices = none;
}
