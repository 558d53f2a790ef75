-- ===== src/Model/Properties/Peripheral.antt =====
-- The `AudioInfo`, `InputInfo`, `CameraInfo`, `BatteryInfo`, `PrinterInfo`, `CdromInfo` structs of crates/hw-model/src/properties.rs.
use qurbrix_hwinfo.Common.{ℕ, Bool, Option, List, Text}
use qurbrix_hwinfo.Model.Properties.Numbers.{F32}

pub data InputKind : Type 0 where
  keyboard mouse touchpad touchscreen tablet unknown_input : InputKind

pub record AudioInfo : Type 0 where
  pub card_index : Option ℕ
  pub card_name : Option Text
  pub codec : Option Text
  pub subsystem : Option Text
  pub profiles : List Text
  pub description : Option Text
  pub sysfs_path : Option Text
  pub revision : Option Text
  pub irq : Option Text
  pub memory_address : Option Text
  pub capabilities : Option Text
  pub phys_id : Option Text
  pub modalias : Option Text
  pub driver_status : Option Text
  pub driver_activation_command : Option Text
  pub sub_device : Option Text
  pub sub_vendor : Option Text
  pub latency : Option Text

pub record InputInfo : Type 0 where
  pub input_kind : InputKind
  pub event_node : Option Text
  pub phys : Option Text
  pub uniq : Option Text
  pub handlers : List Text
  pub bus_type : Option Text
  pub vendor_id : Option Text
  pub product_id : Option Text
  pub version : Option Text

pub record CameraInfo : Type 0 where
  pub video_node : Option Text
  pub capabilities : List Text

pub record BatteryInfo : Type 0 where
  pub power_type : Option Text
  pub vendor : Option Text
  pub model : Option Text
  pub serial : Option Text
  pub technology : Option Text
  pub state : Option Text
  pub capacity_percent : Option F32
  pub energy_full_wh : Option F32
  pub energy_design_wh : Option F32
  pub energy_now_wh : Option F32
  pub voltage_v : Option F32
  pub temperature_celsius : Option F32
  pub cycle_count : Option ℕ
  pub present : Option Bool

pub record PrinterInfo : Type 0 where
  pub queue_name : Option Text
  pub accepting : Option Bool
  pub device_uri : Option Text
  pub make_model : Option Text
  pub is_default : Option Bool

pub record CdromInfo : Type 0 where
  pub device_node : Option Text
  pub media_present : Option Bool
  pub firmware : Option Text
  pub capabilities : List Text
