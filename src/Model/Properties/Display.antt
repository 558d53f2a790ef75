-- ===== src/Model/Properties/Display.antt =====
-- The `GpuConnectorInfo`, `GpuInfo`, `MonitorInfo` structs of crates/hw-model/src/properties.rs.
use qurbrix_hwinfo.Common.{ℕ, Bool, Option, none, List, [], Text}
use qurbrix_hwinfo.Model.Properties.Numbers.{F32}

pub record GpuConnectorInfo : Type 0 where
  pub connector : Text
  pub interface : Option Text
  pub connected : Bool
  pub primary : Bool
  pub current_resolution : Option Text
  pub max_resolution : Option Text

pub record GpuInfo : Type 0 where
  pub vendor : Option Text
  pub description : Option Text
  pub revision : Option Text
  pub renderer : Option Text
  pub opengl_vendor : Option Text
  pub opengl_version : Option Text
  pub glsl_version : Option Text
  pub egl_version : Option Text
  pub egl_client_apis : Option Text
  pub memory_bytes : Option ℕ
  pub memory_bus_width_bits : Option ℕ
  pub irq : Option Text
  pub clock_mhz : Option ℕ
  pub capabilities : List Text
  pub io_port : Option Text
  pub mem_address : Option Text
  pub vid_pid : Option Text
  pub phys_id : Option Text
  pub modalias : Option Text
  pub gddr_capacity : Option Text
  pub current_resolution : Option Text
  pub min_resolution : Option Text
  pub max_resolution : Option Text
  pub connectors : List GpuConnectorInfo

pub record MonitorInfo : Type 0 where
  pub connector : Option Text
  pub interface : Option Text
  pub raw_interface : Option Text
  pub is_primary : Bool
  pub resolution : Option Text
  pub current_refresh_hz : Option ℕ
  pub max_resolution : Option Text
  pub support_resolutions : List Text
  pub aspect_ratio : Option Text
  pub size_mm : Option (ℕ × ℕ)
  pub production_date : Option Text
  pub manufacturer : Option Text
  pub manufacturer_name : Option Text
  pub product : Option Text
  pub product_code : Option ℕ
  pub serial : Option Text
  pub manufactured_year : Option ℕ
  pub manufactured_week : Option ℕ
  pub size_cm : Option (ℕ × ℕ)
  pub diagonal_inches : Option F32
  pub gamma : Option F32
  pub preferred_width : Option ℕ
  pub preferred_height : Option ℕ
  pub preferred_refresh_hz : Option ℕ
  pub edid_hex : Option Text

-- The derived `Default`.
abbrev pub gpu_info_default : GpuInfo
gpu_info_default = record {
  vendor = none;
  description = none;
  revision = none;
  renderer = none;
  opengl_vendor = none;
  opengl_version = none;
  glsl_version = none;
  egl_version = none;
  egl_client_apis = none;
  memory_bytes = none;
  memory_bus_width_bits = none;
  irq = none;
  clock_mhz = none;
  capabilities = [];
  io_port = none;
  mem_address = none;
  vid_pid = none;
  phys_id = none;
  modalias = none;
  gddr_capacity = none;
  current_resolution = none;
  min_resolution = none;
  max_resolution = none;
  connectors = [];
}
