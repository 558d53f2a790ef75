-- ===== src/Model/Properties/Network.antt =====
-- The `NetworkInfo`, `PairedDeviceInfo`, `BluetoothInfo` structs of crates/hw-model/src/properties.rs.
use qurbrix_hwinfo.Common.{ℕ, Bool, Option, none, List, [], Text}

pub record NetworkInfo : Type 0 where
  pub interface : Option Text
  pub network_type : Option Text
  pub mac : Option Text
  pub operstate : Option Text
  pub speed_mbps : Option ℕ
  pub duplex : Option Text
  pub firmware : Option Text
  pub ipv4 : List Text
  pub ipv6 : List Text
  pub mtu : Option ℕ
  pub phys_id : Option Text
  pub modalias : Option Text
  pub driver_version : Option Text

pub record PairedDeviceInfo : Type 0 where
  pub address : Text
  pub name : Text

pub record BluetoothInfo : Type 0 where
  pub address : Option Text
  pub controller_name : Option Text
  pub powered : Option Bool
  pub discoverable : Option Bool
  pub paired_device_count : Option ℕ
  pub paired_devices : List PairedDeviceInfo
  pub hci_version : Option Text
  pub lmp_version : Option Text
  pub manufacturer : Option Text
  pub device_class : Option Text
  pub features : List Text

-- The derived `Default`.
abbrev pub network_info_default : NetworkInfo
network_info_default = record {
  interface = none;
  network_type = none;
  mac = none;
  operstate = none;
  speed_mbps = none;
  duplex = none;
  firmware = none;
  ipv4 = [];
  ipv6 = [];
  mtu = none;
  phys_id = none;
  modalias = none;
  driver_version = none;
}
