-- ===== src/Model/Properties/Attached.antt =====
-- The `UsbInfo`, `PciInfo`, `OtherPciInfo`, `OtherDeviceInfo` structs of crates/hw-model/src/properties.rs.
use qurbrix_hwinfo.Common.{ℕ, Option, none, [], Text}

pub record UsbInfo : Type 0 where
  pub bus_number : Option Text
  pub device_number : Option Text
  pub vendor_id : Option Text
  pub product_id : Option Text
  pub class : Option Text
  pub subclass : Option Text
  pub protocol : Option Text
  pub manufacturer : Option Text
  pub product : Option Text
  pub serial : Option Text
  pub speed : Option Text
  pub max_power_ma : Option ℕ

pub record PciInfo : Type 0 where
  pub address : Text
  pub class_name : Option Text
  pub class_id : Option Text
  pub vendor : Option Text
  pub vendor_id : Option Text
  pub device : Option Text
  pub device_id : Option Text
  pub subsystem_vendor_id : Option Text
  pub subsystem_device_id : Option Text

pub record OtherPciInfo : Type 0 where
  pub original_class : Option Text
  pub reason : Text

pub record OtherDeviceInfo : Type 0 where
  pub original_kind : Option Text
  pub reason : Text

-- The derived `Default`.
abbrev pub pci_info_default : PciInfo
pci_info_default = record {
  address = [];
  class_name = none;
  class_id = none;
  vendor = none;
  vendor_id = none;
  device = none;
  device_id = none;
  subsystem_vendor_id = none;
  subsystem_device_id = none;
}
