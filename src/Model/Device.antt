-- ===== src/Model/Device.antt =====
-- crates/hw-model/src/device.rs, bus.rs and driver.rs.
use qurbrix_hwinfo.Common.{Option, none, some, List, [], ◌∷◌, ◌++◌, Text}
use qurbrix_hwinfo.Model.Kind.{DeviceKind}
use qurbrix_hwinfo.Model.Evidence.{SourceEvidence, ScanWarning}
use qurbrix_hwinfo.Model.Properties.{DeviceProperties}

pub data BusInfo : Type 0 where
  pci :
      (address : Text) (vendor_id device_id subsystem_vendor_id subsystem_device_id : Option Text)
      (class : Option Text)
      → BusInfo
  usb :
      (bus device vendor_id product_id speed interface : Option Text) (class : Option Text)
      → BusInfo
  platform : (path : Text) → BusInfo
  virtual : BusInfo
  unknown : BusInfo

pub data DriverStatus : Type 0 where
  in_use available missing unknown : DriverStatus

pub record DriverInfo : Type 0 where
  pub name : Option Text
  pub version : Option Text
  pub modules : List Text
  pub provider : Option Text
  pub status : DriverStatus

pub record DeviceIdentifier : Type 0 where
  pub kind : Text
  pub value : Text

pub record DeviceRef : Type 0 where
  pub id : Text

pub record Device : Type 0 where
  pub id : Text
  pub kind : DeviceKind
  pub name : Text
  pub vendor : Option Text
  pub model : Option Text
  pub serial : Option Text
  pub bus : Option BusInfo
  pub driver : Option DriverInfo
  pub parent_id : Option Text
  pub children : List Text
  pub capabilities : List Text
  pub identifiers : List DeviceIdentifier
  pub sources : List SourceEvidence
  pub warnings : List ScanWarning
  pub properties : DeviceProperties

-- `Device::new`.
abbrev pub new_device : Text → DeviceKind → Text → DeviceProperties → Device
new_device id kind name properties = record {
  id = id;
  kind = kind;
  name = name;
  vendor = none;
  model = none;
  serial = none;
  bus = none;
  driver = none;
  parent_id = none;
  children = [];
  capabilities = [];
  identifiers = [];
  sources = [];
  warnings = [];
  properties = properties;
}

abbrev pub with_bus : BusInfo → Device → Device
with_bus bus device = record device { bus = some bus }

abbrev pub with_driver : DriverInfo → Device → Device
with_driver driver device = record device { driver = some driver }

abbrev pub with_source : SourceEvidence → Device → Device
with_source source device = record device { sources = device.sources ++ source ∷ [] }
