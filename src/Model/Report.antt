-- ===== src/Model/Report.antt =====
-- crates/hw-model/src/report.rs. A `Duration` is its number of nanoseconds.
use qurbrix_hwinfo.Common.{ℕ, ◌*◌, Bool, true, Option, none, List, [], Text, codes}
use qurbrix_hwinfo.Model.Kind.{DeviceKind}
use qurbrix_hwinfo.Model.Evidence.{ScanWarning}
use qurbrix_hwinfo.Model.Device.{Device}

pub data ScanStatus : Type 0 where
  complete partial failed : ScanStatus

pub record ScanMetadata : Type 0 where
  pub hostname : Option Text
  pub os : Option Text
  pub kernel : Option Text
  pub architecture : Option Text
  pub scanner_version : Option Text
  pub duration_ms : Option ℕ

pub record SystemInfo : Type 0 where
  pub hostname : Option Text
  pub os : Option Text
  pub kernel : Option Text
  pub architecture : Option Text

pub record ScanReport : Type 0 where
  pub schema_version : Text
  pub metadata : ScanMetadata
  pub system : SystemInfo
  pub devices : List Device
  pub warnings : List ScanWarning
  pub status : ScanStatus

abbrev pub schema_version : Text
schema_version = codes "qurbrix.hw.scan.v2"

-- `ScanReport::empty`.
abbrev pub empty_report : ScanReport
empty_report = record {
  schema_version = schema_version;
  metadata = record {
    hostname = none;
    os = none;
    kernel = none;
    architecture = none;
    scanner_version = none;
    duration_ms = none;
  };
  system = record { hostname = none; os = none; kernel = none; architecture = none };
  devices = [];
  warnings = [];
  status = complete;
}

pub record ScanConfig : Type 0 where
  pub kinds : Option (List DeviceKind)
  pub exclude_kinds : List DeviceKind
  pub timeout : ℕ
  pub optional_sources : Bool
  pub include_sources : Bool
  pub include_warnings : Bool

-- Nanoseconds of a number of seconds.
abbrev pub from_secs : ℕ → ℕ
from_secs n = n * 1000000000

-- `ScanConfig::default`.
abbrev pub scan_config_default : ScanConfig
scan_config_default = record {
  kinds = none;
  exclude_kinds = [];
  timeout = from_secs 30;
  optional_sources = true;
  include_sources = true;
  include_warnings = true;
}
