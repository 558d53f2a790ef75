-- ===== src/Model/Evidence.antt =====
-- crates/hw-model/src/evidence.rs: where a value came from, and what went wrong.
use qurbrix_hwinfo.Common.{Option, none, some, Text}

pub data SourceKind : Type 0 where
  command file directory sysfs procfs dbus : SourceKind

pub data SourceStatus : Type 0 where
  success missing permission_denied timeout failed : SourceStatus

pub record SourceEvidence : Type 0 where
  pub source : Text
  pub kind : SourceKind
  pub status : SourceStatus
  pub summary : Option Text

pub record ScanWarning : Type 0 where
  pub code : Text
  pub message : Text
  pub source : Option Text
  pub device_id : Option Text

-- `ScanWarning::new`.
abbrev pub scan_warning : Text → Text → ScanWarning
scan_warning code message = record {
  code = code;
  message = message;
  source = none;
  device_id = none;
}

abbrev pub with_source : Text → ScanWarning → ScanWarning
with_source source warning = record warning { source = some source }

abbrev pub with_device_id : Text → ScanWarning → ScanWarning
with_device_id device_id warning = record warning { device_id = some device_id }
