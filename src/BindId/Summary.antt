-- ===== src/BindId/Summary.antt =====
-- crates/hw-bindid/src/model.rs: the report of the id, and which kinds it covers.
use qurbrix_hwinfo.Common.{
  not, Option, none, some, List, [], ◌∷◌, ◌++◌, map, Text, codes, text_eq, text_leb, sort, dedup,
  before, is_empty, any, retain, filter_map, if◌then◌else◌,
}
use qurbrix_hwinfo.Model.Evidence.{ScanWarning}
use qurbrix_hwinfo.Model.Report.{ScanReport}
use qurbrix_hwinfo.BindId.Key.{bindid_value}
use qurbrix_hwinfo.BindId.Devices.{component_keys_from_devices}

abbrev pub bindid_schema_version : Text
bindid_schema_version = codes "qurbrix.hw.bindid.v1"

abbrev pub bindid_algorithm : Text
bindid_algorithm = codes "qurbrix-hw-bindid-sha1-hex16-v1"

abbrev pub required_kinds : List Text
required_kinds =
    codes "system" ∷ codes "motherboard" ∷ codes "memory" ∷ codes "storage" ∷ codes "network" ∷ []

abbrev pub optional_kinds : List Text
optional_kinds = codes "gpu" ∷ []

pub data BindIdStatus : Type 0 where
  complete failed : BindIdStatus

pub record BindIdReport : Type 0 where
  pub schema_version : Text
  pub algorithm : Text
  pub status : BindIdStatus
  pub value : Option Text
  pub required_kinds : List Text
  pub optional_kinds : List Text
  pub covered_kinds : List Text
  pub missing_required_kinds : List Text
  pub missing_optional_kinds : List Text
  pub component_keys : List Text
  pub warnings : List Text

unfoldable pub covered_kinds : List Text → List Text
unfolding before sort dedup text_leb text_eq
covered_kinds component_keys =
    dedup text_eq (sort text_leb (filter_map (before b':') component_keys))

unfoldable pub missing_kinds : List Text → List Text → List Text
unfolding text_eq
missing_kinds expected covered =
    retain (λ kind. not (any (λ covered_kind. text_eq covered_kind kind) covered)) expected

module _ (sha1_hex : Text → Text) where
  unfoldable pub from_parts : List Text → List Text → BindIdReport
  unfolding covered_kinds missing_kinds bindid_value sort text_leb
  from_parts component_keys warnings =
      let covered = covered_kinds component_keys in
      let missing = missing_kinds required_kinds covered in
      record {
        schema_version = bindid_schema_version;
        algorithm = bindid_algorithm;
        status = if is_empty missing then BindIdStatus.complete else BindIdStatus.failed;
        value = if is_empty missing then some (bindid_value sha1_hex component_keys) else none;
        required_kinds = required_kinds;
        optional_kinds = optional_kinds;
        covered_kinds = covered;
        missing_required_kinds = missing;
        missing_optional_kinds = missing_kinds optional_kinds covered;
        component_keys = sort text_leb component_keys;
        warnings = warnings;
      }

  unfoldable pub from_scan_report : ScanReport → BindIdReport
  unfolding from_parts component_keys_from_devices
  from_scan_report report =
      from_parts (component_keys_from_devices report.devices)
        (map (λ (w : ScanWarning). w.code ++ (codes ": " ++ w.message)) report.warnings)
