-- ===== src/Cli/View.antt =====
-- view.rs: the part of a report that is shown.
pub mod Shown
pub mod Complete
use qurbrix_hwinfo.Common.{ℕ, Bool, true, false, not, List, [], ◌∷◌, map, if◌then◌else◌, retain}
use qurbrix_hwinfo.Model.Kind.{
  DeviceKind, has_kind, monitor, audio, bluetooth, input, camera, battery, printer, cdrom, usb,
}
use qurbrix_hwinfo.Model.Device.{Device}
use qurbrix_hwinfo.Model.Report.{ScanReport, ScanConfig, scan_config_default}

abbrev pub inventory_scan_config : ℕ → ScanConfig
inventory_scan_config timeout = record scan_config_default { timeout = timeout }

abbrev pub optional_display_kinds : List DeviceKind
optional_display_kinds =
    monitor ∷ audio ∷ bluetooth ∷ input ∷ camera ∷ battery ∷ printer ∷ cdrom ∷ usb ∷ []

abbrev pub is_empty_kinds : List DeviceKind → Bool
is_empty_kinds [] = true
is_empty_kinds (_ ∷ _) = false

unfoldable pub only_kinds : List DeviceKind → List Device → List Device
only_kinds kinds devices =
    if is_empty_kinds kinds then devices else retain (λ d. has_kind kinds d.kind) devices

unfoldable pub without_kinds : List DeviceKind → List Device → List Device
without_kinds kinds devices =
    if is_empty_kinds kinds then devices else retain (λ d. not (has_kind kinds d.kind)) devices

unfoldable pub without_optional : Bool → List Device → List Device
without_optional omit devices =
    if omit then retain (λ d. not (has_kind optional_display_kinds d.kind)) devices else devices

abbrev pub clear_sources : Device → Device
clear_sources d = record d { sources = [] }

abbrev pub clear_warnings : Device → Device
clear_warnings d = record d { warnings = [] }

unfoldable pub filtered_report :
    ScanReport → List DeviceKind → List DeviceKind → Bool → Bool → Bool → ScanReport
unfolding only_kinds without_kinds without_optional
filtered_report report kinds excluded_kinds omit_optional omit_sources omit_warnings =
    let devices =
      without_optional omit_optional
        (without_kinds excluded_kinds (only_kinds kinds report.devices)) in
    let devices' = if omit_sources then map clear_sources devices else devices in
    if omit_warnings
    then record report { devices = map clear_warnings devices'; warnings = [] }
    else record report { devices = devices' }
