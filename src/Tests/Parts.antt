-- ===== src/Tests/Parts.antt =====
-- The theorems of the smaller parts at concrete inputs.
use qurbrix_hwinfo.Common.{
  ℕ, zero, suc, ◌+◌, ◌<◌, ◌^◌, ◌≡◌, refl, true, some, List, [], ◌∷◌, ◌++◌, codes, text_eq, any,
  take, retain, All, arith,
}
use qurbrix_hwinfo.Model.Kind.{DeviceKind, as_str, from_str, ok}
use qurbrix_hwinfo.Model.Kind.Names.{from_str-inverse}
use qurbrix_hwinfo.Parser.Edid.{
  edid_header, pair_swap_block, parse_edid, PreferredMode, parse_preferred_mode, byte, high_nibble,
  low_nibble,
}
use qurbrix_hwinfo.Parser.Edid.Swapped.{parse_edid-pair_swap_block}
use qurbrix_hwinfo.Parser.Edid.Widths.{parse_preferred_mode-bounds}
use qurbrix_hwinfo.Collect.Merge.{dedup_devices}
use qurbrix_hwinfo.Collect.Merge.Unique.{Increasing, dedup_devices-ids}
use qurbrix_hwinfo.Collect.Select.{Probe, selected_probes}
use qurbrix_hwinfo.Model.Report.{ScanReport}
use qurbrix_hwinfo.Cli.View.{filtered_report, inventory_scan_config}
use qurbrix_hwinfo.Cli.View.Shown.{filtered_report-shown, is_shown, ids}
use qurbrix_hwinfo.Cli.View.Complete.{probes_of, selected_probes-inventory_scan_config}
use qurbrix_hwinfo.Tests.Data.{cpu_device, sample_report}

from_str-inverse_example :
    (from_str (as_str DeviceKind.other_pci) ≡ ok DeviceKind.other_pci)
    × (from_str (codes "usb") ≡ ok DeviceKind.other_pci → as_str DeviceKind.other_pci ≡ codes "usb")
from_str-inverse_example = from_str-inverse (codes "usb") DeviceKind.other_pci

abbrev zeros : ℕ → List ℕ
zeros zero = []
zeros (suc n) = 0 ∷ zeros n

-- 128 bytes with a right checksum.
abbrev block : List ℕ
block = edid_header ++ (6 ∷ zeros 119)

header : text_eq (take 8 block) edid_header ≡ true
unfolding text_eq
header = refl

parse_edid-pair_swap_block_example : parse_edid (pair_swap_block block) ≡ parse_edid block
parse_edid-pair_swap_block_example = parse_edid-pair_swap_block block refl header

abbrev desc : List ℕ
desc = 1 ∷ 1 ∷ 128 ∷ 24 ∷ 113 ∷ 56 ∷ 45 ∷ 64 ∷ zeros 10

abbrev mode : PreferredMode
mode = record { width = 1920; height = 1080; refresh_hz = 1 }

parses : parse_preferred_mode desc ≡ some mode
unfolding parse_preferred_mode
parses = refl

small : All (λ b. b < 256) desc
small = ground arith

parse_preferred_mode-bounds_example :
    (0 < 1920)
    × (1920 < 4096)
    × (0 < 1080)
    × (1080 < 4096)
    × (mode.refresh_hz < 2 ^ 16)
    × (high_nibble (byte desc 2) (byte desc 4) + low_nibble (byte desc 3) (byte desc 4) < 2 ^ 16)
    × (high_nibble (byte desc 5) (byte desc 7) + low_nibble (byte desc 6) (byte desc 7) < 2 ^ 16)
parse_preferred_mode-bounds_example = parse_preferred_mode-bounds desc mode small parses

dedup_devices-ids_example :
    Increasing (dedup_devices (cpu_device ∷ cpu_device ∷ []))
    × (any (λ d. text_eq d.id (codes "cpu:0")) (dedup_devices (cpu_device ∷ cpu_device ∷ []))
        ≡ any (λ d. text_eq d.id (codes "cpu:0")) (cpu_device ∷ cpu_device ∷ []))
dedup_devices-ids_example = dedup_devices-ids (cpu_device ∷ cpu_device ∷ []) (codes "cpu:0")

abbrev report : ScanReport
report = record sample_report { devices = cpu_device ∷ [] }

filtered_report-shown_example :
    ((filtered_report report (DeviceKind.usb ∷ []) [] true true true).status ≡ report.status)
    × (ids (filtered_report report (DeviceKind.usb ∷ []) [] true true true).devices
        ≡ ids (retain (λ d. is_shown (DeviceKind.usb ∷ []) [] true d.kind) report.devices))
filtered_report-shown_example = filtered_report-shown report (DeviceKind.usb ∷ []) [] true true true

abbrev usb_probe : Probe
usb_probe = record { name = codes "usb"; kinds = DeviceKind.usb ∷ [] }

selected_probes-inventory_scan_config_example :
    probes_of (selected_probes (inventory_scan_config 5) (usb_probe ∷ [])) ≡ usb_probe ∷ []
selected_probes-inventory_scan_config_example =
    selected_probes-inventory_scan_config 5 (usb_probe ∷ [])
