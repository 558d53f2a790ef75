-- ===== src/Tests/Canonical.antt =====
-- The theorems on canonical reports at concrete inputs.
use mathlib.Core.List.Perm
use qurbrix_hwinfo.Common.{
  starts_with, ◌≡◌, ◌↔◌, refl, true, false, Bool, some, List, [], ◌∷◌, Text, codes, any, All, Perm,
}
use qurbrix_hwinfo.Model.Device.{Device}
use qurbrix_hwinfo.Model.Snapshot.{QuickProbeReport, CoreIdentityGroup, has_group, core_complete}
use qurbrix_hwinfo.Inventory.Error.{Result, ok, err}
use qurbrix_hwinfo.Inventory.Canonical.{normalize, escape}
use qurbrix_hwinfo.Inventory.Canonical.Digest.{canonicalize_devices, record_group}
use qurbrix_hwinfo.Inventory.Canonical.Order.{canonicalize_devices_of_perm}
use qurbrix_hwinfo.Inventory.Canonical.Coverage.{
  covered_iff_record, core_complete_iff_none_missing, mark,
}
use qurbrix_hwinfo.Inventory.Canonical.Values.{
  normalize_idem, unescape, unescape-escape, is_separator, escape-NoSeparator,
}
use qurbrix_hwinfo.Tests.Data.{codec, sample_probe, cpu_device}

abbrev second_cpu : Device
second_cpu = record cpu_device { id = codes "cpu:1"; vendor = some (codes "Other") }

canonicalize_devices_of_perm_example :
    canonicalize_devices codec (cpu_device ∷ second_cpu ∷ []) [] [] (codes "now")
    ≡ canonicalize_devices codec (second_cpu ∷ cpu_device ∷ []) [] [] (codes "now")
canonicalize_devices_of_perm_example =
    canonicalize_devices_of_perm codec (cpu_device ∷ second_cpu ∷ []) (second_cpu ∷ cpu_device ∷ [])
      [] [] (codes "now") (Perm.swap second_cpu cpu_device [])

abbrev value_of : Result QuickProbeReport → QuickProbeReport
value_of (ok r) = r
value_of (err _) = sample_probe

abbrev canonical_report : QuickProbeReport
canonical_report = value_of (canonicalize_devices codec (cpu_device ∷ []) [] [] (codes "now"))

canonical : canonicalize_devices codec (cpu_device ∷ []) [] [] (codes "now") ≡ ok canonical_report
unfolding canonicalize_devices qurbrix_hwinfo.Inventory.Canonical.Digest.digest
canonical = refl

-- The processor is covered.
cpu_covered : has_group canonical_report.coverage.covered CoreIdentityGroup.cpu ≡ true
unfolding canonicalize_devices qurbrix_hwinfo.Common.eq_ignore_ascii_case
    qurbrix_hwinfo.Common.dedup_from qurbrix_hwinfo.Common.insert_sorted
    qurbrix_hwinfo.Common.text_eq qurbrix_hwinfo.Common.text_leb qurbrix_hwinfo.Common.ascii_lower
    qurbrix_hwinfo.Common.before qurbrix_hwinfo.Common.is_whitespace qurbrix_hwinfo.Common.replace
    qurbrix_hwinfo.Common.to_ascii_lowercase qurbrix_hwinfo.Common.words_from
    qurbrix_hwinfo.Inventory.Canonical.Digest.group_of_kind record_group escape
    qurbrix_hwinfo.Inventory.Canonical.joined has_group
    qurbrix_hwinfo.Inventory.Canonical.Digest.digest
    qurbrix_hwinfo.Inventory.Canonical.Digest.covered_groups qurbrix_hwinfo.Common.dedup
    qurbrix_hwinfo.Common.sort qurbrix_hwinfo.Inventory.Canonical.normalize_records
    qurbrix_hwinfo.Inventory.Canonical.Digest.collect_all
    qurbrix_hwinfo.Inventory.Canonical.collect_device_records
    qurbrix_hwinfo.Inventory.Canonical.push_driver_configuration
    qurbrix_hwinfo.Inventory.Canonical.push_record qurbrix_hwinfo.Inventory.Canonical.record_of
    normalize qurbrix_hwinfo.Inventory.Canonical.collapse qurbrix_hwinfo.Common.join
    qurbrix_hwinfo.Common.split_whitespace qurbrix_hwinfo.Inventory.Canonical.is_placeholder
cpu_covered = refl

covered_iff_record_example :
    has_group canonical_report.coverage.covered CoreIdentityGroup.cpu
    ≡ any (starts_with (mark CoreIdentityGroup.cpu)) canonical_report.identity_records
covered_iff_record_example =
    covered_iff_record codec (cpu_device ∷ []) [] [] (codes "now") canonical_report canonical
      CoreIdentityGroup.cpu

core_complete_iff_none_missing_example :
    (core_complete canonical_report.coverage ≡ true) ↔ (canonical_report.coverage.missing ≡ [])
core_complete_iff_none_missing_example =
    core_complete_iff_none_missing codec (cpu_device ∷ []) [] [] (codes "now") canonical_report
      canonical

normalized : normalize (codes "  Intel   CPU ") ≡ some (codes "intel cpu")
unfolding normalize qurbrix_hwinfo.Inventory.Canonical.collapse qurbrix_hwinfo.Common.join
    qurbrix_hwinfo.Common.split_whitespace qurbrix_hwinfo.Inventory.Canonical.is_placeholder
    qurbrix_hwinfo.Common.eq_ignore_ascii_case
normalized = refl

normalize_idem_example : normalize (codes "intel cpu") ≡ some (codes "intel cpu")
normalize_idem_example = normalize_idem (codes "  Intel   CPU ") (codes "intel cpu") normalized

unescape-escape_example : unescape (escape (codes "a=b|c%")) ≡ codes "a=b|c%"
unescape-escape_example = unescape-escape (codes "a=b|c%")

escape-NoSeparator_example : All (λ d. is_separator d ≡ false) (escape (codes "a=b|c%"))
escape-NoSeparator_example = escape-NoSeparator (codes "a=b|c%")
