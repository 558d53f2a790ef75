-- ===== src/Tests/Bindings.antt =====
-- The id of a machine at concrete inputs.
use qurbrix_hwinfo.Common.{
  ◌≡◌, refl, not, false, none, some, List, [], ◌∷◌, Text, codes, all, is_empty, is_none, ◌≢◌, All,
}
use mathlib.Core.List.Perm
use qurbrix_hwinfo.Model.Report.{ScanReport}
use qurbrix_hwinfo.BindId.Key.{
  normalize_value, normalize_mac, is_placeholder_value, escape_value, component_key,
}
use qurbrix_hwinfo.BindId.Summary.{from_parts, from_scan_report, required_kinds}
use qurbrix_hwinfo.BindId.Escape.{escape_value-injective, escape_value-plain}
use qurbrix_hwinfo.BindId.Values.{normalize_value-fixed}
use qurbrix_hwinfo.BindId.Stable.{from_parts-stable, from_scan_report-stable}
use qurbrix_hwinfo.BindId.Complete.{from_parts_complete, has_key}
use qurbrix_hwinfo.Tests.Data.{cpu_device, sample_report}

abbrev identity : Text → Text
identity t = t

abbrev sample_keys : List Text
sample_keys =
    codes "system:manufacturer=Acme"
    ∷ codes "motherboard:serial=1"
    ∷ codes "memory:serial=2"
    ∷ codes "storage:serial=3"
    ∷ codes "network:mac=00:11:22:33:44:55"
    ∷ []

bound : is_none (from_parts identity sample_keys []).value ≡ false
unfolding from_parts
bound = refl

from_parts_complete_example :
    is_none (from_parts identity sample_keys []).value
    ≡ not (all (has_key sample_keys) required_kinds)
from_parts_complete_example = from_parts_complete identity sample_keys []

-- The first two keys in the other order.
abbrev other_keys : List Text
other_keys =
    codes "motherboard:serial=1"
    ∷ codes "system:manufacturer=Acme"
    ∷ codes "memory:serial=2"
    ∷ codes "storage:serial=3"
    ∷ codes "network:mac=00:11:22:33:44:55"
    ∷ []

from_parts-stable_example : from_parts identity sample_keys [] ≡ from_parts identity other_keys []
from_parts-stable_example = from_parts-stable identity sample_keys other_keys [] (Perm.swap _ _ _)

abbrev two : ScanReport
two = record sample_report { devices = cpu_device ∷ record cpu_device { id = codes "cpu:1" } ∷ [] }

from_scan_report-stable_example :
    from_scan_report identity
      (record two { devices = record cpu_device { id = codes "cpu:1" } ∷ cpu_device ∷ [] })
    ≡ from_scan_report identity two
from_scan_report-stable_example =
    from_scan_report-stable identity two
      (record cpu_device { id = codes "cpu:1" } ∷ cpu_device ∷ []) (Perm.swap _ _ _)

spaced : normalize_value (codes " A  b ") ≡ some (codes "A b")
unfolding normalize_value
spaced = refl

normalize_value-fixed_example :
    (is_empty (codes "A b") ≡ false)
    × (is_placeholder_value (codes "A b") ≡ false)
    × (normalize_value (codes "A b") ≡ some (codes "A b"))
normalize_value-fixed_example = normalize_value-fixed (codes " A  b ") (codes "A b") spaced

card : normalize_mac (codes " AA:bb:00:11:22:33") ≡ some (codes "aa:bb:00:11:22:33")
unfolding normalize_mac
card = refl

unnamed : component_key (codes "storage") ((codes "serial", some (codes "n/A")) ∷ []) ≡ none
unfolding component_key
unnamed = refl

printed :
    component_key
      (codes "storage")
      ((codes "serial", some (codes "a|b")) ∷ (codes "model", some (codes "x=y")) ∷ [])
    ≡ some (codes "storage:model=x%3Dy|serial=a%7Cb")
unfolding component_key
printed = refl

escape_value-injective_example : codes "a=b" ≡ codes "a=b"
escape_value-injective_example = escape_value-injective (codes "a=b") (codes "a=b") refl

escape_value-plain_example : All (λ c. (c ≢ b'|') × (c ≢ b'=')) (escape_value (codes "a=b"))
escape_value-plain_example = escape_value-plain (codes "a=b")
