-- ===== src/Collect/Merge.antt =====
-- merge.rs and status.rs. A `BTreeMap` from ids is the list of its devices in the order of their ids.
pub mod Unique
use qurbrix_hwinfo.Common.{
  ℕ, zero, suc, Bool, true, false, not, ◌&&◌, List, [], ◌∷◌, ◌++◌, Text, text_eq, text_leb,
  if◌then◌else◌, any,
}
use qurbrix_hwinfo.Model.Evidence.{ScanWarning}
use qurbrix_hwinfo.Model.Device.{Device}
use qurbrix_hwinfo.Model.Report.{ScanStatus}

-- The capabilities that the first device does not have yet, pushed one by one.
unfoldable pub add_capabilities : List Text → List Text → List Text
add_capabilities old [] = old
add_capabilities old (c ∷ cs) =
    if any (text_eq c) old then add_capabilities old cs else add_capabilities (old ++ c ∷ []) cs

-- `and_modify`.
unfoldable pub absorb : Device → Device → Device
unfolding add_capabilities
absorb old new = record old {
  sources = old.sources ++ new.sources;
  warnings = old.warnings ++ new.warnings;
  capabilities = add_capabilities old.capabilities new.capabilities;
}

-- `entry(…).and_modify(…).or_insert(…)`.
unfoldable pub enter : Device → List Device → List Device
unfolding absorb
enter d [] = d ∷ []
enter d (x ∷ xs) =
    let rest = enter d xs in
    if text_eq d.id x.id
    then absorb x d ∷ xs
    else if text_leb d.id x.id
    then d ∷ x ∷ xs
    else x ∷ rest

unfoldable pub enter_all : List Device → List Device → List Device
unfolding enter
enter_all [] by_id = by_id
enter_all (d ∷ ds) by_id = enter_all ds (enter d by_id)

unfoldable pub dedup_devices : List Device → List Device
unfolding enter_all
dedup_devices devices = enter_all devices []

unfoldable pub status_from_warnings : List ScanWarning → ℕ → ScanStatus
status_from_warnings warnings zero = ScanStatus.failed
status_from_warnings [] (suc _) = ScanStatus.complete
status_from_warnings (_ ∷ _) (suc _) = ScanStatus.partial
