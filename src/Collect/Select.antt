-- ===== src/Collect/Select.antt =====
-- collector.rs: which probes a configuration selects. A probe is known by its name and its kinds.
use qurbrix_hwinfo.Common.{
  ℕ, suc, Bool, true, not, ◌&&◌, ◌||◌, Option, none, some, List, [], ◌∷◌, Text, codes, text_eq,
  if◌then◌else◌, any,
}
use qurbrix_hwinfo.Model.Kind.{DeviceKind, has_kind}
use qurbrix_hwinfo.Model.Report.{ScanConfig}

pub record Probe : Type 0 where
  pub name : Text
  pub kinds : List DeviceKind

-- The names that `is_optional_probe` matches.
abbrev pub optional_names : List Text
optional_names =
    codes "monitor"
    ∷ codes "audio"
    ∷ codes "bluetooth"
    ∷ codes "input"
    ∷ codes "camera"
    ∷ codes "battery"
    ∷ codes "printer"
    ∷ codes "cdrom"
    ∷ codes "usb"
    ∷ []

unfoldable pub is_optional_probe : Probe → Bool
is_optional_probe probe = any (text_eq probe.name) optional_names

-- `is_none_or(…)`.
abbrev pub is_wanted : Option (List DeviceKind) → Probe → Bool
is_wanted none probe = true
is_wanted (some kinds) probe = any (has_kind kinds) probe.kinds

-- The three filters.
unfoldable pub is_selected : ScanConfig → Probe → Bool
unfolding is_optional_probe
is_selected config probe =
    is_wanted config.kinds probe
    && not (any (has_kind config.exclude_kinds) probe.kinds)
    && (config.optional_sources || not (is_optional_probe probe))

-- The probes selected, each with its place among all probes.
unfoldable pub selected_from : ScanConfig → ℕ → List Probe → List (ℕ × Probe)
unfolding is_selected
selected_from config index [] = []
selected_from config index (p ∷ ps) =
    let rest = selected_from config (suc index) ps in
    if is_selected config p then (index, p) ∷ rest else rest

unfoldable pub selected_probes : ScanConfig → List Probe → List (ℕ × Probe)
unfolding selected_from
selected_probes config all_probes = selected_from config 0 all_probes
