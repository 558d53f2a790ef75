-- ===== src/Cli/View/Complete.antt =====
-- The filters of a view do not narrow what is collected.
use qurbrix_hwinfo.Common.{ℕ, suc, ◌≡◌, refl, true, false, List, [], ◌∷◌, any, arith}
use qurbrix_hwinfo.Model.Kind.{DeviceKind, has_kind}
use qurbrix_hwinfo.Collect.Select.{Probe, is_selected, selected_from, selected_probes}
use qurbrix_hwinfo.Cli.View.{inventory_scan_config}

none_excluded : (kinds : List DeviceKind) → any (has_kind []) kinds ≡ false
unfolding has_kind
none_excluded [] = refl
none_excluded (k ∷ ks) = none_excluded ks

is_selected-inventory_scan_config :
    (timeout : ℕ) (p : Probe) → is_selected (inventory_scan_config timeout) p ≡ true
unfolding is_selected
is_selected-inventory_scan_config timeout p = ground (arith, none_excluded p.kinds)

abbrev pub probes_of : List (ℕ × Probe) → List Probe
probes_of [] = []
probes_of (x ∷ xs) = x.1 ∷ probes_of xs

selected_from-all :
    (timeout index : ℕ) (ps : List Probe)
    → probes_of (selected_from (inventory_scan_config timeout) index ps) ≡ ps
unfolding selected_from
selected_from-all timeout index [] = refl
selected_from-all timeout index (p ∷ ps) =
    ground
      (arith, is_selected-inventory_scan_config timeout p, selected_from-all timeout (suc index) ps)

-- The configuration of an inventory scan selects all probes, in their order, whatever the timeout.
pub selected_probes-inventory_scan_config :
    (timeout : ℕ) (ps : List Probe)
    → probes_of (selected_probes (inventory_scan_config timeout) ps) ≡ ps
unfolding selected_probes
selected_probes-inventory_scan_config timeout ps = selected_from-all timeout 0 ps
