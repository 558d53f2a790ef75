-- ===== src/Parser/Power.antt =====
-- crates/hw-parser/src/power.rs: the output of upower. The parser of an `f32` is an argument.
use qurbrix_hwinfo.Common.{
  Bool, true, false, Option, none, some, List, [], ◌∷◌, ◌++◌, Text, codes, text_eq, trim, lines,
  each_line, first, split_whitespace, split_once, strip_prefix, trim_end_matches, and_then,
  if◌then◌else◌,
}
use qurbrix_hwinfo.Model.Properties.Numbers.{F32}

pub record PowerRecord : Type 0 where
  pub device_path : Option Text
  pub native_path : Option Text
  pub power_supply : Option Bool
  pub vendor : Option Text
  pub model : Option Text
  pub serial : Option Text
  pub state : Option Text
  pub technology : Option Text
  pub capacity_percent : Option F32
  pub energy_full_wh : Option F32
  pub energy_design_wh : Option F32
  pub energy_now_wh : Option F32
  pub voltage_v : Option F32
  pub present : Option Bool

-- The derived `Default`, with a path.
abbrev pub at_path : Text → PowerRecord
at_path path = record {
  device_path = some path;
  native_path = none;
  power_supply = none;
  vendor = none;
  model = none;
  serial = none;
  state = none;
  technology = none;
  capacity_percent = none;
  energy_full_wh = none;
  energy_design_wh = none;
  energy_now_wh = none;
  voltage_v = none;
  present = none;
}

unfoldable pub parse_yes_no : Text → Option Bool
unfolding trim text_eq
parse_yes_no value =
    if text_eq (trim value) (codes "yes")
    then some true
    else if text_eq (trim value) (codes "no")
    then some false
    else none

pub record PowerScan : Type 0 where
  pub records : List PowerRecord
  pub current : Option PowerRecord

abbrev pub finished_power : List PowerRecord → Option PowerRecord → List PowerRecord
finished_power records none = records
finished_power records (some r) = records ++ r ∷ []

module _ (parse_f32 : Text → Option F32) where
  unfoldable pub parse_number : Text → Option F32
  unfolding split_whitespace trim_end_matches
  parse_number value =
      and_then (first (split_whitespace value))
        λ word. parse_f32 (trim_end_matches (codes "%") word)

  unfoldable pub power_field : Text → Text → PowerRecord → PowerRecord
  unfolding parse_number parse_yes_no text_eq
  power_field key value r =
      if text_eq key (codes "native-path")
      then record r { native_path = some value }
      else if text_eq key (codes "power supply")
      then record r { power_supply = parse_yes_no value }
      else if text_eq key (codes "vendor")
      then record r { vendor = some value }
      else if text_eq key (codes "model")
      then record r { model = some value }
      else if text_eq key (codes "serial")
      then record r { serial = some value }
      else if text_eq key (codes "present")
      then record r { present = some (text_eq value (codes "yes")) }
      else if text_eq key (codes "state")
      then record r { state = some value }
      else if text_eq key (codes "technology")
      then record r { technology = some value }
      else if text_eq key (codes "capacity")
      then record r { capacity_percent = parse_number value }
      else if text_eq key (codes "energy-full")
      then record r { energy_full_wh = parse_number value }
      else if text_eq key (codes "energy-full-design")
      then record r { energy_design_wh = parse_number value }
      else if text_eq key (codes "energy")
      then record r { energy_now_wh = parse_number value }
      else if text_eq key (codes "voltage")
      then record r { voltage_v = parse_number value }
      else r

  unfoldable pub power_pair : Option (Text × Text) → Option PowerRecord → Option PowerRecord
  unfolding power_field trim
  power_pair pair none = none
  power_pair none (some r) = some r
  power_pair (some (key, value)) (some r) = some (power_field (trim key) (trim value) r)

  unfoldable pub power_line : Text → PowerScan → PowerScan
  unfolding power_pair strip_prefix split_once trim
  power_line line s = elim (strip_prefix (codes "Device: ") line) [
    | some path ↦ record {
      records = finished_power s.records s.current;
      current = some (at_path path);
    }
    | none ↦ record s { current = power_pair (split_once (codes ":") (trim line)) s.current }
  ]

  unfoldable pub parse_upower_dump : Text → List PowerRecord
  unfolding power_line lines
  parse_upower_dump input =
      let s = each_line power_line (lines input) (record { records = []; current = none }) in
      finished_power s.records s.current
