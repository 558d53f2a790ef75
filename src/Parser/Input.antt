-- ===== src/Parser/Input.antt =====
-- crates/hw-parser/src/input.rs: /proc/bus/input/devices. What the regular expression captures is an
-- argument.
pub mod Hwinfo
use qurbrix_hwinfo.Common.{
  Bool, true, false, Option, none, some, List, [], ◌∷◌, ◌++◌, Text, codes, text_eq, trim, is_empty,
  trim_matches, to_ascii_lowercase, lines, each_line, split_whitespace, split_once, strip_prefix,
  if◌then◌else◌, ◌==◌,
}

pub record InputCapabilities : Type 0 where
  pub ev : Option Text
  pub key : Option Text
  pub rel : Option Text
  pub abs : Option Text
  pub properties : Option Text

pub record InputRecord : Type 0 where
  pub bus : Option Text
  pub vendor_id : Option Text
  pub product_id : Option Text
  pub version : Option Text
  pub name : Option Text
  pub phys : Option Text
  pub uniq : Option Text
  pub handlers : List Text
  pub capabilities : InputCapabilities

abbrev pub input_default : InputRecord
input_default = record {
  bus = none;
  vendor_id = none;
  product_id = none;
  version = none;
  name = none;
  phys = none;
  uniq = none;
  handlers = [];
  capabilities = record { ev = none; key = none; rel = none; abs = none; properties = none };
}

-- The groups of the expression.
pub record IdCaptures : Type 0 where
  pub bus : Text
  pub vendor : Text
  pub product : Text
  pub version : Text

abbrev identified : Option IdCaptures → InputRecord → InputRecord
unfolding to_ascii_lowercase
identified none r = r
identified (some caps) r = record r {
  bus = some caps.bus;
  vendor_id = some (to_ascii_lowercase caps.vendor);
  product_id = some (to_ascii_lowercase caps.product);
  version = some caps.version;
}

unfoldable pub input_capability : Option (Text × Text) → InputCapabilities → InputCapabilities
unfolding text_eq trim
input_capability none c = c
input_capability (some (name, value)) c =
    if text_eq name (codes "EV")
    then record c { ev = some (trim value) }
    else if text_eq name (codes "KEY")
    then record c { key = some (trim value) }
    else if text_eq name (codes "REL")
    then record c { rel = some (trim value) }
    else if text_eq name (codes "ABS")
    then record c { abs = some (trim value) }
    else if text_eq name (codes "PROP")
    then record c { properties = some (trim value) }
    else c

-- The variables of the loop.
pub record InputScan : Type 0 where
  pub records : List InputRecord
  pub current : InputRecord
  pub seen : Bool

module _ (id_re : Text → Option IdCaptures) where
  unfoldable pub input_field : Text → InputRecord → InputRecord
  unfolding identified input_capability strip_prefix trim_matches split_whitespace split_once
  input_field line r = elim (strip_prefix (codes "I: ") line) [
    | some rest ↦ identified (id_re rest) r
    | none ↦ elim (strip_prefix (codes "N: Name=") line) [
      | some rest ↦ record r { name = some (trim_matches (λ ch. ch == b'"') rest) }
      | none ↦ elim (strip_prefix (codes "P: Phys=") line) [
        | some rest ↦ record r { phys = some rest }
        | none ↦ elim (strip_prefix (codes "U: Uniq=") line) [
          | some rest ↦ record r { uniq = if is_empty rest then none else some rest }
          | none ↦ elim (strip_prefix (codes "H: Handlers=") line) [
            | some rest ↦ record r { handlers = split_whitespace rest }
            | none ↦ elim (strip_prefix (codes "B: ") line) [
              | some rest ↦ record r {
                capabilities = input_capability (split_once (codes "=") rest) r.capabilities;
              }
              | none ↦ r
            ]
          ]
        ]
      ]
    ]
  ]

  unfoldable pub input_line : Text → InputScan → InputScan
  unfolding input_field trim
  input_line line s =
      if is_empty (trim line)
      then if s.seen
        then record { records = s.records ++ s.current ∷ []; current = input_default; seen = false }
        else s
      else record s { current = input_field line s.current; seen = true }

  unfoldable pub parse_proc_bus_input_devices : Text → List InputRecord
  unfolding input_line lines
  parse_proc_bus_input_devices input =
      let s =
        each_line input_line (lines input ++ [] ∷ [])
          (record { records = []; current = input_default; seen = false }) in
      s.records
