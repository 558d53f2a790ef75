-- ===== src/Parser/Pci.antt =====
-- crates/hw-parser/src/pci.rs: the output of `lspci -vmm -nn -k`.
pub mod Slots
pub mod Captured
use qurbrix_hwinfo.Common.{
  ℕ, Bool, true, false, not, ◌&&◌, ◌||◌, Option, none, some, List, [], ◌∷◌, ◌++◌, Text, codes,
  text_eq, trim, is_empty, length, all, is_ascii_hexdigit, to_ascii_lowercase, eq_ignore_ascii_case,
  lines, each_line, split_once, rsplit_once, strip_suffix, count_char, find, and_then, or_option,
  if◌then◌else◌, ◌==◌, leb, ltb,
}
use qurbrix_hwinfo.Parser.Util.{split_csv_words}

pub record PciRecord : Type 0 where
  pub address : Text
  pub class_name : Option Text
  pub class_id : Option Text
  pub vendor : Option Text
  pub vendor_id : Option Text
  pub device : Option Text
  pub device_id : Option Text
  pub subsystem : Option Text
  pub subsystem_vendor_id : Option Text
  pub subsystem_device_id : Option Text
  pub kernel_driver : Option Text
  pub kernel_modules : List Text

-- The derived `Default`, with an address.
abbrev pub at_address : Text → PciRecord
at_address address = record {
  address = address;
  class_name = none;
  class_id = none;
  vendor = none;
  vendor_id = none;
  device = none;
  device_id = none;
  subsystem = none;
  subsystem_vendor_id = none;
  subsystem_device_id = none;
  kernel_driver = none;
  kernel_modules = [];
}

unfoldable pub normalize_pci_address : Text → Text
unfolding count_char
normalize_pci_address value =
    if leb 2 (count_char b':' value) then value else codes "0000:" ++ value

unfoldable pub clean_lspci_value : Text → Option Text
unfolding trim
clean_lspci_value value = if is_empty (trim value) then none else some (trim value)

-- The parts around the last ` [`, when the second is four hexadecimal digits and a bracket.
unfoldable pub name_and_id : Text → Option (Text × Text)
unfolding rsplit_once strip_suffix is_ascii_hexdigit
name_and_id value = and_then (rsplit_once (codes " [") value) λ pair.
    and_then (strip_suffix (codes "]") pair.1)
      λ id. if (length id == 4) && all is_ascii_hexdigit id then some (pair.0, id) else none

unfoldable pub split_lspci_name_and_id : Text → Option Text × Option Text
unfolding name_and_id clean_lspci_value to_ascii_lowercase
split_lspci_name_and_id value = elim (name_and_id value) [
  | none ↦ (clean_lspci_value value, none)
  | some pair ↦ (clean_lspci_value pair.0, some (to_ascii_lowercase pair.1))
]

abbrev pushed : List Text → Option Text → List Text
pushed modules none = modules
pushed modules (some m) = modules ++ m ∷ []

unfoldable pub vmm_field : Text → Text → PciRecord → PciRecord
unfolding split_lspci_name_and_id clean_lspci_value text_eq
vmm_field tag value r =
    let pair = split_lspci_name_and_id value in
    if text_eq tag (codes "Class")
    then record r { class_name = pair.0; class_id = pair.1 }
    else if text_eq tag (codes "Vendor")
    then record r { vendor = pair.0; vendor_id = pair.1 }
    else if text_eq tag (codes "Device")
    then record r { device = pair.0; device_id = pair.1 }
    else if text_eq tag (codes "SVendor")
    then record r { subsystem_vendor_id = pair.1 }
    else if text_eq tag (codes "SDevice")
    then record r { subsystem = pair.0; subsystem_device_id = pair.1 }
    else if text_eq tag (codes "Driver")
    then record r { kernel_driver = clean_lspci_value value }
    else if text_eq tag (codes "Module")
    then record r { kernel_modules = pushed r.kernel_modules (clean_lspci_value value) }
    else r

-- The loops' variables.
pub record PciScan : Type 0 where
  pub records : List PciRecord
  pub current : Option PciRecord

abbrev pub no_devices : PciScan
no_devices = record { records = []; current = none }

-- `current.take()`, listed when it has an address.
unfoldable pub flush : List PciRecord → Option PciRecord → List PciRecord
flush records none = records
flush records (some r) = if is_empty r.address then records else records ++ r ∷ []

abbrev pub changed : (PciRecord → PciRecord) → Option PciRecord → Option PciRecord
changed f none = none
changed f (some r) = some (f r)

unfoldable pub vmm_pair : Option (Text × Text) → PciScan → PciScan
unfolding flush vmm_field normalize_pci_address trim text_eq
vmm_pair none s = s
vmm_pair (some (tag, value)) s =
    if text_eq tag (codes "Slot")
    then record {
      records = flush s.records s.current;
      current = some (at_address (normalize_pci_address (trim value)));
    }
    else record s { current = changed (vmm_field tag (trim value)) s.current }

unfoldable pub vmm_line : Text → PciScan → PciScan
unfolding flush vmm_pair trim split_once
vmm_line line s =
    if is_empty (trim line)
    then record { records = flush s.records s.current; current = none }
    else vmm_pair (split_once (codes ":") (trim line)) s

unfoldable pub parse_lspci_vmm_nn_k : Text → List PciRecord
unfolding vmm_line lines
parse_lspci_vmm_nn_k input = (each_line vmm_line (lines input ++ [] ∷ []) no_devices).records
