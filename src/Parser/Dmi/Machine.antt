-- ===== src/Parser/Dmi/Machine.antt =====
-- crates/hw-parser/src/dmi.rs: the system section of dmidecode, and the strings of the vendor.
use qurbrix_hwinfo.Common.{
  Bool, true, false, not, ◌&&◌, Option, none, some, List, [], ◌∷◌, ◌++◌, Text, codes, text_eq, trim,
  trim_start, is_empty, eq_ignore_ascii_case, contains_text, starts_with, starts_with_char,
  is_whitespace, strip_prefix, split_once, lines, each_line, if◌then◌else◌,
}
use qurbrix_hwinfo.Parser.Dmi.{DmiSystemRecord, system_record_default}
use qurbrix_hwinfo.Parser.Dmi.Clean.{clean_dmi_value, clean_dmi_identity_value}

unfoldable pub system_field : Text → Text → DmiSystemRecord → DmiSystemRecord
unfolding clean_dmi_value clean_dmi_identity_value text_eq
system_field key value r =
    if text_eq key (codes "Manufacturer")
    then record r { manufacturer = clean_dmi_identity_value value }
    else if text_eq key (codes "Product Name")
    then record r { product_name = clean_dmi_identity_value value }
    else if text_eq key (codes "Version")
    then record r { version = clean_dmi_identity_value value }
    else if text_eq key (codes "Serial Number")
    then record r { serial = clean_dmi_identity_value value }
    else if text_eq key (codes "UUID")
    then record r { uuid = clean_dmi_identity_value value }
    else if text_eq key (codes "Wake-up Type")
    then record r { wake_up_type = clean_dmi_value value }
    else if text_eq key (codes "SKU Number")
    then record r { sku_number = clean_dmi_identity_value value }
    else if text_eq key (codes "Family")
    then record r { family = clean_dmi_identity_value value }
    else r

pub record SystemScan : Type 0 where
  pub found : DmiSystemRecord
  pub in_system : Bool

-- A line behind the test for the section's end.
unfoldable pub system_pair : Option (Text × Text) → SystemScan → SystemScan
unfolding system_field trim
system_pair none s = s
system_pair (some (key, value)) s = record s { found = system_field (trim key) value s.found }

unfoldable pub system_line : Text → SystemScan → SystemScan
unfolding system_pair is_whitespace trim contains_text split_once text_eq
system_line line s =
    let text = trim line in
    let stays =
      s.in_system
      && not (
          not (starts_with_char is_whitespace line)
          && not (is_empty text)
          && not (contains_text (codes ":") text)) in
    if text_eq text (codes "System Information")
    then record s { in_system = true }
    else if stays
    then system_pair (split_once (codes ":") text) s
    else record s { in_system = false }

unfoldable pub parse_dmidecode_system : Text → DmiSystemRecord
unfolding system_line lines
parse_dmidecode_system input =
    (each_line system_line (lines input)
      (record { found = system_record_default; in_system = false })).found

pub record OemScan : Type 0 where
  pub strings : List Text
  pub in_section : Bool

-- The value of a numbered string.
unfoldable pub oem_value : Text → Option Text
unfolding strip_prefix split_once trim trim_start eq_ignore_ascii_case
oem_value line = elim (strip_prefix (codes "String ") (trim_start line)) [
  | none ↦ none
  | some rest ↦ elim (split_once (codes ":") rest) [
    | none ↦ none
    | some pair ↦
        if not (is_empty (trim pair.1))
          && not (eq_ignore_ascii_case (trim pair.1) (codes "Not Specified"))
        then some (trim pair.1)
        else none
  ]
]

unfoldable pub oem_line : Text → OemScan → OemScan
unfolding oem_value starts_with contains_text
oem_line line s =
    if starts_with (codes "Handle ") line
    then record s { in_section = contains_text (codes "DMI type 11") line }
    else if s.in_section
    then elim (oem_value line) [
      | none ↦ s
      | some value ↦ record s { strings = s.strings ++ value ∷ [] }
    ]
    else s

unfoldable pub parse_dmi_oem_strings : Text → List Text
unfolding oem_line lines
parse_dmi_oem_strings input =
    (each_line oem_line (lines input) (record { strings = []; in_section = false })).strings
