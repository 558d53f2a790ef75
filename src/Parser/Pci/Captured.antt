-- ===== src/Parser/Pci/Captured.antt =====
-- crates/hw-parser/src/pci.rs: the output of `lspci -nn -k`. What the regular expressions capture in a
-- line is an argument.
use qurbrix_hwinfo.Common.{
  Bool, false, ◌||◌, Option, none, some, List, [], ◌∷◌, ◌++◌, Text, codes, text_eq, trim,
  to_ascii_lowercase, eq_ignore_ascii_case, lines, each_line, count_char, find, and_then, or_option,
  if◌then◌else◌, leb,
}
use qurbrix_hwinfo.Parser.Util.{split_csv_words}
use qurbrix_hwinfo.Parser.Pci.{
  PciRecord, at_address, clean_lspci_value, PciScan, no_devices, changed,
}

-- The groups that the expressions capture.
pub record HeaderCaptures : Type 0 where
  pub addr : Text
  pub class : Text
  pub class_id : Text
  pub description : Text
  pub vendor_id : Text
  pub device_id : Text

pub record SubsystemCaptures : Type 0 where
  pub subsystem : Option Text
  pub sub_vendor : Option Text
  pub sub_device : Option Text

pub record Expressions : Type 0 where
  pub header : Text → Option HeaderCaptures
  pub subsystem : Text → Option SubsystemCaptures
  pub driver : Text → Option Text
  pub modules : Text → Option Text

unfoldable pub header_record : HeaderCaptures → PciRecord
unfolding trim to_ascii_lowercase count_char
header_record caps =
    record (at_address
      (if leb (count_char b':' caps.addr) 1 then codes "0000:" ++ caps.addr else caps.addr)) {
        class_name = some (trim caps.class);
        class_id = some (to_ascii_lowercase caps.class_id);
        device = some (trim caps.description);
        vendor_id = some (to_ascii_lowercase caps.vendor_id);
        device_id = some (to_ascii_lowercase caps.device_id);
      }

abbrev lower : Option Text → Option Text
lower none = none
lower (some t) = some (to_ascii_lowercase t)

unfoldable pub subsystem_fields : SubsystemCaptures → PciRecord → PciRecord
unfolding clean_lspci_value to_ascii_lowercase
subsystem_fields caps r = record r {
  subsystem = or_option (and_then caps.subsystem clean_lspci_value) r.subsystem;
  subsystem_vendor_id = or_option (lower caps.sub_vendor) r.subsystem_vendor_id;
  subsystem_device_id = or_option (lower caps.sub_device) r.subsystem_device_id;
}

abbrev listed : List PciRecord → Option PciRecord → List PciRecord
listed records none = records
listed records (some r) = records ++ r ∷ []

module _ (x : Expressions) where
  unfoldable pub detail_line : Text → PciRecord → PciRecord
  unfolding subsystem_fields split_csv_words trim
  detail_line line r = elim (x.subsystem line) [
    | some caps ↦ subsystem_fields caps r
    | none ↦ elim (x.driver line) [
      | some driver ↦ record r { kernel_driver = some (trim driver) }
      | none ↦ elim (x.modules line) [
        | some modules ↦ record r { kernel_modules = split_csv_words modules }
        | none ↦ r
      ]
    ]
  ]

  unfoldable pub nn_k_line : Text → PciScan → PciScan
  unfolding header_record detail_line
  nn_k_line line s = elim (x.header line) [
    | some caps ↦ record {
      records = listed s.records s.current;
      current = some (header_record caps);
    }
    | none ↦ record s { current = changed (detail_line line) s.current }
  ]

  unfoldable pub parse_lspci_nn_k : Text → List PciRecord
  unfolding nn_k_line lines
  parse_lspci_nn_k input =
      let s = each_line nn_k_line (lines input) no_devices in listed s.records s.current

  unfoldable pub is_isa_bridge : PciRecord → Bool
  unfolding text_eq eq_ignore_ascii_case
  is_isa_bridge r =
      elim r.class_id [ none ↦ false | some id ↦ text_eq id (codes "0601") ] || elim r.class_name [
        | none ↦ false
        | some name ↦ eq_ignore_ascii_case name (codes "ISA bridge")
      ]

  abbrev ids_text : Option Text → Option Text → Text
  ids_text (some vendor_id) (some device_id) =
      codes " [" ++ (vendor_id ++ (codes ":" ++ (device_id ++ codes "]")))
  ids_text _ _ = []

  unfoldable pub pci_subsystem_display : PciRecord → Option Text
  pci_subsystem_display r =
      and_then r.subsystem
        λ subsystem. some (subsystem ++ ids_text r.subsystem_vendor_id r.subsystem_device_id)

  unfoldable pub pci_description_display : PciRecord → Option Text
  pci_description_display r =
      and_then r.device λ description. some (description ++ ids_text r.vendor_id r.device_id)

  unfoldable pub parse_lspci_host_bridge_chipset : Text → Option Text
  unfolding parse_lspci_nn_k is_isa_bridge pci_subsystem_display pci_description_display text_eq
  parse_lspci_host_bridge_chipset input =
      or_option (and_then (find is_isa_bridge (parse_lspci_nn_k input)) pci_subsystem_display) (
        and_then
          (find
            (λ (r : PciRecord). elim r.class_id [
              | none ↦ false
              | some id ↦ text_eq id (codes "0600")
            ])
            (parse_lspci_nn_k input))
          pci_description_display)
