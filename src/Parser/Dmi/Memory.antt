-- ===== src/Parser/Dmi/Memory.antt =====
-- crates/hw-parser/src/dmi.rs: the memory devices of dmidecode. The upper case
-- of a text is Unicode's, and an argument.
pub mod Devices
use qurbrix_hwinfo.Common.{
  Bool, false, not, ◌&&◌, ◌||◌, Option, none, some, List, [], ◌∷◌, ◌++◌, Text, codes, text_eq, trim,
  is_some, split_once, lines, each_line, or_option, if◌then◌else◌,
}
use qurbrix_hwinfo.Parser.Dmi.{DmiMemoryRecord, memory_record_default}
use qurbrix_hwinfo.Parser.Dmi.Clean.{
  clean_memory_value, clean_memory_serial, clean_memory_size, clean_memory_type,
}

unfoldable pub memory_record_has_data : DmiMemoryRecord → Bool
memory_record_has_data record_of =
    is_some record_of.name
    || is_some record_of.size
    || is_some record_of.locator
    || is_some record_of.manufacturer
    || is_some record_of.serial
    || is_some record_of.part_number
    || is_some record_of.memory_type
    || is_some record_of.speed
    || is_some record_of.configured_speed
    || is_some record_of.total_width
    || is_some record_of.data_width
    || is_some record_of.minimum_voltage
    || is_some record_of.maximum_voltage
    || is_some record_of.configured_voltage
    || is_some record_of.error_information_handle
    || is_some record_of.form_factor
    || is_some record_of.set
    || is_some record_of.bank_locator
    || is_some record_of.type_detail
    || is_some record_of.asset_tag
    || is_some record_of.rank
    || is_some record_of.module_manufacturer_id
    || is_some record_of.module_product_id
    || is_some record_of.memory_subsystem_controller_manufacturer_id
    || is_some record_of.memory_subsystem_controller_product_id
    || is_some record_of.memory_technology
    || is_some record_of.memory_operating_mode_capability
    || is_some record_of.firmware_version
    || is_some record_of.non_volatile_size
    || is_some record_of.volatile_size
    || is_some record_of.cache_size
    || is_some record_of.logical_size

abbrev pub is_value : Option Text → Text → Bool
is_value none t = false
is_value (some v) t = text_eq v t

-- A record is listed when it has data and a module is installed.
unfoldable pub is_listed : DmiMemoryRecord → Bool
unfolding memory_record_has_data text_eq
is_listed r = memory_record_has_data r && not (is_value r.size (codes "No Module Installed"))

unfoldable pub push_memory_record :
    List DmiMemoryRecord → Option DmiMemoryRecord → List DmiMemoryRecord
unfolding is_listed
push_memory_record records none = records
push_memory_record records (some r) = if is_listed r then records ++ r ∷ [] else records

abbrev pub uppercased : (Text → Text) → Option Text → Option Text
uppercased to_uppercase none = none
uppercased to_uppercase (some v) = some (to_uppercase v)

-- The loops' variables.
pub record MemoryScan : Type 0 where
  pub records : List DmiMemoryRecord
  pub current : Option DmiMemoryRecord

abbrev pub no_memory : MemoryScan
no_memory = record { records = []; current = none }

-- The record that is being filled, with a change.
abbrev pub change :
    (DmiMemoryRecord → DmiMemoryRecord) → Option DmiMemoryRecord → Option DmiMemoryRecord
change f none = none
change f (some r) = some (f r)

-- `if let Some((key, value))`.
abbrev pub with_pair :
    Option (Text × Text)
    → (Text → Text → DmiMemoryRecord → DmiMemoryRecord)
    → DmiMemoryRecord
    → DmiMemoryRecord
with_pair none f r = r
with_pair (some (key, value)) f r = f key value r

module _ (to_uppercase : Text → Text) where
  unfoldable pub dmidecode_memory_field : Text → Text → DmiMemoryRecord → DmiMemoryRecord
  unfolding clean_memory_value clean_memory_serial clean_memory_size clean_memory_type text_eq
  dmidecode_memory_field key value r =
      if text_eq key (codes "Size")
      then record r { size = clean_memory_size value }
      else if text_eq key (codes "Locator")
      then record r { locator = clean_memory_value value }
      else if text_eq key (codes "Bank Locator")
      then record r {
        bank_locator = clean_memory_value value;
        locator = or_option r.locator (clean_memory_value value);
      }
      else if text_eq key (codes "Manufacturer")
      then record r { manufacturer = clean_memory_value value }
      else if text_eq key (codes "Manufacturer ID")
      then record r {
        module_manufacturer_id = or_option r.module_manufacturer_id (clean_memory_value value);
        manufacturer =
            or_option r.manufacturer (uppercased to_uppercase (clean_memory_value value));
      }
      else if text_eq key (codes "Serial Number")
      then record r { serial = clean_memory_serial value }
      else if text_eq key (codes "Part Number")
      then record r { part_number = clean_memory_value value }
      else if text_eq key (codes "Type")
      then record r { memory_type = clean_memory_type value }
      else if text_eq key (codes "Speed")
      then record r { speed = clean_memory_value value }
      else if text_eq key (codes "Configured Memory Speed")
      then record r {
        configured_speed = clean_memory_value value;
        speed = or_option r.speed (clean_memory_value value);
      }
      else if text_eq key (codes "Total Width")
      then record r { total_width = clean_memory_value value }
      else if text_eq key (codes "Data Width")
      then record r { data_width = clean_memory_value value }
      else if text_eq key (codes "Minimum Voltage")
      then record r { minimum_voltage = clean_memory_value value }
      else if text_eq key (codes "Maximum Voltage")
      then record r { maximum_voltage = clean_memory_value value }
      else if text_eq key (codes "Configured Voltage")
      then record r { configured_voltage = clean_memory_value value }
      else if text_eq key (codes "Error Information Handle")
      then record r { error_information_handle = clean_memory_value value }
      else if text_eq key (codes "Form Factor")
      then record r { form_factor = clean_memory_value value }
      else if text_eq key (codes "Set")
      then record r { set = clean_memory_value value }
      else if text_eq key (codes "Type Detail")
      then record r { type_detail = clean_memory_value value }
      else if text_eq key (codes "Asset Tag")
      then record r { asset_tag = clean_memory_value value }
      else if text_eq key (codes "Rank")
      then record r { rank = clean_memory_value value }
      else if text_eq key (codes "Module Manufacturer ID")
      then record r {
        module_manufacturer_id = clean_memory_value value;
        manufacturer =
            or_option r.manufacturer (uppercased to_uppercase (clean_memory_value value));
      }
      else if text_eq key (codes "Module Product ID")
      then record r { module_product_id = clean_memory_value value }
      else if text_eq key (codes "Memory Subsystem Controller Manufacturer ID")
      then record r { memory_subsystem_controller_manufacturer_id = clean_memory_value value }
      else if text_eq key (codes "Memory Subsystem Controller Product ID")
      then record r { memory_subsystem_controller_product_id = clean_memory_value value }
      else if text_eq key (codes "Memory Technology")
      then record r { memory_technology = clean_memory_value value }
      else if text_eq key (codes "Memory Operating Mode Capability")
      then record r { memory_operating_mode_capability = clean_memory_value value }
      else if text_eq key (codes "Firmware Version")
      then record r { firmware_version = clean_memory_value value }
      else if text_eq key (codes "Non-Volatile Size")
      then record r { non_volatile_size = clean_memory_value value }
      else if text_eq key (codes "Volatile Size")
      then record r { volatile_size = clean_memory_value value }
      else if text_eq key (codes "Cache Size")
      then record r { cache_size = clean_memory_value value }
      else if text_eq key (codes "Logical Size")
      then record r { logical_size = clean_memory_value value }
      else r

  unfoldable pub dmidecode_memory_line : Text → MemoryScan → MemoryScan
  unfolding push_memory_record dmidecode_memory_field trim split_once text_eq
  dmidecode_memory_line line s =
      if text_eq (trim line) (codes "Memory Device")
      then record {
        records = push_memory_record s.records s.current;
        current = some memory_record_default;
      }
      else record s {
        current =
            change
              (with_pair (split_once (codes ":") (trim line))
                (λ key value. dmidecode_memory_field key (trim value)))
              s.current;
      }

  unfoldable pub parse_dmidecode_memory : Text → List DmiMemoryRecord
  unfolding dmidecode_memory_line push_memory_record lines
  parse_dmidecode_memory input =
      let s = each_line dmidecode_memory_line (lines input ++ [] ∷ []) no_memory in
      push_memory_record s.records s.current
