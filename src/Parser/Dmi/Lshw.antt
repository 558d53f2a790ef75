-- ===== src/Parser/Dmi/Lshw.antt =====
-- crates/hw-parser/src/dmi.rs: the memory banks of lshw, and the modules of decode-dimms.
pub mod Banks
use qurbrix_hwinfo.Common.{
  Bool, true, false, ◌||◌, Option, none, some, List, [], ◌∷◌, ◌++◌, Text, codes, text_eq, trim,
  is_empty, starts_with, strip_prefix, split_once, lines, each_line, or_option, if◌then◌else◌,
}
use qurbrix_hwinfo.Parser.Dmi.{DmiMemoryRecord, memory_record_default}
use qurbrix_hwinfo.Parser.Dmi.Clean.{
  clean_memory_value, decode_dimms_value, lshw_memory_type, lshw_memory_form_factor,
  lshw_clock_speed,
}
use qurbrix_hwinfo.Parser.Dmi.Memory.{push_memory_record, MemoryScan, no_memory, change, with_pair}

unfoldable pub lshw_description : Text → DmiMemoryRecord → DmiMemoryRecord
unfolding clean_memory_value lshw_memory_form_factor lshw_memory_type lshw_clock_speed
lshw_description value r = record r {
  name = or_option r.name (clean_memory_value value);
  form_factor = or_option r.form_factor (lshw_memory_form_factor value);
  memory_type = lshw_memory_type value;
  speed = or_option r.speed (lshw_clock_speed value);
}

unfoldable pub lshw_memory_field : Text → Text → DmiMemoryRecord → DmiMemoryRecord
unfolding lshw_description clean_memory_value lshw_clock_speed text_eq
lshw_memory_field key value r =
    if text_eq key (codes "description")
    then lshw_description value r
    else if text_eq key (codes "product")
    then record r { part_number = clean_memory_value value; name = clean_memory_value value }
    else if text_eq key (codes "vendor")
    then record r { manufacturer = clean_memory_value value }
    else if text_eq key (codes "serial")
    then record r { serial = clean_memory_value value }
    else if text_eq key (codes "slot")
    then record r { locator = clean_memory_value value }
    else if text_eq key (codes "size")
    then record r { size = clean_memory_value value }
    else if text_eq key (codes "clock")
    then record r { speed = lshw_clock_speed value }
    else if text_eq key (codes "width")
    then record r { total_width = clean_memory_value value; data_width = clean_memory_value value }
    else r

pub record LshwScan : Type 0 where
  pub scan : MemoryScan
  pub current_is_bank : Bool

-- A new node: the bank before it is listed.
unfoldable pub open_node : Bool → LshwScan → LshwScan
unfolding push_memory_record
open_node is_bank s = record {
  scan = record {
    records =
        if s.current_is_bank
        then push_memory_record s.scan.records s.scan.current
        else s.scan.records;
    current = some memory_record_default;
  };
  current_is_bank = is_bank;
}

unfoldable pub lshw_memory_line : Text → LshwScan → LshwScan
unfolding open_node lshw_memory_field trim starts_with split_once
lshw_memory_line line s =
    if starts_with (codes "*-memory") (trim line)
    then open_node false s
    else if starts_with (codes "*-bank") (trim line)
    then open_node true s
    else record s {
      scan = record s.scan {
        current =
            change
              (with_pair (split_once (codes ":") (trim line))
                (λ key value. lshw_memory_field (trim key) (trim value)))
              s.scan.current;
      };
    }

unfoldable pub parse_lshw_memory : Text → List DmiMemoryRecord
unfolding lshw_memory_line push_memory_record lines
parse_lshw_memory input =
    let s =
      each_line lshw_memory_line (lines input ++ [] ∷ [])
        (record { scan = no_memory; current_is_bank = false }) in
    if s.current_is_bank || is_empty s.scan.records
    then push_memory_record s.scan.records s.scan.current
    else s.scan.records

unfoldable pub dimms_field : Text → DmiMemoryRecord → DmiMemoryRecord
unfolding decode_dimms_value clean_memory_value
dimms_field line r = elim (decode_dimms_value line (codes "Guessing DIMM is in")) [
  | some v ↦ record r { locator = clean_memory_value v }
  | none ↦ elim (decode_dimms_value line (codes "Fundamental Memory type")) [
    | some v ↦ record r { memory_type = clean_memory_value v }
    | none ↦ elim (decode_dimms_value line (codes "Maximum module speed")) [
      | some v ↦ record r { speed = clean_memory_value v }
      | none ↦ elim (decode_dimms_value line (codes "Size")) [
        | some v ↦ record r { size = clean_memory_value v }
        | none ↦ elim (decode_dimms_value line (codes "Module Manufacturer")) [
          | some v ↦ record r { manufacturer = clean_memory_value v }
          | none ↦ elim (decode_dimms_value line (codes "Assembly Serial Number")) [
            | some v ↦ record r { serial = clean_memory_value v }
            | none ↦ elim (decode_dimms_value line (codes "Part Number")) [
              | some v ↦ record r { part_number = clean_memory_value v }
              | none ↦ r
            ]
          ]
        ]
      ]
    ]
  ]
]

unfoldable pub dimms_line : Text → MemoryScan → MemoryScan
unfolding push_memory_record dimms_field strip_prefix trim clean_memory_value
dimms_line line s = elim (strip_prefix (codes "Decoding EEPROM:") (trim line)) [
  | some path ↦ record {
    records = push_memory_record s.records s.current;
    current = some (record memory_record_default { locator = clean_memory_value path });
  }
  | none ↦ record s { current = change (dimms_field (trim line)) s.current }
]

unfoldable pub parse_spd_decode_dimms : Text → List DmiMemoryRecord
unfolding dimms_line push_memory_record lines
parse_spd_decode_dimms input =
    let s = each_line dimms_line (lines input) no_memory in push_memory_record s.records s.current
