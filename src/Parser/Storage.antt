-- ===== src/Parser/Storage.antt =====
-- crates/hw-parser/src/storage.rs: the disks and controllers of lshw, and hdparm's identification.
pub mod Hwinfo
pub mod Smart
use qurbrix_hwinfo.Common.{
  Bool, true, false, not, ◌||◌, Option, none, some, List, [], ◌∷◌, ◌++◌, retain, map, Text, codes,
  text_eq, trim, is_empty, is_some, eq_ignore_ascii_case, contains_text, lines, each_line, split,
  split_whitespace, split_once, starts_with, if◌then◌else◌,
}
use qurbrix_hwinfo.Parser.Node.{any_node, nodes}

pub record LshwDiskRecord : Type 0 where
  pub logical_name : Option Text
  pub product : Option Text
  pub vendor : Option Text
  pub serial : Option Text
  pub firmware : Option Text
  pub speed : Option Text
  pub capabilities : List Text

abbrev pub lshw_disk_default : LshwDiskRecord
lshw_disk_default = record {
  logical_name = none;
  product = none;
  vendor = none;
  serial = none;
  firmware = none;
  speed = none;
  capabilities = [];
}

pub record LshwStorageRecord : Type 0 where
  pub bus_info : Option Text
  pub product : Option Text
  pub vendor : Option Text
  pub driver : Option Text

abbrev pub lshw_storage_default : LshwStorageRecord
lshw_storage_default = record { bus_info = none; product = none; vendor = none; driver = none }

pub record HdparmIdentifyRecord : Type 0 where
  pub model : Option Text
  pub firmware : Option Text
  pub serial : Option Text

unfoldable pub clean_lshw_disk_value : Text → Option Text
unfolding trim eq_ignore_ascii_case text_eq
clean_lshw_disk_value value =
    if is_empty (trim value)
      || eq_ignore_ascii_case (trim value) (codes "n/a")
      || text_eq (trim value) (codes "(none)")
    then none
    else some (trim value)

unfoldable pub clean_lshw_capabilities : Text → List Text
unfolding split_whitespace trim
clean_lshw_capabilities value =
    retain (λ part. not (is_empty part)) (map trim (split_whitespace value))

-- A `key=value` of a configuration.
abbrev disk_setting : Option (Text × Text) → LshwDiskRecord → LshwDiskRecord
unfolding text_eq clean_lshw_disk_value
disk_setting none r = r
disk_setting (some (key, value)) r =
    if text_eq key (codes "firmware")
    then record r { firmware = clean_lshw_disk_value value }
    else if text_eq key (codes "speed")
    then record r { speed = clean_lshw_disk_value value }
    else r

unfoldable pub parse_lshw_disk_configuration : List Text → LshwDiskRecord → LshwDiskRecord
unfolding disk_setting split_once
parse_lshw_disk_configuration [] r = r
parse_lshw_disk_configuration (part ∷ parts) r =
    parse_lshw_disk_configuration parts (disk_setting (split_once (codes "=") part) r)

abbrev storage_setting : Option (Text × Text) → LshwStorageRecord → LshwStorageRecord
unfolding text_eq clean_lshw_disk_value
storage_setting none r = r
storage_setting (some (key, value)) r =
    if text_eq key (codes "driver") then record r { driver = clean_lshw_disk_value value } else r

unfoldable pub parse_lshw_storage_configuration : List Text → LshwStorageRecord → LshwStorageRecord
unfolding storage_setting split_once
parse_lshw_storage_configuration [] r = r
parse_lshw_storage_configuration (part ∷ parts) r =
    parse_lshw_storage_configuration parts (storage_setting (split_once (codes "=") part) r)

unfoldable pub lshw_disk_field : Text → Text → LshwDiskRecord → LshwDiskRecord
unfolding clean_lshw_disk_value clean_lshw_capabilities parse_lshw_disk_configuration
    split_whitespace text_eq
lshw_disk_field key value r =
    if text_eq key (codes "logical name")
    then record r { logical_name = clean_lshw_disk_value value }
    else if text_eq key (codes "product")
    then record r { product = clean_lshw_disk_value value }
    else if text_eq key (codes "vendor")
    then record r { vendor = clean_lshw_disk_value value }
    else if text_eq key (codes "serial")
    then record r { serial = clean_lshw_disk_value value }
    else if text_eq key (codes "capabilities")
    then record r { capabilities = clean_lshw_capabilities value }
    else if text_eq key (codes "configuration")
    then parse_lshw_disk_configuration (split_whitespace value) r
    else r

unfoldable pub lshw_storage_field : Text → Text → LshwStorageRecord → LshwStorageRecord
unfolding clean_lshw_disk_value parse_lshw_storage_configuration split_whitespace text_eq
lshw_storage_field key value r =
    if text_eq key (codes "bus info")
    then record r { bus_info = clean_lshw_disk_value value }
    else if text_eq key (codes "product")
    then record r { product = clean_lshw_disk_value value }
    else if text_eq key (codes "vendor")
    then record r { vendor = clean_lshw_disk_value value }
    else if text_eq key (codes "configuration")
    then parse_lshw_storage_configuration (split_whitespace value) r
    else r

unfoldable pub push_lshw_disk_record :
    List LshwDiskRecord → Option LshwDiskRecord → List LshwDiskRecord
push_lshw_disk_record records none = records
push_lshw_disk_record records (some r) =
    if is_some r.logical_name || is_some r.product || is_some r.vendor || is_some r.serial
    then records ++ r ∷ []
    else records

unfoldable pub push_lshw_storage_record :
    List LshwStorageRecord → Option LshwStorageRecord → List LshwStorageRecord
push_lshw_storage_record records none = records
push_lshw_storage_record records (some r) =
    if is_some r.bus_info || is_some r.product || is_some r.vendor || is_some r.driver
    then records ++ r ∷ []
    else records

unfoldable pub parse_lshw_disk : Text → List LshwDiskRecord
unfolding any_node nodes push_lshw_disk_record lshw_disk_field
parse_lshw_disk =
    nodes (codes "*-disk") any_node lshw_disk_default push_lshw_disk_record lshw_disk_field

unfoldable pub parse_lshw_storage : Text → List LshwStorageRecord
unfolding any_node nodes push_lshw_storage_record lshw_storage_field
parse_lshw_storage =
    nodes (codes "*-storage") any_node lshw_storage_default push_lshw_storage_record
      lshw_storage_field

unfoldable pub clean_hdparm_value : Text → Option Text
unfolding trim eq_ignore_ascii_case contains_text
clean_hdparm_value value =
    if is_empty (trim value)
      || eq_ignore_ascii_case (trim value) (codes "n/a")
      || contains_text (codes "unknown") (trim value)
    then none
    else some (trim value)

abbrev hdparm_pair : Option (Text × Text) → HdparmIdentifyRecord → HdparmIdentifyRecord
unfolding clean_hdparm_value text_eq trim
hdparm_pair none r = r
hdparm_pair (some (key, value)) r =
    if text_eq (trim key) (codes "Model")
    then record r { model = clean_hdparm_value value }
    else if text_eq (trim key) (codes "FwRev")
    then record r { firmware = clean_hdparm_value value }
    else if text_eq (trim key) (codes "SerialNo")
    then record r { serial = clean_hdparm_value value }
    else r

-- The parts of a line.
unfoldable pub hdparm_line : Text → HdparmIdentifyRecord → HdparmIdentifyRecord
unfolding hdparm_pair split split_once trim
hdparm_line line r =
    each_line (λ part. hdparm_pair (split_once (codes "=") (trim part))) (split b',' line) r

unfoldable pub parse_hdparm_identify : Text → HdparmIdentifyRecord
unfolding hdparm_line lines
parse_hdparm_identify input =
    each_line hdparm_line (lines input) (record { model = none; firmware = none; serial = none })
