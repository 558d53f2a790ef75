-- ===== src/Parser/Cdrom/Hwinfo.antt =====
-- crates/hw-parser/src/cdrom.rs: the drives of hwinfo.
use qurbrix_hwinfo.Common.{
  Bool, true, false, not, ◌&&◌, ◌||◌, Option, none, some, List, [], ◌∷◌, ◌++◌, map, retain, Text,
  codes, text_eq, trim, is_empty, is_some, split, lines, each_line, split_whitespace, split_once,
  strip_prefix, starts_with, contains_text, trim_matches, find, get_elem?, and_then, or_option,
  unwrap_or, if◌then◌else◌, ◌==◌,
}

pub record HwinfoCdromRecord : Type 0 where
  pub device_node : Option Text
  pub model : Option Text
  pub vendor : Option Text
  pub device : Option Text
  pub revision : Option Text
  pub driver : Option Text
  pub driver_modules : List Text
  pub serial : Option Text

abbrev pub hwinfo_cdrom_default : HwinfoCdromRecord
hwinfo_cdrom_default = record {
  device_node = none;
  model = none;
  vendor = none;
  device = none;
  revision = none;
  driver = none;
  driver_modules = [];
  serial = none;
}

unfoldable pub is_known : Text → Bool
unfolding contains_text
is_known part = not (is_empty part) && not (contains_text (codes "unknown") part)

-- What stands between the first quotes, or else the value.
unfoldable pub clean_hwinfo_cdrom_value : Text → Option Text
unfolding is_known split trim
clean_hwinfo_cdrom_value value =
    let inner = trim (unwrap_or (get_elem? (split b'"' (trim value)) 1) (trim value)) in
    if is_known inner then some inner else none

unfoldable pub clean_hwinfo_cdrom_device_node : Text → Option Text
unfolding clean_hwinfo_cdrom_value split_whitespace starts_with trim_matches
clean_hwinfo_cdrom_device_node value = and_then (clean_hwinfo_cdrom_value value) λ v.
    and_then (find (starts_with (codes "/dev/")) (split_whitespace v))
      λ part. some (trim_matches (λ ch. ch == b'(' || ch == b')') part)

-- Every other part, from the second on.
abbrev pub odd_parts : Bool → List Text → List Text
odd_parts odd [] = []
odd_parts true (p ∷ ps) = p ∷ odd_parts false ps
odd_parts false (p ∷ ps) = odd_parts true ps

unfoldable pub split_all : List Text → List Text
unfolding split
split_all [] = []
split_all (p ∷ ps) = split b' ' p ++ split_all ps

unfoldable pub clean_hwinfo_cdrom_modules : Text → List Text
unfolding is_known split_all split trim
clean_hwinfo_cdrom_modules value =
    let quoted = retain is_known (map trim (odd_parts false (split b'"' value))) in
    if is_empty quoted then retain is_known (map trim (split_all (split b',' value))) else quoted

unfoldable pub hwinfo_cdrom_node_from_sysfs_id : Text → Option Text
unfolding clean_hwinfo_cdrom_value strip_prefix
hwinfo_cdrom_node_from_sysfs_id value =
    and_then (clean_hwinfo_cdrom_value value)
      λ v. and_then (strip_prefix (codes "/class/block/") v) λ name. some (codes "/dev/" ++ name)

-- A section's record, and whether its class is that of a drive.
pub record Section : Type 0 where
  pub drive : HwinfoCdromRecord
  pub is_cdrom : Bool

unfoldable pub hwinfo_field : Text → Text → Section → Section
unfolding clean_hwinfo_cdrom_value clean_hwinfo_cdrom_modules clean_hwinfo_cdrom_device_node
    hwinfo_cdrom_node_from_sysfs_id text_eq
hwinfo_field key value s =
    let r = s.drive in
    if text_eq key (codes "Hardware Class")
    then record s { is_cdrom = text_eq value (codes "cdrom") }
    else if text_eq key (codes "Model")
    then record s { drive = record r { model = clean_hwinfo_cdrom_value value } }
    else if text_eq key (codes "Vendor") || text_eq key (codes "SubVendor")
    then record s { drive = record r { vendor = clean_hwinfo_cdrom_value value } }
    else if text_eq key (codes "Device")
    then record s { drive = record r { device = clean_hwinfo_cdrom_value value } }
    else if text_eq key (codes "Revision")
    then record s { drive = record r { revision = clean_hwinfo_cdrom_value value } }
    else if text_eq key (codes "Driver")
    then record s { drive = record r { driver = clean_hwinfo_cdrom_value value } }
    else if text_eq key (codes "Driver Modules")
    then record s { drive = record r { driver_modules = clean_hwinfo_cdrom_modules value } }
    else if text_eq key (codes "Device File")
    then record s { drive = record r { device_node = clean_hwinfo_cdrom_device_node value } }
    else if text_eq key (codes "SysFS ID")
    then record s {
      drive = record r {
        device_node = or_option r.device_node (hwinfo_cdrom_node_from_sysfs_id value);
      };
    }
    else if text_eq key (codes "Serial ID")
    then record s { drive = record r { serial = clean_hwinfo_cdrom_value value } }
    else s

abbrev section_pair : Option (Text × Text) → Section → Section
unfolding hwinfo_field trim
section_pair none s = s
section_pair (some (key, value)) s = hwinfo_field (trim key) (trim value) s

unfoldable pub parse_hwinfo_cdrom_section : List Text → Option HwinfoCdromRecord
unfolding section_pair split_once trim
parse_hwinfo_cdrom_section section =
    let s =
      each_line (λ line. section_pair (split_once (codes ":") (trim line))) section
        (record { drive = hwinfo_cdrom_default; is_cdrom = false }) in
    if s.is_cdrom then some s.drive else none

unfoldable pub push_hwinfo_cdrom_record :
    List HwinfoCdromRecord → Option HwinfoCdromRecord → List HwinfoCdromRecord
push_hwinfo_cdrom_record records none = records
push_hwinfo_cdrom_record records (some r) =
    if is_some r.device_node
      || is_some r.model
      || is_some r.vendor
      || is_some r.device
      || is_some r.revision
      || is_some r.driver
      || not (is_empty r.driver_modules)
      || is_some r.serial
    then records ++ r ∷ []
    else records

pub record HwinfoScan : Type 0 where
  pub records : List HwinfoCdromRecord
  pub section : List Text

unfoldable pub hwinfo_line : Text → HwinfoScan → HwinfoScan
unfolding push_hwinfo_cdrom_record parse_hwinfo_cdrom_section trim
hwinfo_line line s =
    if is_empty (trim line)
    then record {
      records = push_hwinfo_cdrom_record s.records (parse_hwinfo_cdrom_section s.section);
      section = [];
    }
    else record s { section = s.section ++ line ∷ [] }

unfoldable pub parse_hwinfo_cdrom : Text → List HwinfoCdromRecord
unfolding hwinfo_line lines
parse_hwinfo_cdrom input =
    (each_line hwinfo_line (lines input ++ [] ∷ []) (record { records = []; section = [] })).records
