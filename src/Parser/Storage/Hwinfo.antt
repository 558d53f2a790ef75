-- ===== src/Parser/Storage/Hwinfo.antt =====
-- crates/hw-parser/src/storage.rs: the disks of hwinfo.
use qurbrix_hwinfo.Common.{
  Bool, false, not, ◌||◌, Option, none, some, List, [], ◌∷◌, ◌++◌, map, retain, Text, codes,
  text_eq, trim, is_empty, is_some, split, lines, each_line, split_once, strip_prefix, get_elem?,
  and_then, or_option, unwrap_or, if◌then◌else◌,
}
use qurbrix_hwinfo.Parser.Cdrom.Hwinfo.{is_known, odd_parts, split_all}

pub record HwinfoDiskRecord : Type 0 where
  pub device_node : Option Text
  pub model : Option Text
  pub vendor : Option Text
  pub device : Option Text
  pub revision : Option Text
  pub driver : Option Text
  pub driver_modules : List Text
  pub serial : Option Text
  pub geometry_logical : Option Text

abbrev pub hwinfo_disk_default : HwinfoDiskRecord
hwinfo_disk_default = record {
  device_node = none;
  model = none;
  vendor = none;
  device = none;
  revision = none;
  driver = none;
  driver_modules = [];
  serial = none;
  geometry_logical = none;
}

unfoldable pub clean_hwinfo_disk_value : Text → Option Text
unfolding is_known split trim
clean_hwinfo_disk_value value =
    let inner = trim (unwrap_or (get_elem? (split b'"' (trim value)) 1) (trim value)) in
    if is_known inner then some inner else none

unfoldable pub clean_hwinfo_disk_modules : Text → List Text
unfolding is_known split_all split trim
clean_hwinfo_disk_modules value =
    let quoted = retain is_known (map trim (odd_parts false (split b'"' value))) in
    if is_empty quoted then retain is_known (map trim (split_all (split b',' value))) else quoted

unfoldable pub hwinfo_disk_node_from_sysfs_id : Text → Option Text
unfolding clean_hwinfo_disk_value strip_prefix
hwinfo_disk_node_from_sysfs_id value =
    and_then (clean_hwinfo_disk_value value)
      λ v. and_then (strip_prefix (codes "/class/block/") v) λ name. some (codes "/dev/" ++ name)

-- A section's record, and whether its class is that of a disk.
pub record DiskSection : Type 0 where
  pub disk : HwinfoDiskRecord
  pub is_disk : Bool

unfoldable pub hwinfo_disk_field : Text → Text → HwinfoDiskRecord → HwinfoDiskRecord
unfolding clean_hwinfo_disk_value clean_hwinfo_disk_modules hwinfo_disk_node_from_sysfs_id text_eq
hwinfo_disk_field key value r =
    if text_eq key (codes "Model")
    then record r { model = clean_hwinfo_disk_value value }
    else if text_eq key (codes "Vendor") || text_eq key (codes "SubVendor")
    then record r { vendor = clean_hwinfo_disk_value value }
    else if text_eq key (codes "Device")
    then record r { device = clean_hwinfo_disk_value value }
    else if text_eq key (codes "Revision")
    then record r { revision = clean_hwinfo_disk_value value }
    else if text_eq key (codes "Driver")
    then record r { driver = clean_hwinfo_disk_value value }
    else if text_eq key (codes "Driver Modules")
    then record r { driver_modules = clean_hwinfo_disk_modules value }
    else if text_eq key (codes "Device File")
    then record r { device_node = clean_hwinfo_disk_value value }
    else if text_eq key (codes "SysFS ID")
    then record r { device_node = or_option r.device_node (hwinfo_disk_node_from_sysfs_id value) }
    else if text_eq key (codes "Serial ID")
    then record r { serial = clean_hwinfo_disk_value value }
    else if text_eq key (codes "Geometry (Logical)")
    then record r { geometry_logical = clean_hwinfo_disk_value value }
    else r

unfoldable pub disk_section_pair : Option (Text × Text) → DiskSection → DiskSection
unfolding hwinfo_disk_field trim text_eq
disk_section_pair none s = s
disk_section_pair (some (key, value)) s =
    if text_eq (trim key) (codes "Hardware Class")
    then record s { is_disk = text_eq (trim value) (codes "disk") }
    else record s { disk = hwinfo_disk_field (trim key) (trim value) s.disk }

unfoldable pub parse_hwinfo_disk_section : List Text → Option HwinfoDiskRecord
unfolding disk_section_pair split_once trim
parse_hwinfo_disk_section section =
    let s =
      each_line (λ line. disk_section_pair (split_once (codes ":") (trim line))) section
        (record { disk = hwinfo_disk_default; is_disk = false }) in
    if s.is_disk then some s.disk else none

unfoldable pub push_hwinfo_disk_record :
    List HwinfoDiskRecord → Option HwinfoDiskRecord → List HwinfoDiskRecord
push_hwinfo_disk_record records none = records
push_hwinfo_disk_record records (some r) =
    if is_some r.device_node
      || is_some r.model
      || is_some r.vendor
      || is_some r.device
      || is_some r.revision
      || is_some r.driver
      || not (is_empty r.driver_modules)
      || is_some r.serial
    then records ++ r ∷ []
    else records

pub record HwinfoDiskScan : Type 0 where
  pub records : List HwinfoDiskRecord
  pub section : List Text

unfoldable pub hwinfo_disk_line : Text → HwinfoDiskScan → HwinfoDiskScan
unfolding push_hwinfo_disk_record parse_hwinfo_disk_section trim
hwinfo_disk_line line s =
    if is_empty (trim line)
    then record {
      records = push_hwinfo_disk_record s.records (parse_hwinfo_disk_section s.section);
      section = [];
    }
    else record s { section = s.section ++ line ∷ [] }

unfoldable pub parse_hwinfo_disk : Text → List HwinfoDiskRecord
unfolding hwinfo_disk_line lines
parse_hwinfo_disk input =
    (each_line hwinfo_disk_line (lines input ++ [] ∷ [])
      (record { records = []; section = [] })).records
