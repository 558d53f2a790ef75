-- ===== src/Parser/Cdrom.antt =====
-- crates/hw-parser/src/cdrom.rs: /proc/sys/dev/cdrom/info and the drives of lshw. The map of the drives'
-- capabilities is an association list.
pub mod Hwinfo
use qurbrix_hwinfo.Common.{
  ℕ, suc, Bool, true, false, not, ◌||◌, Option, none, some, List, [], ◌∷◌, ◌++◌, map, Text, codes,
  text_eq, trim, is_empty, is_some, any, join, to_ascii_lowercase, eq_ignore_ascii_case, lines,
  each_line, split_whitespace, split_once, strip_prefix, starts_with, get_elem?, if◌then◌else◌,
}

pub record CdromProcInfo : Type 0 where
  pub drive_names : List Text
  pub capabilities : List Text
  pub capabilities_by_drive : List (Text × List Text)

pub record LshwCdromRecord : Type 0 where
  pub logical_name : Option Text
  pub product : Option Text
  pub vendor : Option Text
  pub serial : Option Text
  pub firmware : Option Text

abbrev pub lshw_cdrom_default : LshwCdromRecord
lshw_cdrom_default = record {
  logical_name = none;
  product = none;
  vendor = none;
  serial = none;
  firmware = none;
}

-- `entry(…).or_default()`, and a `push` on it.
unfoldable pub add_drive : Text → List (Text × List Text) → List (Text × List Text)
unfolding text_eq
add_drive drive [] = (drive, []) ∷ []
add_drive drive ((d, l) ∷ m) = if text_eq d drive then (d, l) ∷ m else (d, l) ∷ add_drive drive m

unfoldable pub add_drives : List Text → List (Text × List Text) → List (Text × List Text)
unfolding add_drive
add_drives [] m = m
add_drives (d ∷ ds) m = add_drives ds (add_drive d m)

unfoldable pub push_capability : Text → Text → List (Text × List Text) → List (Text × List Text)
unfolding text_eq
push_capability drive capability [] = (drive, capability ∷ []) ∷ []
push_capability drive capability ((d, l) ∷ m) =
    if text_eq d drive
    then (d, l ++ capability ∷ []) ∷ m
    else (d, l) ∷ push_capability drive capability m

abbrev of_drive : Option Text → Text → List (Text × List Text) → List (Text × List Text)
of_drive none capability m = m
of_drive (some drive) capability m = push_capability drive capability m

-- A drive that can.
unfoldable pub can : ℕ → Text → CdromProcInfo → CdromProcInfo
unfolding push_capability text_eq
can index capability info = record info {
  capabilities =
      if any (text_eq capability) info.capabilities
      then info.capabilities
      else info.capabilities ++ capability ∷ [];
  capabilities_by_drive =
      of_drive (get_elem? info.drive_names index) capability info.capabilities_by_drive;
}

unfoldable pub can_values : ℕ → Text → List Text → CdromProcInfo → CdromProcInfo
unfolding can text_eq
can_values index capability [] info = info
can_values index capability (value ∷ values) info =
    let able = can index capability info in
    can_values (suc index) capability values (if text_eq value (codes "1") then able else info)

unfoldable pub capability_name : Text → Text
unfolding split_whitespace to_ascii_lowercase join
capability_name label = join (codes "-") (map to_ascii_lowercase (split_whitespace label))

unfoldable pub can_line : Option (Text × Text) → CdromProcInfo → CdromProcInfo
unfolding can_values capability_name split_whitespace
can_line none info = info
can_line (some (label, values)) info =
    can_values 0 (capability_name label) (split_whitespace values) info

unfoldable pub proc_line : Text → CdromProcInfo → CdromProcInfo
unfolding can_line add_drives strip_prefix split_once split_whitespace
proc_line line info = elim (strip_prefix (codes "drive name:") line) [
  | some rest ↦ record info {
    drive_names = split_whitespace rest;
    capabilities_by_drive = add_drives (split_whitespace rest) info.capabilities_by_drive;
  }
  | none ↦ elim (strip_prefix (codes "Can ") line) [
    | some rest ↦ can_line (split_once (codes ":") rest) info
    | none ↦ info
  ]
]

unfoldable pub parse_proc_cdrom_info : Text → CdromProcInfo
unfolding proc_line lines
parse_proc_cdrom_info input =
    each_line proc_line (lines input)
      (record { drive_names = []; capabilities = []; capabilities_by_drive = [] })

unfoldable pub clean_lshw_cdrom_value : Text → Option Text
unfolding trim eq_ignore_ascii_case text_eq
clean_lshw_cdrom_value value =
    if is_empty (trim value)
      || eq_ignore_ascii_case (trim value) (codes "n/a")
      || text_eq (trim value) (codes "(none)")
    then none
    else some (trim value)

abbrev firmware_pair : Option (Text × Text) → LshwCdromRecord → LshwCdromRecord
unfolding text_eq clean_lshw_cdrom_value
firmware_pair none r = r
firmware_pair (some (key, value)) r =
    if text_eq key (codes "firmware")
    then record r { firmware = clean_lshw_cdrom_value value }
    else r

unfoldable pub parse_lshw_cdrom_configuration : List Text → LshwCdromRecord → LshwCdromRecord
unfolding firmware_pair split_once
parse_lshw_cdrom_configuration [] r = r
parse_lshw_cdrom_configuration (part ∷ parts) r =
    parse_lshw_cdrom_configuration parts (firmware_pair (split_once (codes "=") part) r)

unfoldable pub lshw_cdrom_field : Text → Text → LshwCdromRecord → LshwCdromRecord
unfolding clean_lshw_cdrom_value parse_lshw_cdrom_configuration split_whitespace text_eq
lshw_cdrom_field key value r =
    if text_eq key (codes "logical name")
    then record r { logical_name = clean_lshw_cdrom_value value }
    else if text_eq key (codes "product")
    then record r { product = clean_lshw_cdrom_value value }
    else if text_eq key (codes "vendor")
    then record r { vendor = clean_lshw_cdrom_value value }
    else if text_eq key (codes "serial")
    then record r { serial = clean_lshw_cdrom_value value }
    else if text_eq key (codes "configuration")
    then parse_lshw_cdrom_configuration (split_whitespace value) r
    else r

unfoldable pub push_lshw_cdrom_record :
    List LshwCdromRecord → Option LshwCdromRecord → List LshwCdromRecord
push_lshw_cdrom_record records none = records
push_lshw_cdrom_record records (some r) =
    if is_some r.logical_name || is_some r.product || is_some r.vendor || is_some r.serial
    then records ++ r ∷ []
    else records

pub record LshwCdromScan : Type 0 where
  pub records : List LshwCdromRecord
  pub current : Option LshwCdromRecord

abbrev cdrom_pair : Option (Text × Text) → Option LshwCdromRecord → Option LshwCdromRecord
unfolding lshw_cdrom_field trim
cdrom_pair pair none = none
cdrom_pair none (some r) = some r
cdrom_pair (some (key, value)) (some r) = some (lshw_cdrom_field (trim key) (trim value) r)

unfoldable pub lshw_cdrom_line : Text → LshwCdromScan → LshwCdromScan
unfolding push_lshw_cdrom_record cdrom_pair trim starts_with split_once
lshw_cdrom_line line s =
    if starts_with (codes "*-cdrom") (trim line)
    then record {
      records = push_lshw_cdrom_record s.records s.current;
      current = some lshw_cdrom_default;
    }
    else if starts_with (codes "*-") (trim line)
    then record { records = push_lshw_cdrom_record s.records s.current; current = none }
    else record s { current = cdrom_pair (split_once (codes ":") (trim line)) s.current }

unfoldable pub parse_lshw_cdrom : Text → List LshwCdromRecord
unfolding lshw_cdrom_line push_lshw_cdrom_record lines
parse_lshw_cdrom input =
    let s =
      each_line lshw_cdrom_line (lines input ++ [] ∷ [])
        (record { records = []; current = none }) in
    push_lshw_cdrom_record s.records s.current
