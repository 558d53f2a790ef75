-- ===== src/Parser/Video.antt =====
-- crates/hw-parser/src/video.rs.
use qurbrix_hwinfo.Common.{
  Bool, false, not, ◌&&◌, ◌||◌, Option, none, some, List, [], ◌∷◌, ◌++◌, Text, codes, text_eq, trim,
  is_empty, any, first, unwrap_or, is_some, strip_suffix, trim_end_matches, eq_ignore_ascii_case,
  and_then, lines, each_line, split_whitespace, split_once, rsplit_once, strip_prefix, starts_with,
  if◌then◌else◌,
}
use qurbrix_hwinfo.Parser.Node.{nodes}

pub record VideoDeviceRecord : Type 0 where
  pub name : Text
  pub bus_hint : Option Text
  pub nodes : List Text

pub record LshwVideoRecord : Type 0 where
  pub product : Option Text
  pub vendor : Option Text
  pub logical_name : Option Text
  pub bus_info : Option Text
  pub driver : Option Text

abbrev pub lshw_video_default : LshwVideoRecord
lshw_video_default = record {
  product = none;
  vendor = none;
  logical_name = none;
  bus_info = none;
  driver = none;
}

abbrev headed : Text → Option (Text × Text) → VideoDeviceRecord
unfolding trim trim_end_matches
headed header none = record { name = header; bus_hint = none; nodes = [] }
headed header (some (name, bus)) = record {
  name = trim name;
  bus_hint = some (trim_end_matches (codes ")") bus);
  nodes = [];
}

pub record VideoScan : Type 0 where
  pub records : List VideoDeviceRecord
  pub current : Option VideoDeviceRecord

abbrev finished_video : List VideoDeviceRecord → Option VideoDeviceRecord → List VideoDeviceRecord
finished_video records none = records
finished_video records (some r) = records ++ r ∷ []

unfoldable pub node_of_video : Text → VideoDeviceRecord → VideoDeviceRecord
unfolding starts_with
node_of_video node r =
    if starts_with (codes "/dev/video") node then record r { nodes = r.nodes ++ node ∷ [] } else r

unfoldable pub v4l2_line : Text → VideoScan → VideoScan
unfolding headed node_of_video trim starts_with strip_suffix trim_end_matches rsplit_once
v4l2_line line s =
    let header = trim_end_matches (codes ":") line in
    if is_empty (trim line)
    then s
    else if not (starts_with (9 ∷ []) line) && is_some (strip_suffix (codes ":") line)
    then record {
      records = finished_video s.records s.current;
      current = some (headed header (rsplit_once (codes "(") header));
    }
    else record s { current = and_then s.current λ r. some (node_of_video (trim line) r) }

unfoldable pub parse_v4l2_list_devices : Text → List VideoDeviceRecord
unfolding v4l2_line lines
parse_v4l2_list_devices input =
    let s = each_line v4l2_line (lines input) (record { records = []; current = none }) in
    finished_video s.records s.current

unfoldable pub clean_lshw_video_value : Text → Option Text
unfolding trim eq_ignore_ascii_case text_eq
clean_lshw_video_value value =
    if is_empty (trim value)
      || eq_ignore_ascii_case (trim value) (codes "n/a")
      || text_eq (trim value) (codes "(none)")
    then none
    else some (trim value)

abbrev video_setting : Option (Text × Text) → LshwVideoRecord → LshwVideoRecord
unfolding text_eq clean_lshw_video_value
video_setting none r = r
video_setting (some (key, value)) r =
    if text_eq key (codes "driver") then record r { driver = clean_lshw_video_value value } else r

unfoldable pub parse_lshw_video_configuration : List Text → LshwVideoRecord → LshwVideoRecord
unfolding video_setting split_once
parse_lshw_video_configuration [] r = r
parse_lshw_video_configuration (part ∷ parts) r =
    parse_lshw_video_configuration parts (video_setting (split_once (codes "=") part) r)

unfoldable pub lshw_video_field : Text → Text → LshwVideoRecord → LshwVideoRecord
unfolding clean_lshw_video_value parse_lshw_video_configuration split_whitespace text_eq
lshw_video_field key value r =
    if text_eq key (codes "product")
    then record r { product = clean_lshw_video_value value }
    else if text_eq key (codes "vendor")
    then record r { vendor = clean_lshw_video_value value }
    else if text_eq key (codes "logical name")
    then record r { logical_name = clean_lshw_video_value value }
    else if text_eq key (codes "bus info")
    then record r { bus_info = clean_lshw_video_value value }
    else if text_eq key (codes "configuration")
    then parse_lshw_video_configuration (split_whitespace value) r
    else r

abbrev is_video_node : Option Text → Bool
unfolding starts_with
is_video_node none = false
is_video_node (some name) = starts_with (codes "/dev/video") name

unfoldable pub push_lshw_video_record :
    List LshwVideoRecord → Option LshwVideoRecord → List LshwVideoRecord
unfolding is_video_node
push_lshw_video_record records none = records
push_lshw_video_record records (some r) =
    if is_video_node r.logical_name then records ++ r ∷ [] else records

-- Only the next node of its class ends a record.
unfoldable pub parse_lshw_video : Text → List LshwVideoRecord
unfolding nodes push_lshw_video_record lshw_video_field
parse_lshw_video =
    nodes (codes "*-multimedia") (λ _. false) lshw_video_default push_lshw_video_record
      lshw_video_field

pub record FormatScan : Type 0 where
  pub capabilities : List Text
  pub current_format : Option Text

abbrev format_name : Option (Text × Text) → Option Text
format_name none = none
format_name (some (format, rest)) = some format

unfoldable pub add_size : Text → Option Text → List Text → List Text
unfolding text_eq split_whitespace
add_size format none capabilities = capabilities
add_size format (some rest) capabilities =
    let size = unwrap_or (first (split_whitespace rest)) rest in
    let capability = format ++ codes " " ++ size in
    if is_empty size || any (text_eq capability) capabilities
    then capabilities
    else capabilities ++ capability ∷ []

abbrev size_line : Text → Option Text → List Text → List Text
unfolding add_size strip_prefix
size_line trimmed none capabilities = capabilities
size_line trimmed (some format) capabilities =
    add_size format (strip_prefix (codes "Size: Discrete ") trimmed) capabilities

unfoldable pub format_line : Text → FormatScan → FormatScan
unfolding size_line split_once trim
format_line line s = elim (split_once (codes "]: '") (trim line)) [
  | some (before, rest) ↦ record s { current_format = format_name (split_once (codes "'") rest) }
  | none ↦ record s { capabilities = size_line (trim line) s.current_format s.capabilities }
]

unfoldable pub parse_v4l2_list_formats_ext : Text → List Text
unfolding format_line lines
parse_v4l2_list_formats_ext input =
    let s =
      each_line format_line (lines input) (record { capabilities = []; current_format = none }) in
    s.capabilities
