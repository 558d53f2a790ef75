-- ===== src/Parser/Input/Hwinfo.antt =====
-- crates/hw-parser/src/input.rs: the keyboards and mice of hwinfo.
use qurbrix_hwinfo.Common.{
  Bool, true, false, not, ◌&&◌, ◌||◌, Option, none, some, List, [], ◌∷◌, ◌++◌, map, retain, Text,
  codes, text_eq, trim, is_empty, is_some, all, find, is_ascii_digit, split, lines, each_line,
  split_whitespace, split_once, strip_prefix, get_elem?, unwrap_or, if◌then◌else◌,
}
use qurbrix_hwinfo.Parser.Cdrom.Hwinfo.{is_known, odd_parts, split_all}

pub data HwinfoInputKind : Type 0 where
  keyboard : HwinfoInputKind
  mouse : HwinfoInputKind
  unknown_input : HwinfoInputKind

pub record HwinfoInputRecord : Type 0 where
  pub input_kind : HwinfoInputKind
  pub event_node : Option Text
  pub model : Option Text
  pub vendor : Option Text
  pub device : Option Text
  pub driver : Option Text
  pub driver_modules : List Text

abbrev pub hwinfo_input_default : HwinfoInputRecord
hwinfo_input_default = record {
  input_kind = unknown_input;
  event_node = none;
  model = none;
  vendor = none;
  device = none;
  driver = none;
  driver_modules = [];
}

unfoldable pub clean_hwinfo_input_value : Text → Option Text
unfolding is_known split trim
clean_hwinfo_input_value value =
    let inner = trim (unwrap_or (get_elem? (split b'"' (trim value)) 1) (trim value)) in
    if is_known inner then some inner else none

unfoldable pub clean_hwinfo_input_modules : Text → List Text
unfolding is_known split_all split trim
clean_hwinfo_input_modules value =
    let quoted = retain is_known (map trim (odd_parts false (split b'"' value))) in
    if is_empty quoted then retain is_known (map trim (split_all (split b',' value))) else quoted

abbrev is_event_suffix : Option Text → Bool
unfolding is_ascii_digit
is_event_suffix none = false
is_event_suffix (some suffix) = not (is_empty suffix) && all is_ascii_digit suffix

abbrev all_words : List Text → List Text
unfolding split_whitespace
all_words [] = []
all_words (p ∷ ps) = split_whitespace p ++ all_words ps

-- The first part that names an event; the empty parts between separators name none.
unfoldable pub hwinfo_input_event_node : Text → Option Text
unfolding all_words is_event_suffix split strip_prefix
hwinfo_input_event_node value =
    find (λ part. is_event_suffix (strip_prefix (codes "/dev/input/event") part))
      (all_words (split b',' value))

abbrev input_kind_of : Text → HwinfoInputKind
unfolding text_eq
input_kind_of value =
    if text_eq value (codes "keyboard")
    then keyboard
    else if text_eq value (codes "mouse")
    then mouse
    else unknown_input

unfoldable pub hwinfo_input_field : Text → Text → HwinfoInputRecord → HwinfoInputRecord
unfolding input_kind_of clean_hwinfo_input_value clean_hwinfo_input_modules hwinfo_input_event_node
    text_eq
hwinfo_input_field key value r =
    if text_eq key (codes "Hardware Class")
    then record r { input_kind = input_kind_of value }
    else if text_eq key (codes "Model")
    then record r { model = clean_hwinfo_input_value value }
    else if text_eq key (codes "Vendor") || text_eq key (codes "SubVendor")
    then record r { vendor = clean_hwinfo_input_value value }
    else if text_eq key (codes "Device")
    then record r { device = clean_hwinfo_input_value value }
    else if text_eq key (codes "Driver")
    then record r { driver = clean_hwinfo_input_value value }
    else if text_eq key (codes "Driver Modules")
    then record r { driver_modules = clean_hwinfo_input_modules value }
    else if (text_eq key (codes "Device File") || text_eq key (codes "Device Files"))
        && not (is_some r.event_node)
    then record r { event_node = hwinfo_input_event_node value }
    else r

abbrev input_section_pair : Option (Text × Text) → HwinfoInputRecord → HwinfoInputRecord
unfolding hwinfo_input_field trim
input_section_pair none r = r
input_section_pair (some (key, value)) r = hwinfo_input_field (trim key) (trim value) r

abbrev known_input : HwinfoInputKind → Bool
known_input keyboard = true
known_input mouse = true
known_input unknown_input = false

unfoldable pub parse_hwinfo_input_section : List Text → Option HwinfoInputRecord
unfolding input_section_pair split_once trim
parse_hwinfo_input_section section =
    let r =
      each_line (λ line. input_section_pair (split_once (codes ":") (trim line))) section
        hwinfo_input_default in
    if known_input r.input_kind then some r else none

unfoldable pub push_hwinfo_input_record :
    List HwinfoInputRecord → Option HwinfoInputRecord → List HwinfoInputRecord
push_hwinfo_input_record records none = records
push_hwinfo_input_record records (some r) =
    if is_some r.event_node
      || is_some r.model
      || is_some r.vendor
      || is_some r.device
      || is_some r.driver
      || not (is_empty r.driver_modules)
    then records ++ r ∷ []
    else records

pub record HwinfoInputScan : Type 0 where
  pub records : List HwinfoInputRecord
  pub section : List Text

unfoldable pub hwinfo_input_line : Text → HwinfoInputScan → HwinfoInputScan
unfolding push_hwinfo_input_record parse_hwinfo_input_section trim
hwinfo_input_line line s =
    if is_empty (trim line)
    then record {
      records = push_hwinfo_input_record s.records (parse_hwinfo_input_section s.section);
      section = [];
    }
    else record s { section = s.section ++ line ∷ [] }

unfoldable pub parse_hwinfo_input : Text → List HwinfoInputRecord
unfolding hwinfo_input_line lines
parse_hwinfo_input input =
    let s =
      each_line hwinfo_input_line (lines input ++ [] ∷ [])
        (record { records = []; section = [] }) in
    s.records
