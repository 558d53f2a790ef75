-- ===== src/Parser/Bluetooth.antt =====
-- crates/hw-parser/src/bluetooth.rs. What the two regular expressions capture is an argument.
use qurbrix_hwinfo.Common.{
  ℕ, ◌&&◌, leb, Bool, ◌||◌, Option, none, some, List, [], ◌∷◌, ◌++◌, retain, Text, codes, text_eq,
  trim, trim_start, is_empty, is_some, all, filter_map, eq_ignore_ascii_case, and_then, lines,
  each_line, split_whitespace, split_once, strip_prefix, starts_with, if◌then◌else◌,
}
use qurbrix_hwinfo.Parser.Node.{any_node, nodes}

pub record BluetoothControllerRecord : Type 0 where
  pub name : Option Text
  pub address : Option Text
  pub bus : Option Text
  pub flags : List Text
  pub hci_version : Option Text
  pub lmp_version : Option Text
  pub manufacturer : Option Text
  pub device_class : Option Text
  pub features : List Text

pub record BluetoothPairedDeviceRecord : Type 0 where
  pub address : Text
  pub name : Text

pub record LshwCommunicationRecord : Type 0 where
  pub logical_name : Option Text
  pub product : Option Text
  pub vendor : Option Text
  pub bus_info : Option Text
  pub driver : Option Text

abbrev pub lshw_communication_default : LshwCommunicationRecord
lshw_communication_default = record {
  logical_name = none;
  product = none;
  vendor = none;
  bus_info = none;
  driver = none;
}

-- `line.split("Bus:").nth(1)`: what follows the first mark, up to the next.
abbrev second_part : Option (Text × Text) → Option Text
unfolding split_once
second_part none = none
second_part (some (before, after)) = elim (split_once (codes "Bus:") after) [
  | none ↦ some after
  | some (part, rest) ↦ some part
]

abbrev controller_name : Option (Text × Text) → Option Text
unfolding trim
controller_name none = none
controller_name (some (name, rest)) = if is_empty (trim name) then none else some (trim name)

unfoldable pub new_controller : Text → BluetoothControllerRecord
unfolding second_part controller_name split_once trim
new_controller line = record {
  name = controller_name (split_once (codes ":") line);
  address = none;
  bus = and_then (second_part (split_once (codes "Bus:") line)) λ v. some (trim v);
  flags = [];
  hci_version = none;
  lmp_version = none;
  manufacturer = none;
  device_class = none;
  features = [];
}

abbrev is_ascii_uppercase : ℕ → Bool
is_ascii_uppercase c = leb b'A' c && leb c b'Z'

-- The words of capitals, for a record that has none yet.
unfoldable pub flags_line : Text → BluetoothControllerRecord → BluetoothControllerRecord
unfolding split_whitespace
flags_line line r =
    if is_empty r.flags
    then record r { flags = retain (all is_ascii_uppercase) (split_whitespace line) }
    else r

pub record HciScan : Type 0 where
  pub records : List BluetoothControllerRecord
  pub current : Option BluetoothControllerRecord

abbrev finished_controller :
    List BluetoothControllerRecord
    → Option BluetoothControllerRecord
    → List BluetoothControllerRecord
finished_controller records none = records
finished_controller records (some r) = records ++ r ∷ []

module _ (address_re name_re : Text → Option Text) where
  unfoldable pub controller_line : Text → BluetoothControllerRecord → BluetoothControllerRecord
  unfolding flags_line strip_prefix split_whitespace trim trim_start
  controller_line line r = elim (address_re line) [
    | some address ↦ record r { address = some address }
    | none ↦ elim (name_re line) [
      | some name ↦ record r { name = some name }
      | none ↦ elim (strip_prefix (codes "HCI Version:") (trim_start line)) [
        | some rest ↦ record r { hci_version = some (trim rest) }
        | none ↦ elim (strip_prefix (codes "LMP Version:") (trim_start line)) [
          | some rest ↦ record r { lmp_version = some (trim rest) }
          | none ↦ elim (strip_prefix (codes "Manufacturer:") (trim_start line)) [
            | some rest ↦ record r { manufacturer = some (trim rest) }
            | none ↦ elim (strip_prefix (codes "Class:") (trim_start line)) [
              | some rest ↦ record r { device_class = some (trim rest) }
              | none ↦ elim (strip_prefix (codes "Features:") (trim_start line)) [
                | some rest ↦ record r { features = split_whitespace rest }
                | none ↦ flags_line line r
              ]
            ]
          ]
        ]
      ]
    ]
  ]

  unfoldable pub hci_line : Text → HciScan → HciScan
  unfolding new_controller controller_line starts_with
  hci_line line s =
      if starts_with (codes "hci") line
      then record {
        records = finished_controller s.records s.current;
        current = some (new_controller line);
      }
      else record s { current = and_then s.current λ r. some (controller_line line r) }

  unfoldable pub parse_hciconfig : Text → List BluetoothControllerRecord
  unfolding hci_line lines
  parse_hciconfig input =
      let s = each_line hci_line (lines input) (record { records = []; current = none }) in
      finished_controller s.records s.current

abbrev paired : Option (Text × Text) → Option BluetoothPairedDeviceRecord
paired none = none
paired (some (address, name)) = some (record { address = address; name = name })

unfoldable pub parse_bluetoothctl_paired_devices : Text → List BluetoothPairedDeviceRecord
unfolding strip_prefix split_once lines
parse_bluetoothctl_paired_devices input =
    filter_map
      (λ line.
        and_then (strip_prefix (codes "Device ") line) λ rest. paired (split_once (codes " ") rest))
      (lines input)

unfoldable pub clean_lshw_communication_value : Text → Option Text
unfolding trim eq_ignore_ascii_case text_eq
clean_lshw_communication_value value =
    if is_empty (trim value)
      || eq_ignore_ascii_case (trim value) (codes "n/a")
      || text_eq (trim value) (codes "(none)")
    then none
    else some (trim value)

abbrev communication_setting :
    Option (Text × Text) → LshwCommunicationRecord → LshwCommunicationRecord
unfolding text_eq clean_lshw_communication_value
communication_setting none r = r
communication_setting (some (key, value)) r =
    if text_eq key (codes "driver")
    then record r { driver = clean_lshw_communication_value value }
    else r

unfoldable pub parse_lshw_communication_configuration :
    List Text → LshwCommunicationRecord → LshwCommunicationRecord
unfolding communication_setting split_once
parse_lshw_communication_configuration [] r = r
parse_lshw_communication_configuration (part ∷ parts) r =
    parse_lshw_communication_configuration parts
      (communication_setting (split_once (codes "=") part) r)

unfoldable pub lshw_communication_field :
    Text → Text → LshwCommunicationRecord → LshwCommunicationRecord
unfolding clean_lshw_communication_value parse_lshw_communication_configuration split_whitespace
    text_eq
lshw_communication_field key value r =
    if text_eq key (codes "logical name")
    then record r { logical_name = clean_lshw_communication_value value }
    else if text_eq key (codes "product")
    then record r { product = clean_lshw_communication_value value }
    else if text_eq key (codes "vendor")
    then record r { vendor = clean_lshw_communication_value value }
    else if text_eq key (codes "bus info")
    then record r { bus_info = clean_lshw_communication_value value }
    else if text_eq key (codes "configuration")
    then parse_lshw_communication_configuration (split_whitespace value) r
    else r

unfoldable pub push_lshw_communication_record :
    List LshwCommunicationRecord → Option LshwCommunicationRecord → List LshwCommunicationRecord
push_lshw_communication_record records none = records
push_lshw_communication_record records (some r) =
    if is_some r.logical_name || is_some r.product || is_some r.vendor || is_some r.bus_info
    then records ++ r ∷ []
    else records

unfoldable pub parse_lshw_communication : Text → List LshwCommunicationRecord
unfolding any_node nodes push_lshw_communication_record lshw_communication_field
parse_lshw_communication =
    nodes (codes "*-communication") any_node lshw_communication_default
      push_lshw_communication_record lshw_communication_field
