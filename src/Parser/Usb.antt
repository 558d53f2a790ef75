-- ===== src/Parser/Usb.antt =====
-- crates/hw-parser/src/usb.rs: the output of lsusb. What the regular expression captures in a line, and
-- the speed in megabits that a text with a decimal fraction gives, are arguments.
use qurbrix_hwinfo.Common.{
  ℕ, ◌+◌, ◌-◌, ◌*◌, ◌/◌, ◌%◌, Bool, true, false, not, ◌&&◌, Option, none, some, List, [], ◌∷◌, ◌++◌,
  Text, codes, text_eq, trim, is_empty, is_some, join, split_whitespace, strip_prefix,
  to_ascii_lowercase, lines, each_line, filter_map, first, and_then, or_option, trim_end_matches,
  parse_unsigned, all, is_ascii_hexdigit, if◌then◌else◌, leb, ltb, ◌==◌,
}

pub record UsbRecord : Type 0 where
  pub bus : Option Text
  pub device : Option Text
  pub vendor_id : Option Text
  pub product_id : Option Text
  pub interface : Option Text
  pub manufacturer : Option Text
  pub product : Option Text
  pub serial : Option Text
  pub class : Option Text
  pub subclass : Option Text
  pub protocol : Option Text
  pub speed : Option Text
  pub max_power_ma : Option ℕ

-- The groups of the expression.
pub record LsusbCaptures : Type 0 where
  pub bus : Text
  pub device : Text
  pub vid : Text
  pub pid : Text
  pub product : Text

abbrev filled : Text → Option Text
filled value = if is_empty value then none else some value

unfoldable pub captured_usb : LsusbCaptures → UsbRecord
unfolding trim to_ascii_lowercase
captured_usb caps = record {
  bus = some caps.bus;
  device = some caps.device;
  vendor_id = some (to_ascii_lowercase caps.vid);
  product_id = some (to_ascii_lowercase caps.pid);
  interface = none;
  manufacturer = none;
  product = filled (trim caps.product);
  serial = none;
  class = none;
  subclass = none;
  protocol = none;
  speed = none;
  max_power_ma = none;
}

-- The value of a hexadecimal digit, and of digits.
unfoldable pub hex_value : ℕ → ℕ
hex_value c = if leb b'a' c then c - 87 else if leb b'A' c then c - 55 else c - 48

unfoldable pub hex_digits_value : ℕ → Text → ℕ
unfolding hex_value
hex_digits_value acc [] = acc
hex_digits_value acc (c ∷ cs) = hex_digits_value (acc * 16 + hex_value c) cs

abbrev unsigned_text : Text → Text
unsigned_text [] = []
unsigned_text (c ∷ cs) = if c == b'+' then cs else c ∷ cs

-- `u8::from_str_radix(_, 16)`: hexadecimal digits, behind a plus sign at most.
unfoldable pub parse_hex_byte : Text → Option ℕ
unfolding hex_digits_value is_ascii_hexdigit
parse_hex_byte value =
    let digits = unsigned_text value in
    if not (is_empty digits) && all is_ascii_hexdigit digits && ltb (hex_digits_value 0 digits) 256
    then some (hex_digits_value 0 digits)
    else none

abbrev lower_hex_digit : ℕ → ℕ
lower_hex_digit d = if ltb d 10 then 48 + d else 87 + d

unfoldable pub descriptor_field : Text → Text → Option Text
unfolding strip_prefix split_whitespace
descriptor_field line key = and_then (strip_prefix key line) λ rest. first (split_whitespace rest)

unfoldable pub descriptor_byte : Text → Option ℕ
unfolding strip_prefix parse_hex_byte parse_unsigned
descriptor_byte value =
    or_option
      (and_then (or_option (strip_prefix (codes "0x") value) (strip_prefix (codes "0X") value))
        parse_hex_byte)
      (parse_unsigned 256 value)

unfoldable pub descriptor_byte_field : Text → Text → Option Text
unfolding descriptor_field descriptor_byte
descriptor_byte_field line key = and_then (descriptor_field line key) λ value.
    and_then (descriptor_byte value)
      λ byte. some (lower_hex_digit (byte / 16) ∷ lower_hex_digit (byte % 16) ∷ [])

abbrev indexed : List Text → Option Text
unfolding text_eq join
indexed [] = none
indexed (index ∷ parts) =
    if text_eq index (codes "0") then none else filled (join (codes " ") parts)

unfoldable pub descriptor_string_field : Text → Text → Option Text
unfolding strip_prefix split_whitespace indexed
descriptor_string_field line key =
    and_then (strip_prefix key line) λ rest. indexed (split_whitespace rest)

unfoldable pub parse_max_power_ma : Text → Option ℕ
unfolding trim trim_end_matches parse_unsigned
parse_max_power_ma value =
    parse_unsigned 4294967296 (trim (trim_end_matches (codes "mA") (trim value)))

pub record UsbScan : Type 0 where
  pub records : List UsbRecord
  pub current : Option UsbRecord
  pub in_interface : Bool

abbrev finished_usb : List UsbRecord → Option UsbRecord → List UsbRecord
finished_usb records none = records
finished_usb records (some r) = records ++ r ∷ []

module _ (re : Text → Option LsusbCaptures) (parse_negotiated_speed_mbps : Text → Option Text) where
  unfoldable pub parse_lsusb : Text → List UsbRecord
  unfolding captured_usb lines
  parse_lsusb input =
      filter_map (λ line. and_then (re line) λ caps. some (captured_usb caps)) (lines input)

  -- A line of the device's own descriptor.
  unfoldable pub device_line : Text → UsbRecord → UsbRecord
  unfolding descriptor_string_field descriptor_field parse_max_power_ma strip_prefix
  device_line line r = elim (descriptor_string_field line (codes "iManufacturer")) [
    | some value ↦ record r { manufacturer = some value }
    | none ↦ elim (descriptor_string_field line (codes "iProduct")) [
      | some value ↦ record r { product = some value }
      | none ↦ elim (descriptor_string_field line (codes "iSerial")) [
        | some value ↦ record r { serial = some value }
        | none ↦ elim (descriptor_field line (codes "MaxPower")) [
          | some value ↦ record r { max_power_ma = parse_max_power_ma value }
          | none ↦ elim (strip_prefix (codes "Negotiated speed:") line) [
            | some value ↦ record r { speed = parse_negotiated_speed_mbps value }
            | none ↦ r
          ]
        ]
      ]
    ]
  ]

  -- A line of an interface's descriptor: the first value of each field stays.
  unfoldable pub interface_line : Text → UsbRecord → UsbRecord
  unfolding descriptor_field descriptor_byte_field
  interface_line line r =
      if is_some r.class && is_some r.subclass && is_some r.protocol
      then r
      else elim (descriptor_field line (codes "bInterfaceNumber")) [
        | some value ↦ record r { interface = or_option r.interface (some value) }
        | none ↦ elim (descriptor_byte_field line (codes "bInterfaceClass")) [
          | some value ↦ record r { class = or_option r.class (some value) }
          | none ↦ elim (descriptor_byte_field line (codes "bInterfaceSubClass")) [
            | some value ↦ record r { subclass = or_option r.subclass (some value) }
            | none ↦ elim (descriptor_byte_field line (codes "bInterfaceProtocol")) [
              | some value ↦ record r { protocol = or_option r.protocol (some value) }
              | none ↦ r
            ]
          ]
        ]
      ]

  -- The record that is being filled, with a line of its descriptors.
  unfoldable pub descriptor_line : Bool → Text → Option UsbRecord → Option UsbRecord
  unfolding device_line interface_line
  descriptor_line in_interface line none = none
  descriptor_line in_interface line (some r) =
      some (if in_interface then interface_line line r else device_line line r)

  unfoldable pub verbose_line : Text → UsbScan → UsbScan
  unfolding parse_lsusb descriptor_line trim text_eq
  verbose_line line s = elim (first (parse_lsusb line)) [
    | some r ↦ record {
      records = finished_usb s.records s.current;
      current = some (record r { product = and_then r.product filled });
      in_interface = false;
    }
    | none ↦
        if text_eq (trim line) (codes "Interface Descriptor:")
        then record s { in_interface = true }
        else record s { current = descriptor_line s.in_interface (trim line) s.current }
  ]

  unfoldable pub parse_lsusb_verbose : Text → List UsbRecord
  unfolding verbose_line lines
  parse_lsusb_verbose input =
      let s =
        each_line verbose_line (lines input)
          (record { records = []; current = none; in_interface = false }) in
      finished_usb s.records s.current
