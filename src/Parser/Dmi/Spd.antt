-- ===== src/Parser/Dmi/Spd.antt =====
-- crates/hw-parser/src/dmi.rs: the serial presence detect memory of a module. A byte is a number below
-- 256; masks and shifts are written as remainders, quotients and powers.
use qurbrix_hwinfo.Common.{
  ℕ, ◌+◌, ◌-◌, ◌*◌, ◌/◌, ◌%◌, ◌^◌, not, ◌&&◌, ◌||◌, Option, none, some, List, [], ◌∷◌, ◌++◌, Text,
  codes, is_some, all, and_then, get_elem?, length, take, drop, take_while, to_string,
  if◌then◌else◌, ◌==◌, leb, ltb, unwrap_or,
}
use qurbrix_hwinfo.Parser.Dmi.{DmiMemoryRecord, memory_record_default}
use qurbrix_hwinfo.Parser.Dmi.Clean.{clean_memory_value, filtered}

-- `bytes.get(a..b)`.
unfoldable pub get_range : ℕ → ℕ → List ℕ → Option (List ℕ)
get_range a b bytes = if leb b (length bytes) then some (take (b - a) (drop a bytes)) else none

-- A digit of `{:X}`, and two and four of them.
unfoldable pub upper_hex_digit : ℕ → ℕ
upper_hex_digit d = if ltb d 10 then 48 + d else 55 + d

unfoldable pub upper_hex_byte : ℕ → Text
unfolding upper_hex_digit
upper_hex_byte b = upper_hex_digit (b / 16) ∷ upper_hex_digit (b % 16) ∷ []

unfoldable pub ddr4_spd_size : List ℕ → Option ℕ
ddr4_spd_size bytes = and_then (get_elem? bytes 4) λ density.
    and_then (get_elem? bytes 12) λ organization. and_then (get_elem? bytes 13) λ bus.
      let density_code = density % 16 in
      let sdram_width_code = organization % 8 in
      let rank_count = organization / 8 % 8 + 1 in
      let bus_width_code = bus % 8 in
      let sdram_width = 4 * 2 ^ sdram_width_code in
      let bus_width = 8 * 2 ^ bus_width_code in
      if ltb 7 density_code || ltb 3 sdram_width_code || ltb 3 bus_width_code
      then none
      else if ltb bus_width sdram_width
      then none
      else some (256 * 2 ^ density_code / 8 * (bus_width / sdram_width) * rank_count)

unfoldable pub ddr4_spd_speed : List ℕ → Option ℕ
ddr4_spd_speed bytes = and_then (get_elem? bytes 18) λ tck_mtb.
    if tck_mtb == 0
    then none
    else let speed = (2000000 + tck_mtb * 125 / 2) / (tck_mtb * 125) in
      if ltb speed 4294967296 then some speed else none

abbrev hex_of : List ℕ → Text
hex_of [] = []
hex_of (b ∷ bs) = upper_hex_byte b ++ hex_of bs

unfoldable pub spd_hex_string : List ℕ → Option Text
unfolding clean_memory_value upper_hex_byte
spd_hex_string bytes =
    filtered (λ v. not (all (λ ch. ch == b'0' || ch == b'F') v)) (clean_memory_value (hex_of bytes))

unfoldable pub manufacturer_of : ℕ → Text
unfolding upper_hex_byte
manufacturer_of id =
    if id == 0x80ce || id == 0xce00
    then codes "Samsung"
    else if id == 0x80ad || id == 0xad00
    then codes "SK Hynix"
    else if id == 0x802c || id == 0x2c00
    then codes "Micron"
    else if id == 0x859b || id == 0x9b00
    then codes "Crucial"
    else if id == 0x0198 || id == 0x9801
    then codes "Kingston"
    else if id == 0x0443 || id == 0x4304
    then codes "Ramaxel"
    else if id == 0x04cb || id == 0xcb04
    then codes "ADATA"
    else if id == 0x89cd || id == 0xcd89
    then codes "Longsys"
    else if id == 0x8968 || id == 0x6889
    then codes "Kimtigo"
    else if id == 0x830b || id == 0x0b83
    then codes "Nanya"
    else if id == 0x80da || id == 0xda80
    then codes "Winbond"
    else if id == 0x04c8 || id == 0xc804
    then codes "Powerchip"
    else if id == 0x899b || id == 0x9b89
    then codes "YMTC"
    else if id == 0x8a91 || id == 0x918a
    then codes "CXMT"
    else if id == 0x8a8f || id == 0x8f8a
    then codes "UNIC"
    else if id == 0x86c8 || id == 0xc886
    then codes "GigaDevice"
    else if id == 0x0746 || id == 0x4607 || id == 0x0813 || id == 0x1308
    then codes "Gloway"
    else if id == 0x081a || id == 0x1a08
    then codes "UniIC"
    else if id == 0x8a02 || id == 0x028a
    then codes "KingSpec"
    else if id == 0x89f7 || id == 0xf789
    then codes "Netac"
    else if id == 0x8ab1 || id == 0xb18a
    then codes "Biwin"
    else codes "JEP106 0x" ++ (upper_hex_byte (id / 256) ++ upper_hex_byte (id % 256))

unfoldable pub spd_manufacturer_name : List ℕ → Option Text
unfolding manufacturer_of
spd_manufacturer_name (high ∷ low ∷ []) =
    let id = high * 256 + low in if id == 0 || id == 0xffff then none else some (manufacturer_of id)
spd_manufacturer_name _ = none

unfoldable pub spd_ascii_string : List ℕ → Option Text
unfolding clean_memory_value take_while
spd_ascii_string bytes =
    clean_memory_value (take_while (λ byte. not (byte == 0x00) && not (byte == 0xff)) bytes)

abbrev with_unit : Option ℕ → Text → Option Text
with_unit none unit = none
with_unit (some n) unit = some (to_string n ++ unit)

unfoldable pub parse_ddr4_spd_eeprom : List ℕ → Option DmiMemoryRecord
unfolding ddr4_spd_size ddr4_spd_speed spd_manufacturer_name spd_hex_string spd_ascii_string
    get_range to_string
parse_ddr4_spd_eeprom bytes =
    let size = with_unit (ddr4_spd_size bytes) (codes " MB") in
    let speed = with_unit (ddr4_spd_speed bytes) (codes " MT/s") in
    let manufacturer = and_then (get_range 320 322 bytes) spd_manufacturer_name in
    let serial = and_then (get_range 323 327 bytes) spd_hex_string in
    let part_number = spd_ascii_string (unwrap_or (get_range 329 349 bytes) []) in
    if is_some size
      || is_some speed
      || is_some manufacturer
      || is_some serial
      || is_some part_number
    then some (record memory_record_default {
      size = size;
      manufacturer = manufacturer;
      serial = serial;
      part_number = part_number;
      memory_type = some (codes "DDR4 SDRAM");
      speed = speed;
    })
    else none

unfoldable pub parse_ddr5_spd_eeprom : List ℕ → Option DmiMemoryRecord
unfolding spd_manufacturer_name spd_hex_string spd_ascii_string get_range
parse_ddr5_spd_eeprom bytes =
    let manufacturer = and_then (get_range 512 514 bytes) spd_manufacturer_name in
    let serial = and_then (get_range 517 521 bytes) spd_hex_string in
    let part_number = spd_ascii_string (unwrap_or (get_range 521 551 bytes) []) in
    if is_some manufacturer || is_some serial || is_some part_number
    then some (record memory_record_default {
      manufacturer = manufacturer;
      serial = serial;
      part_number = part_number;
      memory_type = some (codes "DDR5 SDRAM");
    })
    else none

unfoldable pub parse_spd_eeprom : List ℕ → Option DmiMemoryRecord
unfolding parse_ddr4_spd_eeprom parse_ddr5_spd_eeprom
parse_spd_eeprom bytes = and_then (get_elem? bytes 2) λ kind.
    if kind == 0x0c
    then parse_ddr4_spd_eeprom bytes
    else if kind == 0x12
    then parse_ddr5_spd_eeprom bytes
    else none
