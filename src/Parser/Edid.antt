-- ===== src/Parser/Edid.antt =====
-- crates/hw-parser/src/edid.rs. A byte is a number below 256. A gamma is kept in hundredths: the source
-- divides that number by 100 as a 32-bit float.
pub mod Swapped
pub mod Widths
use qurbrix_hwinfo.Common.{
  ℕ, ◌+◌, ◌-◌, ◌*◌, ◌/◌, ◌%◌, ◌^◌, Bool, true, false, not, ◌&&◌, ◌||◌, Option, none, some, List, [],
  ◌∷◌, Text, text_eq, if◌then◌else◌, ltb, leb, ◌==◌, length, take, drop, get_or, or_option,
  and_then, reverse, is_empty,
}
use qurbrix_hwinfo.Parser.Lossy.{from_utf8_lossy}

pub record PreferredMode : Type 0 where
  pub width : ℕ
  pub height : ℕ
  pub refresh_hz : ℕ

pub record EdidRecord : Type 0 where
  pub manufacturer : Option Text
  pub product_code : Option ℕ
  pub serial : Option Text
  pub name : Option Text
  pub week : Option ℕ
  pub year : Option ℕ
  pub size_cm : Option (ℕ × ℕ)
  pub size_mm : Option (ℕ × ℕ)
  pub gamma : Option ℕ
  pub preferred_mode : Option PreferredMode

pub data EdidError : Type 0 where
  too_short bad_header bad_checksum : EdidError

pub data EdidResult : Type 0 where
  ok : EdidRecord → EdidResult
  err : EdidError → EdidResult

abbrev pub edid_header : List ℕ
edid_header = 0 ∷ 255 ∷ 255 ∷ 255 ∷ 255 ∷ 255 ∷ 255 ∷ 0 ∷ []

abbrev pub pair_swapped_edid_header : List ℕ
pair_swapped_edid_header = 255 ∷ 0 ∷ 255 ∷ 255 ∷ 255 ∷ 255 ∷ 0 ∷ 255 ∷ []

-- `chunks(2)`; a chunk of one byte, which a block of 128 does not have, would panic.
unfoldable pub pair_swap_block : List ℕ → List ℕ
pair_swap_block [] = []
pair_swap_block (a ∷ []) = []
pair_swap_block (a ∷ b ∷ bytes) = b ∷ a ∷ pair_swap_block bytes

abbrev pub byte : List ℕ → ℕ → ℕ
byte bytes i = get_or bytes i 0

-- `&block[offset..offset + 18]`.
abbrev pub descriptor : List ℕ → ℕ → List ℕ
descriptor block offset = take 18 (drop offset block)

abbrev pub u16_le : ℕ → ℕ → ℕ
u16_le low high = low + high * 256

-- One letter of the manufacturer, from five bits.
abbrev pub letter : ℕ → ℕ → Option ℕ
letter value shift =
    let c = value / 2 ^ shift % 32 in if leb 1 c && leb c 26 then some (b'A' + c - 1) else none

unfoldable pub parse_manufacturer : ℕ → ℕ → Option Text
parse_manufacturer msb lsb =
    let value = msb * 256 + lsb in
    and_then (letter value 10)
      (λ a. and_then (letter value 5) (λ b. and_then (letter value 0) (λ c. some (a ∷ b ∷ c ∷ []))))

-- Twelve bits: the low byte, and four bits of another.
abbrev pub high_nibble : ℕ → ℕ → ℕ
high_nibble low shared = low + shared / 16 * 256

abbrev pub low_nibble : ℕ → ℕ → ℕ
low_nibble low shared = low + shared % 16 * 256

unfoldable pub refresh_hz : ℕ → ℕ → ℕ → ℕ
refresh_hz pixel_clock h_total v_total =
    let total_pixels = h_total * v_total in
    if total_pixels == 0
    then 0
    else (pixel_clock * 10000 + total_pixels / 2) / total_pixels % 2 ^ 16

unfoldable pub parse_preferred_mode : List ℕ → Option PreferredMode
unfolding refresh_hz
parse_preferred_mode desc =
    let pixel_clock = u16_le (byte desc 0) (byte desc 1) in
    let width = high_nibble (byte desc 2) (byte desc 4) in
    let h_blank = low_nibble (byte desc 3) (byte desc 4) in
    let height = high_nibble (byte desc 5) (byte desc 7) in
    let v_blank = low_nibble (byte desc 6) (byte desc 7) in
    if pixel_clock == 0
    then none
    else if width == 0 || height == 0
    then none
    else some (record {
      width = width;
      height = height;
      refresh_hz = refresh_hz pixel_clock (width + h_blank) (height + v_blank);
    })

unfoldable pub parse_dtd_size_mm : List ℕ → Option (ℕ × ℕ)
parse_dtd_size_mm desc =
    let pixel_clock = u16_le (byte desc 0) (byte desc 1) in
    let width = high_nibble (byte desc 12) (byte desc 14) in
    let height = low_nibble (byte desc 13) (byte desc 14) in
    if pixel_clock == 0
    then none
    else if not (width == 0) && not (height == 0)
    then some (width, height)
    else none

abbrev pub abs_diff : ℕ → ℕ → ℕ
abs_diff a b = (a - b) + (b - a)

-- Within a centimetre of the size in centimetres, where there is one.
abbrev pub is_close : Option (ℕ × ℕ) → ℕ × ℕ → Bool
is_close none size = true
is_close (some (width, height)) size =
    ltb (abs_diff size.0 width) 10 && ltb (abs_diff size.1 height) 10

unfoldable pub find_size : Option (ℕ × ℕ) → List (List ℕ) → Option (ℕ × ℕ)
unfolding parse_dtd_size_mm
find_size base [] = none
find_size base (desc ∷ descs) =
    let rest = find_size base descs in
    elim (parse_dtd_size_mm desc) [
      | none ↦ rest
      | some size ↦ if is_close base size then some size else rest
    ]

abbrev pub descriptors : List ℕ → List (List ℕ)
descriptors block =
    descriptor block 54 ∷ descriptor block 72 ∷ descriptor block 90 ∷ descriptor block 108 ∷ []

abbrev pub in_mm : Option (ℕ × ℕ) → Option (ℕ × ℕ)
in_mm none = none
in_mm (some (width, height)) = some (width * 10, height * 10)

unfoldable pub physical_size_mm : List ℕ → Option (ℕ × ℕ) → Option (ℕ × ℕ)
unfolding find_size
physical_size_mm block base_size_cm =
    or_option (find_size (in_mm base_size_cm) (descriptors block)) (in_mm base_size_cm)

unfoldable pub parse_gamma : ℕ → Option ℕ
parse_gamma value = if value == 255 then none else some (value + 100)

-- `trim_matches(['\0', '\n', '\r', ' '])`.
abbrev pub is_trimmed : ℕ → Bool
is_trimmed c = c == 0 || c == 10 || c == 13 || c == 32

unfoldable pub trim_left : Text → Text
trim_left [] = []
trim_left (c ∷ cs) = let rest = trim_left cs in if is_trimmed c then rest else c ∷ cs

unfoldable pub trim_matches : Text → Text
unfolding trim_left
trim_matches s = reverse (trim_left (reverse (trim_left s)))

unfoldable pub parse_text_descriptor : List ℕ → Option (ℕ × Text)
unfolding trim_matches from_utf8_lossy
parse_text_descriptor desc =
    let text = trim_matches (from_utf8_lossy (take 13 (drop 5 desc))) in
    if not (byte desc 0 == 0)
      || not (byte desc 1 == 0)
      || not (byte desc 2 == 0)
      || not (byte desc 4 == 0)
    then none
    else if is_empty text
    then none
    else some (byte desc 3, text)

-- The names and the serial number found so far.
pub record Names : Type 0 where
  pub name : Option Text
  pub alphanumeric_name : Option Text
  pub serial : Option Text

unfoldable pub take_text : Names → Option (ℕ × Text) → Names
take_text names none = names
take_text names (some (tag, text)) =
    if tag == 252
    then record names { name = some text }
    else if tag == 254
    then record names { alphanumeric_name = some text }
    else if tag == 255
    then record names { serial = some text }
    else names

unfoldable pub take_texts : Names → List (List ℕ) → Names
unfolding take_text parse_text_descriptor
take_texts names [] = names
take_texts names (desc ∷ descs) = take_texts (take_text names (parse_text_descriptor desc)) descs

-- The sum with `wrapping_add`.
unfoldable pub checksum : List ℕ → ℕ
checksum [] = 0
checksum (b ∷ bytes) = (b + checksum bytes) % 256

abbrev pub size_cm : List ℕ → Option (ℕ × ℕ)
size_cm block =
    if not (byte block 21 == 0) && not (byte block 22 == 0)
    then some (byte block 21, byte block 22)
    else none

abbrev pub fields : List ℕ → EdidRecord
fields block =
    let names =
      take_texts (record { name = none; alphanumeric_name = none; serial = none })
        (descriptors block) in
    record {
      manufacturer = parse_manufacturer (byte block 8) (byte block 9);
      product_code = some (u16_le (byte block 10) (byte block 11));
      serial = names.serial;
      name = or_option names.name names.alphanumeric_name;
      week = some (byte block 16);
      year = some (1990 + byte block 17);
      size_cm = size_cm block;
      size_mm = physical_size_mm block (size_cm block);
      gamma = parse_gamma (byte block 23);
      preferred_mode = parse_preferred_mode (descriptor block 54);
    }

-- The checks of a block in the usual byte order, and its fields.
unfoldable pub parse_block : List ℕ → EdidResult
unfolding take_texts parse_manufacturer physical_size_mm parse_gamma parse_preferred_mode checksum
parse_block block =
    if not (text_eq (take 8 block) edid_header)
    then err EdidError.bad_header
    else if not (checksum block == 0)
    then err EdidError.bad_checksum
    else ok (fields block)

unfoldable pub parse_edid : List ℕ → EdidResult
unfolding parse_block pair_swap_block
parse_edid bytes =
    if ltb (length bytes) 128
    then err EdidError.too_short
    else if text_eq (take 8 bytes) pair_swapped_edid_header
    then parse_block (pair_swap_block (take 128 bytes))
    else parse_block (take 128 bytes)
