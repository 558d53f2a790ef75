-- ===== src/Parser/Dmi/Units.antt =====
-- crates/hw-parser/src/dmi.rs: sizes and speeds. An `u64` product wraps around, as in a release build.
pub mod Printed
use qurbrix_hwinfo.Common.{
  ℕ, ◌*◌, ◌%◌, Bool, true, false, not, ◌&&◌, ◌||◌, Option, none, some, List, [], ◌∷◌, Text, codes,
  text_eq, is_empty, and_then, unwrap_or, first, find, split_whitespace, to_ascii_lowercase,
  trim_start, starts_with, lines, is_ascii_digit, take_while, skip_while, parse_unsigned,
  parse_digits, if◌then◌else◌,
}

abbrev pub u64_bound : ℕ
u64_bound = 18446744073709551616

abbrev pub u32_bound : ℕ
u32_bound = 4294967296

abbrev second : List Text → Option Text
second [] = none
second (a ∷ []) = none
second (a ∷ b ∷ l) = some b

-- The number and the unit, in two words or in one.
unfoldable pub size_parts : List Text → Option (ℕ × Text)
unfolding parse_unsigned parse_digits is_ascii_digit take_while skip_while
size_parts [] = none
size_parts (word ∷ words) = elim (parse_unsigned u64_bound word) [
  | some number ↦ some (number, unwrap_or (first words) [])
  | none ↦
      let digits = take_while is_ascii_digit word in
      let unit = skip_while is_ascii_digit word in
      if is_empty unit || is_empty digits
      then none
      else and_then (parse_unsigned u64_bound digits) λ number. some (number, unit)
]

unfoldable pub scaled : ℕ → Text → ℕ
unfolding text_eq
scaled number unit =
    if text_eq unit (codes "kb") || text_eq unit (codes "kib")
    then number * 1024 % u64_bound
    else if text_eq unit (codes "mb") || text_eq unit (codes "mib")
    then number * 1048576 % u64_bound
    else if text_eq unit (codes "gb") || text_eq unit (codes "gib")
    then number * 1073741824 % u64_bound
    else if text_eq unit (codes "tb") || text_eq unit (codes "tib")
    then number * 1099511627776 % u64_bound
    else number

unfoldable pub parse_size_to_bytes : Option Text → Option ℕ
unfolding size_parts scaled split_whitespace to_ascii_lowercase
parse_size_to_bytes value = and_then value λ v.
    and_then (size_parts (split_whitespace v))
      λ parts. some (scaled parts.0 (to_ascii_lowercase parts.1))

-- The three words of the line.
unfoldable pub meminfo_words : List Text → Option ℕ
unfolding parse_unsigned text_eq
meminfo_words (label ∷ number ∷ unit ∷ rest) =
    if text_eq label (codes "MemTotal:")
    then and_then (parse_unsigned u64_bound number)
        (λ kib. if text_eq unit (codes "kB") then some (kib * 1024 % u64_bound) else none)
    else none
meminfo_words _ = none

unfoldable pub parse_proc_meminfo_total_bytes : Text → Option ℕ
unfolding meminfo_words split_whitespace trim_start starts_with lines
parse_proc_meminfo_total_bytes input =
    and_then (find (λ line. starts_with (codes "MemTotal:") (trim_start line)) (lines input))
      λ line. meminfo_words (split_whitespace line)

unfoldable pub parse_speed_mtps : Option Text → Option ℕ
unfolding parse_unsigned split_whitespace
parse_speed_mtps value =
    and_then value λ v. and_then (first (split_whitespace v)) λ word. parse_unsigned u32_bound word

unfoldable pub parse_width_bits : Option Text → Option ℕ
unfolding parse_unsigned split_whitespace
parse_width_bits value =
    and_then value λ v. and_then (first (split_whitespace v)) λ word. parse_unsigned u32_bound word
