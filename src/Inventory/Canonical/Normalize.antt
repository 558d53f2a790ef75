-- ===== src/Inventory/Canonical/Normalize.antt =====
-- canonical.rs: `normalize`, `normalize_mac`, `normalize_physical_mac`, `joined`, `escape` and
-- `normalize_records`.
use qurbrix_hwinfo.Common.{
  ℕ, ◌+◌, ◌*◌, ◌-◌, ◌/◌, ◌%◌, Bool, ◌&&◌, ◌||◌, not, Option, none, some, List, [], ◌∷◌, Text, codes,
  text_eq, text_leb, eq_ignore_ascii_case, is_empty, split_whitespace, join, replace,
  to_ascii_lowercase, split, is_ascii_hexdigit, any, all, length, filter_map, and_then, sort, dedup,
  ◌==◌, leb, if◌then◌else◌,
}

abbrev pub placeholders : List Text
placeholders =
    codes "none"
    ∷ codes "n/a"
    ∷ codes "not specified"
    ∷ codes "no asset tag"
    ∷ codes "to be filled by o.e.m."
    ∷ codes "system serial number"
    ∷ codes "default string"
    ∷ codes "unknown"
    ∷ []

unfoldable pub is_placeholder : Text → Bool
is_placeholder value = any (eq_ignore_ascii_case value) placeholders

-- `split_whitespace` and `join` with one space.
unfoldable pub collapse : Text → Text
collapse value = join (codes " ") (split_whitespace value)

unfoldable pub normalize : Text → Option Text
normalize value =
    let v = collapse value in
    if is_empty v || is_placeholder v then none else some (to_ascii_lowercase v)

-- Two hexadecimal digits.
unfoldable pub is_octet : Text → Bool
is_octet part = length part == 2 && all is_ascii_hexdigit part

unfoldable pub normalize_mac : Text → Option Text
unfolding is_octet
normalize_mac value = and_then (normalize value) λ v.
    let mac = replace b'-' (codes ":") v in
    let parts = split b':' mac in
    if length parts == 6 && all is_octet parts && not (text_eq mac (codes "00:00:00:00:00:00"))
    then some mac
    else none

unfoldable pub hex_digit : ℕ → ℕ
hex_digit c = if leb b'a' c then c - b'a' + 10 else if leb b'A' c then c - b'A' + 10 else c - b'0'

-- `u8::from_str_radix(…, 16)` of the first two characters, which are hexadecimal digits here.
unfoldable pub first_octet : Text → Option ℕ
unfolding hex_digit
first_octet (a ∷ b ∷ rest) =
    if is_ascii_hexdigit a && is_ascii_hexdigit b
    then some (hex_digit a * 16 + hex_digit b)
    else none
first_octet _ = none

-- A locally administered address, bit 1 of the first octet set, is no physical one.
unfoldable pub normalize_physical_mac : Text → Option Text
normalize_physical_mac value =
    and_then (normalize_mac value)
      λ mac. and_then (first_octet mac) λ octet. if octet / 2 % 2 == 0 then some mac else none

unfoldable pub normalize_records : List Text → List Text
normalize_records records = dedup text_eq (sort text_leb records)

unfoldable pub joined : List Text → Option Text
joined values =
    let normalized = dedup text_eq (sort text_leb (filter_map normalize values)) in
    if is_empty normalized then none else some (join (codes ",") normalized)

unfoldable pub escape : Text → Text
escape value =
    replace b'=' (codes "%3d") (replace b'|' (codes "%7c") (replace b'%' (codes "%25") value))
