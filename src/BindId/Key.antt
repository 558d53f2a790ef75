-- ===== src/BindId/Key.antt =====
-- crates/hw-bindid/src/key.rs: the keys of the components, and the id that they bind.
use qurbrix_hwinfo.Common.{
  Bool, ◌&&◌, Option, none, some, List, [], ◌∷◌, ◌++◌, map, Text, codes, text_eq, text_leb, sort,
  split_whitespace, join, eq_ignore_ascii_case, to_ascii_lowercase, split, length, take,
  is_ascii_hexdigit, replace, is_empty, any, all, filter_map, and_then, if◌then◌else◌, ◌==◌, ◌||◌,
}

abbrev pub placeholders : List Text
placeholders =
    codes "none"
    ∷ codes "n/a"
    ∷ codes "not specified"
    ∷ codes "no asset tag"
    ∷ codes "to be filled by o.e.m."
    ∷ codes "system serial number"
    ∷ codes "default string"
    ∷ codes "unknown"
    ∷ []

unfoldable pub collapse_whitespace : Text → Text
unfolding split_whitespace join
collapse_whitespace value = join (codes " ") (split_whitespace value)

unfoldable pub is_placeholder_value : Text → Bool
unfolding collapse_whitespace eq_ignore_ascii_case
is_placeholder_value value = any (eq_ignore_ascii_case (collapse_whitespace value)) placeholders

unfoldable pub normalize_value : Text → Option Text
unfolding collapse_whitespace is_placeholder_value
normalize_value value =
    if is_empty (collapse_whitespace value) || is_placeholder_value (collapse_whitespace value)
    then none
    else some (collapse_whitespace value)

-- Two hexadecimal digits. A digit is one byte, so two bytes are two characters.
unfoldable pub is_octet : Text → Bool
unfolding is_ascii_hexdigit
is_octet part = (length part == 2) && all is_ascii_hexdigit part

-- The address itself, when it has the form of one and is not the address of all zeros.
unfoldable pub checked_mac : Text → Option Text
unfolding is_octet split text_eq
checked_mac mac =
    if text_eq mac (codes "00:00:00:00:00:00")
    then none
    else if (length (split b':' mac) == 6) && all is_octet (split b':' mac)
    then some mac
    else none

unfoldable pub normalize_mac : Text → Option Text
unfolding normalize_value checked_mac to_ascii_lowercase
normalize_mac value = and_then (normalize_value value) λ v. checked_mac (to_ascii_lowercase v)

unfoldable pub escape_value : Text → Text
unfolding replace
escape_value value =
    replace b'=' (codes "%3D") (replace b'|' (codes "%7C") (replace b'%' (codes "%25") value))

unfoldable pub normalize_field : Text → Option Text → Option Text
unfolding normalize_mac normalize_value text_eq
normalize_field name value =
    if text_eq name (codes "mac")
    then and_then value normalize_mac
    else and_then value normalize_value

-- A field of a component: its name, and its value where the device has one.
abbrev pub Field : Type 0
Field = Text × Option Text

unfoldable pub normalized_fields : List Field → List (Text × Text)
unfolding normalize_field
normalized_fields fields =
    filter_map (λ f. and_then (normalize_field f.0 f.1) λ v. some (f.0, v)) fields

unfoldable pub by_name : Text × Text → Text × Text → Bool
unfolding text_leb
by_name left right = text_leb left.0 right.0

unfoldable pub print_field : Text × Text → Text
unfolding escape_value
print_field f = f.0 ++ (codes "=" ++ escape_value f.1)

unfoldable pub component_key : Text → List Field → Option Text
unfolding normalized_fields by_name print_field sort join
component_key kind fields =
    if is_empty (normalized_fields fields)
    then none
    else some (
        kind
        ++ (codes ":"
            ++ join (codes "|") (map print_field (sort by_name (normalized_fields fields)))))

-- `bindid_value`, over the hexadecimal SHA-1 of a text.
unfoldable pub bindid_value : (Text → Text) → List Text → Text
unfolding sort join text_leb
bindid_value sha1_hex keys = take 16 (sha1_hex (join (codes "||") (sort text_leb keys)))
