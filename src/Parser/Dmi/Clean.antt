-- ===== src/Parser/Dmi/Clean.antt =====
-- crates/hw-parser/src/dmi.rs: which values count.
use qurbrix_hwinfo.Common.{
  Bool, not, ◌&&◌, Option, none, some, List, [], ◌∷◌, Text, codes, text_eq, trim, is_empty, any,
  all, first, find, eq_ignore_ascii_case, to_ascii_lowercase, to_ascii_uppercase, split_whitespace,
  strip_prefix, starts_with, starts_with_char, is_whitespace, is_ascii_digit, is_ascii_alphanumeric,
  trim_matches, take_while, skip_while, and_then, if◌then◌else◌, ltb, length, ◌++◌, ◌||◌, map,
  strip_suffix, unwrap_or,
}

unfoldable pub clean_dmi_value : Text → Option Text
unfolding trim
clean_dmi_value value = if is_empty (trim value) then none else some (trim value)

abbrev pub unset_identities : List Text
unset_identities =
    codes "none"
    ∷ codes "n/a"
    ∷ codes "not specified"
    ∷ codes "no asset tag"
    ∷ codes "not settable"
    ∷ codes "to be filled by o.e.m."
    ∷ codes "system serial number"
    ∷ []

-- `filter` of an optional value.
abbrev pub filtered : (Text → Bool) → Option Text → Option Text
filtered keep none = none
filtered keep (some v) = if keep v then some v else none

unfoldable pub clean_dmi_identity_value : Text → Option Text
unfolding clean_dmi_value to_ascii_lowercase text_eq
clean_dmi_identity_value value =
    filtered (λ v. not (any (text_eq (to_ascii_lowercase v)) unset_identities))
      (clean_dmi_value value)

unfoldable pub clean_memory_value : Text → Option Text
unfolding trim eq_ignore_ascii_case
clean_memory_value value =
    if not (is_empty (trim value))
      && not (eq_ignore_ascii_case (trim value) (codes "Not Specified"))
      && not (eq_ignore_ascii_case (trim value) (codes "Unknown"))
    then some (trim value)
    else none

unfoldable pub clean_memory_serial : Text → Option Text
unfolding clean_memory_value text_eq
clean_memory_serial value = filtered (λ v. not (text_eq v (codes "0"))) (clean_memory_value value)

-- A size whose first word is a number of more than nine digits is not kept.
abbrev is_long_number : Text → Bool
is_long_number word = ltb 9 (length word) && all is_ascii_digit word

unfoldable pub clean_memory_size : Text → Option Text
unfolding clean_memory_value text_eq split_whitespace is_ascii_digit
clean_memory_size value =
    filtered
      (λ v.
        text_eq v (codes "No Module Installed")
        || not (is_long_number (unwrap_or (first (split_whitespace v)) [])))
      (clean_memory_value value)

unfoldable pub clean_memory_type : Text → Option Text
unfolding clean_memory_value text_eq
clean_memory_type value =
    filtered (λ v. not (text_eq v (codes "<OUT OF SPEC>"))) (clean_memory_value value)

unfoldable pub parse_smbios_version_line : Text → Option Text
unfolding strip_prefix strip_suffix trim
parse_smbios_version_line value = and_then (strip_prefix (codes "SMBIOS ") value) λ rest.
    and_then (strip_suffix (codes " present.") rest)
      λ version. if is_empty (trim version) then none else some (trim version)

unfoldable pub decode_dimms_value : Text → Text → Option Text
unfolding strip_prefix is_whitespace trim
decode_dimms_value line key =
    and_then (strip_prefix key line)
      λ value. if starts_with_char is_whitespace value then some (trim value) else none

-- The words of a description, without what is no letter or digit at their ends.
unfoldable pub bare_words : Text → List Text
unfolding split_whitespace trim_matches is_ascii_alphanumeric
bare_words description =
    map (trim_matches (λ c. not (is_ascii_alphanumeric c))) (split_whitespace description)

unfoldable pub lshw_memory_type : Text → Option Text
unfolding bare_words to_ascii_uppercase starts_with
lshw_memory_type description =
    find (λ token. starts_with (codes "DDR") (to_ascii_uppercase token)) (bare_words description)

abbrev form_factors : List Text
form_factors = codes "DIMM" ∷ codes "SODIMM" ∷ codes "SO-DIMM" ∷ codes "RDIMM" ∷ codes "LRDIMM" ∷ []

unfoldable pub lshw_memory_form_factor : Text → Option Text
unfolding bare_words to_ascii_uppercase text_eq
lshw_memory_form_factor description =
    find (λ token. any (text_eq (to_ascii_uppercase token)) form_factors) (bare_words description)

unfoldable pub lshw_clock_speed : Text → Option Text
unfolding take_while skip_while is_ascii_digit
lshw_clock_speed value =
    let digits = take_while is_ascii_digit (skip_while (λ c. not (is_ascii_digit c)) value) in
    if is_empty digits then none else some (digits ++ codes " MT/s")
