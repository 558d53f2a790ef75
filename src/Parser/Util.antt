-- ===== src/Parser/Util.antt =====
-- crates/hw-parser/src/util.rs.
use qurbrix_hwinfo.Common.{
  not, List, Text, codes, trim, is_empty, split, retain, map, to_ascii_lowercase,
  trim_start_matches,
}

unfoldable pub clean_hex : Text → Text
unfolding trim trim_start_matches to_ascii_lowercase
clean_hex value = to_ascii_lowercase (trim_start_matches (codes "0x") (trim value))

unfoldable pub split_csv_words : Text → List Text
unfolding trim split
split_csv_words value = retain (λ v. not (is_empty v)) (map trim (split b',' value))
