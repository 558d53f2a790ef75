-- ===== src/Parser/Printer.antt =====
-- crates/hw-parser/src/printer.rs: the output of lpstat.
use qurbrix_hwinfo.Common.{
  Bool, Option, none, some, List, [], ◌∷◌, ◌++◌, Text, codes, text_eq, trim, lines, each_line,
  first, filter_map, split_whitespace, split_once, strip_prefix, and_then, or_option, non_empty,
}

pub record PrinterStatusRecord : Type 0 where
  pub queue : Text
  pub accepting : Bool

pub record PrinterUriRecord : Type 0 where
  pub queue : Text
  pub device_uri : Option Text

pub record PrinterDetailRecord : Type 0 where
  pub queue : Text
  pub make_model : Option Text

unfoldable pub status_words : List Text → Option PrinterStatusRecord
unfolding text_eq
status_words (queue ∷ state ∷ rest) =
    some (record { queue = queue; accepting = text_eq state (codes "accepting") })
status_words _ = none

unfoldable pub parse_lpstat_a : Text → List PrinterStatusRecord
unfolding status_words split_whitespace lines
parse_lpstat_a input = filter_map (λ line. status_words (split_whitespace line)) (lines input)

unfoldable pub uri_line : Text → Option PrinterUriRecord
unfolding strip_prefix split_once trim non_empty
uri_line line = and_then (strip_prefix (codes "device for ") line) λ rest.
    and_then (split_once (codes ":") rest)
      λ pair. some (record { queue = trim pair.0; device_uri = non_empty pair.1 })

unfoldable pub parse_lpstat_v : Text → List PrinterUriRecord
unfolding uri_line lines
parse_lpstat_v input = filter_map uri_line (lines input)

pub record PrinterScan : Type 0 where
  pub records : List PrinterDetailRecord
  pub current : Option PrinterDetailRecord

abbrev pub finished_printer :
    List PrinterDetailRecord → Option PrinterDetailRecord → List PrinterDetailRecord
finished_printer records none = records
finished_printer records (some r) = records ++ r ∷ []

unfoldable pub description_of : Text → Option Text
unfolding strip_prefix non_empty
description_of line =
    and_then
      (or_option (strip_prefix (codes "Description:") line)
        (strip_prefix (codes "Make and Model:") line))
      non_empty

unfoldable pub described : Text → Option PrinterDetailRecord → Option PrinterDetailRecord
unfolding description_of
described line none = none
described line (some r) =
    some (record r { make_model = or_option (description_of line) r.make_model })

unfoldable pub detail_of_printer : Text → PrinterScan → PrinterScan
unfolding described strip_prefix split_whitespace trim
detail_of_printer line s = elim (strip_prefix (codes "printer ") line) [
  | some rest ↦ record {
    records = finished_printer s.records s.current;
    current =
        and_then (first (split_whitespace rest))
          λ queue. some (record { queue = queue; make_model = none });
  }
  | none ↦ record s { current = described (trim line) s.current }
]

unfoldable pub parse_lpstat_l_p : Text → List PrinterDetailRecord
unfolding detail_of_printer lines
parse_lpstat_l_p input =
    let s = each_line detail_of_printer (lines input) (record { records = []; current = none }) in
    finished_printer s.records s.current

abbrev first_of : (Text → Option Text) → List Text → Option Text
first_of f [] = none
first_of f (l ∷ ls) = or_option (f l) (first_of f ls)

unfoldable pub parse_lpstat_d : Text → Option Text
unfolding strip_prefix non_empty lines
parse_lpstat_d input =
    first_of (λ line. and_then (strip_prefix (codes "system default destination:") line) non_empty)
      (lines input)
