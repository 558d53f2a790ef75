-- ===== src/Parser/Dmi/Lshw/Banks.antt =====
-- lshw's memory parser told as a reading of each of its nodes by itself.
use qurbrix_hwinfo.Common.{
  Bool, ◌||◌, Option, none, some, List, [], ◌∷◌, ◌++◌, map, retain, Text, codes, trim, is_empty,
  each_line, split_once, starts_with, if◌then◌else◌,
}
use qurbrix_hwinfo.Parser.Dmi.{DmiMemoryRecord, memory_record_default}
use qurbrix_hwinfo.Parser.Dmi.Memory.{is_listed, push_memory_record, with_pair}
use qurbrix_hwinfo.Parser.Dmi.Lshw.{LshwScan, lshw_memory_field}

abbrev pub is_bank : Text → Bool
is_bank line = starts_with (codes "*-bank") (trim line)

-- The line of a memory node or of a bank.
abbrev pub is_node : Text → Bool
is_node line = starts_with (codes "*-memory") (trim line) || is_bank line

abbrev pub fill_node : Text → DmiMemoryRecord → DmiMemoryRecord
fill_node line =
    with_pair (split_once (codes ":") (trim line))
      (λ key value. lshw_memory_field (trim key) (trim value))

-- A node's record, and whether it is a bank.
abbrev pub node : Text × List Text → Bool × DmiMemoryRecord
node (line, body) = (is_bank line, each_line fill_node body memory_record_default)

abbrev pub banks : List (Bool × DmiMemoryRecord) → List DmiMemoryRecord
banks [] = []
banks ((bank, r) ∷ ns) = if bank then r ∷ banks ns else banks ns

abbrev pub last_node : List (Bool × DmiMemoryRecord) → List DmiMemoryRecord
last_node [] = []
last_node ((bank, r) ∷ []) = r ∷ []
last_node (n ∷ m ∷ ns) = last_node (m ∷ ns)

-- The listed banks, or else the last node.
abbrev outcome : List DmiMemoryRecord → List (Bool × DmiMemoryRecord) → List DmiMemoryRecord
outcome records ns =
    let all = records ++ retain is_listed (banks ns) in
    if is_empty all then retain is_listed (last_node ns) else all

abbrev ending : LshwScan → List DmiMemoryRecord
ending s =
    if s.current_is_bank || is_empty s.scan.records
    then push_memory_record s.scan.records s.scan.current
    else s.scan.records

-- The open node with its remaining lines, and those that follow.
abbrev continued :
    Bool
    → Option DmiMemoryRecord
    → List Text × List (Text × List Text)
    → List (Bool × DmiMemoryRecord)
continued bank none (body, rest) = map node rest
continued bank (some r) (body, rest) = (bank, each_line fill_node body r) ∷ map node rest
