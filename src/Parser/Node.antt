-- ===== src/Parser/Node.antt =====
-- The loop over the nodes of lshw that the parsers of hw-parser share, here from storage.rs.
use qurbrix_hwinfo.Common.{
  Bool, Option, none, some, List, [], ◌∷◌, ◌++◌, Text, codes, trim, lines, each_line, split_once,
  starts_with, if◌then◌else◌,
}

-- Any node of lshw.
unfoldable pub any_node : Text → Bool
unfolding starts_with
any_node line = starts_with (codes "*-") line

-- A line with the prefix opens a record, and one that `closes` accepts ends the open record.
pub record NodeScan (A : Type 0) : Type 0 where
  pub records : List A
  pub current : Option A

module _ {A : Type 0} (prefix : Text) (closes : Text → Bool) (default : A)
    (push : List A → Option A → List A) (field : Text → Text → A → A) where
  unfoldable pub node_pair : Option (Text × Text) → Option A → Option A
  unfolding trim
  node_pair pair none = none
  node_pair none (some r) = some r
  node_pair (some (key, value)) (some r) = some (field (trim key) (trim value) r)

  unfoldable pub node_line : Text → NodeScan A → NodeScan A
  unfolding node_pair trim starts_with split_once
  node_line line s =
      if starts_with prefix (trim line)
      then record { records = push s.records s.current; current = some default }
      else if closes (trim line)
      then record { records = push s.records s.current; current = none }
      else record s { current = node_pair (split_once (codes ":") (trim line)) s.current }

  unfoldable pub nodes : Text → List A
  unfolding node_line lines
  nodes input =
      let s =
        each_line node_line (lines input ++ [] ∷ []) (record { records = []; current = none }) in
      push s.records s.current
