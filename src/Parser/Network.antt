-- ===== src/Parser/Network.antt =====
-- crates/hw-parser/src/network.rs: the interfaces of lshw. The number of megabits that a capacity's
-- text gives, an f64 that is rounded, is an argument, and ip's JSON is serde alone.
use qurbrix_hwinfo.Common.{
  ℕ, false, ◌||◌, Option, none, some, List, [], ◌∷◌, ◌++◌, Text, codes, text_eq, trim, is_empty,
  is_some, eq_ignore_ascii_case, split_whitespace, split_once, if◌then◌else◌,
}
use qurbrix_hwinfo.Parser.Node.{nodes}

pub record LshwNetworkRecord : Type 0 where
  pub logical_name : Option Text
  pub product : Option Text
  pub vendor : Option Text
  pub serial : Option Text
  pub bus_info : Option Text
  pub capacity_mbps : Option ℕ
  pub driver : Option Text
  pub driver_version : Option Text
  pub firmware : Option Text

abbrev pub lshw_network_default : LshwNetworkRecord
lshw_network_default = record {
  logical_name = none;
  product = none;
  vendor = none;
  serial = none;
  bus_info = none;
  capacity_mbps = none;
  driver = none;
  driver_version = none;
  firmware = none;
}

unfoldable pub clean_lshw_network_value : Text → Option Text
unfolding trim eq_ignore_ascii_case text_eq
clean_lshw_network_value value =
    if is_empty (trim value)
      || eq_ignore_ascii_case (trim value) (codes "n/a")
      || text_eq (trim value) (codes "(none)")
    then none
    else some (trim value)

abbrev network_setting : Option (Text × Text) → LshwNetworkRecord → LshwNetworkRecord
unfolding text_eq clean_lshw_network_value
network_setting none r = r
network_setting (some (key, value)) r =
    if text_eq key (codes "driver")
    then record r { driver = clean_lshw_network_value value }
    else if text_eq key (codes "driverversion")
    then record r { driver_version = clean_lshw_network_value value }
    else if text_eq key (codes "firmware")
    then record r { firmware = clean_lshw_network_value value }
    else r

unfoldable pub parse_lshw_network_configuration : List Text → LshwNetworkRecord → LshwNetworkRecord
unfolding network_setting split_once
parse_lshw_network_configuration [] r = r
parse_lshw_network_configuration (part ∷ parts) r =
    parse_lshw_network_configuration parts (network_setting (split_once (codes "=") part) r)

unfoldable pub push_lshw_network_record :
    List LshwNetworkRecord → Option LshwNetworkRecord → List LshwNetworkRecord
push_lshw_network_record records none = records
push_lshw_network_record records (some r) =
    if is_some r.logical_name || is_some r.product || is_some r.vendor || is_some r.bus_info
    then records ++ r ∷ []
    else records

module _ (parse_network_capacity_mbps : Text → Option ℕ) where
  unfoldable pub lshw_network_field : Text → Text → LshwNetworkRecord → LshwNetworkRecord
  unfolding clean_lshw_network_value parse_lshw_network_configuration split_whitespace text_eq
  lshw_network_field key value r =
      if text_eq key (codes "product")
      then record r { product = clean_lshw_network_value value }
      else if text_eq key (codes "vendor")
      then record r { vendor = clean_lshw_network_value value }
      else if text_eq key (codes "serial")
      then record r { serial = clean_lshw_network_value value }
      else if text_eq key (codes "bus info")
      then record r { bus_info = clean_lshw_network_value value }
      else if text_eq key (codes "logical name")
      then record r { logical_name = clean_lshw_network_value value }
      else if text_eq key (codes "capacity")
      then record r { capacity_mbps = parse_network_capacity_mbps value }
      else if text_eq key (codes "configuration")
      then parse_lshw_network_configuration (split_whitespace value) r
      else r

  -- Only the next node of its class ends a record.
  unfoldable pub parse_lshw_network : Text → List LshwNetworkRecord
  unfolding nodes push_lshw_network_record lshw_network_field
  parse_lshw_network =
      nodes (codes "*-network") (λ _. false) lshw_network_default push_lshw_network_record
        lshw_network_field
