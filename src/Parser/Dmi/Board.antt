-- ===== src/Parser/Dmi/Board.antt =====
-- crates/hw-parser/src/dmi.rs: the sections of dmidecode on the firmware, the board and its chassis.
use qurbrix_hwinfo.Common.{
  Bool, false, not, ◌&&◌, Option, none, some, List, [], ◌∷◌, ◌++◌, Text, codes, text_eq, trim,
  is_empty, any, contains_text, starts_with_char, is_whitespace, split_once, lines, each_line,
  or_option, if◌then◌else◌,
}
use qurbrix_hwinfo.Parser.Dmi.{DmiBiosBoardRecord, board_record_default}
use qurbrix_hwinfo.Parser.Dmi.Clean.{
  clean_dmi_value, clean_dmi_identity_value, parse_smbios_version_line,
}

-- The fields of the section `BIOS Information`.
unfoldable pub bios_field : Text → Text → DmiBiosBoardRecord → DmiBiosBoardRecord
unfolding clean_dmi_value clean_dmi_identity_value text_eq
bios_field key value r =
    if text_eq key (codes "Vendor")
    then record r { bios_vendor = clean_dmi_identity_value value }
    else if text_eq key (codes "Version")
    then record r { bios_version = clean_dmi_identity_value value }
    else if text_eq key (codes "Release Date")
    then record r { bios_release_date = clean_dmi_value value }
    else if text_eq key (codes "Address")
    then record r { bios_address = clean_dmi_value value }
    else if text_eq key (codes "Runtime Size")
    then record r { bios_runtime_size = clean_dmi_value value }
    else if text_eq key (codes "ROM Size")
    then record r { bios_rom_size = clean_dmi_value value }
    else if text_eq key (codes "BIOS Revision")
    then record r { bios_revision = clean_dmi_value value }
    else if text_eq key (codes "Firmware Revision")
    then record r { firmware_revision = clean_dmi_value value }
    else r

-- The fields of the section `BIOS Language Information`.
unfoldable pub language_field : Text → Text → DmiBiosBoardRecord → DmiBiosBoardRecord
unfolding clean_dmi_value clean_dmi_identity_value text_eq
language_field key value r =
    if text_eq key (codes "Language Description Format")
    then record r { bios_language_description_format = clean_dmi_value value }
    else if text_eq key (codes "Currently Installed Language")
    then record r { bios_currently_installed_language = clean_dmi_value value }
    else r

-- The fields of the section `Base Board Information`.
unfoldable pub base_board_field : Text → Text → DmiBiosBoardRecord → DmiBiosBoardRecord
unfolding clean_dmi_value clean_dmi_identity_value text_eq
base_board_field key value r =
    if text_eq key (codes "Manufacturer")
    then record r { board_manufacturer = clean_dmi_identity_value value }
    else if text_eq key (codes "Product Name")
    then record r { board_product_name = clean_dmi_identity_value value }
    else if text_eq key (codes "Version")
    then record r { board_version = clean_dmi_identity_value value }
    else if text_eq key (codes "Serial Number")
    then record r { board_serial = clean_dmi_identity_value value }
    else if text_eq key (codes "Asset Tag")
    then record r { board_asset_tag = clean_dmi_identity_value value }
    else if text_eq key (codes "Type")
    then record r { board_type = clean_dmi_value value }
    else if text_eq key (codes "Location In Chassis")
    then record r { board_location_in_chassis = clean_dmi_identity_value value }
    else if text_eq key (codes "Chassis Handle")
    then record r { board_chassis_handle = clean_dmi_value value }
    else r

-- The fields of the section `Chassis Information`.
unfoldable pub chassis_field : Text → Text → DmiBiosBoardRecord → DmiBiosBoardRecord
unfolding clean_dmi_value clean_dmi_identity_value text_eq
chassis_field key value r =
    if text_eq key (codes "Manufacturer")
    then record r { chassis_manufacturer = clean_dmi_identity_value value }
    else if text_eq key (codes "Type")
    then record r { chassis_type = clean_dmi_value value }
    else if text_eq key (codes "Version")
    then record r { chassis_version = clean_dmi_identity_value value }
    else if text_eq key (codes "Serial Number")
    then record r { chassis_serial = clean_dmi_identity_value value }
    else if text_eq key (codes "Asset Tag")
    then record r { chassis_asset_tag = clean_dmi_identity_value value }
    else if text_eq key (codes "Lock")
    then record r { chassis_lock = clean_dmi_value value }
    else if text_eq key (codes "Boot-up State")
    then record r { chassis_boot_up_state = clean_dmi_value value }
    else if text_eq key (codes "Power Supply State")
    then record r { chassis_power_supply_state = clean_dmi_value value }
    else if text_eq key (codes "Thermal State")
    then record r { chassis_thermal_state = clean_dmi_value value }
    else if text_eq key (codes "Security Status")
    then record r { chassis_security_status = clean_dmi_value value }
    else if text_eq key (codes "OEM Information")
    then record r { chassis_oem_information = clean_dmi_value value }
    else if text_eq key (codes "Height")
    then record r { chassis_height = clean_dmi_value value }
    else if text_eq key (codes "Number Of Power Cords")
    then record r { chassis_power_cords = clean_dmi_value value }
    else if text_eq key (codes "Contained Elements")
    then record r { chassis_contained_elements = clean_dmi_value value }
    else if text_eq key (codes "SKU Number")
    then record r { chassis_sku_number = clean_dmi_identity_value value }
    else r

-- The fields of the section `Physical Memory Array`.
unfoldable pub array_field : Text → Text → DmiBiosBoardRecord → DmiBiosBoardRecord
unfolding clean_dmi_value clean_dmi_identity_value text_eq
array_field key value r =
    if text_eq key (codes "Location")
    then record r { memory_array_location = clean_dmi_value value }
    else if text_eq key (codes "Use")
    then record r { memory_array_use = clean_dmi_value value }
    else if text_eq key (codes "Error Correction Type")
    then record r { memory_array_error_correction_type = clean_dmi_value value }
    else if text_eq key (codes "Maximum Capacity")
    then record r { memory_array_maximum_capacity = clean_dmi_value value }
    else if text_eq key (codes "Error Information Handle")
    then record r { memory_array_error_information_handle = clean_dmi_value value }
    else if text_eq key (codes "Number Of Devices")
    then record r { memory_array_number_of_devices = clean_dmi_value value }
    else r

-- The loop's variables: the record, the section, and which list is being collected.
pub record BoardScan : Type 0 where
  pub board : DmiBiosBoardRecord
  pub section : Text
  pub collecting_installable_languages : Bool
  pub collecting_bios_characteristics : Bool
  pub collecting_board_features : Bool

abbrev pub sections : List Text
sections =
    codes "BIOS Information"
    ∷ codes "BIOS Language Information"
    ∷ codes "System Information"
    ∷ codes "Base Board Information"
    ∷ codes "Chassis Information"
    ∷ codes "Physical Memory Array"
    ∷ codes "Memory Device"
    ∷ []

-- A line of a list that is collected: indented, not empty, and without a colon.
unfoldable pub is_item : Text → Bool
unfolding is_whitespace trim contains_text
is_item line =
    starts_with_char is_whitespace line
    && not (is_empty (trim line))
    && not (contains_text (codes ":") (trim line))

-- The field of a section, of a record whose collecting has ended.
unfoldable pub section_field : Text → Text → Text → DmiBiosBoardRecord → DmiBiosBoardRecord
unfolding bios_field language_field base_board_field chassis_field array_field text_eq
section_field section key value r =
    if text_eq section (codes "BIOS Information")
    then bios_field key value r
    else if text_eq section (codes "BIOS Language Information")
    then language_field key value r
    else if text_eq section (codes "Base Board Information")
    then base_board_field key value r
    else if text_eq section (codes "Chassis Information")
    then chassis_field key value r
    else if text_eq section (codes "Physical Memory Array")
    then array_field key value r
    else r

unfoldable pub keyed_line : Option (Text × Text) → BoardScan → BoardScan
unfolding section_field text_eq
keyed_line none s = s
keyed_line (some (key, value)) s = record {
  board = section_field s.section key value s.board;
  section = s.section;
  collecting_installable_languages =
      text_eq s.section (codes "BIOS Language Information")
      && text_eq key (codes "Installable Languages");
  collecting_bios_characteristics =
      text_eq s.section (codes "BIOS Information") && text_eq key (codes "Characteristics");
  collecting_board_features =
      text_eq s.section (codes "Base Board Information") && text_eq key (codes "Features");
}

-- A line behind the look for the version.
unfoldable pub section_line : Text → BoardScan → BoardScan
unfolding keyed_line is_item trim split_once text_eq
section_line line s =
    let text = trim line in
    let b = s.board in
    if any (text_eq text) sections
    then record {
      board = b;
      section = text;
      collecting_installable_languages = false;
      collecting_bios_characteristics = false;
      collecting_board_features = false;
    }
    else if text_eq s.section (codes "BIOS Information")
        && s.collecting_bios_characteristics
        && is_item line
    then record s {
      board = record b { bios_characteristics = b.bios_characteristics ++ text ∷ [] };
    }
    else if text_eq s.section (codes "Base Board Information")
        && s.collecting_board_features
        && is_item line
    then record s { board = record b { board_features = b.board_features ++ text ∷ [] } }
    else if text_eq s.section (codes "BIOS Language Information")
        && s.collecting_installable_languages
        && is_item line
    then record s {
      board = record b { bios_installable_languages = b.bios_installable_languages ++ text ∷ [] };
    }
    else keyed_line (split_once (codes ":") text) s

unfoldable pub board_line : Text → BoardScan → BoardScan
unfolding section_line parse_smbios_version_line trim
board_line line s = section_line line (record s {
  board = record s.board {
    smbios_version = or_option s.board.smbios_version (parse_smbios_version_line (trim line));
  };
})

unfoldable pub parse_dmidecode_bios_board : Text → DmiBiosBoardRecord
unfolding board_line lines
parse_dmidecode_bios_board input =
    (each_line board_line (lines input) (record {
      board = board_record_default;
      section = [];
      collecting_installable_languages = false;
      collecting_bios_characteristics = false;
      collecting_board_features = false;
    })).board
