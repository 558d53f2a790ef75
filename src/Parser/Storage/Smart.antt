-- ===== src/Parser/Storage/Smart.antt =====
-- crates/hw-parser/src/storage.rs: the report of smartctl, from the values that serde reads. The type
-- of its temperature, f32, is an argument, and the warning on an odd temperature is left out.
use qurbrix_hwinfo.Common.{
  ℕ, ◌-◌, ◌/◌, Bool, not, ◌&&◌, Option, none, some, List, [], map, Text, codes, trim, is_empty,
  eq_ignore_ascii_case, and_then, or_option, if◌then◌else◌, leb,
}

-- The integers: `negsuc n` is -(n + 1).
pub data ℤ : Type 0 where
  pos : ℕ → ℤ
  negsuc : ℕ → ℤ

abbrev pub difference : ℕ → ℕ → ℤ
difference a b = if leb b a then pos (a - b) else negsuc (b - a - 1)

pub record NvmeSmartHealthInformationLog : Type 0 where
  pub available_spare : Option ℕ
  pub available_spare_threshold : Option ℕ
  pub percentage_used : Option ℕ
  pub data_units_read : Option ℕ
  pub data_units_written : Option ℕ
  pub media_errors : Option ℕ
  pub num_err_log_entries : Option ℕ
  pub temperature_sensors : List ℕ

pub record SmartctlStatus : Type 0 where
  pub passed : Option Bool

pub record SmartctlTemperature (F : Type 0) : Type 0 where
  pub current : Option F

pub record SmartctlPowerOnTime : Type 0 where
  pub hours : Option ℕ

pub record SmartctlReport (F : Type 0) : Type 0 where
  pub model_name : Option Text
  pub model_number : Option Text
  pub serial_number : Option Text
  pub firmware_version : Option Text
  pub smart_status : Option SmartctlStatus
  pub temperature : Option (SmartctlTemperature F)
  pub power_on_time : Option SmartctlPowerOnTime
  pub power_cycle_count : Option ℕ
  pub nvme_smart_health_information_log : Option NvmeSmartHealthInformationLog

pub record SmartctlInfo (F : Type 0) : Type 0 where
  pub model : Option Text
  pub serial : Option Text
  pub firmware : Option Text
  pub smart_status : Option Text
  pub temperature_celsius : Option F
  pub power_on_hours : Option ℕ
  pub power_cycle_count : Option ℕ
  pub available_spare_percent : Option ℕ
  pub available_spare_threshold_percent : Option ℕ
  pub percentage_used : Option ℕ
  pub data_units_read : Option ℕ
  pub data_units_written : Option ℕ
  pub media_errors : Option ℕ
  pub error_log_entries : Option ℕ
  pub temperature_sensors_celsius : List ℤ

unfoldable pub kelvin_or_kelvin_x10_to_celsius : ℕ → ℤ
kelvin_or_kelvin_x10_to_celsius raw =
    if leb 1000 raw then difference (raw / 10) 273 else difference raw 273

unfoldable pub clean_smartctl_value : Text → Option Text
unfolding trim eq_ignore_ascii_case
clean_smartctl_value value =
    if not (is_empty (trim value))
      && not (eq_ignore_ascii_case (trim value) (codes "unknown"))
      && not (eq_ignore_ascii_case (trim value) (codes "not specified"))
    then some (trim value)
    else none

abbrev verdict_text : Bool → Text
verdict_text passed = if passed then codes "passed" else codes "failed"

abbrev sensors : Option NvmeSmartHealthInformationLog → List ℤ
unfolding kelvin_or_kelvin_x10_to_celsius
sensors none = []
sensors (some log) = map kelvin_or_kelvin_x10_to_celsius log.temperature_sensors

module _ {F : Type 0} where
  -- The closure that `parse_smartctl_json` maps over the report.
  unfoldable pub smartctl_info : SmartctlReport F → SmartctlInfo F
  unfolding clean_smartctl_value sensors
  smartctl_info report =
      let nvme = report.nvme_smart_health_information_log in
      record {
        model = and_then (or_option report.model_name report.model_number) clean_smartctl_value;
        serial = and_then report.serial_number clean_smartctl_value;
        firmware = and_then report.firmware_version clean_smartctl_value;
        smart_status =
            and_then (and_then report.smart_status λ status. status.passed)
              λ passed. some (verdict_text passed);
        temperature_celsius = and_then report.temperature λ temperature. temperature.current;
        power_on_hours = and_then report.power_on_time λ value. value.hours;
        power_cycle_count = report.power_cycle_count;
        available_spare_percent = and_then nvme λ value. value.available_spare;
        available_spare_threshold_percent = and_then nvme λ value. value.available_spare_threshold;
        percentage_used = and_then nvme λ value. value.percentage_used;
        data_units_read = and_then nvme λ value. value.data_units_read;
        data_units_written = and_then nvme λ value. value.data_units_written;
        media_errors = and_then nvme λ value. value.media_errors;
        error_log_entries = and_then nvme λ value. value.num_err_log_entries;
        temperature_sensors_celsius = sensors nvme;
      }

  -- serde_json reads the report.
  unfoldable pub parse_smartctl_json :
      (Text → Option (SmartctlReport F)) → Text → Option (SmartctlInfo F)
  unfolding smartctl_info
  parse_smartctl_json from_str input =
      and_then (from_str input) λ report. some (smartctl_info report)
