-- ===== src/Inventory/Canonical/Records.antt =====
-- canonical.rs: `collect_device_records` and what it calls. The serde_json text of an array of
-- strings and nulls, which `pci_identity` takes, is a parameter.
use qurbrix_hwinfo.Common.{
  Bool, true, false, ◌&&◌, not, Option, none, some, List, [], ◌∷◌, ◌++◌, map, Text, codes, text_eq,
  text_leb, is_empty, join, to_ascii_lowercase, starts_with, contains_text, any, filter_map,
  and_then, or_option, unwrap_or, sort, to_string, if◌then◌else◌,
}
use qurbrix_hwinfo.Model.Device.{Device, BusInfo, DriverInfo}
use qurbrix_hwinfo.Model.Properties.{DeviceProperties}
use qurbrix_hwinfo.Inventory.Canonical.Normalize.{normalize, normalize_physical_mac, joined, escape}

abbrev pub Field : Type 0
Field = Text × Option Text

abbrev present : Field → Option (Text × Text)
present (key, value) = and_then (and_then value normalize) λ v. some (key, v)

abbrev key_leb : Text × Text → Text × Text → Bool
key_leb (j, v) (k, w) = text_leb j k

abbrev rendered : Text × Text → Text
rendered (key, value) = key ++ (codes "=" ++ escape value)

-- The record that `push_record` pushes: none if no field has a value.
unfoldable pub record_of : Text → List Field → List Text
record_of kind fields =
    let kept = sort key_leb (filter_map present fields) in
    if is_empty kept then [] else (kind ++ (codes ":" ++ join (codes "|") (map rendered kept))) ∷ []

unfoldable pub push_record : List Text → Text → List Field → List Text
push_record output kind fields = output ++ record_of kind fields

unfoldable pub stable_bus_identity : Option BusInfo → Option Text
stable_bus_identity (some (BusInfo.pci address _ _ _ _ _)) =
    and_then (normalize address) λ v. some (codes "pci:" ++ v)
stable_bus_identity (some (BusInfo.platform path)) =
    and_then (normalize path) λ v. some (codes "platform:" ++ v)
stable_bus_identity _ = none

unfoldable pub driver_name : Device → Option Text
driver_name device = and_then device.driver λ driver. driver.name

unfoldable pub driver_version : Device → Option Text
driver_version device = and_then device.driver λ driver. driver.version

is_virtual : Option BusInfo → Bool
is_virtual (some BusInfo.virtual) = true
is_virtual _ = false

abbrev virtual_prefixes : List Text
virtual_prefixes =
    codes "docker"
    ∷ codes "veth"
    ∷ codes "virbr"
    ∷ codes "br-"
    ∷ codes "tun"
    ∷ codes "tap"
    ∷ codes "wg"
    ∷ codes "tailscale"
    ∷ codes "zt"
    ∷ []

unfoldable pub is_physical_network : Device → Option Text → Bool
unfolding is_virtual
is_physical_network device interface =
    let name = to_ascii_lowercase (unwrap_or interface []) in
    if is_virtual device.bus
    then false
    else not (is_empty name)
      && not (text_eq name (codes "lo"))
      && not (any (λ prefix. starts_with prefix name) virtual_prefixes)

abbrev software_markers : List Text
software_markers =
    codes "llvmpipe" ∷ codes "softpipe" ∷ codes "software rasterizer" ∷ codes "swiftshader" ∷ []

unfoldable pub is_software_renderer : Device → Option Text → Bool
is_software_renderer device renderer =
    let values = filter_map (λ o. o) (some device.name ∷ device.model ∷ renderer ∷ []) in
    any (λ value. any (λ marker. contains_text marker (to_ascii_lowercase value)) software_markers)
      values

-- The two vectors that a scan of the devices appends to.
pub record Records : Type 0 where
  pub identity : List Text
  pub configuration : List Text

abbrev pub no_records : Records
no_records = record { identity = []; configuration = [] }

abbrev pub identify : Text → List Field → Records → Records
identify kind fields r = record r { identity = push_record r.identity kind fields }

abbrev pub configure : Text → List Field → Records → Records
configure kind fields r = record r { configuration = push_record r.configuration kind fields }

unfoldable pub push_driver : Device → Text → Option DriverInfo → Records → Records
push_driver device kind none r = r
push_driver device kind (some driver) r =
    configure kind
      ((codes "identity", or_option (stable_bus_identity device.bus) (normalize device.id))
        ∷ (codes "name", driver.name)
        ∷ (codes "version", driver.version)
        ∷ (codes "modules", joined driver.modules)
        ∷ [])
      r

unfoldable pub push_driver_configuration : Device → Text → Records → Records
unfolding push_driver
push_driver_configuration device kind r = push_driver device kind device.driver r

module _ (json_array : List (Option Text) → Text) where
  unfoldable pub pci_identity : Option BusInfo → Option Text
  pci_identity (some (BusInfo.pci _ vendor device subsystem_vendor subsystem_device _)) = some (
      json_array (
        map (λ value. and_then value normalize)
          (vendor ∷ device ∷ subsystem_vendor ∷ subsystem_device ∷ [])))
  pci_identity _ = none

  -- The `match` on the properties.
  unfoldable pub collect_properties : Device → DeviceProperties → Records → Records
  collect_properties device (DeviceProperties.system info) r =
      configure (codes "system")
        ((codes "kernel", info.kernel)
          ∷ (codes "os", info.os)
          ∷ (codes "architecture", info.architecture)
          ∷ [])
        (identify (codes "platform")
          ((codes "uuid", info.uuid)
            ∷ (codes "serial", or_option info.serial device.serial)
            ∷ (codes "manufacturer", or_option info.manufacturer device.vendor)
            ∷ (codes "product", or_option info.product_name device.model)
            ∷ [])
          r)
  collect_properties device (DeviceProperties.motherboard info) r =
      identify (codes "platform")
        ((codes "board_serial", info.serial)
          ∷ (codes "board_manufacturer", info.manufacturer)
          ∷ (codes "board_product", info.product_name)
          ∷ [])
        r
  collect_properties device (DeviceProperties.bios info) r =
      configure (codes "bios")
        ((codes "vendor", info.vendor)
          ∷ (codes "version", info.version)
          ∷ (codes "release_date", info.release_date)
          ∷ (codes "firmware_revision", info.firmware_revision)
          ∷ [])
        r
  collect_properties device (DeviceProperties.cpu info) r =
      identify (codes "cpu")
        ((codes "vendor", or_option info.vendor device.vendor)
          ∷ (codes "model", or_option (or_option info.name info.model) device.model)
          ∷ (codes "implementer", info.cpu_implementer)
          ∷ (codes "part", info.cpu_part)
          ∷ (codes "architecture", info.architecture)
          ∷ (codes "sockets", and_then info.sockets λ n. some (to_string n))
          ∷ (codes "cores", and_then info.cores λ n. some (to_string n))
          ∷ (codes "threads", and_then info.threads λ n. some (to_string n))
          ∷ (codes "socket_designations", joined info.socket_designations)
          ∷ (codes "serials", joined info.serial_numbers)
          ∷ [])
        r
  collect_properties device (DeviceProperties.memory info) r =
      configure (codes "memory_firmware")
        ((codes "identity", or_option info.serial info.locator)
          ∷ (codes "version", info.firmware_version)
          ∷ [])
        (identify (codes "memory")
          ((codes "serial", or_option info.serial device.serial)
            ∷ (codes "part", or_option info.part_number device.model)
            ∷ (codes "locator", info.locator)
            ∷ (codes "bank", info.bank_locator)
            ∷ (codes "size_bytes", and_then info.size_bytes λ n. some (to_string n))
            ∷ [])
          r)
  collect_properties device (DeviceProperties.storage info) r =
      configure (codes "storage_firmware")
        ((codes "identity", or_option info.wwn device.serial)
          ∷ (codes "firmware", info.firmware)
          ∷ (codes "driver", driver_name device)
          ∷ (codes "driver_version", driver_version device)
          ∷ [])
        (identify (codes "storage")
          ((codes "wwn", info.wwn)
            ∷ (codes "serial", device.serial)
            ∷ (codes "model", or_option device.model info.controller_model)
            ∷ (codes "bus", stable_bus_identity device.bus)
            ∷ [])
          r)
  collect_properties device (DeviceProperties.network info) r =
      let mac = and_then info.mac normalize_physical_mac in
      if is_physical_network device info.interface
      then configure (codes "network_firmware")
          ((codes "mac", mac)
            ∷ (codes "firmware", info.firmware)
            ∷ (codes "driver", driver_name device)
            ∷ (codes "driver_version", info.driver_version)
            ∷ [])
          (identify (codes "physical_network")
            ((codes "mac", mac) ∷ (codes "bus", stable_bus_identity device.bus) ∷ []) r)
      else r
  collect_properties device (DeviceProperties.gpu info) r =
      if is_software_renderer device info.renderer
      then r
      else push_driver_configuration device (codes "gpu_driver") (
          identify (codes "gpu")
            ((codes "pci", pci_identity device.bus)
              ∷ (codes "vendor", or_option device.vendor info.vendor)
              ∷ (codes "model", or_option device.model info.description)
              ∷ [])
            r)
  collect_properties device _ r = r

  -- Storage, network and graphics devices have put their driver into a record of their own.
  unfoldable pub records_own_driver : DeviceProperties → Bool
  records_own_driver (DeviceProperties.storage _) = true
  records_own_driver (DeviceProperties.network _) = true
  records_own_driver (DeviceProperties.gpu _) = true
  records_own_driver _ = false

  unfoldable pub collect_device_records : Device → Records → Records
  unfolding collect_properties records_own_driver
  collect_device_records device r =
      let collected = collect_properties device device.properties r in
      if records_own_driver device.properties
      then collected
      else push_driver_configuration device (codes "device_driver") collected
