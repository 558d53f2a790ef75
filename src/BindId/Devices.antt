-- ===== src/BindId/Devices.antt =====
-- crates/hw-bindid/src/devices.rs: which devices have a key, and from which of their fields.
use qurbrix_hwinfo.Common.{
  Bool, true, false, ◌||◌, Option, none, some, List, [], ◌∷◌, Text, codes, text_eq, text_leb, sort,
  trim, is_empty, eq_ignore_ascii_case, to_ascii_lowercase, contains_text, strip_prefix, any,
  filter_map, or_option, if◌then◌else◌, ◌==◌,
}
use qurbrix_hwinfo.Model.Kind.{DeviceKind}
use qurbrix_hwinfo.Model.Device.{Device}
use qurbrix_hwinfo.Model.Properties.{DeviceProperties, NetworkInfo}
use qurbrix_hwinfo.BindId.Key.{component_key}

-- `is_some_and` after `map(str::trim)`.
abbrev trimmed_is : (Text → Bool) → Option Text → Bool
trimmed_is test none = false
trimmed_is test (some s) = test (trim s)

unfoldable pub is_loopback_network : NetworkInfo → Bool
unfolding text_eq eq_ignore_ascii_case trim
is_loopback_network info =
    trimmed_is (λ i. text_eq i (codes "lo")) info.interface
    || trimmed_is (λ t. eq_ignore_ascii_case t (codes "loopback")) info.network_type

unfoldable pub is_generic_gpu_name : Text → Bool
unfolding eq_ignore_ascii_case strip_prefix
is_generic_gpu_name name =
    if eq_ignore_ascii_case name (codes "gpu")
      || eq_ignore_ascii_case name (codes "device")
      || eq_ignore_ascii_case name (codes "intel")
      || eq_ignore_ascii_case name (codes "amd")
      || eq_ignore_ascii_case name (codes "nvidia")
    then true
    else elim (strip_prefix (codes "GPU ") name) [
      | none ↦ false
      | some suffix ↦ any (λ ch. ch == b':') suffix
    ]

unfoldable pub is_software_gpu_identity : Text → Bool
unfolding to_ascii_lowercase contains_text
is_software_gpu_identity value =
    contains_text (codes "llvmpipe") (to_ascii_lowercase value)
    || contains_text (codes "softpipe") (to_ascii_lowercase value)
    || contains_text (codes "software rasterizer") (to_ascii_lowercase value)
    || contains_text (codes "swiftshader") (to_ascii_lowercase value)

unfoldable pub stable_gpu_name : Text → Option Text
unfolding is_generic_gpu_name is_software_gpu_identity trim
stable_gpu_name name =
    if is_generic_gpu_name (trim name) || is_software_gpu_identity (trim name)
    then none
    else some (trim name)

unfoldable pub stable_gpu_model : Option Text → Option Text
unfolding is_software_gpu_identity trim
stable_gpu_model none = none
stable_gpu_model (some model) =
    if is_empty (trim model) || is_software_gpu_identity (trim model)
    then none
    else some (trim model)

unfoldable pub stable_gpu_model_from : Option Text → Option Text → Option Text
unfolding stable_gpu_model
stable_gpu_model_from device_model description =
    or_option (stable_gpu_model device_model) (stable_gpu_model description)

unfoldable pub key_of_parts : DeviceKind → DeviceProperties → Device → Option Text
unfolding component_key is_loopback_network stable_gpu_name stable_gpu_model_from
key_of_parts DeviceKind.system (DeviceProperties.system info) device =
    component_key (codes "system")
      ((codes "manufacturer", info.manufacturer) ∷ (codes "product", info.product_name) ∷ [])
key_of_parts DeviceKind.motherboard (DeviceProperties.motherboard info) device =
    component_key (codes "motherboard")
      ((codes "serial", info.serial) ∷ (codes "product", info.product_name) ∷ [])
key_of_parts DeviceKind.memory (DeviceProperties.memory info) device =
    component_key (codes "memory")
      ((codes "serial", info.serial) ∷ (codes "product", info.part_number) ∷ [])
key_of_parts DeviceKind.storage (DeviceProperties.storage info) device =
    component_key (codes "storage") (
      (codes "serial", device.serial)
      ∷ (codes "model", or_option device.model info.controller_model)
      ∷ [])
key_of_parts DeviceKind.network (DeviceProperties.network info) device =
    if is_loopback_network info
    then none
    else component_key (codes "network") ((codes "mac", info.mac) ∷ [])
key_of_parts DeviceKind.gpu (DeviceProperties.gpu info) device = component_key (codes "gpu") (
    (codes "name", stable_gpu_name device.name)
    ∷ (codes "model", stable_gpu_model_from device.model info.description)
    ∷ [])
key_of_parts _ _ device = none

unfoldable pub component_key_from_device : Device → Option Text
unfolding key_of_parts
component_key_from_device device = key_of_parts device.kind device.properties device

unfoldable pub component_keys_from_devices : List Device → List Text
unfolding component_key_from_device sort text_leb
component_keys_from_devices devices = sort text_leb (filter_map component_key_from_device devices)
