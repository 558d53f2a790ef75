-- ===== src/Tests/Parsers.antt =====
-- The line parsers at concrete inputs.
use qurbrix_hwinfo.Common.{
  ◌*◌, ◌%◌, ◌≡◌, Option, none, List, refl, some, [], ◌∷◌, ◌++◌, map, Text, codes, to_string,
  to_ascii_uppercase, lines, length, retain, arith,
}
use qurbrix_hwinfo.Parser.Input.{parse_proc_bus_input_devices}
use qurbrix_hwinfo.Parser.Input.Hwinfo.{HwinfoInputRecord, parse_hwinfo_input}
use qurbrix_hwinfo.Parser.Bluetooth.{parse_hciconfig}
use qurbrix_hwinfo.Parser.Network.{parse_lshw_network}
use qurbrix_hwinfo.Parser.Video.{parse_v4l2_list_devices, parse_v4l2_list_formats_ext}
use qurbrix_hwinfo.Parser.Storage.{parse_lshw_disk, parse_hdparm_identify}
use qurbrix_hwinfo.Parser.Storage.Hwinfo.{HwinfoDiskRecord, parse_hwinfo_disk}
use qurbrix_hwinfo.Parser.Storage.Smart.{pos, negsuc, kelvin_or_kelvin_x10_to_celsius}
use qurbrix_hwinfo.Parser.Dmi.{DmiMemoryRecord}
use qurbrix_hwinfo.Parser.Dmi.Units.{parse_size_to_bytes, u64_bound, parse_proc_meminfo_total_bytes}
use qurbrix_hwinfo.Parser.Dmi.Units.Printed.{parse_size_to_bytes-to_string}
use qurbrix_hwinfo.Parser.Dmi.Memory.{parse_dmidecode_memory}
use qurbrix_hwinfo.Parser.Pci.{PciRecord, parse_lspci_vmm_nn_k}
use qurbrix_hwinfo.Parser.Pci.Slots.{is_slot, length-parse_lspci_vmm_nn_k}

-- A slot with a module, and one without.
abbrev two_slots : Text
two_slots =
    codes "Memory Device"
    ++ (10 ∷ codes " Size: 8 GB"
        ++ (10 ∷ codes "Memory Device" ++ (10 ∷ codes " Size: No Module Installed" ++ 10 ∷ [])))

one_module :
    map (λ (r : DmiMemoryRecord). r.size) (parse_dmidecode_memory to_ascii_uppercase two_slots)
    ≡ some (codes "8 GB") ∷ []
unfolding parse_dmidecode_memory
one_module = refl

abbrev two_banks : Text
two_banks = codes "*-bank:0" ++ (10 ∷ codes " size: 8GiB" ++ (10 ∷ codes "*-bank:1" ++ 10 ∷ []))

eight : parse_size_to_bytes (some (codes "8GiB")) ≡ some 8589934592
unfolding parse_size_to_bytes
eight = refl

parse_size_to_bytes-to_string_example :
    parse_size_to_bytes (some (to_string 640 ++ codes " KB")) ≡ some (640 * 1024 % u64_bound)
parse_size_to_bytes-to_string_example = parse_size_to_bytes-to_string 640 (omega arith)

total_bytes : parse_proc_meminfo_total_bytes (codes "MemTotal:  2 kB") ≡ some 2048
unfolding parse_proc_meminfo_total_bytes
total_bytes = refl

abbrev listing : Text
listing =
    codes "Slot: 00:1f.3"
    ++ (10 ∷ codes "Class: Audio device [0403]"
        ++ (10 ∷ 10 ∷ codes "Slot: 0000:01:00.0" ++ (10 ∷ codes "Driver: nvme" ++ 10 ∷ [])))

two_addresses :
    map (λ (r : PciRecord). r.address) (parse_lspci_vmm_nn_k listing)
    ≡ codes "0000:00:1f.3" ∷ codes "0000:01:00.0" ∷ []
unfolding parse_lspci_vmm_nn_k
two_addresses = refl

length-parse_lspci_vmm_nn_k_example :
    length (parse_lspci_vmm_nn_k listing) ≡ length (retain is_slot (lines listing))
length-parse_lspci_vmm_nn_k_example = length-parse_lspci_vmm_nn_k listing

abbrev disks : Text
disks =
    codes "*-disk"
    ++ (10 ∷ codes " product: WD Blue"
        ++ (10 ∷ codes " configuration: firmware=1.02 speed=6Gbit"
            ++ (10 ∷ codes "*-volume" ++ 10 ∷ [])))

one_disk :
    map {B = Option Text × Option Text × Option Text}
      (λ r. (r.product, r.firmware, r.speed))
      (parse_lshw_disk disks)
    ≡ (some (codes "WD Blue"), some (codes "1.02"), some (codes "6Gbit")) ∷ []
unfolding parse_lshw_disk
one_disk = refl

identification :
    (parse_hdparm_identify (codes " Model=ST1000, FwRev=CC43, SerialNo=Z1")).serial
    ≡ some (codes "Z1")
unfolding parse_hdparm_identify
identification = refl

abbrev hwinfo_disks : Text
hwinfo_disks =
    codes "Hardware Class: disk"
    ++ (10 ∷ codes "SysFS ID: /class/block/sda"
        ++ (10 ∷ 10 ∷ codes "Hardware Class: cdrom" ++ (10 ∷ codes "Model: DVD" ++ [])))

one_node :
    map (λ (r : HwinfoDiskRecord). r.device_node) (parse_hwinfo_disk hwinfo_disks)
    ≡ some (codes "/dev/sda") ∷ []
unfolding parse_hwinfo_disk
one_node = refl

-- 31.0 degrees in tenths of a kelvin, and a sensor below freezing.
temperatures :
    (kelvin_or_kelvin_x10_to_celsius 3040 ≡ pos 31)
    × (kelvin_or_kelvin_x10_to_celsius 272 ≡ negsuc 0)
unfolding kelvin_or_kelvin_x10_to_celsius
temperatures = (refl, refl)

abbrev controller : Text
controller =
    codes "hci0: Type: Primary  Bus: USB"
    ++ (10 ∷ codes " UP RUNNING" ++ (10 ∷ codes " HCI Version: 5.1" ++ []))

one_controller :
    map {B = Option Text × Option Text × List Text × Option Text}
      (λ r. (r.name, r.bus, r.flags, r.hci_version))
      (parse_hciconfig (λ _. none) (λ _. none) controller)
    ≡ (
      some (codes "hci0"),
      some (codes "USB"),
      codes "UP" ∷ codes "RUNNING" ∷ [],
      some (codes "5.1"),
    )
      ∷ []
unfolding parse_hciconfig
one_controller = refl

abbrev camera : Text
camera =
    codes "UVC Camera (usb-1):"
    ++ (10 ∷ 9 ∷ codes "/dev/video0" ++ (10 ∷ 9 ∷ codes "/dev/media0" ++ []))

one_camera :
    parse_v4l2_list_devices camera
    ≡ (record {
      name = codes "UVC Camera";
      bus_hint = some (codes "usb-1");
      nodes = codes "/dev/video0" ∷ [];
    })
      ∷ []
unfolding parse_v4l2_list_devices
one_camera = refl

abbrev formats : Text
formats =
    codes "[0]: 'MJPG' (Motion)"
    ++ (10 ∷ codes " Size: Discrete 640x480" ++ (10 ∷ codes " Size: Discrete 640x480" ++ []))

one_format : parse_v4l2_list_formats_ext formats ≡ codes "MJPG 640x480" ∷ []
unfolding parse_v4l2_list_formats_ext
one_format = refl

abbrev interface : Text
interface =
    codes "*-network"
    ++ (10 ∷ codes " product: I219" ++ (10 ∷ codes " configuration: driver=e1000e" ++ []))

one_interface :
    map {B = Option Text × Option Text}
      (λ r. (r.product, r.driver))
      (parse_lshw_network (λ _. none) interface)
    ≡ (some (codes "I219"), some (codes "e1000e")) ∷ []
unfolding parse_lshw_network
one_interface = refl

abbrev inputs : Text
inputs =
    codes "N: Name=\"Power Button\""
    ++ (10 ∷ codes "H: Handlers=kbd event0" ++ (10 ∷ codes "B: EV=3" ++ []))

one_input :
    map {B = Option Text × List Text × Option Text}
      (λ r. (r.name, r.handlers, r.capabilities.ev))
      (parse_proc_bus_input_devices (λ _. none) inputs)
    ≡ (some (codes "Power Button"), codes "kbd" ∷ codes "event0" ∷ [], some (codes "3")) ∷ []
unfolding parse_proc_bus_input_devices
one_input = refl

abbrev mice : Text
mice =
    codes "Hardware Class: mouse"
    ++ (10 ∷ codes "Device Files: /dev/input/mice, /dev/input/event4"
        ++ (10 ∷ 10 ∷ codes "Model: none" ++ []))

one_mouse :
    map (λ (r : HwinfoInputRecord). r.event_node) (parse_hwinfo_input mice)
    ≡ some (codes "/dev/input/event4") ∷ []
unfolding parse_hwinfo_input
one_mouse = refl
