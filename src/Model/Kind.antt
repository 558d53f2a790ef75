-- ===== src/Model/Kind.antt =====
-- crates/hw-model/src/kind.rs: the kinds of devices and their names.
pub mod Names
use qurbrix_hwinfo.Common.{
  ℕ, Bool, List, [], ◌∷◌, ◌++◌, Text, codes, text_eq, if◌then◌else◌, ◌==◌, any,
}

pub data DeviceKind : Type 0 where
  system motherboard bios cpu memory storage gpu monitor network audio bluetooth input camera
        battery printer cdrom usb pci other_pci other_device :
      DeviceKind

-- `DeviceKind::ALL`.
abbrev pub all_kinds : List DeviceKind
all_kinds =
    system ∷ motherboard ∷ bios ∷ cpu ∷ memory ∷ storage ∷ gpu ∷ monitor ∷ network ∷ audio
    ∷ bluetooth ∷ input ∷ camera ∷ battery ∷ printer ∷ cdrom ∷ usb ∷ pci ∷ other_pci ∷ other_device
    ∷ []

unfoldable pub as_str : DeviceKind → Text
as_str system = codes "system"
as_str motherboard = codes "motherboard"
as_str bios = codes "bios"
as_str cpu = codes "cpu"
as_str memory = codes "memory"
as_str storage = codes "storage"
as_str gpu = codes "gpu"
as_str monitor = codes "monitor"
as_str network = codes "network"
as_str audio = codes "audio"
as_str bluetooth = codes "bluetooth"
as_str input = codes "input"
as_str camera = codes "camera"
as_str battery = codes "battery"
as_str printer = codes "printer"
as_str cdrom = codes "cdrom"
as_str usb = codes "usb"
as_str pci = codes "pci"
as_str other_pci = codes "other-pci"
as_str other_device = codes "other-device"

pub data KindResult : Type 0 where
  ok : DeviceKind → KindResult
  err : Text → KindResult

unfoldable pub from_str : Text → KindResult
unfolding text_eq
from_str value =
    if text_eq value (codes "system")
    then ok system
    else if text_eq value (codes "motherboard")
    then ok motherboard
    else if text_eq value (codes "bios")
    then ok bios
    else if text_eq value (codes "cpu")
    then ok cpu
    else if text_eq value (codes "memory")
    then ok memory
    else if text_eq value (codes "storage")
    then ok storage
    else if text_eq value (codes "gpu")
    then ok gpu
    else if text_eq value (codes "monitor")
    then ok monitor
    else if text_eq value (codes "network")
    then ok network
    else if text_eq value (codes "audio")
    then ok audio
    else if text_eq value (codes "bluetooth")
    then ok bluetooth
    else if text_eq value (codes "input")
    then ok input
    else if text_eq value (codes "camera")
    then ok camera
    else if text_eq value (codes "battery")
    then ok battery
    else if text_eq value (codes "printer")
    then ok printer
    else if text_eq value (codes "cdrom")
    then ok cdrom
    else if text_eq value (codes "usb")
    then ok usb
    else if text_eq value (codes "pci")
    then ok pci
    else if text_eq value (codes "other-pci")
    then ok other_pci
    else if text_eq value (codes "other-device")
    then ok other_device
    else err (codes "unsupported device kind: " ++ value)

-- The place of a kind in its declaration.
abbrev pub kind_rank : DeviceKind → ℕ
kind_rank system = 0
kind_rank motherboard = 1
kind_rank bios = 2
kind_rank cpu = 3
kind_rank memory = 4
kind_rank storage = 5
kind_rank gpu = 6
kind_rank monitor = 7
kind_rank network = 8
kind_rank audio = 9
kind_rank bluetooth = 10
kind_rank input = 11
kind_rank camera = 12
kind_rank battery = 13
kind_rank printer = 14
kind_rank cdrom = 15
kind_rank usb = 16
kind_rank pci = 17
kind_rank other_pci = 18
kind_rank other_device = 19

-- The derived `PartialEq`.
unfoldable pub kind_eq : DeviceKind → DeviceKind → Bool
kind_eq a b = kind_rank a == kind_rank b

-- `contains` on kinds.
unfoldable pub has_kind : List DeviceKind → DeviceKind → Bool
unfolding kind_eq
has_kind kinds k = any (kind_eq k) kinds
