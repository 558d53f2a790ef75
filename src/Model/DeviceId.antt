-- ===== src/Model/DeviceId.antt =====
-- crates/hw-model/src/id.rs: the stable id of a device of each kind.
use qurbrix_hwinfo.Common.{
  Option, none, some, ◌++◌, Text, codes, trim, is_empty, unwrap_or, if◌then◌else◌,
}

-- `.map(str::trim).filter(|v| !v.is_empty())`.
unfoldable pub trimmed : Option Text → Option Text
unfolding trim
trimmed none = none
trimmed (some v) = if is_empty (trim v) then none else some (trim v)

unfoldable pub pci_id : Text → Text
unfolding trim
pci_id address = codes "pci:" ++ trim address

usb_by_address : Option Text → Option Text → Text
unfolding trim
usb_by_address bus device =
    codes "usb:"
    ++ (trim (unwrap_or bus (codes "unknown"))
        ++ (codes ":" ++ trim (unwrap_or device (codes "unknown"))))

unfoldable pub usb_id : Option Text → Option Text → Option Text → Option Text → Option Text → Text
unfolding usb_by_address
usb_id bus device (some vendor_id) (some product_id) (some serial) =
    if is_empty (trim serial)
    then usb_by_address bus device
    else codes "usb:"
      ++ (trim vendor_id ++ (codes ":" ++ (trim product_id ++ (codes ":" ++ trim serial))))
usb_id bus device _ _ _ = usb_by_address bus device

unfoldable pub network_id : Option Text → Text → Text
unfolding trimmed
network_id mac iface = elim (trimmed mac) [
  | some m ↦ codes "net:mac:" ++ m
  | none ↦ codes "net:iface:" ++ trim iface
]

unfoldable pub storage_id : Option Text → Option Text → Text → Text
unfolding trimmed
storage_id wwn serial node = elim (trimmed wwn) [
  | some w ↦ codes "storage:wwn:" ++ w
  | none ↦ elim (trimmed serial) [
    | some s ↦ codes "storage:serial:" ++ s
    | none ↦ codes "storage:dev:" ++ trim node
  ]
]
