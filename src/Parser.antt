-- ===== src/Parser.antt =====
-- crates/hw-parser: the parsers of what the sources print or hold.
pub mod Edid
pub mod Lossy
pub mod Dmi
pub mod Util
pub mod Pci
pub mod Usb
pub mod Power
pub mod Printer
pub mod Cdrom
pub mod Node
pub mod Storage
pub mod Bluetooth
pub mod Network
pub mod Video
pub mod Input
