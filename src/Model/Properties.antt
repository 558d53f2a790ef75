-- ===== src/Model/Properties.antt =====
-- crates/hw-model/src/properties.rs: what a device of each kind carries.
pub mod Numbers
mod Board
mod Processor
mod Storage
mod Display
mod Network
mod Peripheral
mod Attached
pub use Board.*
pub use Processor.*
pub use Storage.*
pub use Display.*
pub use Network.*
pub use Peripheral.*
pub use Attached.*

pub data DeviceProperties : Type 0 where
  system : SystemDeviceInfo → DeviceProperties
  motherboard : MotherboardInfo → DeviceProperties
  bios : BiosInfo → DeviceProperties
  cpu : CpuInfo → DeviceProperties
  memory : MemoryInfo → DeviceProperties
  storage : StorageInfo → DeviceProperties
  gpu : GpuInfo → DeviceProperties
  monitor : MonitorInfo → DeviceProperties
  network : NetworkInfo → DeviceProperties
  audio : AudioInfo → DeviceProperties
  bluetooth : BluetoothInfo → DeviceProperties
  input : InputInfo → DeviceProperties
  camera : CameraInfo → DeviceProperties
  battery : BatteryInfo → DeviceProperties
  printer : PrinterInfo → DeviceProperties
  cdrom : CdromInfo → DeviceProperties
  usb : UsbInfo → DeviceProperties
  pci : PciInfo → DeviceProperties
  other_pci : OtherPciInfo → DeviceProperties
  other_device : OtherDeviceInfo → DeviceProperties
