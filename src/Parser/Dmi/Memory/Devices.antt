-- ===== src/Parser/Dmi/Memory/Devices.antt =====
-- dmidecode's memory parser told as a reading of each memory device by itself.
use qurbrix_hwinfo.Common.{Bool, Text, codes, text_eq, trim, split_once}
use qurbrix_hwinfo.Parser.Dmi.{DmiMemoryRecord}
use qurbrix_hwinfo.Parser.Dmi.Memory.{with_pair, dmidecode_memory_field}

-- The opening line of a memory device.
abbrev pub is_memory_device : Text → Bool
is_memory_device line = text_eq (trim line) (codes "Memory Device")

module _ (to_uppercase : Text → Text) where
  -- A line of a memory device: a key and its value.
  abbrev pub fill_device : Text → DmiMemoryRecord → DmiMemoryRecord
  fill_device line =
      with_pair (split_once (codes ":") (trim line))
        (λ key value. dmidecode_memory_field to_uppercase key (trim value))
