-- ===== src/Model/Tests.antt =====
-- Runs and witnesses of the model's modules.
use qurbrix_hwinfo.Common.{◌≡◌, refl, codes}
use qurbrix_hwinfo.Model.Kind.{from_str, ok, other_pci}

from_str_other_pci : from_str (codes "other-pci") ≡ ok other_pci
unfolding from_str
from_str_other_pci = refl
