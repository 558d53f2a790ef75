-- ===== src/Model/Kind/Names.antt =====
-- The names of the kinds, and the parser of them.
use qurbrix_hwinfo.Common.{
  ◌≡◌, refl, Bool-cases, Text, text_eq, text_eq_sound, if◌then◌else◌, inl, inr,
}
use qurbrix_hwinfo.Model.Kind.{
  DeviceKind, system, motherboard, bios, cpu, memory, storage, gpu, monitor, network, audio,
  bluetooth, input, camera, battery, printer, cdrom, usb, pci, other_pci, other_device, as_str,
  KindResult, ok, from_str,
}

from_str-as_str : (k : DeviceKind) → from_str (as_str k) ≡ ok k
unfolding from_str as_str
from_str-as_str system = refl
from_str-as_str motherboard = refl
from_str-as_str bios = refl
from_str-as_str cpu = refl
from_str-as_str memory = refl
from_str-as_str storage = refl
from_str-as_str gpu = refl
from_str-as_str monitor = refl
from_str-as_str network = refl
from_str-as_str audio = refl
from_str-as_str bluetooth = refl
from_str-as_str input = refl
from_str-as_str camera = refl
from_str-as_str battery = refl
from_str-as_str printer = refl
from_str-as_str cdrom = refl
from_str-as_str usb = refl
from_str-as_str pci = refl
from_str-as_str other_pci = refl
from_str-as_str other_device = refl

-- One line of the match: the rest of it says what the whole says.
line :
    (s t : Text) (k k' : DeviceKind) (rest : KindResult)
    → t ≡ as_str k'
    → (if text_eq s t then ok k' else rest) ≡ ok k
    → (rest ≡ ok k → as_str k ≡ s)
    → as_str k ≡ s
line s t k k' rest name h go = elim (Bool-cases (text_eq s t)) [
  | inl e ↦ cc (text_eq_sound s t e)
  | inr e ↦ go (cc)
]

-- A kind's name is parsed to that kind, and nothing but its name is.
pub from_str-inverse :
    (s : Text) (k : DeviceKind) → (from_str (as_str k) ≡ ok k) × (from_str s ≡ ok k → as_str k ≡ s)
unfolding from_str as_str
from_str-inverse s k = (
  from_str-as_str k,
  λ h. line s _ k system _ refl h (λ h1. line s _ k motherboard _ refl h1 (λ h2.
      line s _ k bios _ refl h2 (λ h3. line s _ k cpu _ refl h3 (λ h4.
        line s _ k memory _ refl h4 (λ h5. line s _ k storage _ refl h5 (λ h6.
          line s _ k gpu _ refl h6 (λ h7. line s _ k monitor _ refl h7 (λ h8.
            line s _ k network _ refl h8 (λ h9. line s _ k audio _ refl h9 (λ h10.
              line s _ k bluetooth _ refl h10 (λ h11. line s _ k input _ refl h11 (λ h12.
                line s _ k camera _ refl h12 (λ h13. line s _ k battery _ refl h13 (λ h14.
                  line s _ k printer _ refl h14 (λ h15. line s _ k cdrom _ refl h15 (λ h16.
                    line s _ k usb _ refl h16 (λ h17. line s _ k pci _ refl h17 (λ h18.
                      line s _ k other_pci _ refl h18 (λ h19.
                        line s _ k other_device _ refl h19
                          (λ h20. absurd (cc h20))))))))))))))))))))),
)
