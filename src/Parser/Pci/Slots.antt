-- ===== src/Parser/Pci/Slots.antt =====
-- Every slot of lspci has one record.
use qurbrix_hwinfo.Common.{
  ℕ, ◌+◌, Bool, true, false, not, ◌&&◌, ◌≡◌, refl, ap, ◌∙◌, Option, none, some, Bool-cases, inl,
  inr, List, [], ◌∷◌, ◌++◌, Text, codes, text_eq, trim, is_empty, split_once, count_char, lines,
  each_line, length, length-append, retain, leb, arith,
}
use qurbrix_hwinfo.Parser.Pci.{
  PciRecord, PciScan, no_devices, normalize_pci_address, vmm_field, flush, changed, vmm_pair,
  vmm_line, parse_lspci_vmm_nn_k,
}

-- A line with the tag of a slot.
abbrev pub tagged : Option (Text × Text) → Bool
tagged none = false
tagged (some pair) = text_eq pair.0 (codes "Slot")

abbrev pub is_slot : Text → Bool
is_slot line = not (is_empty (trim line)) && tagged (split_once (codes ":") (trim line))

abbrev one : Bool → ℕ
one true = 1
one false = 0

abbrev unlisted : Option PciRecord → ℕ
unlisted none = 0
unlisted (some r) = one (not (is_empty r.address))

abbrev total : PciScan → ℕ
total s = length s.records + unlisted s.current

length-flush :
    (records : List PciRecord) (o : Option PciRecord)
    → length (flush records o) ≡ length records + unlisted o
unfolding flush
length-flush records none = omega arith
length-flush records (some r) = elim (Bool-cases (is_empty r.address)) [
  | inl e ↦ rw (flush, e) (omega arith)
  | inr e ↦ rw (flush, e) (length-append records (r ∷ []))
]

normalize_pci_address-some : (value : Text) → is_empty (normalize_pci_address value) ≡ false
unfolding normalize_pci_address count_char
normalize_pci_address-some [] = refl
normalize_pci_address-some (c ∷ value) = elim (Bool-cases (leb 2 (count_char b':' (c ∷ value)))) [
  | inl e ↦ rw (normalize_pci_address, e) refl
  | inr e ↦ rw (normalize_pci_address, e) refl
]

vmm_field-address : (tag value : Text) (r : PciRecord) → (vmm_field tag value r).address ≡ r.address
unfolding vmm_field
vmm_field-address tag value r = ground arith

unlisted-changed :
    (tag value : Text) (o : Option PciRecord)
    → unlisted (changed (vmm_field tag value) o) ≡ unlisted o
unlisted-changed tag value none = refl
unlisted-changed tag value (some r) =
    ap (λ a. one (not (is_empty a))) (vmm_field-address tag value r)

vmm_pair-total :
    (o : Option (Text × Text)) (s : PciScan) → total (vmm_pair o s) ≡ total s + one (tagged o)
unfolding vmm_pair
vmm_pair-total none s = omega arith
vmm_pair-total (some (tag, value)) s = elim (Bool-cases (text_eq tag (codes "Slot"))) [
  | inl e ↦
      let full = normalize_pci_address-some (trim value) in
      let before = length-flush s.records s.current in rw (vmm_pair, e, full, before) refl
  | inr e ↦
      let same = unlisted-changed tag (trim value) s.current in rw (vmm_pair, e, same) (omega arith)
]

vmm_line-total :
    (line : Text) (s : PciScan) → total (vmm_line line s) ≡ total s + one (is_slot line)
unfolding vmm_line
vmm_line-total line s = elim (Bool-cases (is_empty (trim line))) [
  | inl e ↦ let before = length-flush s.records s.current in rw (vmm_line, e, before) (omega arith)
  | inr e ↦ rw (vmm_line, e) (vmm_pair-total (split_once (codes ":") (trim line)) s)
]

each_line-total :
    (ls : List Text) (s : PciScan)
    → total (each_line vmm_line ls s) ≡ total s + length (retain is_slot ls)
each_line-total [] s = omega arith
each_line-total (l ∷ ls) s = elim (Bool-cases (is_slot l)) [
  | inl e ↦
      let step = vmm_line-total l s in
      let rest = each_line-total ls (vmm_line l s) in rw e (omega (arith, rest, rw e at step))
  | inr e ↦
      let step = vmm_line-total l s in
      let rest = each_line-total ls (vmm_line l s) in rw e (omega (arith, rest, rw e at step))
]

-- The empty line behind the last one lists the last record.
each_line-last :
    (ls : List Text) (s : PciScan)
    → length (each_line vmm_line (ls ++ [] ∷ []) s).records ≡ total (each_line vmm_line ls s)
unfolding vmm_line
each_line-last [] s = length-flush s.records s.current
each_line-last (l ∷ ls) s = each_line-last ls (vmm_line l s)

-- There are as many records as lines with the tag of a slot: none is lost, and none is without one.
pub length-parse_lspci_vmm_nn_k :
    (input : Text) → length (parse_lspci_vmm_nn_k input) ≡ length (retain is_slot (lines input))
unfolding parse_lspci_vmm_nn_k
length-parse_lspci_vmm_nn_k input =
    each_line-last (lines input) no_devices ∙ each_line-total (lines input) no_devices ∙ omega arith
