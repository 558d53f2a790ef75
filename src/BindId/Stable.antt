-- ===== src/BindId/Stable.antt =====
-- The id does not depend on the order in which the components are listed.
use mathlib.Core.Path.{◌≡◌}
use mathlib.Core.Logic.{∥∥₁_map}
use mathlib.Core.List.{Permᴰ}
use mathlib.Core.List.Permᴰ
use qurbrix_hwinfo.Common.{
  arith, sym, ap, Option, none, some, List, ◌∷◌, ◌++◌, map, Perm, Text, codes, text_leb, text_order,
  Texts-set, sort, sort_of_perm, filter_map, before,
}
use qurbrix_hwinfo.Model.Evidence.{ScanWarning}
use qurbrix_hwinfo.Model.Device.{Device}
use qurbrix_hwinfo.Model.Report.{ScanReport}
use qurbrix_hwinfo.BindId.Key.{bindid_value}
use qurbrix_hwinfo.BindId.Devices.{component_keys_from_devices, component_key_from_device}
use qurbrix_hwinfo.BindId.Summary.{covered_kinds, from_parts, from_scan_report}

module _ {ℓ} {B : Type ℓ} where
  abbrev cons_some : Option B → List B → List B
  cons_some none l = l
  cons_some (some b) l = b ∷ l

  cons_some-permᴰ :
      (o p : Option B) (l r : List B) → o ≡ p → Permᴰ l r → Permᴰ (cons_some o l) (cons_some p r)
  cons_some-permᴰ none none l r e d = d
  cons_some-permᴰ none (some q) l r e d = cc
  cons_some-permᴰ (some b) none l r e d = cc
  cons_some-permᴰ (some b) (some q) l r e d = Permᴰ.cons (cc) d

  cons_some-swapᴰ :
      (o p q r : Option B) (l : List B)
      → o ≡ r
      → p ≡ q
      → Permᴰ (cons_some o (cons_some p l)) (cons_some q (cons_some r l))
  cons_some-swapᴰ none p q none l e g = cons_some-permᴰ p q l l g (Permᴰ.refl l)
  cons_some-swapᴰ none p q (some r) l e g = cc
  cons_some-swapᴰ (some o) p q none l e g = cc
  cons_some-swapᴰ (some o) none none (some r) l e g = Permᴰ.cons (cc) (Permᴰ.refl l)
  cons_some-swapᴰ (some o) none (some q) (some r) l e g = cc
  cons_some-swapᴰ (some o) (some p) none (some r) l e g = cc
  cons_some-swapᴰ (some o) (some p) (some q) (some r) l e g = Permᴰ.swap (cc) (cc)

module _ {ℓ κ} {A : Type ℓ} {B : Type κ} (f : A → Option B) where
  filter_map-cons : (x : A) (l : List A) → filter_map f (x ∷ l) ≡ cons_some (f x) (filter_map f l)
  filter_map-cons x l = ground arith

  filter_map-permᴰ : {xs ys : List A} → Permᴰ xs ys → Permᴰ (filter_map f xs) (filter_map f ys)
  filter_map-permᴰ Permᴰ.nil = Permᴰ.nil
  filter_map-permᴰ (Permᴰ.cons {a} {b} {l₁} {l₂} e d) =
      rw (filter_map-cons a l₁, filter_map-cons b l₂)
        (cons_some-permᴰ (f a) (f b) _ _ (ap f e) (filter_map-permᴰ d))
  filter_map-permᴰ (Permᴰ.swap {a} {b} {a'} {b'} {l} e g) =
      rw
        (
          filter_map-cons a (b ∷ l),
          filter_map-cons b l,
          filter_map-cons a' (b' ∷ l),
          filter_map-cons b' l,
        )
        (cons_some-swapᴰ (f a) (f b) (f a') (f b') _ (ap f e) (ap f g))
  filter_map-permᴰ (Permᴰ.trans d e) = Permᴰ.trans (filter_map-permᴰ d) (filter_map-permᴰ e)

  filter_map-perm : {xs ys : List A} → Perm xs ys → Perm (filter_map f xs) (filter_map f ys)
  filter_map-perm {xs} {ys} p =
      ∥∥₁_map {B = Permᴰ (filter_map f xs) (filter_map f ys)} p filter_map-permᴰ

sorted_same :
    (f : Text → Option Text) {xs ys : List Text}
    → Perm xs ys
    → sort text_leb (filter_map f xs) ≡ sort text_leb (filter_map f ys)
sorted_same f p = sort_of_perm text_order Texts-set (filter_map-perm f p)

-- Reports from the same keys, in whatever order, are the same: status, id and kinds.
pub from_parts-stable :
    (sha1_hex : Text → Text) (keys others warnings : List Text)
    → Perm keys others
    → from_parts sha1_hex keys warnings ≡ from_parts sha1_hex others warnings
unfolding from_parts covered_kinds bindid_value
from_parts-stable sha1_hex keys others warnings p =
    cc (sort_of_perm text_order Texts-set p, sorted_same (before b':') p)

abbrev warning_lines : ScanReport → List Text
warning_lines report =
    map (λ (w : ScanWarning). w.code ++ (codes ": " ++ w.message)) report.warnings

-- A report with its devices in another order has the same id report.
pub from_scan_report-stable :
    (sha1_hex : Text → Text) (report : ScanReport) (devices : List Device)
    → Perm report.devices devices
    → from_scan_report sha1_hex (record report { devices = devices })
      ≡ from_scan_report sha1_hex report
unfolding from_scan_report component_keys_from_devices
from_scan_report-stable sha1_hex report devices p =
    ap (λ keys. from_parts sha1_hex keys (warning_lines report))
      (sym (sort_of_perm text_order Texts-set (filter_map-perm component_key_from_device p)))
