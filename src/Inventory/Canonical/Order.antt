-- ===== src/Inventory/Canonical/Order.antt =====
-- The order in which the devices are listed does not reach the canonical report.
use mathlib.Core.Logic.{∥∥₁_elim}
use mathlib.Core.List.{append-nil, append_assoc, perm_append_comm, Permᴰ, Perm-prop}
use mathlib.Core.List.Perm
use mathlib.Core.HLevel.{×_prop}
use qurbrix_hwinfo.Common.{
  ◌≡◌, ap, ◌∙◌, Bool, true, false, Option, none, some, List, [], ◌∷◌, ◌++◌, Text, Perm, Texts-set,
  text_eq, dedup, text_order, sort_of_perm, if◌then◌else◌,
}
use qurbrix_hwinfo.Model.Device.{Device, DriverInfo}
use qurbrix_hwinfo.Model.Properties.{DeviceProperties}
use qurbrix_hwinfo.Model.Snapshot.{CoreIdentityGroup}
use qurbrix_hwinfo.Inventory.Canonical.Normalize.{normalize_records}
use qurbrix_hwinfo.Inventory.Canonical.Records.{
  Field, Records, no_records, push_record, record_of, identify, configure, push_driver,
  push_driver_configuration, collect_properties, records_own_driver, collect_device_records,
}
use qurbrix_hwinfo.Inventory.Canonical.Digest.{Codec, collect_all, canonicalize_devices}

infixl 65 ◌⊕◌
abbrev ◌⊕◌ : Records → Records → Records
r ⊕ a = record {
  identity = r.identity ++ a.identity;
  configuration = r.configuration ++ a.configuration;
}

⊕_assoc : (a b c : Records) → a ⊕ b ⊕ c ≡ a ⊕ (b ⊕ c)
⊕_assoc a b c = simp append_assoc

-- `f` only appends: what it adds does not depend on what is there.
abbrev Appends : (Records → Records) → Type 0
Appends f = (a : Records) × ((r : Records) → f r ≡ r ⊕ a)

Appends-id : Appends (λ r. r)
Appends-id = (no_records, λ r. simp append-nil)

Appends-comp : {f g : Records → Records} → Appends f → Appends g → Appends (λ r. g (f r))
Appends-comp {f} {g} (a, p) (b, q) = (a ⊕ b, λ r. q (f r) ∙ ap (λ s. s ⊕ b) (p r) ∙ ⊕_assoc r a b)

Appends-if :
    (c : Bool) {f g : Records → Records}
    → Appends f
    → Appends g
    → Appends (λ r. if c then f r else g r)
Appends-if true p q = p
Appends-if false p q = q

Appends-identify : (kind : Text) (fields : List Field) → Appends (identify kind fields)
unfolding push_record
Appends-identify kind fields =
    (record { identity = record_of kind fields; configuration = [] }, λ r. simp append-nil)

Appends-configure : (kind : Text) (fields : List Field) → Appends (configure kind fields)
unfolding push_record
Appends-configure kind fields =
    (record { identity = []; configuration = record_of kind fields }, λ r. simp append-nil)

Appends-push_driver :
    (d : Device) (kind : Text) (o : Option DriverInfo) → Appends (push_driver d kind o)
unfolding push_driver
Appends-push_driver d kind none = Appends-id
Appends-push_driver d kind (some driver) = Appends-configure kind _

Appends-driver : (d : Device) (kind : Text) → Appends (push_driver_configuration d kind)
unfolding push_driver_configuration
Appends-driver d kind = Appends-push_driver d kind d.driver

module _ (json_array : List (Option Text) → Text) where
  Appends-properties :
      (d : Device) (p : DeviceProperties) → Appends (collect_properties json_array d p)
  unfolding collect_properties
  Appends-properties d (DeviceProperties.system info) =
      Appends-comp (Appends-identify _ _) (Appends-configure _ _)
  Appends-properties d (DeviceProperties.motherboard info) = Appends-identify _ _
  Appends-properties d (DeviceProperties.bios info) = Appends-configure _ _
  Appends-properties d (DeviceProperties.cpu info) = Appends-identify _ _
  Appends-properties d (DeviceProperties.memory info) =
      Appends-comp (Appends-identify _ _) (Appends-configure _ _)
  Appends-properties d (DeviceProperties.storage info) =
      Appends-comp (Appends-identify _ _) (Appends-configure _ _)
  Appends-properties d (DeviceProperties.network info) =
      Appends-if _ (Appends-comp (Appends-identify _ _) (Appends-configure _ _)) Appends-id
  Appends-properties d (DeviceProperties.gpu info) =
      Appends-if _ Appends-id (Appends-comp (Appends-identify _ _) (Appends-driver d _))
  Appends-properties d _ = Appends-id

  Appends-device : (d : Device) → Appends (collect_device_records json_array d)
  unfolding collect_device_records
  Appends-device d =
      Appends-if (records_own_driver json_array d.properties) (Appends-properties d d.properties)
        (Appends-comp (Appends-properties d d.properties) (Appends-driver d _))

perm_swap_front : (xs ys zs : List Text) → Perm (xs ++ (ys ++ zs)) (ys ++ (xs ++ zs))
perm_swap_front xs ys zs =
    rw (← append_assoc xs ys zs, ← append_assoc ys xs zs)
      (Perm.append_right zs (perm_append_comm xs ys))

abbrev SameRecords : Records → Records → Type 0
SameRecords r s = Perm r.identity s.identity × Perm r.configuration s.configuration

module _ (c : Codec) where
  part : Device → Records
  part d = (Appends-device c.json_array d).0

  -- What the devices add, in their order.
  added : List Device → Records
  added [] = no_records
  added (d ∷ ds) = part d ⊕ added ds

  collect_all-added : (ds : List Device) (r : Records) → collect_all c ds r ≡ r ⊕ added ds
  unfolding collect_all added part
  collect_all-added [] r = simp append-nil
  collect_all-added (d ∷ ds) r =
      collect_all-added ds (collect_device_records c.json_array d r)
      ∙ ap (λ s. s ⊕ added ds) ((Appends-device c.json_array d).1 r)
      ∙ ⊕_assoc r _ _

  SameRecords-cons :
      {d e : Device} (r s : Records)
      → d ≡ e
      → SameRecords r s
      → SameRecords (part d ⊕ r) (part e ⊕ s)
  SameRecords-cons {d} r s q (i, j) = rw (← q) (Perm.append_left _ i, Perm.append_left _ j)

  SameRecords-swap :
      (a b : Device) (r : Records) → SameRecords (part a ⊕ (part b ⊕ r)) (part b ⊕ (part a ⊕ r))
  SameRecords-swap a b r = (
    perm_swap_front (part a).identity (part b).identity r.identity,
    perm_swap_front (part a).configuration (part b).configuration r.configuration,
  )

  added_of_permᴰ : {ds es : List Device} → Permᴰ ds es → SameRecords (added ds) (added es)
  unfolding added
  added_of_permᴰ Permᴰ.nil = (Perm.rfl, Perm.rfl)
  added_of_permᴰ (Permᴰ.cons {l₁} {l₂} e p) =
      SameRecords-cons (added l₁) (added l₂) e (added_of_permᴰ p)
  added_of_permᴰ (Permᴰ.swap {a} {b} {l} e f) = rw (← e, ← f) (SameRecords-swap a b (added l))
  added_of_permᴰ (Permᴰ.trans p q) =
      let (i, j) = added_of_permᴰ p in
      let (k, l) = added_of_permᴰ q in (Perm.trans i k, Perm.trans j l)

  added_of_perm : {ds es : List Device} → Perm ds es → SameRecords (added ds) (added es)
  added_of_perm p = ∥∥₁_elim p (×_prop Perm-prop Perm-prop) added_of_permᴰ

normalize_records_of_perm :
    {xs ys : List Text} → Perm xs ys → normalize_records xs ≡ normalize_records ys
unfolding normalize_records
normalize_records_of_perm p = ap (dedup text_eq) (sort_of_perm text_order Texts-set p)

module _ (c : Codec) {ds es : List Device} (p : Perm ds es) where
  identity_of_perm :
      (xs : List Text)
      → normalize_records ((collect_all c ds no_records).identity ++ xs)
        ≡ normalize_records ((collect_all c es no_records).identity ++ xs)
  identity_of_perm xs =
      rw (collect_all-added c ds no_records, collect_all-added c es no_records)
        (normalize_records_of_perm (Perm.append_right xs (added_of_perm c p).0))

  configuration_of_perm :
      normalize_records (collect_all c ds no_records).configuration
      ≡ normalize_records (collect_all c es no_records).configuration
  configuration_of_perm =
      rw (collect_all-added c ds no_records, collect_all-added c es no_records)
        (normalize_records_of_perm (added_of_perm c p).1)

-- The canonical report, or the error, is the same for every order of the devices: with it the machine
-- bind id, the configuration fingerprint, the records and the coverage.
pub canonicalize_devices_of_perm :
    (c : Codec) (ds es : List Device) (warnings : List Text) (absent : List CoreIdentityGroup)
    (observed_at : Text)
    → Perm ds es
    → canonicalize_devices c ds warnings absent observed_at
      ≡ canonicalize_devices c es warnings absent observed_at
unfolding canonicalize_devices
canonicalize_devices_of_perm c ds es warnings absent observed_at p =
    cc (identity_of_perm c p _, configuration_of_perm c p)
