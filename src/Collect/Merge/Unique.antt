-- ===== src/Collect/Merge/Unique.antt =====
-- The merged devices have the ids of the given ones, once each.
use qurbrix_hwinfo.Common.{
  ◌≡◌, refl, Bool, true, not, ◌&&◌, ◌||◌, List, [], ◌∷◌, Text, text_eq, text_leb, text_eq_sound,
  text_leb_total, text_eq_refl, any, arith,
}
use qurbrix_hwinfo.Model.Device.{Device}
use qurbrix_hwinfo.Collect.Merge.{absorb, enter, enter_all, dedup_devices}

abbrev has_id : Text → Device → Bool
has_id id d = text_eq d.id id

-- The id of each device is before that of the next one.
abbrev pub Increasing : List Device → Type 0
Increasing [] = Unit
Increasing (x ∷ []) = Unit
Increasing (x ∷ y ∷ l) =
    ((text_leb x.id y.id && not (text_eq x.id y.id)) ≡ true) × Increasing (y ∷ l)

enter-Increasing : (d : Device) (l : List Device) → Increasing l → Increasing (enter d l)
unfolding enter absorb
enter-Increasing d [] h = tt
enter-Increasing d (x ∷ []) h = ground (
  arith,
  text_leb_total d.id x.id,
  text_eq_sound d.id x.id,
  text_eq_sound x.id d.id,
  text_eq_refl x.id,
)
enter-Increasing d (x ∷ y ∷ l) h = ground (
  arith,
  enter-Increasing d (y ∷ l) h.1,
  text_leb_total d.id x.id,
  text_eq_sound x.id d.id,
  text_eq_refl x.id,
)

any-enter :
    (id : Text) (d : Device) (l : List Device)
    → any (has_id id) (enter d l) ≡ (has_id id d || any (has_id id) l)
unfolding enter absorb
any-enter id d [] = refl
any-enter id d (x ∷ xs) = ground (arith, any-enter id d xs, text_eq_sound d.id x.id)

enter_all-Increasing : (ds l : List Device) → Increasing l → Increasing (enter_all ds l)
unfolding enter_all
enter_all-Increasing [] l h = h
enter_all-Increasing (d ∷ ds) l h = enter_all-Increasing ds (enter d l) (enter-Increasing d l h)

any-enter_all :
    (id : Text) (ds l : List Device)
    → any (has_id id) (enter_all ds l) ≡ (any (has_id id) ds || any (has_id id) l)
unfolding enter_all
any-enter_all id [] l = refl
any-enter_all id (d ∷ ds) l = ground (arith, any-enter_all id ds (enter d l), any-enter id d l)

-- The merged devices are in the strict order of their ids, so that no two have the same id, and an id
-- is among them exactly if a given device has it.
pub dedup_devices-ids :
    (ds : List Device) (id : Text)
    → Increasing (dedup_devices ds)
      × (any (λ d. text_eq d.id id) (dedup_devices ds) ≡ any (λ d. text_eq d.id id) ds)
unfolding dedup_devices
dedup_devices-ids ds id = (enter_all-Increasing ds [] tt, ground (arith, any-enter_all id ds []))
