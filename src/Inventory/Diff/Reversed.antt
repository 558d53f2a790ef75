-- ===== src/Inventory/Diff/Reversed.antt =====
-- A difference, and the one in the other direction.
use mathlib.Core.List.{perm_append_comm}
use qurbrix_hwinfo.Common.{
  ◌≡◌, refl, ap, ◌∙◌, Bool, Option, none, some, List, [], ◌∷◌, Text, text_eq, text_order, Texts-set,
  sort_of_perm, sort, dedup, arith,
}
use qurbrix_hwinfo.Model.Device.{Device}
use qurbrix_hwinfo.Model.Snapshot.{StoredSnapshot}
use qurbrix_hwinfo.Inventory.Diff.{
  Parts, device_ids, all_ids, sorted_out, compare_ids, compared, by_id, find_last,
}

all_ids_comm : (a b : List Device) → all_ids a b ≡ all_ids b a
unfolding all_ids
all_ids_comm a b =
    ap (dedup text_eq)
      (sort_of_perm text_order Texts-set (perm_append_comm (device_ids a) (device_ids b)))

-- What came in one direction went in the other.
abbrev Mirrored : Parts → Parts → Type 0
Mirrored p q = (p.added ≡ q.removed) × (p.removed ≡ q.added)

sorted_out-Mirrored :
    (eq : Device → Device → Bool) (id : Text) (b a : Option Device) (p q : Parts)
    → Mirrored p q
    → Mirrored (sorted_out eq id b a p) (sorted_out eq id a b q)
unfolding sorted_out
sorted_out-Mirrored eq id none none p q h = h
sorted_out-Mirrored eq id none (some d) p q h = (ap (λ l. d ∷ l) h.0, h.1)
sorted_out-Mirrored eq id (some d) none p q h = (h.0, ap (λ l. d ∷ l) h.1)
sorted_out-Mirrored eq id (some b) (some a) p q h = ground arith

compare_ids-Mirrored :
    (eq : Device → Device → Bool) (before after : List Device) (ids : List Text)
    → Mirrored (compare_ids eq before after ids) (compare_ids eq after before ids)
unfolding compare_ids
compare_ids-Mirrored eq before after [] = (refl, refl)
compare_ids-Mirrored eq before after (id ∷ ids) =
    sorted_out-Mirrored eq id (find_last id before) (find_last id after) _ _
      (compare_ids-Mirrored eq before after ids)

-- The devices added in one direction are those removed in the other, in the same order, and the other
-- way round.
pub compared-reversed :
    (eq : Device → Device → Bool) (from to : StoredSnapshot) (before after : List Device)
    → ((compared eq from to before after).added ≡ (compared eq to from after before).removed)
      × ((compared eq from to before after).removed ≡ (compared eq to from after before).added)
unfolding compared
compared-reversed eq from to before after =
    let (p, q) = compare_ids-Mirrored eq before after (all_ids before after) in
    let same = all_ids_comm before after in
    (
      ap (sort by_id) (p ∙ ap (λ ids. (compare_ids eq after before ids).removed) same),
      ap (sort by_id) (q ∙ ap (λ ids. (compare_ids eq after before ids).added) same),
    )
