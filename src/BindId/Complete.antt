-- ===== src/BindId/Complete.antt =====
-- When a report has an id.
use qurbrix_hwinfo.Common.{
  Bool, true, false, not, ◌≡◌, refl, ap, ◌∙◌, Option, none, some, List, [], ◌∷◌, Text, text_eq,
  text_eq_sound, text_leb, any-sort, any-dedup, before, is_empty, is_none, any, all, retain,
  filter_map, if◌then◌else◌, arith,
}
use qurbrix_hwinfo.BindId.Summary.{covered_kinds, missing_kinds, from_parts, required_kinds}

-- A key of the kind is there.
abbrev pub has_key : List Text → Text → Bool
has_key keys kind =
    any (λ key. elim (before b':' key) [ none ↦ false | some k ↦ text_eq k kind ]) keys

any-filter_map :
    (p : Text → Bool) (f : Text → Option Text) (keys : List Text)
    → any p (filter_map f keys) ≡ any (λ key. elim (f key) [ none ↦ false | some k ↦ p k ]) keys
any-filter_map p f [] = refl
any-filter_map p f (x ∷ keys) = ground (arith, any-filter_map p f keys)

covered_kinds-any :
    (keys : List Text) (kind : Text)
    → any (λ c. text_eq c kind) (covered_kinds keys) ≡ has_key keys kind
unfolding covered_kinds
covered_kinds-any keys kind =
    any-dedup text_eq text_eq_sound (λ c. text_eq c kind) _
    ∙ (any-sort text_leb (λ c. text_eq c kind) _
        ∙ any-filter_map (λ c. text_eq c kind) (before b':') keys)

retain-not-empty :
    (p q : Text → Bool) (l : List Text)
    → ((t : Text) → p t ≡ q t)
    → is_empty (retain (λ t. not (p t)) l) ≡ all q l
retain-not-empty p q [] h = refl
retain-not-empty p q (x ∷ l) h = ground (arith, h x, retain-not-empty p q l h)

is_none-if : (b : Bool) (s : Text) → is_none (if b then some s else none) ≡ not b
is_none-if true s = refl
is_none-if false s = refl

-- A report has an id exactly when each of the five required kinds has a component's key.
pub from_parts_complete :
    (sha1_hex : Text → Text) (keys warnings : List Text)
    → is_none (from_parts sha1_hex keys warnings).value ≡ not (all (has_key keys) required_kinds)
unfolding from_parts missing_kinds
from_parts_complete sha1_hex keys warnings =
    is_none-if _ _
    ∙ ap not (retain-not-empty _ (has_key keys) required_kinds (covered_kinds-any keys))
