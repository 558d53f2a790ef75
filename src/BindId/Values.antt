-- ===== src/BindId/Values.antt =====
-- What a normalised value is.
use qurbrix_hwinfo.Common.{
  Bool, false, ◌≡◌, refl, ◌||◌, none, some, Text, split_whitespace, split_whitespace-join,
  split_whitespace-IsWord, is_empty, if◌then◌else◌, arith,
}
use qurbrix_hwinfo.BindId.Key.{collapse_whitespace, is_placeholder_value, normalize_value}

collapse_idem : (s : Text) → collapse_whitespace (collapse_whitespace s) ≡ collapse_whitespace s
unfolding collapse_whitespace
collapse_idem s = rw (split_whitespace-join (split_whitespace s) (split_whitespace-IsWord s)) refl

kept :
    (c s : Text) (e p : Bool)
    → e ≡ is_empty c
    → (if e || p then none else some c) ≡ some s
    → (c ≡ s) × (is_empty c ≡ false) × (e ≡ false) × (p ≡ false)
kept c s e p h k = ground arith

reads_back :
    (v s : Text)
    → collapse_whitespace v ≡ s
    → is_empty s ≡ false
    → is_placeholder_value s ≡ false
    → normalize_value s ≡ some s
unfolding normalize_value
reads_back v s c e p = rw (fixed, e, p) refl
  where
    fixed : collapse_whitespace s ≡ s
    fixed = rw (← c) (collapse_idem v)

-- A value that is kept is not empty, is no placeholder, and is kept as it is when it is read again.
pub normalize_value-fixed :
    (v s : Text)
    → normalize_value v ≡ some s
    → (is_empty s ≡ false) × (is_placeholder_value s ≡ false) × (normalize_value s ≡ some s)
unfolding normalize_value
normalize_value-fixed v s h = (filled, real, reads_back v s k.0 filled real)
  where
    k :
        (collapse_whitespace v ≡ s)
        × (is_empty (collapse_whitespace v) ≡ false)
        × (is_empty (collapse_whitespace v) ≡ false)
        × (is_placeholder_value (collapse_whitespace v) ≡ false)
    k = kept (collapse_whitespace v) s _ _ refl h

    filled : is_empty s ≡ false
    filled = rw k.0 at k.1

    real : is_placeholder_value s ≡ false
    real = rw k.0 at k.3
