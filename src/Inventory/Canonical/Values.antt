-- ===== src/Inventory/Canonical/Values.antt =====
-- `normalize` and `escape`: normalised values are fixed points, and escaped values can be read back.
use mathlib.Core.Path.{fun_ext, subst}
use qurbrix_hwinfo.Common.{
  ℕ, ◌≡◌, refl, ap, ◌∙◌, Bool, false, ◌||◌, some, [], ◌∷◌, ◌++◌, Text, codes, is_empty, join,
  to_ascii_lowercase, any, All, split_whitespace-IsWord, split_whitespace-join,
  split_whitespace-lower, join-lower, eq_ignore_ascii_case-lower, to_ascii_lowercase_idem, arith,
  replace, ◌==◌, if◌then◌else◌, inl, inr, Bool-cases,
}
use qurbrix_hwinfo.Inventory.Canonical.Normalize.{
  collapse, is_placeholder, placeholders, normalize, escape,
}

collapse_idem : (v : Text) → collapse (collapse v) ≡ collapse v
unfolding collapse
collapse_idem v = ap (join (codes " ")) (split_whitespace-join _ (split_whitespace-IsWord v))

collapse-lower : (v : Text) → collapse (to_ascii_lowercase v) ≡ to_ascii_lowercase (collapse v)
unfolding collapse
collapse-lower v = ap (join (codes " ")) (split_whitespace-lower v) ∙ join-lower _

is_placeholder-lower : (v : Text) → is_placeholder (to_ascii_lowercase v) ≡ is_placeholder v
unfolding is_placeholder
is_placeholder-lower v = ap (λ p. any p placeholders) (fun_ext (eq_ignore_ascii_case-lower v))

is_empty-lower : (v : Text) → is_empty (to_ascii_lowercase v) ≡ is_empty v
unfolding to_ascii_lowercase
is_empty-lower [] = refl
is_empty-lower (c ∷ v) = refl

normalize-lower :
    (u : Text)
    → collapse u ≡ u
    → (is_empty u || is_placeholder u) ≡ false
    → normalize (to_ascii_lowercase u) ≡ some (to_ascii_lowercase u)
unfolding normalize
normalize-lower u e f =
    rw (collapse-lower u, e, is_empty-lower u, is_placeholder-lower u, f, to_ascii_lowercase_idem u)

-- The result of a normalisation normalises to itself.
pub normalize_idem : (v w : Text) → normalize v ≡ some w → normalize w ≡ some w
unfolding normalize
normalize_idem v w h = elim (Bool-cases (is_empty (collapse v) || is_placeholder (collapse v))) [
  | inl t ↦ absurd (ground arith)
  | inr f ↦
      let same : to_ascii_lowercase (collapse v) ≡ w = ground arith in
      subst (λ u. normalize u ≡ some u) same (normalize-lower (collapse v) (collapse_idem v) f)
]

-- A reader of escaped text.
data Mode : Type 0 where
  plain percent : Mode
  digit : ℕ → Mode

decoded : ℕ → ℕ
decoded d = if d == b'2' then b'%' else if d == b'7' then b'|' else b'='

unescape_from : Mode → Text → Text
unescape_from m [] = []
unescape_from plain (c ∷ s) =
    let coded = unescape_from percent s in
    let same = c ∷ unescape_from plain s in if c == b'%' then coded else same
unescape_from percent (c ∷ s) = unescape_from (digit c) s
unescape_from (digit d) (c ∷ s) = decoded d ∷ unescape_from plain s

pub unescape : Text → Text
unescape s = unescape_from plain s

abbrev pub is_separator : ℕ → Bool
is_separator c = c == b'|' || c == b'='

-- What `escape` makes of one character, put in front of the rest.
escaped : ℕ → Text → Text
escaped c s =
    if c == b'%'
    then codes "%25" ++ s
    else if c == b'|'
    then codes "%7c" ++ s
    else if c == b'='
    then codes "%3d" ++ s
    else c ∷ s

escape-cons : (c : ℕ) (v : Text) → escape (c ∷ v) ≡ escaped c (escape v)
unfolding escape escaped replace
escape-cons c v = ground arith

unescape-escaped : (c : ℕ) (s : Text) → unescape (escaped c s) ≡ c ∷ unescape s
unfolding unescape unescape_from escaped decoded
unescape-escaped c s = ground arith

-- Escaping loses nothing: a reader has the value back.
pub unescape-escape : (v : Text) → unescape (escape v) ≡ v
unescape-escape [] = unfold unescape unescape_from escape replace in refl
unescape-escape (c ∷ v) =
    rw (escape-cons c v) (unescape-escaped c (escape v) ∙ ap (◌∷◌ c) (unescape-escape v))

escaped-NoSeparator :
    (c : ℕ) (s : Text)
    → All (λ d. is_separator d ≡ false) s
    → All (λ d. is_separator d ≡ false) (escaped c s)
unfolding escaped
escaped-NoSeparator c s h = ground arith

-- An escaped value holds no separator of a record, neither `|` nor `=`.
pub escape-NoSeparator : (v : Text) → All (λ d. is_separator d ≡ false) (escape v)
escape-NoSeparator [] = unfold escape replace in tt
escape-NoSeparator (c ∷ v) =
    rw (escape-cons c v) (escaped-NoSeparator c (escape v) (escape-NoSeparator v))
