-- ===== src/BindId/Escape.antt =====
-- The escaped value of a field: its separators are gone, and the value can be told from it.
use mathlib.Core.List.{append_assoc}
use qurbrix_hwinfo.Common.{
  Bool-cases, inl, inr, ℕ, ◌≡◌, ◌≢◌, refl, sym, ap, ◌∙◌, [], ◌∷◌, ◌++◌, Text, codes, replace, ◌==◌,
  if◌then◌else◌, All, All-append, arith,
}
use qurbrix_hwinfo.BindId.Key.{escape_value}

-- What one character is written as.
abbrev escaped : ℕ → Text
escaped c =
    if c == b'%'
    then codes "%25"
    else if c == b'|'
    then codes "%7C"
    else if c == b'='
    then codes "%3D"
    else c ∷ []

replace-append :
    (c : ℕ) (by xs ys : Text) → replace c by (xs ++ ys) ≡ (replace c by xs ++ replace c by ys)
unfolding replace
replace-append c by [] ys = refl
replace-append c by (x ∷ xs) ys = elim (Bool-cases (x == c)) [
  | inl e ↦ rw e (ap (λ t. by ++ t) (replace-append c by xs ys) ∙ sym (append_assoc by _ _))
  | inr e ↦ rw e (ap (λ t. x ∷ t) (replace-append c by xs ys))
]

escape_value-cons : (c : ℕ) (s : Text) → escape_value (c ∷ s) ≡ escaped c ++ escape_value s
unfolding escape_value replace
escape_value-cons c s = ground arith

abbrev IsPlain : ℕ → Type 0
IsPlain c = (c ≢ b'|') × (c ≢ b'=')

escaped-IsPlain : (c : ℕ) → All IsPlain (escaped c)
escaped-IsPlain c = ground arith

-- An escaped value contains neither of the characters that separate fields and names from values.
pub escape_value-plain : (s : Text) → All (λ c. (c ≢ b'|') × (c ≢ b'=')) (escape_value s)
unfolding escape_value replace
escape_value-plain [] = tt
escape_value-plain (c ∷ s) =
    rw (escape_value-cons c s)
      (All-append IsPlain (escaped c) (escape_value s) (escaped-IsPlain c) (escape_value-plain s))

escaped-front : (c d : ℕ) (s t : Text) → (escaped c ++ s) ≡ (escaped d ++ t) → (c ≡ d) × (s ≡ t)
escaped-front c d s t e = ground arith

escaped-some : (c : ℕ) (s : Text) → (escaped c ++ s) ≢ []
escaped-some c s e = ground arith

-- Two values with the same escaped form are the same value.
pub escape_value-injective : (s t : Text) → escape_value s ≡ escape_value t → s ≡ t
unfolding escape_value replace
escape_value-injective [] [] e = refl
escape_value-injective [] (d ∷ t) e =
    absurd (escaped-some d (escape_value t) (sym (e ∙ escape_value-cons d t)))
escape_value-injective (c ∷ s) [] e =
    absurd (escaped-some c (escape_value s) (sym (escape_value-cons c s) ∙ e))
escape_value-injective (c ∷ s) (d ∷ t) e =
    let both =
      escaped-front c d (escape_value s) (escape_value t)
        (sym (escape_value-cons c s) ∙ (e ∙ escape_value-cons d t)) in
    cc (both.0, escape_value-injective s t both.1)
