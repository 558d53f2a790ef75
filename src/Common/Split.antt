-- ===== src/Common/Split.antt =====
-- More methods of `str`: prefixes, suffixes, lines, and the two halves around a separator.
use Prim.Native.Nat.{ℕ, zero, suc, ◌+◌, ◌-◌, ◌*◌}
use mathlib.Core.Bool.{Bool, false, not, ◌&&◌, ◌||◌}
use mathlib.Core.Option.{Option, none, some}
use mathlib.Core.List.{List, [], ◌∷◌, ◌++◌, reverse, map}
use qurbrix_hwinfo.Common.Tests.{if◌then◌else◌, ◌==◌, leb, ltb}
use qurbrix_hwinfo.Common.Lists.{all, length}
use qurbrix_hwinfo.Common.Str.{Text}
use qurbrix_hwinfo.Common.Words.{is_empty, trim}

-- `strip_prefix`.
unfoldable pub strip_prefix : Text → Text → Option Text
strip_prefix [] s = some s
strip_prefix (p ∷ ps) [] = none
strip_prefix (p ∷ ps) (c ∷ cs) = if p == c then strip_prefix ps cs else none

-- `strip_suffix`.
unfoldable pub strip_suffix : Text → Text → Option Text
unfolding strip_prefix
strip_suffix suffix s = elim (strip_prefix (reverse suffix) (reverse s)) [
  | none ↦ none
  | some r ↦ some (reverse r)
]

-- `split_once` at a text that is not empty: what stands before and behind its first occurrence.
unfoldable pub split_once_from : Text → Text → Text → Option (Text × Text)
unfolding strip_prefix
split_once_from sep front [] = none
split_once_from sep front (c ∷ cs) =
    let later = split_once_from sep (front ++ c ∷ []) cs in
    elim (strip_prefix sep (c ∷ cs)) [ some rest ↦ some (front, rest) | none ↦ later ]

unfoldable pub split_once : Text → Text → Option (Text × Text)
unfolding split_once_from
split_once sep s = split_once_from sep [] s

-- One line without the carriage return at its end.
abbrev pub chomp : Text → Text
chomp [] = []
chomp (c ∷ []) = if c == 13 then [] else c ∷ []
chomp (c ∷ d ∷ cs) = c ∷ chomp (d ∷ cs)

-- `lines`: nothing behind the last line feed is no line, and only a line feed drops a return.
unfoldable pub lines_from : Text → Text → List Text
lines_from cur [] = if is_empty cur then [] else cur ∷ []
lines_from cur (c ∷ cs) =
    let closed = lines_from [] cs in
    let longer = lines_from (cur ++ c ∷ []) cs in if c == 10 then chomp cur ∷ closed else longer

unfoldable pub lines : Text → List Text
unfolding lines_from
lines s = lines_from [] s

-- `trim`, then `none` for what is empty.
unfoldable pub non_empty : Text → Option Text
unfolding trim
non_empty s = if is_empty (trim s) then none else some (trim s)

-- `starts_with` of a property of characters.
abbrev pub starts_with_char : (ℕ → Bool) → Text → Bool
starts_with_char p [] = false
starts_with_char p (c ∷ cs) = p c

unfoldable pub is_ascii_digit : ℕ → Bool
is_ascii_digit c = leb b'0' c && leb c b'9'

unfoldable pub is_ascii_alphanumeric : ℕ → Bool
unfolding is_ascii_digit
is_ascii_alphanumeric c =
    is_ascii_digit c || (leb b'a' c && leb c b'z') || (leb b'A' c && leb c b'Z')

-- `to_ascii_uppercase`.
unfoldable pub to_ascii_uppercase : Text → Text
to_ascii_uppercase s = map (λ c. if leb b'a' c && leb c b'z' then c - 32 else c) s

-- `take_while`, and what is behind it.
unfoldable pub take_while : (ℕ → Bool) → Text → Text
take_while p [] = []
take_while p (c ∷ cs) = if p c then c ∷ take_while p cs else []

unfoldable pub skip_while : (ℕ → Bool) → Text → Text
skip_while p [] = []
skip_while p (c ∷ cs) = if p c then skip_while p cs else c ∷ cs

-- `trim_matches`.
unfoldable pub trim_matches : (ℕ → Bool) → Text → Text
unfolding skip_while
trim_matches p s = reverse (skip_while p (reverse (skip_while p s)))

-- The first item, and the first with a property.
abbrev pub first {ℓ} : {A : Type ℓ} → List A → Option A
first [] = none
first (x ∷ xs) = some x

abbrev pub find {ℓ} : {A : Type ℓ} → (A → Bool) → List A → Option A
find p [] = none
find p (x ∷ xs) = if p x then some x else find p xs

-- A loop over lines that carries a state.
abbrev pub each_line {ℓ} : {S : Type ℓ} → (Text → S → S) → List Text → S → S
each_line step [] s = s
each_line step (l ∷ ls) s = each_line step ls (step l s)

-- The value of decimal digits, most significant first.
unfoldable pub digits_value : ℕ → Text → ℕ
digits_value acc [] = acc
digits_value acc (c ∷ cs) = digits_value (acc * 10 + (c - b'0')) cs

-- `str::parse` for an unsigned number below a bound: digits, behind a plus sign at most.
unfoldable pub parse_digits : ℕ → Text → Option ℕ
unfolding digits_value is_ascii_digit
parse_digits bound s =
    if not (is_empty s) && all is_ascii_digit s && ltb (digits_value 0 s) bound
    then some (digits_value 0 s)
    else none

unfoldable pub parse_unsigned : ℕ → Text → Option ℕ
unfolding parse_digits
parse_unsigned bound [] = none
parse_unsigned bound (c ∷ cs) =
    if c == b'+' then parse_digits bound cs else parse_digits bound (c ∷ cs)

-- `rsplit_once`: the two halves around the last occurrence.
unfoldable pub rsplit_once : Text → Text → Option (Text × Text)
unfolding split_once
rsplit_once sep s = elim (split_once (reverse sep) (reverse s)) [
  | none ↦ none
  | some pair ↦ some (reverse pair.1, reverse pair.0)
]

-- `matches(c).count()` for a character.
unfoldable pub count_char : ℕ → Text → ℕ
count_char c [] = 0
count_char c (x ∷ xs) = if x == c then 1 + count_char c xs else count_char c xs

-- `trim_end_matches` and `trim_start_matches` of a text that is not empty, as often as the text is long.
unfoldable pub strip_starts : ℕ → Text → Text → Text
unfolding strip_prefix
strip_starts zero p s = s
strip_starts (suc n) p s = elim (strip_prefix p s) [ none ↦ s | some rest ↦ strip_starts n p rest ]

unfoldable pub trim_start_matches : Text → Text → Text
unfolding strip_starts
trim_start_matches p s = strip_starts (length s) p s

unfoldable pub trim_end_matches : Text → Text → Text
unfolding trim_start_matches
trim_end_matches p s = reverse (trim_start_matches (reverse p) (reverse s))
