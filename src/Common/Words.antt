-- ===== src/Common/Words.antt =====
-- The methods of `str` that the program calls, over texts as lists of code points.
use Prim.Native.Nat.{ℕ, zero, suc, ◌+◌, ◌/◌, ◌%◌}
use mathlib.Core.Bool.{Bool, true, false, ◌&&◌, ◌||◌}
use mathlib.Core.Option.{Option, none, some}
use mathlib.Core.List.{List, [], ◌∷◌, ◌++◌, map}
use qurbrix_hwinfo.Common.Tests.{ltb, leb, ◌==◌, if◌then◌else◌}
use qurbrix_hwinfo.Common.Str.{Text, text_eq}

-- `char::is_whitespace`: the code points with the property White_Space.
unfoldable pub is_whitespace : ℕ → Bool
is_whitespace c =
    (leb 9 c && leb c 13)
    || c == 32
    || c == 0x85
    || c == 0xa0
    || c == 0x1680
    || (leb 0x2000 c && leb c 0x200a)
    || c == 0x2028
    || c == 0x2029
    || c == 0x202f
    || c == 0x205f
    || c == 0x3000

-- `to_ascii_lowercase`.
unfoldable pub ascii_lower : ℕ → ℕ
ascii_lower c = if leb b'A' c && leb c b'Z' then c + 32 else c

unfoldable pub to_ascii_lowercase : Text → Text
unfolding ascii_lower
to_ascii_lowercase s = map ascii_lower s

unfoldable pub eq_ignore_ascii_case : Text → Text → Bool
unfolding to_ascii_lowercase text_eq
eq_ignore_ascii_case a b = text_eq (to_ascii_lowercase a) (to_ascii_lowercase b)

abbrev pub is_empty {ℓ} : {A : Type ℓ} → List A → Bool
is_empty [] = true
is_empty (c ∷ cs) = false

-- `split_whitespace`: the maximal runs of characters that are no white space.
unfoldable pub words_from : Text → Text → List Text
unfolding is_whitespace
words_from cur [] = if is_empty cur then [] else cur ∷ []
words_from cur (c ∷ cs) =
    let closed = words_from [] cs in
    let longer = words_from (cur ++ c ∷ []) cs in
    if is_whitespace c then (if is_empty cur then closed else cur ∷ closed) else longer

unfoldable pub split_whitespace : Text → List Text
unfolding words_from
split_whitespace s = words_from [] s

-- `join`.
unfoldable pub join : Text → List Text → Text
join sep [] = []
join sep (w ∷ []) = w
join sep (w ∷ v ∷ ws) = w ++ (sep ++ join sep (v ∷ ws))

-- `trim`.
unfoldable pub trim_start : Text → Text
unfolding is_whitespace
trim_start [] = []
trim_start (c ∷ cs) = if is_whitespace c then trim_start cs else c ∷ cs

abbrev keep_end : Bool → ℕ → Text → Text
keep_end white c [] = if white then [] else c ∷ []
keep_end white c (d ∷ ds) = c ∷ d ∷ ds

unfoldable pub trim_end : Text → Text
unfolding is_whitespace
trim_end [] = []
trim_end (c ∷ cs) = keep_end (is_whitespace c) c (trim_end cs)

unfoldable pub trim : Text → Text
unfolding trim_start trim_end
trim s = trim_end (trim_start s)

-- `replace` of one character by a text.
unfoldable pub replace : ℕ → Text → Text → Text
replace c by [] = []
replace c by (x ∷ xs) = if x == c then by ++ replace c by xs else x ∷ replace c by xs

unfoldable pub starts_with : Text → Text → Bool
starts_with [] s = true
starts_with (p ∷ ps) [] = false
starts_with (p ∷ ps) (c ∷ cs) = p == c && starts_with ps cs

unfoldable pub contains_text : Text → Text → Bool
unfolding starts_with
contains_text p [] = starts_with p []
contains_text p (c ∷ cs) = starts_with p (c ∷ cs) || contains_text p cs

-- `split` at one character: always at least one piece.
unfoldable pub split_from : ℕ → Text → Text → List Text
split_from sep cur [] = cur ∷ []
split_from sep cur (c ∷ cs) =
    let closed = split_from sep [] cs in
    let longer = split_from sep (cur ++ c ∷ []) cs in if c == sep then cur ∷ closed else longer

unfoldable pub split : ℕ → Text → List Text
unfolding split_from
split sep s = split_from sep [] s

-- `split_once(…)?.0`: what stands before the first separator, if there is one.
unfoldable pub before : ℕ → Text → Option Text
before sep [] = none
before sep (c ∷ cs) =
    if c == sep then some [] else elim (before sep cs) [ none ↦ none | some s ↦ some (c ∷ s) ]

unfoldable pub is_ascii_hexdigit : ℕ → Bool
is_ascii_hexdigit c =
    (leb b'0' c && leb c b'9') || (leb b'a' c && leb c b'f') || (leb b'A' c && leb c b'F')

-- `u64::to_string`: the decimal digits, with the number itself as fuel for its divisions by ten.
unfoldable pub digits_from : ℕ → ℕ → Text
digits_from zero n = (48 + n % 10) ∷ []
digits_from (suc fuel) n =
    let rest = digits_from fuel (n / 10) in
    if ltb n 10 then (48 + n) ∷ [] else rest ++ (48 + n % 10) ∷ []

unfoldable pub to_string : ℕ → Text
unfolding digits_from
to_string n = digits_from n n
