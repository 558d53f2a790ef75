-- ===== src/Parser/Lossy.antt =====
-- `String::from_utf8_lossy`: each longest start of a character that goes no further, and each byte that
-- starts none, becomes U+FFFD.
use qurbrix_hwinfo.Common.{
  ℕ, ◌+◌, ◌-◌, ◌*◌, Bool, ◌&&◌, List, [], ◌∷◌, ◌++◌, Text, if◌then◌else◌, leb, ltb, ◌==◌,
}

-- Between characters, or `need` more bytes, the next from `low` to `high`.
pub data Utf8State : Type 0 where
  idle : Utf8State
  within : (need value low high : ℕ) → Utf8State

abbrev replacement : ℕ
replacement = 65533

abbrev between : ℕ → ℕ → ℕ → Bool
between low high b = leb low b && leb b high

unfoldable pub start : ℕ → Text × Utf8State
start b =
    if ltb b 128
    then (b ∷ [], idle)
    else if between 194 223 b
    then ([], within 1 (b - 192) 128 191)
    else if b == 224
    then ([], within 2 0 160 191)
    else if b == 237
    then ([], within 2 13 128 159)
    else if between 225 239 b
    then ([], within 2 (b - 224) 128 191)
    else if b == 240
    then ([], within 3 0 144 191)
    else if between 241 243 b
    then ([], within 3 (b - 240) 128 191)
    else if b == 244
    then ([], within 3 4 128 143)
    else (replacement ∷ [], idle)

unfoldable pub step : Utf8State → ℕ → Text × Utf8State
unfolding start
step idle b = start b
step (within need value low high) b =
    let (out, next) = start b in
    if between low high b
    then if need == 1
      then ((value * 64 + (b - 128)) ∷ [], idle)
      else ([], within (need - 1) (value * 64 + (b - 128)) 128 191)
    else (replacement ∷ out, next)

unfoldable pub decode_from : Utf8State → List ℕ → Text
unfolding step
decode_from idle [] = []
decode_from (within need value low high) [] = replacement ∷ []
decode_from state (b ∷ bs) = let (out, next) = step state b in out ++ decode_from next bs

unfoldable pub from_utf8_lossy : List ℕ → Text
unfolding decode_from
from_utf8_lossy bytes = decode_from idle bytes
