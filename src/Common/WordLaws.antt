-- ===== src/Common/WordLaws.antt =====
-- Laws of the text methods: splitting at white space undoes joining, and ASCII lower case commutes
-- with both.
use mathlib.Core.Path.{◌≡◌, refl, ap, ◌∙◌}
use mathlib.Core.Logic.{inl, inr}
use mathlib.Core.Bool.{false}
use mathlib.Core.List.{List, [], ◌∷◌, ◌++◌, map, append-nil, append_assoc, map-append}
use native.Mathlib.Omega.{arith}
use Prim.Native.Nat.{ℕ}
use qurbrix_hwinfo.Common.Tests.{Bool-cases}
use qurbrix_hwinfo.Common.Lists.{All, All-append}
use qurbrix_hwinfo.Common.Str.{Text, codes}
use qurbrix_hwinfo.Common.Words.{
  is_whitespace, ascii_lower, to_ascii_lowercase, eq_ignore_ascii_case, is_empty, words_from,
  split_whitespace, join,
}

abbrev pub IsSolid : Text → Type 0
IsSolid w = All (λ c. is_whitespace c ≡ false) w

-- A word: not empty, and free of white space.
abbrev pub IsWord : Text → Type 0
IsWord w = (is_empty w ≡ false) × IsSolid w

is_empty-snoc : (cur : Text) (c : ℕ) → is_empty (cur ++ c ∷ []) ≡ false
is_empty-snoc [] c = refl
is_empty-snoc (d ∷ ds) c = refl

words_from-IsWord : (cur s : Text) → IsSolid cur → All IsWord (words_from cur s)
unfolding words_from
words_from-IsWord cur [] h = ground arith
words_from-IsWord cur (c ∷ cs) h = elim (Bool-cases (is_whitespace c)) [
  | inl w ↦ rw w (ground (arith, words_from-IsWord [] cs tt))
  | inr s ↦ rw s (words_from-IsWord (cur ++ c ∷ []) cs (All-append _ cur (c ∷ []) h (s, tt)))
]

pub split_whitespace-IsWord : (s : Text) → All IsWord (split_whitespace s)
unfolding split_whitespace
split_whitespace-IsWord s = words_from-IsWord [] s tt

words_from-solid :
    (cur w rest : Text) → IsSolid w → words_from cur (w ++ rest) ≡ words_from (cur ++ w) rest
unfolding words_from
words_from-solid cur [] rest h = rw (append-nil cur)
words_from-solid cur (c ∷ w) rest h =
    rw h.0 (words_from-solid (cur ++ c ∷ []) w rest h.1 ∙ rw (append_assoc cur (c ∷ []) w))

words_from-word : (w rest : Text) → IsWord w → words_from w (32 ∷ rest) ≡ w ∷ words_from [] rest
unfolding words_from
words_from-word w rest h = rw h.0

words_from_end : (w : Text) → IsWord w → words_from w [] ≡ w ∷ []
unfolding words_from
words_from_end w h = rw h.0

pub split_whitespace-join :
    (ws : List Text) → All IsWord ws → split_whitespace (join (codes " ") ws) ≡ ws
unfolding split_whitespace join
split_whitespace-join [] h = refl
split_whitespace-join (w ∷ []) h =
    rw append-nil at (words_from-solid [] w [] h.0.1) ∙ words_from_end w h.0
split_whitespace-join (w ∷ v ∷ ws) h =
    words_from-solid [] w (32 ∷ join (codes " ") (v ∷ ws)) h.0.1
    ∙ words_from-word w (join (codes " ") (v ∷ ws)) h.0
    ∙ ap (◌∷◌ w) (split_whitespace-join (v ∷ ws) h.1)

ascii_lower_idem : (c : ℕ) → ascii_lower (ascii_lower c) ≡ ascii_lower c
unfolding ascii_lower
ascii_lower_idem c = ground arith

is_whitespace-ascii_lower : (c : ℕ) → is_whitespace (ascii_lower c) ≡ is_whitespace c
unfolding ascii_lower is_whitespace
is_whitespace-ascii_lower c = ground arith

pub to_ascii_lowercase_idem :
    (s : Text) → to_ascii_lowercase (to_ascii_lowercase s) ≡ to_ascii_lowercase s
unfolding to_ascii_lowercase
to_ascii_lowercase_idem [] = refl
to_ascii_lowercase_idem (c ∷ s) = cc (ascii_lower_idem c, to_ascii_lowercase_idem s)

is_empty-lower : (s : Text) → is_empty (to_ascii_lowercase s) ≡ is_empty s
unfolding to_ascii_lowercase
is_empty-lower [] = refl
is_empty-lower (c ∷ s) = refl

words_from-lower :
    (cur s : Text)
    → words_from (to_ascii_lowercase cur) (to_ascii_lowercase s)
      ≡ map to_ascii_lowercase (words_from cur s)
unfolding words_from to_ascii_lowercase
words_from-lower cur [] = elim (Bool-cases (is_empty cur)) [
  | inl e ↦ rw (e, is_empty-lower cur ∙ e)
  | inr e ↦ rw (e, is_empty-lower cur ∙ e)
]
words_from-lower cur (c ∷ s) = elim (Bool-cases (is_whitespace c)) [
  | inl w ↦ elim (Bool-cases (is_empty cur)) [
    | inl e ↦ rw (is_whitespace-ascii_lower c, w, is_empty-lower cur, e) (words_from-lower [] s)
    | inr e ↦
        rw (is_whitespace-ascii_lower c, w, is_empty-lower cur, e)
          (ap (◌∷◌ (to_ascii_lowercase cur)) (words_from-lower [] s))
  ]
  | inr n ↦
      rw (is_whitespace-ascii_lower c, n) (rw map-append at (words_from-lower (cur ++ c ∷ []) s))
]

pub split_whitespace-lower :
    (s : Text)
    → split_whitespace (to_ascii_lowercase s) ≡ map to_ascii_lowercase (split_whitespace s)
unfolding split_whitespace to_ascii_lowercase
split_whitespace-lower s = words_from-lower [] s

pub join-lower :
    (ws : List Text)
    → join (codes " ") (map to_ascii_lowercase ws) ≡ to_ascii_lowercase (join (codes " ") ws)
unfolding join to_ascii_lowercase
join-lower [] = refl
join-lower (w ∷ []) = refl
join-lower (w ∷ v ∷ ws) =
    rw map-append (ap (λ t. to_ascii_lowercase w ++ (32 ∷ t)) (join-lower (v ∷ ws)))

pub eq_ignore_ascii_case-lower :
    (s t : Text) → eq_ignore_ascii_case (to_ascii_lowercase s) t ≡ eq_ignore_ascii_case s t
unfolding eq_ignore_ascii_case
eq_ignore_ascii_case-lower s t = rw to_ascii_lowercase_idem
