-- ===== src/Parser/Dmi/Units/Printed.antt =====
-- A size that is printed with its unit is read back.
use qurbrix_hwinfo.Common.{
  ℕ, zero, suc, ◌+◌, ◌-◌, ◌*◌, ◌/◌, ◌%◌, ◌≤◌, ◌<◌, true, false, ◌&&◌, ◌≡◌, refl, ap, ◌∙◌, some, [],
  ◌∷◌, ◌++◌, Text, codes, join, split_whitespace, split_whitespace-join, IsWord, IsSolid, All,
  All-append, is_empty, is_whitespace, all, is_ascii_digit, digits_value, digits_from, to_string,
  parse_digits, parse_unsigned, ◌==◌, leb, ltb, Bool-cases, inl, inr, arith,
}
use qurbrix_hwinfo.Parser.Dmi.Units.{u64_bound, size_parts, scaled, parse_size_to_bytes}

abbrev IsDigits : Text → Type 0
IsDigits s = All (λ c. (48 ≤ c) × (c ≤ 57)) s

digits_value-append :
    (acc : ℕ) (s : Text) (d : ℕ)
    → digits_value acc (s ++ d ∷ []) ≡ digits_value acc s * 10 + (d - b'0')
unfolding digits_value
digits_value-append acc [] d = refl
digits_value-append acc (c ∷ s) d = digits_value-append (acc * 10 + (c - b'0')) s d

digits_from-value : (fuel n : ℕ) → n ≤ fuel → digits_value 0 (digits_from fuel n) ≡ n
unfolding digits_from digits_value
digits_from-value zero n h = omega arith
digits_from-value (suc fuel) n h = elim (Bool-cases (ltb n 10)) [
  | inl e ↦ rw (digits_from, e) (omega arith)
  | inr e ↦
      let rest = digits_from-value fuel (n / 10) (ground arith) in
      rw (digits_from, e)
        (digits_value-append 0 (digits_from fuel (n / 10)) (48 + n % 10) ∙ rw rest (ground arith))
]

digits_from-IsDigits : (fuel n : ℕ) → IsDigits (digits_from fuel n)
unfolding digits_from
digits_from-IsDigits zero n = ((omega arith, omega arith), tt)
digits_from-IsDigits (suc fuel) n = elim (Bool-cases (ltb n 10)) [
  | inl e ↦ rw (digits_from, e) (ground arith)
  | inr e ↦
      rw (digits_from, e)
        (All-append _ (digits_from fuel (n / 10)) ((48 + n % 10) ∷ [])
          (digits_from-IsDigits fuel (n / 10)) ((omega arith, omega arith), tt))
]

is_empty-snoc : (s : Text) (d : ℕ) → is_empty (s ++ d ∷ []) ≡ false
is_empty-snoc [] d = refl
is_empty-snoc (c ∷ s) d = refl

digits_from-some : (fuel n : ℕ) → is_empty (digits_from fuel n) ≡ false
unfolding digits_from
digits_from-some zero n = refl
digits_from-some (suc fuel) n = elim (Bool-cases (ltb n 10)) [
  | inl e ↦ rw (digits_from, e) refl
  | inr e ↦ rw (digits_from, e) (is_empty-snoc (digits_from fuel (n / 10)) (48 + n % 10))
]

IsDigits-all : (s : Text) → IsDigits s → all is_ascii_digit s ≡ true
unfolding is_ascii_digit
IsDigits-all [] h = refl
IsDigits-all (c ∷ s) h = rw (IsDigits-all s h.1) (digit c h.0)
  where
    digit : (c : ℕ) → (48 ≤ c) × (c ≤ 57) → ((leb 48 c && leb c 57) && true) ≡ true
    digit c h = ground arith

IsDigits-IsSolid : (s : Text) → IsDigits s → IsSolid s
unfolding is_whitespace
IsDigits-IsSolid [] h = tt
IsDigits-IsSolid (c ∷ s) h = (ground arith, IsDigits-IsSolid s h.1)

parse_unsigned-digits :
    (bound : ℕ) (s : Text)
    → IsDigits s
    → is_empty s ≡ false
    → digits_value 0 s < bound
    → parse_unsigned bound s ≡ some (digits_value 0 s)
unfolding parse_unsigned parse_digits
parse_unsigned-digits bound [] h e b = cc
parse_unsigned-digits bound (c ∷ s) h e b = rw (unsigned, IsDigits-all (c ∷ s) h, below) refl
  where
    unsigned : (c == b'+') ≡ false
    unsigned = ground (arith, h.0)

    below : ltb (digits_value 0 (c ∷ s)) bound ≡ true
    below = ground (arith, b)

-- A number of the unit, printed in decimal digits, is parsed to as many bytes, modulo 2 ^ 64.
pub parse_size_to_bytes-to_string :
    (n : ℕ)
    → n < u64_bound
    → parse_size_to_bytes (some (to_string n ++ codes " KB")) ≡ some (n * 1024 % u64_bound)
unfolding parse_size_to_bytes size_parts to_string scaled join
parse_size_to_bytes-to_string n h = rw (words, size_parts, number) refl
  where
    digits : IsDigits (digits_from n n)
    digits = digits_from-IsDigits n n

    unit : IsWord (codes "KB")
    unit = (refl, (refl, (refl, tt)))

    words : split_whitespace (to_string n ++ codes " KB") ≡ to_string n ∷ codes "KB" ∷ []
    words =
        split_whitespace-join (digits_from n n ∷ codes "KB" ∷ [])
          ((digits_from-some n n, IsDigits-IsSolid (digits_from n n) digits), (unit, tt))

    value : digits_value 0 (digits_from n n) ≡ n
    value = digits_from-value n n (omega arith)

    number : parse_unsigned u64_bound (to_string n) ≡ some n
    number =
        parse_unsigned-digits u64_bound (digits_from n n) digits (digits_from-some n n) (rw value h)
        ∙ ap some value
