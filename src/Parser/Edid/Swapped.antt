-- ===== src/Parser/Edid/Swapped.antt =====
-- A block whose bytes are swapped in pairs.
use qurbrix_hwinfo.Common.{
  ℕ, zero, suc, ◌≡◌, refl, sym, ap, ◌∙◌, Bool, true, false, List, [], ◌∷◌, length, take, text_eq,
  text_eq_sound, ltb, if◌then◌else◌, arith,
}
use qurbrix_hwinfo.Parser.Edid.{
  EdidResult, edid_header, pair_swapped_edid_header, pair_swap_block, parse_block, parse_edid,
}

abbrev double : ℕ → ℕ
double zero = zero
double (suc n) = suc (suc (double n))

take-pair_swap_block :
    (n : ℕ) (xs : List ℕ)
    → take (double n) (pair_swap_block xs) ≡ pair_swap_block (take (double n) xs)
unfolding pair_swap_block
take-pair_swap_block zero xs = refl
take-pair_swap_block (suc n) [] = refl
take-pair_swap_block (suc n) (a ∷ []) = refl
take-pair_swap_block (suc n) (a ∷ b ∷ xs) = ap (λ l. b ∷ a ∷ l) (take-pair_swap_block n xs)

-- Any even number of bytes.
pair_swap_block-twice :
    (n : ℕ) (xs : List ℕ)
    → length xs ≡ double n
    → (pair_swap_block (pair_swap_block xs) ≡ xs) × (length (pair_swap_block xs) ≡ length xs)
unfolding pair_swap_block
pair_swap_block-twice n [] h = (refl, refl)
pair_swap_block-twice zero (a ∷ xs) h = ground arith
pair_swap_block-twice (suc n) (a ∷ []) h = ground arith
pair_swap_block-twice (suc n) (a ∷ b ∷ xs) h =
    let (p, q) = pair_swap_block-twice n xs (omega arith) in (ap (λ l. a ∷ b ∷ l) p, omega arith)

take-all : (xs : List ℕ) (n : ℕ) → length xs ≡ n → take n xs ≡ xs
take-all [] zero h = refl
take-all [] (suc n) h = refl
take-all (x ∷ xs) zero h = ground arith
take-all (x ∷ xs) (suc n) h = ap (λ l. x ∷ l) (take-all xs n (omega arith))

second :
    (a b : Bool) (x u v : EdidResult)
    → a ≡ false
    → b ≡ true
    → (if a then x else if b then u else v) ≡ u
second a b x u v h k = ground arith

third :
    (a b : Bool) (x u v : EdidResult)
    → a ≡ false
    → b ≡ false
    → (if a then x else if b then u else v) ≡ v
third a b x u v h k = ground arith

-- The two ways of `parse_edid`, for 128 bytes.
parse_edid-usual :
    (block : List ℕ)
    → length block ≡ 128
    → text_eq (take 8 block) pair_swapped_edid_header ≡ false
    → parse_edid block ≡ parse_block block
unfolding parse_edid
parse_edid-usual block size h =
    third _ _ _ _ _ (ap (λ n. ltb n 128) size) h ∙ ap parse_block (take-all block 128 size)

parse_edid-swapped :
    (block : List ℕ)
    → length block ≡ 128
    → text_eq (take 8 block) pair_swapped_edid_header ≡ true
    → parse_edid block ≡ parse_block (pair_swap_block block)
unfolding parse_edid
parse_edid-swapped block size h =
    second _ _ _ _ _ (ap (λ n. ltb n 128) size) h
    ∙ ap (λ l. parse_block (pair_swap_block l)) (take-all block 128 size)

-- A block of 128 bytes that starts with the header of the usual order is parsed to the same with its
-- bytes swapped in pairs.
pub parse_edid-pair_swap_block :
    (block : List ℕ)
    → length block ≡ 128
    → text_eq (take 8 block) edid_header ≡ true
    → parse_edid (pair_swap_block block) ≡ parse_edid block
unfolding pair_swap_block text_eq
parse_edid-pair_swap_block block size h =
    let (twice, same) = pair_swap_block-twice 64 block size in
    let header = text_eq_sound (take 8 block) edid_header h in
    let swapped : take 8 (pair_swap_block block) ≡ pair_swapped_edid_header =
      take-pair_swap_block 4 block ∙ ap pair_swap_block header in
    parse_edid-swapped (pair_swap_block block) (same ∙ size)
      (ap (λ l. text_eq l pair_swapped_edid_header) swapped)
    ∙ (ap parse_block twice
        ∙ sym (parse_edid-usual block size (ap (λ l. text_eq l pair_swapped_edid_header) header)))
