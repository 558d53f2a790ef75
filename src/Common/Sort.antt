-- ===== src/Common/Sort.antt =====
-- `sort`, `sort_by` and `dedup` of `Vec`. The library's sort is stable, as insertion is, so the two
-- have the same result for every total preorder.
use mathlib.Core.Path.{◌≡◌, refl, ap, ◌∙◌}
use mathlib.Core.Bool.{Bool, true, false, ◌||◌}
use mathlib.Core.Logic.{∥∥₁_elim}
use mathlib.Core.List.{List, [], ◌∷◌, Perm, Permᴰ}
use native.Mathlib.Omega.{arith}
use qurbrix_hwinfo.Common.Tests.{if◌then◌else◌}
use qurbrix_hwinfo.Common.Lists.{any}

module _ {ℓ} {A : Type ℓ} (leq : A → A → Bool) where
  unfoldable pub insert_sorted : A → List A → List A
  insert_sorted a [] = a ∷ []
  insert_sorted a (x ∷ xs) = if leq a x then a ∷ x ∷ xs else x ∷ insert_sorted a xs

  unfoldable pub sort : List A → List A
  unfolding insert_sorted
  sort [] = []
  sort (x ∷ xs) = insert_sorted x (sort xs)

  -- Each item is at or below the one behind it.
  abbrev pub IsSorted : List A → Type 0
  IsSorted [] = Unit
  IsSorted (x ∷ []) = Unit
  IsSorted (x ∷ y ∷ l) = (leq x y ≡ true) × IsSorted (y ∷ l)

  -- `Vec::dedup`, by the given equality: an item equal to the one kept before it is dropped.
  unfoldable pub dedup_from : A → List A → List A
  dedup_from a [] = a ∷ []
  dedup_from a (x ∷ xs) =
      let same = dedup_from a xs in let next = a ∷ dedup_from x xs in if leq a x then same else next

  unfoldable pub dedup : List A → List A
  unfolding dedup_from
  dedup [] = []
  dedup (x ∷ xs) = dedup_from x xs

-- The laws of a total order, as a Boolean test.
pub record TotalOrder {ℓ} {A : Type ℓ} (leq : A → A → Bool) : Type ℓ where
  pub total : (a b : A) → leq a b ≡ false → leq b a ≡ true
  pub antisym : (a b : A) → leq a b ≡ true → leq b a ≡ true → a ≡ b
  pub trans : (a b c : A) → leq a b ≡ true → leq b c ≡ true → leq a c ≡ true

module _ {ℓ} {A : Type ℓ} {leq : A → A → Bool} (o : TotalOrder leq) where
  insert_comm :
      (a b : A) (l : List A)
      → insert_sorted leq a (insert_sorted leq b l) ≡ insert_sorted leq b (insert_sorted leq a l)
  unfolding insert_sorted
  insert_comm a b [] = ground (arith, o.total a b, o.antisym a b)
  insert_comm a b (x ∷ xs) = ground (
    arith,
    insert_comm a b xs,
    o.total a b,
    o.antisym a b,
    o.trans a b x,
    o.trans b a x,
    o.total a x,
    o.total b x,
    o.trans a x b,
    o.trans b x a,
  )

  sort_of_permᴰ : {xs ys : List A} → Permᴰ xs ys → sort leq xs ≡ sort leq ys
  unfolding sort
  sort_of_permᴰ Permᴰ.nil = refl
  sort_of_permᴰ (Permᴰ.cons e d) = cc (e, sort_of_permᴰ d)
  sort_of_permᴰ (Permᴰ.swap {a} {b} {l} e f) = cc (e, f, insert_comm a b (sort leq l))
  sort_of_permᴰ (Permᴰ.trans d e) = sort_of_permᴰ d ∙ sort_of_permᴰ e

  -- A sort does not depend on the order that it is given.
  pub sort_of_perm : IsSet (List A) → {xs ys : List A} → Perm xs ys → sort leq xs ≡ sort leq ys
  sort_of_perm s p = ∥∥₁_elim p (s _ _) sort_of_permᴰ

  insert_sorted-IsSorted :
      (a : A) (l : List A) → IsSorted leq l → IsSorted leq (insert_sorted leq a l)
  unfolding insert_sorted
  insert_sorted-IsSorted a [] h = tt
  insert_sorted-IsSorted a (x ∷ []) h = ground (arith, o.total a x)
  insert_sorted-IsSorted a (x ∷ y ∷ l) h =
      ground (arith, o.total a x, o.total a y, insert_sorted-IsSorted a (y ∷ l) h.1)

  pub sort-IsSorted : (l : List A) → IsSorted leq (sort leq l)
  unfolding sort
  sort-IsSorted [] = tt
  sort-IsSorted (x ∷ xs) = insert_sorted-IsSorted x (sort leq xs) (sort-IsSorted xs)

-- Sorting keeps every test over the elements, and so does dropping repeats.
module _ {ℓ} {A : Type ℓ} (leq : A → A → Bool) (p : A → Bool) where
  any-insert_sorted : (a : A) (l : List A) → any p (insert_sorted leq a l) ≡ (p a || any p l)
  unfolding insert_sorted
  any-insert_sorted a [] = refl
  any-insert_sorted a (x ∷ xs) = ground (arith, any-insert_sorted a xs)

  pub any-sort : (l : List A) → any p (sort leq l) ≡ any p l
  unfolding sort
  any-sort [] = refl
  any-sort (x ∷ xs) = any-insert_sorted x (sort leq xs) ∙ ap (λ b. p x || b) (any-sort xs)

module _ {ℓ} {A : Type ℓ} (eq : A → A → Bool) (sound : (a b : A) → eq a b ≡ true → a ≡ b)
    (p : A → Bool) where
  any-dedup_from : (a : A) (l : List A) → any p (dedup_from eq a l) ≡ (p a || any p l)
  unfolding dedup_from
  any-dedup_from a [] = refl
  any-dedup_from a (x ∷ xs) = ground (arith, any-dedup_from a xs, any-dedup_from x xs, sound a x)

  pub any-dedup : (l : List A) → any p (dedup eq l) ≡ any p l
  unfolding dedup
  any-dedup [] = refl
  any-dedup (x ∷ xs) = any-dedup_from x xs
