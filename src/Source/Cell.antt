-- ===== src/Source/Cell.antt =====
-- A map of cells that are written once: the `Mutex<HashMap<_, Arc<OnceCell<_>>>>` fields of
-- crates/hw-source/src/cached.rs. A cell without a value is there, and empty.
use qurbrix_hwinfo.Common.{
  Bool, true, ◌≡◌, Option, none, some, List, [], ◌∷◌, if◌then◌else◌, ◌⊎◌, inl, arith,
}

abbrev pub Cells {ℓ κ} : Type ℓ → Type κ → Type (ℓ ⊔ κ)
Cells K V = List (K × Option V)

module _ {ℓ κ} {K : Type ℓ} {V : Type κ} (eq : K → K → Bool) where
  -- What the key's cell holds.
  unfoldable pub value_of : K → Cells K V → Option V
  value_of k [] = none
  value_of k ((j, o) ∷ cells) = if eq j k then o else value_of k cells

  -- `entry(…).or_insert_with(…)`: a cell for the key, empty when it is new.
  unfoldable pub entry : K → Cells K V → Cells K V
  entry k [] = (k, none) ∷ []
  entry k ((j, o) ∷ cells) = if eq j k then (j, o) ∷ cells else (j, o) ∷ entry k cells

  -- The key's cell is given its value.
  unfoldable pub fill : K → V → Cells K V → Cells K V
  fill k v [] = []
  fill k v ((j, o) ∷ cells) = if eq j k then (j, some v) ∷ cells else (j, o) ∷ fill k v cells

  pub value_of-entry : (j k : K) (cells : Cells K V) → value_of j (entry k cells) ≡ value_of j cells
  unfolding value_of entry
  value_of-entry j k [] = ground arith
  value_of-entry j k ((i, o) ∷ cells) = ground (arith, value_of-entry j k cells)

  -- A cell that holds a value keeps it when an empty one is filled.
  pub value_of-fill_other :
      (j k : K) (w v : V) (cells : Cells K V)
      → value_of j cells ≡ some w
      → value_of k cells ≡ none
      → value_of j (fill k v cells) ≡ some w
  unfolding value_of fill
  value_of-fill_other j k w v [] h n = h
  value_of-fill_other j k w v ((i, o) ∷ cells) h n =
      ground (arith, value_of-fill_other j k w v cells)

  pub value_of-fill :
      (k : K) (v : V) (cells : Cells K V)
      → eq k k ≡ true
      → value_of k (fill k v (entry k cells)) ≡ some v
  unfolding value_of fill entry
  value_of-fill k v [] r = ground arith
  value_of-fill k v ((i, o) ∷ cells) r = ground (arith, value_of-fill k v cells r)

  -- What a filled map holds was there, or is the new value under its key.
  pub value_of-fill_inv :
      ((a b : K) → eq a b ≡ true → a ≡ b)
      → (j k : K) (w v : V) (cells : Cells K V) → value_of j (fill k v cells) ≡ some w
      → (value_of j cells ≡ some w) ⊎ ((v ≡ w) × (k ≡ j))
  unfolding value_of fill
  value_of-fill_inv sound j k w v [] h = inl h
  value_of-fill_inv sound j k w v ((i, o) ∷ cells) h =
      ground (arith, sound i k, sound i j, value_of-fill_inv sound j k w v cells)
