-- ===== src/Inventory/Store/Artifact/Confined.antt =====
-- An accepted artifact path stays in the directory of the reports.
use qurbrix_hwinfo.Common.{
  ℕ, ◌≡◌, refl, ap, sym, ◌∙◌, length, Bool, true, false, not, ◌&&◌, ◌||◌, List, [], ◌∷◌, ◌++◌, Text,
  codes, text_eq, text_eq_sound, if◌then◌else◌, arith, split, split_from, join, is_empty, any, all,
  ◌==◌,
}
use qurbrix_hwinfo.Inventory.Error.{InventoryError, ok, err, ok_injective}
use qurbrix_hwinfo.Inventory.Store.Artifact.{
  first_text, is_reports, Component, normal, root_dir, cur_dir, parent_dir, components,
  piece_components, leading, safe_artifact_path, is_absolute, is_normal, texts,
}

-- The name of an entry of a directory.
abbrev pub is_file_name : Text → Bool
is_file_name name =
    not (is_empty name)
    && not (text_eq name (codes "."))
    && not (text_eq name (codes ".."))
    && not (any (λ c. c == b'/') name)

any-snoc :
    (s : Text) (c : ℕ)
    → any (λ x. x == b'/') (s ++ c ∷ []) ≡ (any (λ x. x == b'/') s || (c == b'/'))
any-snoc [] c = ground arith
any-snoc (x ∷ s) c = ground (arith, any-snoc s c)

abbrev no_slash : Text → Bool
no_slash s = not (any (λ c. c == b'/') s)

split_from-no_slash :
    (cur s : Text) → no_slash cur ≡ true → all no_slash (split_from b'/' cur s) ≡ true
unfolding split_from
split_from-no_slash cur [] h = ground arith
split_from-no_slash cur (c ∷ cs) h =
    ground (
      arith,
      any-snoc cur c,
      split_from-no_slash [] cs refl,
      split_from-no_slash (cur ++ c ∷ []) cs,
    )

abbrev is_plain : Component → Bool
is_plain (normal s) = is_file_name s
is_plain root_dir = true
is_plain cur_dir = true
is_plain parent_dir = true

piece_components-plain :
    (ps : List Text) → all no_slash ps ≡ true → all is_plain (piece_components ps) ≡ true
unfolding piece_components
piece_components-plain [] h = refl
piece_components-plain (p ∷ ps) h = ground (arith, piece_components-plain ps)

leading-plain :
    (ps : List Text) (cs : List Component)
    → all is_plain cs ≡ true
    → all is_plain (leading ps ++ cs) ≡ true
unfolding leading
leading-plain [] cs h = h
leading-plain (p ∷ ps) cs h = ground arith

components-plain : (path : Text) → is_absolute path ≡ false → all is_plain (components path) ≡ true
unfolding components split
components-plain path h = ground (
  arith,
  leading-plain (split b'/' path) (piece_components (split b'/' path))
      (piece_components-plain (split b'/' path) (split_from-no_slash [] path refl)),
)

abbrev Accepts : Bool → List Component → Type 0
Accepts absolute cs =
    (absolute ≡ false)
    × (any (λ part. not (is_normal part)) cs ≡ false)
    × ((length cs == 2) ≡ true)
    × (is_reports (first_text cs) ≡ true)

accepts :
    (absolute : Bool) (cs : List Component) (relative path : Text)
    → (if absolute
          || any (λ part. not (is_normal part)) cs
          || not (length cs == 2)
          || not (is_reports (first_text cs))
        then err (InventoryError.invalid_artifact_path relative)
        else ok (join (codes "/") (texts cs)))
      ≡ ok path
    → Accepts absolute cs × (join (codes "/") (texts cs) ≡ path)
accepts absolute cs relative path h =
    ground (arith, ok_injective (join (codes "/") (texts cs)) path)

file_of :
    (cs : List Component)
    → Accepts false cs
    → all is_plain cs ≡ true
    → (name : Text) × (join (codes "/") (texts cs) ≡ codes "reports/" ++ name)
      × (is_file_name name ≡ true)
unfolding join
file_of (normal a ∷ normal b ∷ []) h plain = (
  b,
  ap (λ s. s ++ (codes "/" ++ b)) (text_eq_sound a (codes "reports") h.3),
  ground (arith, plain),
)
file_of [] h plain = ground arith
file_of (normal a ∷ []) h plain = ground arith
file_of (root_dir ∷ cs) h plain = ground arith
file_of (cur_dir ∷ cs) h plain = ground arith
file_of (parent_dir ∷ cs) h plain = ground arith
file_of (normal a ∷ root_dir ∷ cs) h plain = ground arith
file_of (normal a ∷ cur_dir ∷ cs) h plain = ground arith
file_of (normal a ∷ parent_dir ∷ cs) h plain = ground arith
file_of (normal a ∷ normal b ∷ c ∷ cs) h plain = ground arith

-- A path that is accepted names an entry of the directory of the reports: what follows `reports/` is
-- not empty, has no slash and is neither `.` nor `..`.
pub safe_artifact_path-confined :
    (relative path : Text)
    → safe_artifact_path relative ≡ ok path
    → (name : Text) × (path ≡ codes "reports/" ++ name) × (is_file_name name ≡ true)
unfolding safe_artifact_path
safe_artifact_path-confined relative path h =
    let (accepted, e) = accepts (is_absolute relative) (components relative) relative path h in
    let (name, p, q) =
      file_of (components relative) (refl, accepted.1, accepted.2, accepted.3)
        (components-plain relative accepted.0) in
    (name, sym e ∙ p, q)
