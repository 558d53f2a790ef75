-- ===== src/Inventory/Canonical/Coverage.antt =====
-- Which identity groups a canonical report covers, and when its core is complete.
use mathlib.Core.Path.{subst}
use qurbrix_hwinfo.Common.{
  ◌≡◌, ◌↔◌, refl, sym, ap, ◌∙◌, Bool, true, false, not, ◌&&◌, ◌||◌, Option, none, some, List, [],
  ◌∷◌, Text, any, all, retain, any-sort, any-dedup, filter_map, arith, ap₂, inl, inr, Bool-cases,
  Option-cases, codes, text_eq, text_eq_sound, before, starts_with, and_then, ◌==◌, ◌++◌,
}
use qurbrix_hwinfo.Model.Device.{Device}
use qurbrix_hwinfo.Model.Snapshot.{
  CoreIdentityGroup, platform, cpu, memory, storage, physical_network, gpu, group_eq, has_group,
  required, core_complete, QuickProbeReport,
}
use qurbrix_hwinfo.Inventory.Error.{ok, >>=-Through, ok_injective}
use qurbrix_hwinfo.Inventory.Canonical.Digest.{
  Codec, canonicalize_devices, digest, covered_groups, record_group, group_of_kind, group_leb,
}

group_eq_sound : (a b : CoreIdentityGroup) → group_eq a b ≡ true → a ≡ b
group_eq_sound a b h = ground arith

-- Does this record stand for this group?
abbrev stands_for : CoreIdentityGroup → Option CoreIdentityGroup → Bool
stands_for g none = false
stands_for g (some h) = group_eq g h

any-filter_map :
    (g : CoreIdentityGroup) (lines : List Text)
    → any (group_eq g) (filter_map record_group lines)
      ≡ any (λ line. stands_for g (record_group line)) lines
any-filter_map g [] = refl
any-filter_map g (line ∷ lines) = go (record_group line) (any-filter_map g lines)
  where
    go :
        (o : Option CoreIdentityGroup)
        → any (group_eq g) (filter_map record_group lines)
          ≡ any (λ l. stands_for g (record_group l)) lines
        → any (group_eq g) (elim o [
          | none ↦ filter_map record_group lines
          | some y ↦ y ∷ filter_map record_group lines
        ])
          ≡ (stands_for g o || any (λ l. stands_for g (record_group l)) lines)
    go none ih = ih
    go (some h) ih = ap (λ b. group_eq g h || b) ih

has_group-covered_groups :
    (g : CoreIdentityGroup) (lines : List Text)
    → has_group (covered_groups lines) g ≡ any (λ line. stands_for g (record_group line)) lines
unfolding has_group covered_groups
has_group-covered_groups g lines =
    any-dedup group_eq group_eq_sound (group_eq g) _
    ∙ any-sort group_leb (group_eq g) _
    ∙ any-filter_map g lines

-- A group's word, and what its identity records begin with.
abbrev word : CoreIdentityGroup → Text
word platform = codes "platform"
word cpu = codes "cpu"
word memory = codes "memory"
word storage = codes "storage"
word physical_network = codes "physical_network"
word gpu = codes "gpu"

abbrev pub mark : CoreIdentityGroup → Text
mark g = word g ++ b':' ∷ []

own_word : (g : CoreIdentityGroup) → stands_for g (group_of_kind (word g)) ≡ true
unfolding group_of_kind text_eq
own_word platform = refl
own_word cpu = refl
own_word memory = refl
own_word storage = refl
own_word physical_network = refl
own_word gpu = refl

other_word :
    (g : CoreIdentityGroup) (kind : Text)
    → text_eq kind (word g) ≡ false
    → stands_for g (group_of_kind kind) ≡ false
unfolding group_of_kind
other_word platform kind h = ground arith
other_word cpu kind h = ground arith
other_word memory kind h = ground arith
other_word storage kind h = ground arith
other_word physical_network kind h = ground arith
other_word gpu kind h = ground arith

stands_for-group_of_kind :
    (g : CoreIdentityGroup) (kind : Text)
    → stands_for g (group_of_kind kind) ≡ text_eq kind (word g)
stands_for-group_of_kind g kind = elim (Bool-cases (text_eq kind (word g))) [
  | inl e ↦
      ap (λ k. stands_for g (group_of_kind k)) (text_eq_sound kind (word g) e) ∙ own_word g ∙ sym e
  | inr e ↦ other_word g kind e ∙ sym e
]

-- The text before the first colon is there and is this word.
abbrev begins : Option Text → Text → Bool
begins none w = false
begins (some k) w = text_eq k w

plain : Text → Bool
plain w = all (λ c. not (c == b':')) w

before-begins :
    (line w : Text)
    → plain w ≡ true
    → begins (before b':' line) w ≡ starts_with (w ++ b':' ∷ []) line
unfolding before starts_with text_eq plain
before-begins [] [] h = refl
before-begins [] (p ∷ ps) h = refl
before-begins (c ∷ cs) [] h = elim (Option-cases (before b':' cs)) [
  | inl e ↦ ground arith
  | inr (s, e) ↦ ground arith
]
before-begins (c ∷ cs) (p ∷ ps) h = elim (Option-cases (before b':' cs)) [
  | inl e ↦ ground (arith, before-begins cs ps)
  | inr (s, e) ↦ ground (arith, before-begins cs ps)
]

plain-word : (g : CoreIdentityGroup) → plain (word g) ≡ true
unfolding plain
plain-word platform = refl
plain-word cpu = refl
plain-word memory = refl
plain-word storage = refl
plain-word physical_network = refl
plain-word gpu = refl

stands_for-record_group :
    (g : CoreIdentityGroup) (line : Text)
    → stands_for g (record_group line) ≡ starts_with (mark g) line
unfolding record_group
stands_for-record_group g line =
    read (before b':' line) ∙ before-begins line (word g) (plain-word g)
  where
    read : (o : Option Text) → stands_for g (and_then o group_of_kind) ≡ begins o (word g)
    read none = refl
    read (some kind) = stands_for-group_of_kind g kind

any-stands_for :
    (g : CoreIdentityGroup) (lines : List Text)
    → any (λ line. stands_for g (record_group line)) lines ≡ any (starts_with (mark g)) lines
any-stands_for g [] = refl
any-stands_for g (line ∷ lines) =
    ap₂ (λ a b. a || b) (stands_for-record_group g line) (any-stands_for g lines)

none_missing :
    (covered absent gs : List CoreIdentityGroup)
    → (retain (λ g. not (has_group covered g) && not (has_group absent g)) gs ≡ [])
      ↔ (all (λ g. has_group covered g || has_group absent g) gs ≡ true)
none_missing covered absent [] = (λ h. refl, λ h. refl)
none_missing covered absent (g ∷ gs) = ground (arith, none_missing covered absent gs)

abbrev HasShape : List CoreIdentityGroup → QuickProbeReport → Type 0
HasShape absent r =
    (r.coverage.covered ≡ covered_groups r.identity_records)
    × (r.coverage.missing
        ≡ retain
            (λ g.
              not (has_group r.coverage.covered g) && not (has_group r.coverage.trusted_absent g))
            required)
    × (r.coverage.trusted_absent ≡ absent)

digest-HasShape :
    (c : Codec) (identity configuration : List Text) (absent : List CoreIdentityGroup)
    (observed_at : Text) (warnings : List Text) (r : QuickProbeReport)
    → digest c identity configuration absent observed_at warnings ≡ ok r
    → HasShape absent r
unfolding digest
digest-HasShape c identity configuration absent observed_at warnings r h =
    let (payload, (p, e)) = >>=-Through (c.json_records identity) _ r h in
    let (bytes, (q, f)) = >>=-Through (c.json_configuration configuration _ identity) _ r e in
    subst (HasShape absent) (ok_injective _ r f) (refl, refl, refl)

module _ (c : Codec) (ds : List Device) (warnings : List Text) (absent : List CoreIdentityGroup)
    (observed_at : Text) (r : QuickProbeReport)
    (canonical : canonicalize_devices c ds warnings absent observed_at ≡ ok r) where
  shape : HasShape absent r
  unfolding canonicalize_devices
  shape = digest-HasShape c _ _ absent observed_at warnings r canonical

  -- A group is covered by a canonical report exactly if one of the report's identity records begins
  -- with the group's word and a colon.
  pub covered_iff_record :
      (g : CoreIdentityGroup)
      → has_group r.coverage.covered g ≡ any (starts_with (mark g)) r.identity_records
  covered_iff_record g =
      rw shape.0
        (has_group-covered_groups g r.identity_records ∙ any-stands_for g r.identity_records)

  -- The core of a canonical report is complete exactly if no required group is listed as missing.
  pub core_complete_iff_none_missing : (core_complete r.coverage ≡ true) ↔ (r.coverage.missing ≡ [])
  unfolding core_complete
  core_complete_iff_none_missing =
      let e = none_missing r.coverage.covered r.coverage.trusted_absent required in
      (λ h. shape.1 ∙ e.1 h, λ h. e.0 (sym shape.1 ∙ h))
