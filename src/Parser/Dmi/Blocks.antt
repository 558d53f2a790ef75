-- ===== src/Parser/Dmi/Blocks.antt =====
-- The memory parsers told as a reading of each block of the text by itself: a block is a line that
-- opens one and the lines up to the next such line.
use mathlib.Core.List.{append-nil, append_assoc}
use qurbrix_hwinfo.Common.{
  Bool, true, false, not, ◌&&◌, ◌≡◌, refl, sym, ap, ap₂, ◌∙◌, Option, none, some, List, [], ◌∷◌,
  ◌++◌, map, retain, any, Text, codes, text_eq, is_some, each_line, if◌then◌else◌, Bool-cases, inl,
  inr, arith,
}
use qurbrix_hwinfo.Parser.Dmi.{DmiMemoryRecord}
use qurbrix_hwinfo.Parser.Dmi.Memory.{
  memory_record_has_data, is_value, is_listed, push_memory_record, MemoryScan, no_memory, with_pair,
  change,
}

-- The lines before the first opening line, and the blocks.
unfoldable pub blocks : (Text → Bool) → List Text → List Text × List (Text × List Text)
blocks opens [] = ([], [])
blocks opens (l ∷ ls) =
    let (body, rest) = blocks opens ls in
    if opens l then ([], (l, body) ∷ rest) else (l ∷ body, rest)

pub blocks-opens :
    (opens : Text → Bool) (l : Text) (ls : List Text)
    → opens l ≡ true
    → blocks opens (l ∷ ls) ≡ ([], (l, (blocks opens ls).0) ∷ (blocks opens ls).1)
unfolding blocks
blocks-opens opens l ls e = rw (blocks, e) refl

pub blocks-fills :
    (opens : Text → Bool) (l : Text) (ls : List Text)
    → opens l ≡ false
    → blocks opens (l ∷ ls) ≡ (l ∷ (blocks opens ls).0, (blocks opens ls).1)
unfolding blocks
blocks-fills opens l ls e = rw (blocks, e) refl

-- The columns of a record.
abbrev pub columns : DmiMemoryRecord → List (Option Text)
columns r =
    r.name ∷ r.size ∷ r.locator ∷ r.manufacturer ∷ r.serial ∷ r.part_number ∷ r.memory_type
    ∷ r.speed ∷ r.configured_speed ∷ r.total_width ∷ r.data_width ∷ r.minimum_voltage
    ∷ r.maximum_voltage ∷ r.configured_voltage ∷ r.error_information_handle ∷ r.form_factor ∷ r.set
    ∷ r.bank_locator ∷ r.type_detail ∷ r.asset_tag ∷ r.rank ∷ r.module_manufacturer_id
    ∷ r.module_product_id ∷ r.memory_subsystem_controller_manufacturer_id
    ∷ r.memory_subsystem_controller_product_id ∷ r.memory_technology
    ∷ r.memory_operating_mode_capability ∷ r.firmware_version ∷ r.non_volatile_size
    ∷ r.volatile_size ∷ r.cache_size ∷ r.logical_size ∷ []

abbrev pub says_empty : Option Text → Bool
says_empty none = false
says_empty (some size) = text_eq size (codes "No Module Installed")

-- Some column has a value, and the size does not say that the slot is empty.
unfoldable pub has_module : DmiMemoryRecord → Bool
has_module r = any is_some (columns r) && not (says_empty r.size)

has_data-columns : (r : DmiMemoryRecord) → memory_record_has_data r ≡ any is_some (columns r)
unfolding memory_record_has_data
has_data-columns r = ground arith

is_value-says_empty : (o : Option Text) → is_value o (codes "No Module Installed") ≡ says_empty o
is_value-says_empty none = refl
is_value-says_empty (some size) = refl

is_listed-has_module : (r : DmiMemoryRecord) → is_listed r ≡ has_module r
unfolding is_listed has_module
is_listed-has_module r = ap₂ (λ a b. a && not b) (has_data-columns r) (is_value-says_empty r.size)

pub retain-has_module : (rs : List DmiMemoryRecord) → retain is_listed rs ≡ retain has_module rs
retain-has_module [] = refl
retain-has_module (r ∷ rs) = ground (arith, is_listed-has_module r, retain-has_module rs)

pub push-append :
    (records : List DmiMemoryRecord) (r : DmiMemoryRecord) (rest : List DmiMemoryRecord)
    → push_memory_record records (some r) ++ retain is_listed rest
      ≡ records ++ retain is_listed (r ∷ rest)
unfolding push_memory_record
push-append records r rest = elim (Bool-cases (is_listed r)) [
  | inl e ↦ rw (push_memory_record, e) (append_assoc records (r ∷ []) (retain is_listed rest))
  | inr e ↦ rw (push_memory_record, e) refl
]

pub each_line-blank {ℓ} :
    {S : Type ℓ} (step : Text → S → S) (ls : List Text) (s : S)
    → ((s' : S) → step [] s' ≡ s')
    → each_line step (ls ++ [] ∷ []) s ≡ each_line step ls s
each_line-blank step [] s still = still s
each_line-blank step (l ∷ ls) s still = each_line-blank step ls (step l s) still

pub each_line-same {ℓ} :
    {S : Type ℓ} (f g : Text → S → S) (ls : List Text) (s : S)
    → ((l : Text) (s' : S) → f l s' ≡ g l s')
    → each_line f ls s ≡ each_line g ls s
each_line-same f g [] s same = refl
each_line-same f g (l ∷ ls) s same =
    ap (each_line f ls) (same l s) ∙ each_line-same f g ls (g l s) same

pub change-none :
    (f : Text → Text → DmiMemoryRecord → DmiMemoryRecord) (o : Option DmiMemoryRecord)
    → change (with_pair none f) o ≡ o
change-none f none = refl
change-none f (some r) = refl

module _ (opens : Text → Bool) (start : Text → DmiMemoryRecord)
    (fill : Text → DmiMemoryRecord → DmiMemoryRecord) where
  -- A block's record: its opening line starts it, and each of its lines fills it.
  abbrev pub block_record : Text × List Text → DmiMemoryRecord
  block_record (l, body) = each_line fill body (start l)

  unfoldable pub block_line : Text → MemoryScan → MemoryScan
  block_line l s =
      if opens l
      then record { records = push_memory_record s.records s.current; current = some (start l) }
      else record s { current = change (fill l) s.current }

  abbrev next : Text → MemoryScan → MemoryScan
  next l s = record { records = push_memory_record s.records s.current; current = some (start l) }

  block_line-opens : (l : Text) (s : MemoryScan) → opens l ≡ true → block_line l s ≡ next l s
  unfolding block_line
  block_line-opens l s e = rw (block_line, e) refl

  block_line-fills :
      (l : Text) (s : MemoryScan)
      → opens l ≡ false
      → block_line l s ≡ record s { current = change (fill l) s.current }
  unfolding block_line
  block_line-fills l s e = rw (block_line, e) refl

  -- The open record with its remaining lines, and the blocks that follow.
  abbrev continued :
      Option DmiMemoryRecord → List Text × List (Text × List Text) → List DmiMemoryRecord
  continued none (body, rest) = map block_record rest
  continued (some r) (body, rest) = each_line fill body r ∷ map block_record rest

  loop_end :
      (records : List DmiMemoryRecord) (current : Option DmiMemoryRecord)
      → push_memory_record records current
        ≡ records ++ retain is_listed (continued current ([], []))
  unfolding push_memory_record
  loop_end records none = sym (append-nil records)
  loop_end records (some r) =
      sym (append-nil (push_memory_record records (some r))) ∙ push-append records r []

  opened :
      (records : List DmiMemoryRecord) (current : Option DmiMemoryRecord) (l : Text)
      (body : List Text) (rest : List (Text × List Text))
      → push_memory_record records current
          ++ retain is_listed (continued (some (start l)) (body, rest))
        ≡ records ++ retain is_listed (continued current ([], (l, body) ∷ rest))
  unfolding push_memory_record
  opened records none l body rest = refl
  opened records (some r) l body rest = push-append records r (map block_record ((l, body) ∷ rest))

  change-continued :
      (current : Option DmiMemoryRecord) (l : Text) (body : List Text)
      (rest : List (Text × List Text))
      → continued (change (fill l) current) (body, rest) ≡ continued current (l ∷ body, rest)
  change-continued none l body rest = refl
  change-continued (some r) l body rest = refl

  abbrev pub listed_at_end : MemoryScan → List DmiMemoryRecord
  listed_at_end s = push_memory_record s.records s.current

  loop :
      (ls : List Text) (s : MemoryScan)
      → listed_at_end (each_line block_line ls s)
        ≡ s.records ++ retain is_listed (continued s.current (blocks opens ls))
  loop [] s = unfold blocks in loop_end s.records s.current
  loop (l ∷ ls) s =
      let (body, rest) = blocks opens ls in
      let after = λ (x : MemoryScan). listed_at_end (each_line block_line ls x) in
      let told = λ (x : List Text × List (Text × List Text)).
        s.records ++ retain is_listed (continued s.current x) in
      elim (Bool-cases (opens l)) [
        | inl e ↦
            ap after (block_line-opens l s e)
            ∙ loop ls (next l s)
            ∙ opened s.records s.current l body rest
            ∙ sym (ap told (blocks-opens opens l ls e))
        | inr e ↦
            ap after (block_line-fills l s e)
            ∙ loop ls (record s { current = change (fill l) s.current })
            ∙ ap (λ x. s.records ++ retain is_listed x) (change-continued s.current l body rest)
            ∙ sym (ap told (blocks-fills opens l ls e))
      ]

  pub loop-blocks :
      (step : Text → MemoryScan → MemoryScan) (ls : List Text)
      → ((l : Text) (s : MemoryScan) → step l s ≡ block_line l s)
      → listed_at_end (each_line step ls no_memory)
        ≡ retain has_module (map block_record (blocks opens ls).1)
  loop-blocks step ls same =
      ap listed_at_end (each_line-same step block_line ls no_memory same)
      ∙ loop ls no_memory
      ∙ retain-has_module (map block_record (blocks opens ls).1)
