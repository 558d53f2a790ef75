-- ===== src/Inventory/Store/Retention/Removed.antt =====
-- How many rows the deletion of old snapshots takes from their table.
use qurbrix_hwinfo.Common.{
  ℕ, suc, ◌+◌, ◌≤◌, ◌≡◌, refl, ap, ◌∙◌, Bool, true, false, not, ◌&&◌, Option, List, [], ◌∷◌, Text,
  text_eq, text_eq_sound, text_eq_refl, if◌then◌else◌, length, any, retain, sort, insert_sorted,
  arith, Bool-cases, inl, inr,
}
use qurbrix_hwinfo.Model.Snapshot.{SnapshotId}
use qurbrix_hwinfo.Inventory.Store.{Time, Db, SnapshotRow}
use qurbrix_hwinfo.Inventory.Store.Retention.{
  RetentionPolicy, RetentionReport, has_id, candidate_leb, bump, verdict, tally, classify,
}
use qurbrix_hwinfo.Inventory.Store.Retention.Apply.{delete_row, delete_rows}

-- The rows of an id.
abbrev count : SnapshotId → List SnapshotRow → ℕ
count id [] = 0
count id (r ∷ rs) = if has_id id r then suc (count id rs) else count id rs

-- No two rows have the same id, which is the primary key.
unfoldable pub has_unique_ids : List SnapshotRow → Bool
unfolding has_id
has_unique_ids [] = true
has_unique_ids (r ∷ rs) = not (any (has_id r.snapshot_id) rs) && has_unique_ids rs

count-any :
    (id : SnapshotId) (rows : List SnapshotRow) → any (has_id id) rows ≡ false → count id rows ≡ 0
count-any id [] h = refl
count-any id (r ∷ rs) h = ground (arith, count-any id rs)

count-has_unique_ids :
    (id : SnapshotId) (rows : List SnapshotRow) → has_unique_ids rows ≡ true → count id rows ≤ 1
unfolding has_unique_ids has_id
count-has_unique_ids id [] h = omega arith
count-has_unique_ids id (r ∷ rs) h = elim (Bool-cases (text_eq r.snapshot_id id)) [
  | inl e ↦
      let same = text_eq_sound r.snapshot_id id e in
      ground (arith, count-any id rs, ap (λ x. any (has_id x) rs) same)
  | inr e ↦ ground (arith, count-has_unique_ids id rs)
]

count-insert_sorted :
    (id : SnapshotId) (r : SnapshotRow) (rows : List SnapshotRow)
    → count id (insert_sorted candidate_leb r rows) ≡ count id (r ∷ rows)
unfolding insert_sorted
count-insert_sorted id r [] = refl
count-insert_sorted id r (x ∷ xs) = ground (arith, count-insert_sorted id r xs)

pub count-sort :
    (id : SnapshotId) (rows : List SnapshotRow) → count id (sort candidate_leb rows) ≡ count id rows
unfolding sort
count-sort id [] = refl
count-sort id (r ∷ rs) =
    ground (arith, count-insert_sorted id r (sort candidate_leb rs), count-sort id rs)

pub count-classify :
    (t : Time) (policy : RetentionPolicy) (now : ℕ) (cur : Option SnapshotId) (id : SnapshotId)
    (ranks : List (Text × ℕ)) (rows : List SnapshotRow) (report : RetentionReport)
    → count id (classify t policy now cur ranks rows report).1 ≤ count id rows
unfolding classify
count-classify t policy now cur id ranks [] report = omega arith
count-classify t policy now cur id ranks (row ∷ rows) report =
    let (rank, ranks') = bump row.machine_bind_id ranks in
    ground (
      arith,
      count-classify t policy now cur id ranks' rows
          (tally (verdict t policy now cur rank row) report),
    )

-- Rows of a table with unique ids, each of them once.
abbrev pub Chosen : List SnapshotRow → List SnapshotRow → Type 0
Chosen rows table = (id : SnapshotId) → (count id rows ≤ count id table) × (count id table ≤ 1)

length-retain-count :
    (id : SnapshotId) (rows : List SnapshotRow)
    → length (retain (λ r. not (has_id id r)) rows) + count id rows ≡ length rows
length-retain-count id [] = omega arith
length-retain-count id (r ∷ rs) = ground (arith, length-retain-count id rs)

count-retain-same :
    (id : SnapshotId) (rows : List SnapshotRow)
    → count id (retain (λ r. not (has_id id r)) rows) ≡ 0
count-retain-same id [] = refl
count-retain-same id (r ∷ rs) = ground (arith, count-retain-same id rs)

count-retain-other :
    (id other : SnapshotId) (rows : List SnapshotRow)
    → text_eq other id ≡ false
    → count id (retain (λ r. not (has_id other r)) rows) ≡ count id rows
unfolding has_id
count-retain-other id other [] h = refl
count-retain-other id other (r ∷ rs) h = ground (
  arith,
  count-retain-other id other rs h,
  text_eq_sound r.snapshot_id id,
  text_eq_sound r.snapshot_id other,
)

delete_row-Chosen :
    (now : Text) (row : SnapshotRow) (rows : List SnapshotRow) (db : Db)
    → Chosen (row ∷ rows) db.snapshots
    → Chosen rows (delete_row now row db).snapshots
unfolding delete_row has_id
delete_row-Chosen now row rows db h id = elim (Bool-cases (text_eq row.snapshot_id id)) [
  | inl e ↦
      let same = text_eq_sound row.snapshot_id id e in
      let gone =
        ap (λ x. count id (retain (λ r. not (has_id x r)) db.snapshots)) same
        ∙ count-retain-same id db.snapshots in
      ground (arith, h id)
  | inr e ↦ ground (arith, h id, count-retain-other id row.snapshot_id db.snapshots e)
]

length-delete_row :
    (now : Text) (row : SnapshotRow) (rows : List SnapshotRow) (db : Db)
    → Chosen (row ∷ rows) db.snapshots
    → suc (length (delete_row now row db).snapshots) ≡ length db.snapshots
unfolding delete_row has_id
length-delete_row now row rows db h = ground (
  arith,
  h row.snapshot_id,
  text_eq_refl row.snapshot_id,
  length-retain-count row.snapshot_id db.snapshots,
)

pub length-delete_rows :
    (now : Text) (rows : List SnapshotRow) (db : Db)
    → Chosen rows db.snapshots
    → length (delete_rows now rows db).snapshots + length rows ≡ length db.snapshots
unfolding delete_rows
length-delete_rows now [] db h = omega arith
length-delete_rows now (row ∷ rows) db h =
    let rest =
      length-delete_rows now rows (delete_row now row db) (delete_row-Chosen now row rows db h) in
    let one = length-delete_row now row rows db h in omega arith

-- The rows that the loop over the sorted candidates chooses.
pub classify-Chosen :
    (t : Time) (policy : RetentionPolicy) (now : ℕ) (cur : Option SnapshotId)
    (rows : List SnapshotRow) (report : RetentionReport)
    → has_unique_ids rows ≡ true
    → Chosen (classify t policy now cur [] (sort candidate_leb rows) report).1 rows
classify-Chosen t policy now cur rows report h id =
    let below = count-classify t policy now cur id [] (sort candidate_leb rows) report in
    let same = count-sort id rows in (omega arith, count-has_unique_ids id rows h)
