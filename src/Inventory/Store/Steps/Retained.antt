-- ===== src/Inventory/Store/Steps/Retained.antt =====
-- The removal of old snapshots keeps the current one among the stored ones.
use qurbrix_hwinfo.Common.{
  ℕ, ◌≡◌, refl, ap, ◌∙◌, length, true, false, not, ◌&&◌, Option, none, some, List, [], ◌∷◌, Text,
  any, Option-cases, inl, inr, arith,
}
use qurbrix_hwinfo.Model.Snapshot.{SnapshotId}
use qurbrix_hwinfo.Inventory.Error.{Result, ok, err}
use qurbrix_hwinfo.Inventory.Store.{Time, Db, SnapshotRow, M, continue, timestamp}
use qurbrix_hwinfo.Inventory.Store.Artifact.{Disk}
use qurbrix_hwinfo.Inventory.Store.Retention.{RetentionPolicy, RetentionReport, has_id, is_current}
use qurbrix_hwinfo.Inventory.Store.Retention.Apply.{
  apply_retention, retain_snapshots, delete_eligible, delete_rows, delete_row,
}
use qurbrix_hwinfo.Inventory.Store.Retention.Protected.{
  is_protected, apply_retention-protected, first_pass, first_pass-Kept, process_delete_queue-Kept,
  classified,
}
use qurbrix_hwinfo.Inventory.Store.Steps.Current.{is_stored, HasCurrent}

delete_rows-state :
    (now : Text) (rows : List SnapshotRow) (db : Db) → (delete_rows now rows db).state ≡ db.state
unfolding delete_rows delete_row
delete_rows-state now [] db = refl
delete_rows-state now (row ∷ rows) db = delete_rows-state now rows (delete_row now row db)

delete_eligible-state :
    (d : Disk) (t : Time) (now : ℕ) (rows : List SnapshotRow) (report : RetentionReport) (db : Db)
    → (delete_eligible d t now rows report db).1.state ≡ db.state
unfolding delete_eligible timestamp
delete_eligible-state d t now rows report db = elim (Option-cases (t.format now)) [
  | inl e ↦ ground arith
  | inr (text, e) ↦ ground (
    arith,
    delete_rows-state text rows db,
    (process_delete_queue-Kept d t now (record report { database_deleted = length rows })
        (delete_rows text rows db)).1,
  )
]

retain_snapshots-state :
    (d : Disk) (t : Time) (policy : RetentionPolicy) (now : ℕ) (report : RetentionReport) (db : Db)
    → (retain_snapshots d t policy now report db).1.state ≡ db.state
unfolding retain_snapshots
retain_snapshots-state d t policy now report db =
    let (report', rows) = classified t policy now report db in
    ground (arith, delete_eligible-state d t now rows report' db)

continue-state :
    (r : Result RetentionReport) (f : RetentionReport → M RetentionReport) (db : Db)
    → ((a : RetentionReport) → (f a db).1.state ≡ db.state)
    → (continue r f db).1.state ≡ db.state
continue-state (ok a) f db h = h a
continue-state (err e) f db h = refl

apply_retention-state :
    (d : Disk) (t : Time) (policy : RetentionPolicy) (now : ℕ) (db : Db)
    → (apply_retention d t policy now db).1.state ≡ db.state
unfolding apply_retention first_pass
apply_retention-state d t policy now db =
    let (r, db') = first_pass d t policy now db in
    continue-state r (retain_snapshots d t policy now) db'
      (λ a. retain_snapshots-state d t policy now a db')
    ∙ (first_pass-Kept d t policy now db).1

current-is_protected :
    (id : SnapshotId) (rows : List SnapshotRow)
    → any (λ r. has_id id r && not (is_protected (some id) r)) rows ≡ false
unfolding is_current has_id
current-is_protected id [] = refl
current-is_protected id (r ∷ rs) = ground (arith, current-is_protected id rs)

apply_retention-is_stored :
    (d : Disk) (t : Time) (policy : RetentionPolicy) (now : ℕ) (db : Db) (cur : Option SnapshotId)
    → db.state.current_snapshot_id ≡ cur
    → is_stored cur db.snapshots ≡ true
    → is_stored cur (apply_retention d t policy now db).1.snapshots ≡ true
apply_retention-is_stored d t policy now db none e h = refl
apply_retention-is_stored d t policy now db (some id) e h =
    apply_retention-protected d t policy now id db h (rw e (current-is_protected id db.snapshots))

pub apply_retention-HasCurrent :
    (d : Disk) (t : Time) (policy : RetentionPolicy) (now : ℕ) (db : Db)
    → HasCurrent db
    → HasCurrent (apply_retention d t policy now db).1
apply_retention-HasCurrent d t policy now db h =
    let rows = (apply_retention d t policy now db).1.snapshots in
    ap (λ s. is_stored s.current_snapshot_id rows) (apply_retention-state d t policy now db)
    ∙ apply_retention-is_stored d t policy now db db.state.current_snapshot_id refl h
