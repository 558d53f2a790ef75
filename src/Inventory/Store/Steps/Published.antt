-- ===== src/Inventory/Store/Steps/Published.antt =====
-- A publication keeps the current snapshot among the stored ones.
use qurbrix_hwinfo.Common.{ℕ, Bool, true, false, not, Text, text_eq_refl, if◌then◌else◌, arith}
use qurbrix_hwinfo.Model.Snapshot.{SnapshotId, ArtifactMetadata, core_complete}
use qurbrix_hwinfo.Inventory.Error.{InventoryError, Result, ok, err}
use qurbrix_hwinfo.Inventory.Store.{Time, Db, M, raise, ◌>>=◌, now_rfc3339}
use qurbrix_hwinfo.Inventory.Store.Artifact.{Disk, write_report, remove_report}
use qurbrix_hwinfo.Inventory.Store.Publish.{
  Publication, publish, publish_transaction, conclude, is_failed,
}
use qurbrix_hwinfo.Inventory.Store.Publish.Atomic.{write_report-SameTables, recording}
use qurbrix_hwinfo.Inventory.Store.Retention.{has_id}
use qurbrix_hwinfo.Inventory.Store.Retention.Protected.{remove_report-Kept}
use qurbrix_hwinfo.Inventory.Store.Steps.Current.{HasCurrent, Kept-HasCurrent, continue-HasCurrent}

publish_transaction-HasCurrent :
    (t : Time) (now : ℕ) (created_at : Text) (p : Publication) (artifact : ArtifactMetadata)
    (db : Db)
    → HasCurrent db
    → HasCurrent (publish_transaction t now created_at p artifact db).1
unfolding publish_transaction has_id
publish_transaction-HasCurrent t now created_at p artifact db h =
    ground (arith, text_eq_refl p.snapshot_id)

conclude-HasCurrent :
    (d : Disk) (p : Publication) (artifact : ArtifactMetadata) (r : Result (Unit {0})) (db : Db)
    → HasCurrent db
    → HasCurrent (conclude d p artifact r db).1
unfolding conclude
conclude-HasCurrent d p artifact (ok _) db h = h
conclude-HasCurrent d p artifact (err e) db h =
    Kept-HasCurrent (remove_report d artifact.relative_path db).1 db
      (remove_report-Kept d artifact.relative_path db) h

recording-HasCurrent :
    (d : Disk) (t : Time) (now : ℕ) (p : Publication) (created_at : Text)
    (artifact : ArtifactMetadata) (db : Db)
    → HasCurrent db
    → HasCurrent (recording d t now p created_at artifact db).1
recording-HasCurrent d t now p created_at artifact db h =
    let (r, db') = publish_transaction t now created_at p artifact db in
    conclude-HasCurrent d p artifact r db'
      (publish_transaction-HasCurrent t now created_at p artifact db h)

attempt-HasCurrent :
    (d : Disk) (t : Time) (now : ℕ) (p : Publication) (created_at : Text) (db : Db)
    → HasCurrent db
    → HasCurrent ((write_report d p.snapshot_id p.report >>= recording d t now p created_at) db).1
attempt-HasCurrent d t now p created_at db h =
    let (r, db') = write_report d p.snapshot_id p.report db in
    let same = write_report-SameTables d p.snapshot_id p.report db in
    let h' = Kept-HasCurrent db' db (same.2, same.1) h in
    continue-HasCurrent r (recording d t now p created_at) db'
      (λ artifact. recording-HasCurrent d t now p created_at artifact db' h') h'

guarded-HasCurrent :
    (a b : Bool) (x y : InventoryError) (m : M SnapshotId) (db : Db)
    → HasCurrent db
    → HasCurrent (m db).1
    → HasCurrent ((if a then raise x else if b then raise y else m) db).1
guarded-HasCurrent true b x y m db h k = h
guarded-HasCurrent false true x y m db h k = h
guarded-HasCurrent false false x y m db h k = k

pub publish-HasCurrent :
    (d : Disk) (t : Time) (now : ℕ) (p : Publication) (db : Db)
    → HasCurrent db
    → HasCurrent (publish d t now p db).1
unfolding publish
publish-HasCurrent d t now p db h =
    guarded-HasCurrent (is_failed p.report.status) (not (core_complete p.snapshot_probe.coverage)) _
      _ _ db h
      (continue-HasCurrent (now_rfc3339 t now) _ db
        (λ created_at. attempt-HasCurrent d t now p created_at db h) h)
