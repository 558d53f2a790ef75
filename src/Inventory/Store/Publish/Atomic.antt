-- ===== src/Inventory/Store/Publish/Atomic.antt =====
-- A publication is all or nothing, checks what it is given, and can be read back.
use qurbrix_hwinfo.Common.{ℕ, ◌≡◌, refl, ◌∙◌, Bool, true, false, not, Text, if◌then◌else◌, arith}
use qurbrix_hwinfo.Model.Report.{ScanReport}
use qurbrix_hwinfo.Model.Snapshot.{SnapshotId, ArtifactMetadata, core_complete}
use qurbrix_hwinfo.Inventory.Error.{InventoryError, Result, ok, err}
use qurbrix_hwinfo.Inventory.Store.{Time, Db, M, continue, ◌>>=◌, raise, now_rfc3339}
use qurbrix_hwinfo.Inventory.Store.Artifact.{
  Disk, write_report, remove_report, remove_file, safe_artifact_path, store_file,
}
use qurbrix_hwinfo.Inventory.Store.Publish.{
  Publication, publish_transaction, conclude, publish, is_failed,
}

-- The same tables, whatever the files.
abbrev pub SameTables : Db → Db → Type 0
SameTables a b =
    (a.lease ≡ b.lease)
    × (a.state ≡ b.state)
    × (a.snapshots ≡ b.snapshots)
    × (a.probes ≡ b.probes)
    × (a.delete_queue ≡ b.delete_queue)

SameTables-refl : (a : Db) → SameTables a a
SameTables-refl a = (refl, refl, refl, refl, refl)

SameTables-trans : (a b c : Db) → SameTables a b → SameTables b c → SameTables a c
SameTables-trans a b c (p0, p1, p2, p3, p4) (q0, q1, q2, q3, q4) =
    (p0 ∙ q0, p1 ∙ q1, p2 ∙ q2, p3 ∙ q3, p4 ∙ q4)

pub write_report-SameTables :
    (d : Disk) (id : SnapshotId) (report : ScanReport) (db : Db)
    → SameTables (write_report d id report db).1 db
unfolding write_report store_file safe_artifact_path
write_report-SameTables d id report db = ground arith

remove_report-SameTables :
    (d : Disk) (path : Text) (db : Db) → SameTables (remove_report d path db).1 db
unfolding remove_report remove_file safe_artifact_path
remove_report-SameTables d path db = ground arith

publish_transaction-err :
    (t : Time) (now : ℕ) (created_at : Text) (p : Publication) (artifact : ArtifactMetadata)
    (db : Db) (e : InventoryError)
    → (publish_transaction t now created_at p artifact db).0 ≡ err e
    → (publish_transaction t now created_at p artifact db).1 ≡ db
unfolding publish_transaction
publish_transaction-err t now created_at p artifact db e h = ground arith

module _ (d : Disk) (t : Time) (now : ℕ) (p : Publication) where
  conclude-err :
      (artifact : ArtifactMetadata) (r : Result (Unit {0})) (db db' : Db) (e : InventoryError)
      → ((e' : InventoryError) → r ≡ err e' → db' ≡ db)
      → (conclude d p artifact r db').0 ≡ err e
      → SameTables (conclude d p artifact r db').1 db
  unfolding conclude
  conclude-err artifact (ok _) db db' e same h = cc
  conclude-err artifact (err e') db db' e same h =
      SameTables-trans (remove_report d artifact.relative_path db').1 db' db
        (remove_report-SameTables d artifact.relative_path db')
        (rw (same e' refl) (SameTables-refl db))

  -- The part of a publication that follows the writing of the file.
  abbrev pub recording : Text → ArtifactMetadata → M SnapshotId
  recording created_at artifact db =
      let (r, db') = publish_transaction t now created_at p artifact db in
      conclude d p artifact r db'

  recording-err :
      (created_at : Text) (artifact : ArtifactMetadata) (db : Db) (e : InventoryError)
      → (recording created_at artifact db).0 ≡ err e
      → SameTables (recording created_at artifact db).1 db
  recording-err created_at artifact db e =
      let (r, db') = publish_transaction t now created_at p artifact db in
      conclude-err artifact r db db' e
        (λ e' h. publish_transaction-err t now created_at p artifact db e' h)

  continue-err :
      (r : Result ArtifactMetadata) (created_at : Text) (db db' : Db) (e : InventoryError)
      → SameTables db' db
      → (continue r (recording created_at) db').0 ≡ err e
      → SameTables (continue r (recording created_at) db').1 db
  continue-err (ok artifact) created_at db db' e same h =
      SameTables-trans (recording created_at artifact db').1 db' db
        (recording-err created_at artifact db' e h) same
  continue-err (err e') created_at db db' e same h = same

  attempt-err :
      (created : Result Text) (db : Db) (e : InventoryError)
      → (continue created
          (λ created_at. write_report d p.snapshot_id p.report >>= recording created_at)
          db).0
        ≡ err e
      → SameTables
          (continue created
            (λ created_at. write_report d p.snapshot_id p.report >>= recording created_at)
            db).1
          db
  attempt-err (ok created_at) db e h =
      let (r, db') = write_report d p.snapshot_id p.report db in
      continue-err r created_at db db' e (write_report-SameTables d p.snapshot_id p.report db) h
  attempt-err (err e') db e h = SameTables-refl db

guarded-err :
    (a b : Bool) (x y : InventoryError) (m : M SnapshotId) (db : Db) (e : InventoryError)
    → ((m db).0 ≡ err e → SameTables (m db).1 db)
    → ((if a then raise x else if b then raise y else m) db).0 ≡ err e
    → SameTables ((if a then raise x else if b then raise y else m) db).1 db
guarded-err true b x y m db e k h = SameTables-refl db
guarded-err false true x y m db e k h = SameTables-refl db
guarded-err false false x y m db e k h = k h

-- A publication that fails changes no table: neither the snapshots, nor the current one, nor a probe.
pub publish-err :
    (d : Disk) (t : Time) (now : ℕ) (p : Publication) (db : Db) (e : InventoryError)
    → (publish d t now p db).0 ≡ err e
    → SameTables (publish d t now p db).1 db
unfolding publish
publish-err d t now p db e h =
    guarded-err (is_failed p.report.status) (not (core_complete p.snapshot_probe.coverage)) _ _ _ db
      e (attempt-err d t now p (now_rfc3339 t now) db e) h
