-- ===== src/Inventory/Store/Publish/Readback.antt =====
-- What a publication that succeeds has checked, and that its report can be read back.
use qurbrix_hwinfo.Common.{
  ℕ, ◌≡◌, refl, sym, ap, ◌∙◌, Bool, true, false, not, Option, none, some, List, Text, text_eq_refl,
  Option-cases, ◌⊎◌, if◌then◌else◌, arith, inl, inr,
}
use qurbrix_hwinfo.Model.Report.{ScanReport}
use qurbrix_hwinfo.Model.Snapshot.{StoredSnapshot, SnapshotId, ArtifactMetadata, core_complete}
use qurbrix_hwinfo.Inventory.Error.{InventoryError, Result, ok, err, ok_injective}
use qurbrix_hwinfo.Inventory.Store.{Time, Db, M, continue, ◌>>=◌, raise, now_rfc3339}
use qurbrix_hwinfo.Inventory.Store.Artifact.{
  Disk, write_report, read_report, safe_artifact_path, store_file, file_at, decode, put_file,
  report_path, metadata_of,
}
use qurbrix_hwinfo.Inventory.Store.Publish.Atomic.{SameTables, write_report-SameTables, recording}
use qurbrix_hwinfo.Inventory.Store.Publish.{
  Publication, check_lease, publish_transaction, conclude, publish, is_failed, load_scan_report,
  load_found, load_snapshot, find_snapshot,
}

-- What a written report leaves.
abbrev Written : Disk → SnapshotId → ScanReport → ArtifactMetadata → Db → Db → Type 0
Written d id report artifact db db' =
    (bytes : List ℕ) × (path : Text) × (d.to_vec report ≡ some bytes)
    × (safe_artifact_path (report_path id) ≡ ok path)
    × (db' ≡ put_file path bytes db)
    × (artifact ≡ metadata_of d id report bytes)

Result-cases :
    {A : Type 0} (r : Result A) → ((a : A) × (r ≡ ok a)) ⊎ ((e : InventoryError) × (r ≡ err e))
Result-cases (ok a) = inl (a, refl)
Result-cases (err e) = inr (e, refl)

write_report-Written :
    (d : Disk) (id : SnapshotId) (report : ScanReport) (artifact : ArtifactMetadata) (db : Db)
    → (write_report d id report db).0 ≡ ok artifact
    → Written d id report artifact db (write_report d id report db).1
unfolding write_report store_file
write_report-Written d id report artifact db h =
    elim (Result-cases (safe_artifact_path (report_path id))) [
      | inr (x, e) ↦ ground arith
      | inl (path, e) ↦ elim (Option-cases (d.to_vec report)) [
        | inl none_e ↦ ground arith
        | inr (bytes, some_e) ↦ (
          bytes,
          path,
          some_e,
          e,
          ground arith,
          ground (arith, ok_injective artifact (metadata_of d id report bytes)),
        )
      ]
    ]

abbrev artifact_of : Option StoredSnapshot → Option ArtifactMetadata
artifact_of none = none
artifact_of (some s) = some s.artifact

publish_transaction-ok :
    (t : Time) (now : ℕ) (created_at : Text) (p : Publication) (artifact : ArtifactMetadata)
    (db : Db)
    → (publish_transaction t now created_at p artifact db).0 ≡ ok tt
    → (check_lease t now p.lease_owner_id db ≡ ok tt)
      × ((publish_transaction t now created_at p artifact db).1.state.current_snapshot_id
          ≡ some p.snapshot_id)
      × ((publish_transaction t now created_at p artifact db).1.files ≡ db.files)
      × (artifact_of (
            find_snapshot p.snapshot_id
              (publish_transaction t now created_at p artifact db).1.snapshots)
          ≡ some artifact)
unfolding publish_transaction find_snapshot
publish_transaction-ok t now created_at p artifact db h = ground (arith, text_eq_refl p.snapshot_id)

-- The bytes that a report is written as are read as it.
abbrev pub RoundTrips : Disk → ScanReport → Type 0
RoundTrips d report =
    (bytes : List ℕ) → d.to_vec report ≡ some bytes → d.from_slice bytes ≡ some report

decode-metadata_of :
    (d : Disk) (id : SnapshotId) (report : ScanReport) (bytes : List ℕ)
    → d.from_slice bytes ≡ some report
    → decode d (metadata_of d id report bytes) bytes ≡ ok report
unfolding decode
decode-metadata_of d id report bytes h =
    ground (arith, text_eq_refl (d.sha256_hex bytes), text_eq_refl report.schema_version)

file_at-put_file :
    (path : Text) (bytes : List ℕ) (db : Db)
    → file_at path (put_file path bytes db).files ≡ some bytes
unfolding file_at
file_at-put_file path bytes db = ground (arith, text_eq_refl path)

read_report-metadata_of :
    (d : Disk) (id : SnapshotId) (report : ScanReport) (bytes : List ℕ) (path : Text) (db : Db)
    → d.from_slice bytes ≡ some report
    → safe_artifact_path (report_path id) ≡ ok path
    → file_at path db.files ≡ some bytes
    → d.refuses_read path ≡ none
    → (read_report d (metadata_of d id report bytes) db).0 ≡ ok report
unfolding read_report
read_report-metadata_of d id report bytes path db h safe at free =
    ground (arith, decode-metadata_of d id report bytes h)

load_found-artifact :
    (d : Disk) (o : Option StoredSnapshot) (artifact : ArtifactMetadata) (report : ScanReport)
    (db : Db)
    → artifact_of o ≡ some artifact
    → (read_report d artifact db).0 ≡ ok report
    → (load_found d o db).0 ≡ ok (some report)
unfolding load_found
load_found-artifact d none artifact report db h k = cc
load_found-artifact d (some s) artifact report db h k =
    let same : s.artifact ≡ artifact = cc h in
    let read : (read_report d s.artifact db).0 ≡ ok report =
      ap (λ a. (read_report d a db).0) same ∙ k in
    ground (arith, read)

load-Written :
    (d : Disk) (id : SnapshotId) (report : ScanReport) (artifact : ArtifactMetadata)
    (db db' db'' : Db)
    → Written d id report artifact db db'
    → db''.files ≡ db'.files
    → artifact_of (find_snapshot id db''.snapshots) ≡ some artifact
    → RoundTrips d report
    → ((path : Text) → d.refuses_read path ≡ none)
    → (load_scan_report d id db'').0 ≡ ok (some report)
unfolding load_scan_report load_snapshot
load-Written d id report artifact db db' db'' (bytes, path, e, safe, at, meta) files found trip
      free =
    let stored =
      ap (file_at path) (files ∙ ap (λ x. x.files) at) ∙ file_at-put_file path bytes db in
    let read =
      read_report-metadata_of d id report bytes path db'' (trip bytes e) safe stored (free path) in
    load_found-artifact d (find_snapshot id db''.snapshots) artifact report db'' found
      (ap (λ m. (read_report d m db'').0) meta ∙ read)

module _ (d : Disk) (t : Time) (now : ℕ) (p : Publication) (trip : RoundTrips d p.report)
    (free : (path : Text) → d.refuses_read path ≡ none) where
  -- What follows from a publication that succeeded.
  abbrev Succeeds : Db → SnapshotId → Db → Type 0
  Succeeds before id db =
      (check_lease t now p.lease_owner_id before ≡ ok tt)
      × (id ≡ p.snapshot_id)
      × (db.state.current_snapshot_id ≡ some p.snapshot_id)
      × ((load_scan_report d p.snapshot_id db).0 ≡ ok (some p.report))

  check_lease-lease :
      (owner : Option Text) (db db' : Db)
      → db'.lease ≡ db.lease
      → check_lease t now owner db' ≡ check_lease t now owner db
  unfolding check_lease
  check_lease-lease none db db' h = refl
  check_lease-lease (some owner) db db' h = rw h refl

  recording-ok :
      (created_at : Text) (artifact : ArtifactMetadata) (id : SnapshotId) (db db' : Db)
      → SameTables db' db
      → Written d p.snapshot_id p.report artifact db db'
      → (recording d t now p created_at artifact db').0 ≡ ok id
      → Succeeds db id (recording d t now p created_at artifact db').1
  unfolding conclude
  recording-ok created_at artifact id db db' same w h =
      let (r, db'') = publish_transaction t now created_at p artifact db' in
      elim (Result-cases r) [
        | inr (e, q) ↦ ground arith
        | inl (u, q) ↦
            let (lease, current, files, found) =
              publish_transaction-ok t now created_at p artifact db' q in
            let done = ap (λ x. conclude d p artifact x db'') q in
            (
              sym (check_lease-lease p.lease_owner_id db db' same.0) ∙ lease,
              ok_injective id p.snapshot_id (sym h ∙ ap (λ x. x.0) done),
              ap (λ x. x.1.state.current_snapshot_id) done ∙ current,
              ap (λ x. (load_scan_report d p.snapshot_id x.1).0) done
                  ∙ load-Written d p.snapshot_id p.report artifact db db' db'' w files found trip
                      free,
            )
      ]

  continue-ok :
      (r : Result ArtifactMetadata) (created_at : Text) (id : SnapshotId) (db db' : Db)
      → SameTables db' db
      → ((artifact : ArtifactMetadata)
          → r ≡ ok artifact
          → Written d p.snapshot_id p.report artifact db db')
      → (continue r (recording d t now p created_at) db').0 ≡ ok id
      → Succeeds db id (continue r (recording d t now p created_at) db').1
  continue-ok (ok artifact) created_at id db db' same w h =
      recording-ok created_at artifact id db db' same (w artifact refl) h
  continue-ok (err e) created_at id db db' same w h = cc

  attempt : Result Text → M SnapshotId
  attempt created =
      continue created
        (λ created_at. write_report d p.snapshot_id p.report >>= recording d t now p created_at)

  attempt-ok :
      (created : Result Text) (id : SnapshotId) (db : Db)
      → (attempt created db).0 ≡ ok id
      → Succeeds db id (attempt created db).1
  unfolding attempt
  attempt-ok (ok created_at) id db h =
      let (r, db') = write_report d p.snapshot_id p.report db in
      continue-ok r created_at id db db' (write_report-SameTables d p.snapshot_id p.report db)
        (λ artifact q. write_report-Written d p.snapshot_id p.report artifact db q) h
  attempt-ok (err e) id db h = cc

  guarded-ok :
      (a b : Bool) (x y : InventoryError) (m : M SnapshotId) (id : SnapshotId) (db : Db)
      → ((m db).0 ≡ ok id → Succeeds db id (m db).1)
      → ((if a then raise x else if b then raise y else m) db).0 ≡ ok id
      → (a ≡ false)
        × (b ≡ false)
        × Succeeds db id ((if a then raise x else if b then raise y else m) db).1
  guarded-ok true b x y m id db k h = cc
  guarded-ok false true x y m id db k h = cc
  guarded-ok false false x y m id db k h = (refl, refl, k h)

-- A publication that succeeds was of a scan that did not fail, with all groups of the core identity,
-- by the owner of a living lease if it names an owner. It makes the snapshot the current one, and the
-- report can be loaded again as it was, if the bytes of a report are read as that report and reading
-- is not refused.
pub publish-ok :
    (d : Disk) (t : Time) (now : ℕ) (p : Publication) (id : SnapshotId) (db : Db)
    → RoundTrips d p.report
    → ((path : Text) → d.refuses_read path ≡ none)
    → (publish d t now p db).0 ≡ ok id
    → (is_failed p.report.status ≡ false)
      × (not (core_complete p.snapshot_probe.coverage) ≡ false)
      × ((check_lease t now p.lease_owner_id db ≡ ok tt)
          × (id ≡ p.snapshot_id)
          × ((publish d t now p db).1.state.current_snapshot_id ≡ some p.snapshot_id)
          × ((load_scan_report d p.snapshot_id (publish d t now p db).1).0 ≡ ok (some p.report)))
unfolding publish attempt
publish-ok d t now p id db trip free h =
    guarded-ok d t now p trip free (is_failed p.report.status)
      (not (core_complete p.snapshot_probe.coverage)) _ _ _ id db
      (attempt-ok d t now p trip free (now_rfc3339 t now) id db) h
