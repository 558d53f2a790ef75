-- ===== src/Inventory/Store/Retention/Apply.antt =====
-- maintenance.rs: the queue of deletions, and retention as a whole. It runs alone here, although the
-- source reads its candidates before its transaction opens.
use qurbrix_hwinfo.Common.{
  ℕ, suc, Bool, true, false, not, ◌||◌, Option, none, some, List, [], ◌∷◌, Text, codes, text_eq,
  text_leb, if◌then◌else◌, length, retain, sort,
}
use qurbrix_hwinfo.Model.Snapshot.{SnapshotId}
use qurbrix_hwinfo.Inventory.Error.{error_code, Result, ok, err}
use qurbrix_hwinfo.Inventory.Store.{
  snapshot_cli_schema_version, Time, Db, SnapshotRow, ProbeRow, QueueRow, M, continue, ◌>>=◌, lift,
  timestamp,
}
use qurbrix_hwinfo.Inventory.Store.Artifact.{Disk, remove_report}
use qurbrix_hwinfo.Inventory.Store.Retention.{
  RetentionPolicy, RetentionReport, has_id, candidate_leb, classify,
}

abbrev pub queue_leb : QueueRow → QueueRow → Bool
queue_leb a b =
    if text_eq a.updated_at b.updated_at
    then text_leb a.relative_path b.relative_path
    else text_leb a.updated_at b.updated_at

abbrev pub dequeue : Text → List QueueRow → List QueueRow
dequeue path rows = retain (λ q. not (text_eq q.relative_path path)) rows

-- `UPDATE artifact_delete_queue SET attempts = attempts + 1, …`.
abbrev pub record_failure : Text → Text → Text → List QueueRow → List QueueRow
record_failure path code now [] = []
record_failure path code now (q ∷ qs) =
    let rest = record_failure path code now qs in
    if text_eq q.relative_path path
    then record q { attempts = suc q.attempts; last_error = some code; updated_at = now } ∷ rest
    else q ∷ rest

-- What `process_delete_queue` does with the outcome of a removal.
unfoldable pub settle : Time → ℕ → Text → RetentionReport → Result (Unit {0}) → M RetentionReport
unfolding timestamp error_code
settle t now path report (ok _) db = (
  ok (record report { artifacts_deleted = suc report.artifacts_deleted }),
  record db { delete_queue = dequeue path db.delete_queue },
)
settle t now path report (err e) db =
    continue (timestamp t now (codes "UTC timestamp formatting failed"))
      (λ text db'. (
        ok (record report { artifact_delete_failures = suc report.artifact_delete_failures }),
        record db' { delete_queue = record_failure path (error_code e) text db'.delete_queue },
      ))
      db

unfoldable pub remove_all : Disk → Time → ℕ → List QueueRow → RetentionReport → M RetentionReport
unfolding settle
remove_all d t now [] report db = (ok report, db)
remove_all d t now (q ∷ qs) report db =
    let (removed, db') = remove_report d q.relative_path db in
    let (settled, db'') = settle t now q.relative_path report removed db' in
    continue settled (λ r. remove_all d t now qs r) db''

unfoldable pub process_delete_queue : Disk → Time → ℕ → RetentionReport → M RetentionReport
unfolding remove_all
process_delete_queue d t now report db =
    remove_all d t now (sort queue_leb db.delete_queue) report db

-- A reference to a deleted snapshot becomes NULL.
abbrev pub forget : SnapshotId → Option SnapshotId → Option SnapshotId
forget id none = none
forget id (some i) = if text_eq i id then none else some i

abbrev pub forget_all : SnapshotId → List ProbeRow → List ProbeRow
forget_all id [] = []
forget_all id (p ∷ ps) =
    record p {
      snapshot_id = forget id p.snapshot_id;
      previous_snapshot_id = forget id p.previous_snapshot_id;
    }
    ∷ forget_all id ps

-- The statements for one row, the deletion with its cascade last.
unfoldable pub delete_row : Text → SnapshotRow → Db → Db
unfolding has_id
delete_row now row db = record db {
  delete_queue =
      record {
        relative_path = row.artifact.relative_path;
        sha256 = row.artifact.sha256;
        attempts = 0;
        last_error = none;
        updated_at = now;
      }
      ∷ dequeue row.artifact.relative_path db.delete_queue;
  probes = forget_all row.snapshot_id db.probes;
  snapshots = retain (λ r. not (has_id row.snapshot_id r)) db.snapshots;
}

unfoldable pub delete_rows : Text → List SnapshotRow → Db → Db
unfolding delete_row
delete_rows now [] db = db
delete_rows now (row ∷ rows) db = delete_rows now rows (delete_row now row db)

abbrev pub is_empty : List SnapshotRow → Bool
is_empty [] = true
is_empty (_ ∷ _) = false

abbrev pub pending : RetentionReport → M RetentionReport
pending report db = (ok (record report { pending_artifact_deletes = length db.delete_queue }), db)

abbrev pub new_report : RetentionPolicy → RetentionReport
new_report policy = record {
  schema_version = snapshot_cli_schema_version;
  examined = 0;
  protected_current = 0;
  protected_pinned = 0;
  protected_unuploaded = 0;
  protected_recent = 0;
  eligible = 0;
  database_deleted = 0;
  artifacts_deleted = 0;
  artifact_delete_failures = 0;
  pending_artifact_deletes = 0;
  dry_run = policy.dry_run;
}

-- The transaction that deletes, and what follows it.
unfoldable pub delete_eligible :
    Disk → Time → ℕ → List SnapshotRow → RetentionReport → M RetentionReport
unfolding delete_rows process_delete_queue timestamp
delete_eligible d t now rows report = do
  text ← lift (timestamp t now (codes "UTC timestamp formatting failed"))
  _ ← λ db. (ok (tt {0}), delete_rows text rows db)
  report' ← process_delete_queue d t now (record report { database_deleted = length rows })
  pending report'

-- The part behind the first pass over the queue.
unfoldable pub retain_snapshots :
    Disk → Time → RetentionPolicy → ℕ → RetentionReport → M RetentionReport
unfolding classify delete_eligible candidate_leb
retain_snapshots d t policy now report db =
    let candidates = sort candidate_leb db.snapshots in
    let (counted, rows) =
      classify t policy now db.state.current_snapshot_id [] candidates
        (record report { examined = length candidates }) in
    if policy.dry_run || is_empty rows
    then pending counted db
    else delete_eligible d t now rows counted db

unfoldable pub apply_retention : Disk → Time → RetentionPolicy → ℕ → M RetentionReport
unfolding retain_snapshots process_delete_queue
apply_retention d t policy now db =
    let (cleaned, db') =
      if policy.dry_run
      then (ok (new_report policy), db)
      else process_delete_queue d t now (new_report policy) db in
    continue cleaned (retain_snapshots d t policy now) db'
