-- ===== src/Inventory/Store/Probes.antt =====
-- store.rs: the history of the probes.
pub mod Recovery
use qurbrix_hwinfo.Common.{
  ℕ, suc, ◌-◌, ◌*◌, ◌/◌, ◌^◌, min, Bool, true, false, not, ◌&&◌, ◌||◌, Option, none, some, List, [],
  ◌∷◌, Text, codes, text_eq, text_leb, if◌then◌else◌, leb, ◌==◌, any, take, split_whitespace, join,
}
use qurbrix_hwinfo.Model.Snapshot.{SnapshotId}
use qurbrix_hwinfo.Inventory.Error.{InventoryError, Result, ok, err}
use qurbrix_hwinfo.Inventory.Store.{
  is_storable, check_failed, Time, Db, LeaseRow, SnapshotRow, ProbeKind, ProbeCompletion, failed,
  ProbeStatus, running, finished, ProbeRow, M, ◌>>=◌, lift, timestamp, now_rfc3339,
}
use qurbrix_hwinfo.Inventory.Store.Lease.{sweep}

-- White space collapsed, and at most 256 characters of it.
unfoldable pub redact_error : Text → Text
redact_error message = take 256 (join (codes " ") (split_whitespace message))

-- A reference to a snapshot holds if it is NULL or names a row.
unfoldable pub refers : List SnapshotRow → Option SnapshotId → Bool
refers rows none = true
refers rows (some id) = any (λ r. text_eq r.snapshot_id id) rows

-- The row id that SQLite gives to a new row: one more than the largest.
unfoldable pub next_rowid : List ProbeRow → ℕ
next_rowid [] = 1
next_rowid (p ∷ ps) = let n = next_rowid ps in if leb n p.probe_id then suc p.probe_id else n

abbrev pub foreign_key : InventoryError
foreign_key = InventoryError.database (codes "FOREIGN KEY constraint failed")

unfoldable pub insert_probe : ProbeKind → Option SnapshotId → Text → M ℕ
unfolding refers next_rowid
insert_probe kind previous now db =
    let id = next_rowid db.probes in
    let row : ProbeRow = record {
      probe_id = id;
      probe_type = kind;
      started_at = now;
      finished_at = none;
      status = running;
      snapshot_id = none;
      previous_snapshot_id = previous;
      machine_bind_id = none;
      configuration_fingerprint = none;
      duration_ms = none;
      warning_count = none;
      error_code = none;
      error_message = none;
    } in
    if refers db.snapshots previous
    then (ok id, record db { probes = row ∷ db.probes })
    else (err foreign_key, db)

unfoldable pub start_probe : Time → ℕ → ProbeKind → Option SnapshotId → M ℕ
unfolding insert_probe now_rfc3339
start_probe t now kind previous = do
  text ← lift (now_rfc3339 t now)
  insert_probe kind previous text

-- The values that end a probe.
pub record ProbeEnd : Type 0 where
  pub completion : ProbeCompletion
  pub snapshot_id : Option SnapshotId
  pub machine_bind_id : Option Text
  pub configuration_fingerprint : Option Text
  pub duration_ms : Option ℕ
  pub warning_count : Option ℕ
  pub error_code : Option Text
  pub error_message : Option Text

abbrev pub end_row : Text → ProbeEnd → ProbeRow → ProbeRow
end_row now e row = record row {
  finished_at = some now;
  status = finished e.completion;
  snapshot_id = e.snapshot_id;
  machine_bind_id = e.machine_bind_id;
  configuration_fingerprint = e.configuration_fingerprint;
  duration_ms = e.duration_ms;
  warning_count = e.warning_count;
  error_code = e.error_code;
  error_message = e.error_message;
}

-- `UPDATE probe_history SET … WHERE …`.
unfoldable pub update_probes :
    (ProbeRow → Bool) → (ProbeRow → ProbeRow) → List ProbeRow → List ProbeRow
update_probes p f [] = []
update_probes p f (row ∷ rows) =
    let rest = update_probes p f rows in if p row then f row ∷ rest else row ∷ rest

abbrev pub redacted : Option Text → Option Text
redacted none = none
redacted (some message) = some (redact_error message)

abbrev pub is_probe : ℕ → ProbeRow → Bool
is_probe id row = row.probe_id == id

unfoldable pub finish_row : ℕ → ProbeEnd → Text → M (Unit {0})
unfolding update_probes refers
finish_row id e now db =
    if any (is_probe id) db.probes && not (is_storable e.duration_ms && is_storable e.warning_count)
    then (err check_failed, db)
    else if not (any (is_probe id) db.probes) || refers db.snapshots e.snapshot_id
    then (
      ok tt,
      record db {
        probes =
            update_probes (is_probe id)
              (end_row now (record e { error_message = redacted e.error_message })) db.probes;
      },
    )
    else (err foreign_key, db)

unfoldable pub finish_probe : Time → ℕ → ℕ → ProbeEnd → M (Unit {0})
unfolding finish_row now_rfc3339
finish_probe t now id e = do text ← lift (now_rfc3339 t now); finish_row id e text

abbrev pub is_running : ProbeStatus → Bool
is_running running = true
is_running (finished _) = false

-- `status = 'running' AND started_at < ?2`.
abbrev pub is_stale : Text → ProbeRow → Bool
is_stale cutoff row = is_running row.status && not (text_leb cutoff row.started_at)

abbrev pub recovered : Text → ProbeRow → ProbeRow
recovered now row = record row {
  finished_at = some now;
  status = finished failed;
  error_code = some (codes "inventory.process_interrupted");
  error_message = some (codes "stale running probe recovered");
}

-- The transaction of `recover_stale_sync`, after the texts are formatted.
unfoldable pub recover : Text → Text → Option LeaseRow → Db → Db
unfolding update_probes
recover now cutoff none db = record db {
  lease = none;
  probes = update_probes (is_stale cutoff) (recovered now) db.probes;
}
recover now cutoff (some l) db = record db { lease = some l }

-- The text of the instant a span before now. An instant counts from the year 0, and an earlier one
-- has no RFC 3339 text.
unfoldable pub earlier : Time → ℕ → ℕ → Result Text
unfolding timestamp
earlier t now span =
    if leb span now
    then timestamp t (now - span) (codes "recovery timestamp formatting failed")
    else err (InventoryError.invalid_report (codes "recovery timestamp formatting failed"))

-- The age is in nanoseconds, of which whole seconds count.
unfoldable pub recover_stale : Time → ℕ → ℕ → M (Unit {0})
unfolding recover sweep timestamp earlier
recover_stale t now age = do
  text ← lift (timestamp t now (codes "recovery timestamp formatting failed"))
  cutoff ← lift (earlier t now (min (age / 1000000000) (2 ^ 63 - 1) * 1000000000))
  λ db. (ok tt, recover text cutoff (sweep text db.lease) db)
