-- ===== src/Inventory/Store/Retention.antt =====
-- maintenance.rs: pins, uploads, and the removal of old snapshots. Counters and ranks do not wrap
-- here: a database has fewer rows than a counter has values.
pub mod Apply
pub mod Protected
pub mod Removed
pub mod Counters
use qurbrix_hwinfo.Common.{
  ℕ, suc, ◌+◌, ◌-◌, ◌*◌, ◌/◌, ◌^◌, min, Bool, true, false, not, ◌&&◌, ◌||◌, Option, none, some,
  List, [], ◌∷◌, Text, codes, text_eq, text_leb, if◌then◌else◌, leb, length, any, retain, is_none,
  sort,
}
use qurbrix_hwinfo.Model.Snapshot.{SnapshotId}
use qurbrix_hwinfo.Inventory.Error.{
  InventoryError, invalid_report, snapshot_not_found, error_code, Result, ok, err,
}
use qurbrix_hwinfo.Inventory.Store.{
  Time, Db, SnapshotRow, ProbeRow, QueueRow, M, continue, ◌>>=◌, pure, lift, raise, timestamp,
}
use qurbrix_hwinfo.Inventory.Store.Artifact.{Disk, remove_report}

pub record RetentionPolicy : Type 0 where
  pub keep_recent_per_machine : ℕ
  pub uploaded_max_age : ℕ
  pub dry_run : Bool

pub record RetentionReport : Type 0 where
  pub schema_version : Text
  pub examined : ℕ
  pub protected_current : ℕ
  pub protected_pinned : ℕ
  pub protected_unuploaded : ℕ
  pub protected_recent : ℕ
  pub eligible : ℕ
  pub database_deleted : ℕ
  pub artifacts_deleted : ℕ
  pub artifact_delete_failures : ℕ
  pub pending_artifact_deletes : ℕ
  pub dry_run : Bool

unfoldable pub has_id : SnapshotId → SnapshotRow → Bool
has_id id row = text_eq row.snapshot_id id

abbrev pub set_pin : SnapshotId → Bool → List SnapshotRow → List SnapshotRow
set_pin id pinned [] = []
set_pin id pinned (r ∷ rs) =
    let rest = set_pin id pinned rs in
    if has_id id r
    then record r { stored = record (r.stored) { pinned = pinned } } ∷ rest
    else r ∷ rest

-- The time goes into a column that the model leaves out, but it must have a text.
unfoldable pub set_pinned : Time → ℕ → SnapshotId → Bool → M (Unit {0})
unfolding has_id timestamp
set_pinned t now id pinned = do
  _ ← lift (timestamp t now (codes "UTC timestamp formatting failed"))
  λ db.
      if any (has_id id) db.snapshots
      then (ok tt, record db { snapshots = set_pin id pinned db.snapshots })
      else (err (snapshot_not_found id), db)

abbrev pub set_upload : SnapshotId → Text → List SnapshotRow → List SnapshotRow
set_upload id at [] = []
set_upload id at (r ∷ rs) =
    let rest = set_upload id at rs in
    if has_id id r
    then record r { stored = record (r.stored) { uploaded_at = some at } } ∷ rest
    else r ∷ rest

-- The given text if it is a time, or the present.
unfoldable pub upload_time : Time → ℕ → Option Text → Result Text
unfolding timestamp
upload_time t now none = timestamp t now (codes "UTC timestamp formatting failed")
upload_time t now (some text) = elim (t.parse text) [
  | none ↦ err (invalid_report (codes "uploaded_at must be RFC 3339"))
  | some _ ↦ ok text
]

unfoldable pub mark_uploaded : Time → ℕ → SnapshotId → Option Text → M (Unit {0})
unfolding upload_time has_id
mark_uploaded t now id uploaded_at = do
  at ← lift (upload_time t now uploaded_at)
  λ db.
      if any (has_id id) db.snapshots
      then (ok tt, record db { snapshots = set_upload id at db.snapshots })
      else (err (snapshot_not_found id), db)

-- `ORDER BY h.machine_bind_id, h.created_at DESC, h.snapshot_id DESC`.
unfoldable pub candidate_leb : SnapshotRow → SnapshotRow → Bool
candidate_leb a b =
    if text_eq a.machine_bind_id b.machine_bind_id
    then if text_eq a.created_at b.created_at
      then text_leb b.snapshot_id a.snapshot_id
      else text_leb b.created_at a.created_at
    else text_leb a.machine_bind_id b.machine_bind_id

-- The rank of the next candidate of a machine, and the ranks with it.
unfoldable pub bump : Text → List (Text × ℕ) → ℕ × List (Text × ℕ)
bump machine [] = (1, (machine, 1) ∷ [])
bump machine ((m, n) ∷ ranks) =
    let (rank, rest) = bump machine ranks in
    if text_eq m machine then (suc n, (m, suc n) ∷ ranks) else (rank, (m, n) ∷ rest)

pub data Verdict : Type 0 where
  current pinned unuploaded recent eligible : Verdict

unfoldable pub is_current : Option SnapshotId → SnapshotRow → Bool
is_current none row = false
is_current (some id) row = text_eq row.snapshot_id id

-- `i64::try_from(…).unwrap_or(i64::MAX)`, in nanoseconds.
abbrev pub age_limit : RetentionPolicy → ℕ
age_limit policy = min (policy.uploaded_max_age / 1000000000) (2 ^ 63 - 1) * 1000000000

-- `created_at <= now - age`, where the creation is a time.
unfoldable pub is_old : Time → RetentionPolicy → ℕ → SnapshotRow → Bool
is_old t policy now row = elim (t.parse row.created_at) [
  | none ↦ false
  | some created_at ↦ leb (created_at + age_limit policy) now
]

unfoldable pub verdict : Time → RetentionPolicy → ℕ → Option SnapshotId → ℕ → SnapshotRow → Verdict
unfolding is_current is_old
verdict t policy now cur rank row =
    if is_current cur row
    then current
    else if row.pinned
    then pinned
    else if is_none row.uploaded_at
    then unuploaded
    else if leb rank policy.keep_recent_per_machine
    then recent
    else if is_old t policy now row
    then eligible
    else recent

unfoldable pub tally : Verdict → RetentionReport → RetentionReport
tally current r = record r { protected_current = suc r.protected_current }
tally pinned r = record r { protected_pinned = suc r.protected_pinned }
tally unuploaded r = record r { protected_unuploaded = suc r.protected_unuploaded }
tally recent r = record r { protected_recent = suc r.protected_recent }
tally eligible r = record r { eligible = suc r.eligible }

abbrev pub is_eligible : Verdict → Bool
is_eligible eligible = true
is_eligible _ = false

-- The loop over the candidates: the counters and the rows to delete.
unfoldable pub classify :
    Time
    → RetentionPolicy
    → ℕ
    → Option SnapshotId
    → List (Text × ℕ)
    → List SnapshotRow
    → RetentionReport
    → RetentionReport × List SnapshotRow
unfolding bump verdict tally
classify t policy now cur ranks [] report = (report, [])
classify t policy now cur ranks (row ∷ rows) report =
    let (rank, ranks') = bump row.machine_bind_id ranks in
    let v = verdict t policy now cur rank row in
    let (report', rest) = classify t policy now cur ranks' rows (tally v report) in
    (report', if is_eligible v then row ∷ rest else rest)
