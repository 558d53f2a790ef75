-- ===== src/Inventory/Store/Retention/Protected.antt =====
-- What the removal of old snapshots keeps, and its counters.
use qurbrix_hwinfo.Common.{
  ℕ, ◌+◌, ◌≡◌, refl, ap, ap₂, ◌∙◌, Bool, true, false, not, ◌&&◌, ◌||◌, Option, Option-cases, List,
  [], ◌∷◌, Text, text_eq, text_eq_sound, if◌then◌else◌, length, any, retain, is_none, sort,
  any-sort, arith, inl, inr,
}
use qurbrix_hwinfo.Model.Snapshot.{SnapshotId}
use qurbrix_hwinfo.Inventory.Error.{Result, ok, err}
use qurbrix_hwinfo.Inventory.Store.{Time, Db, SnapshotRow, QueueRow, timestamp, M, continue}
use qurbrix_hwinfo.Inventory.Store.Artifact.{Disk, remove_report, remove_file, safe_artifact_path}
use qurbrix_hwinfo.Inventory.Store.Retention.{
  RetentionPolicy, RetentionReport, has_id, candidate_leb, bump, is_current, verdict, tally,
  classify,
}
use qurbrix_hwinfo.Inventory.Store.Retention.Apply.{
  remove_all, settle, queue_leb, process_delete_queue, delete_row, delete_rows, delete_eligible,
  retain_snapshots, apply_retention, new_report,
}

-- The current snapshot, a pinned one, or one that was not uploaded.
abbrev pub is_protected : Option SnapshotId → SnapshotRow → Bool
is_protected cur row = is_current cur row || row.pinned || is_none row.uploaded_at

-- The counters of the verdicts.
abbrev pub counted : RetentionReport → ℕ
counted r =
    r.protected_current + r.protected_pinned + r.protected_unuploaded + r.protected_recent
    + r.eligible

-- Some row of an id is protected by none of the rules.
abbrev exposed : Option SnapshotId → SnapshotId → List SnapshotRow → Bool
exposed cur id rows = any (λ r. has_id id r && not (is_protected cur r)) rows

module _ (t : Time) (policy : RetentionPolicy) (now : ℕ) (cur : Option SnapshotId) where
  classify-protected :
      (id : SnapshotId) (ranks : List (Text × ℕ)) (rows : List SnapshotRow)
      (report : RetentionReport)
      → exposed cur id rows ≡ false
      → any (has_id id) (classify t policy now cur ranks rows report).1 ≡ false
  unfolding classify
  classify-protected id ranks [] report h = refl
  classify-protected id ranks (row ∷ rows) report h =
      let (rank, ranks') = bump row.machine_bind_id ranks in
      ground (
        arith,
        classify-protected id ranks' rows (tally (verdict t policy now cur rank row) report),
      )

  pub classify-counted :
      (ranks : List (Text × ℕ)) (rows : List SnapshotRow) (report : RetentionReport)
      → counted (classify t policy now cur ranks rows report).0 ≡ counted report + length rows
  unfolding classify
  classify-counted ranks [] report = omega arith
  classify-counted ranks (row ∷ rows) report =
      let (rank, ranks') = bump row.machine_bind_id ranks in
      ground
        (arith, classify-counted ranks' rows (tally (verdict t policy now cur rank row) report))

retain-has_id :
    (id other : SnapshotId) (rows : List SnapshotRow)
    → text_eq other id ≡ false
    → any (has_id id) (retain (λ r. not (has_id other r)) rows) ≡ any (has_id id) rows
unfolding has_id
retain-has_id id other [] h = refl
retain-has_id id other (r ∷ rs) h = ground (
  arith,
  retain-has_id id other rs h,
  text_eq_sound r.snapshot_id id,
  text_eq_sound r.snapshot_id other,
)

delete_rows-has_id :
    (now : Text) (id : SnapshotId) (rows : List SnapshotRow) (db : Db)
    → any (has_id id) rows ≡ false
    → any (has_id id) (delete_rows now rows db).snapshots ≡ any (has_id id) db.snapshots
unfolding delete_rows has_id
delete_rows-has_id now id [] db h = refl
delete_rows-has_id now id (row ∷ rows) db h = ground (
  arith,
  delete_rows-has_id now id rows (delete_row now row db),
  retain-has_id id row.snapshot_id db.snapshots,
)

-- The tables that the queue's work leaves alone.
abbrev pub Kept : Db → Db → Type 0
Kept a b = (a.snapshots ≡ b.snapshots) × (a.state ≡ b.state)

pub remove_report-Kept : (d : Disk) (path : Text) (db : Db) → Kept (remove_report d path db).1 db
unfolding remove_report remove_file safe_artifact_path
remove_report-Kept d path db = ground arith

Kept-trans : (a b c : Db) → Kept a b → Kept b c → Kept a c
Kept-trans a b c h k = (h.0 ∙ k.0, h.1 ∙ k.1)

continue-Kept :
    (r : Result RetentionReport) (f : RetentionReport → M RetentionReport) (db : Db)
    → ((a : RetentionReport) (db' : Db) → Kept (f a db').1 db')
    → Kept (continue r f db).1 db
continue-Kept (ok a) f db h = h a db
continue-Kept (err e) f db h = (refl, refl)

settle-Kept :
    (t : Time) (now : ℕ) (path : Text) (report : RetentionReport) (r : Result (Unit {0})) (db : Db)
    → Kept (settle t now path report r db).1 db
unfolding settle timestamp
settle-Kept t now path report (ok _) db = (refl, refl)
settle-Kept t now path report (err e) db = ground arith

remove_all-Kept :
    (d : Disk) (t : Time) (now : ℕ) (qs : List QueueRow) (report : RetentionReport) (db : Db)
    → Kept (remove_all d t now qs report db).1 db
unfolding remove_all
remove_all-Kept d t now [] report db = (refl, refl)
remove_all-Kept d t now (q ∷ qs) report db =
    let (r, db') = remove_report d q.relative_path db in
    let (s, db'') = settle t now q.relative_path report r db' in
    Kept-trans (continue s (λ a. remove_all d t now qs a) db'').1 db'' db
      (continue-Kept s (λ a. remove_all d t now qs a) db'' (λ a x. remove_all-Kept d t now qs a x))
      (Kept-trans db'' db' db (settle-Kept t now q.relative_path report r db')
        (remove_report-Kept d q.relative_path db))

pub process_delete_queue-Kept :
    (d : Disk) (t : Time) (now : ℕ) (report : RetentionReport) (db : Db)
    → Kept (process_delete_queue d t now report db).1 db
unfolding process_delete_queue
process_delete_queue-Kept d t now report db =
    remove_all-Kept d t now (sort queue_leb db.delete_queue) report db

delete_eligible-has_id :
    (d : Disk) (t : Time) (now : ℕ) (id : SnapshotId) (rows : List SnapshotRow)
    (report : RetentionReport) (db : Db)
    → any (has_id id) rows ≡ false
    → any (has_id id) (delete_eligible d t now rows report db).1.snapshots
      ≡ any (has_id id) db.snapshots
unfolding delete_eligible timestamp
delete_eligible-has_id d t now id rows report db h = elim (Option-cases (t.format now)) [
  | inl e ↦ ground arith
  | inr (text, e) ↦ ground (
    arith,
    delete_rows-has_id text id rows db h,
    (process_delete_queue-Kept d t now (record report { database_deleted = length rows })
        (delete_rows text rows db)).0,
  )
]

abbrev pub candidates : Db → List SnapshotRow
candidates db = sort candidate_leb db.snapshots

abbrev pub examining : Db → RetentionReport → RetentionReport
examining db report = record report { examined = length (candidates db) }

abbrev pub classified :
    Time → RetentionPolicy → ℕ → RetentionReport → Db → RetentionReport × List SnapshotRow
classified t policy now report db =
    classify t policy now db.state.current_snapshot_id [] (candidates db) (examining db report)

retain_snapshots-has_id :
    (d : Disk) (t : Time) (policy : RetentionPolicy) (now : ℕ) (id : SnapshotId)
    (report : RetentionReport) (db : Db)
    → exposed db.state.current_snapshot_id id db.snapshots ≡ false
    → any (has_id id) (retain_snapshots d t policy now report db).1.snapshots
      ≡ any (has_id id) db.snapshots
unfolding retain_snapshots
retain_snapshots-has_id d t policy now id report db h =
    let cur = db.state.current_snapshot_id in
    let hidden =
      classify-protected t policy now cur id [] (candidates db) (examining db report)
        (any-sort candidate_leb (λ r. has_id id r && not (is_protected cur r)) db.snapshots ∙ h) in
    let (report', rows) = classified t policy now report db in
    ground (arith, delete_eligible-has_id d t now id rows report' db hidden)

continue-has_id :
    (id : SnapshotId) (r : Result RetentionReport) (f : RetentionReport → M RetentionReport)
    (db : Db)
    → ((a : RetentionReport) → any (has_id id) (f a db).1.snapshots ≡ any (has_id id) db.snapshots)
    → any (has_id id) (continue r f db).1.snapshots ≡ any (has_id id) db.snapshots
continue-has_id id (ok a) f db h = h a
continue-has_id id (err e) f db h = refl

unfoldable pub first_pass : Disk → Time → RetentionPolicy → ℕ → Db → Result RetentionReport × Db
first_pass d t policy now db =
    if policy.dry_run
    then (ok (new_report policy), db)
    else process_delete_queue d t now (new_report policy) db

pub first_pass-Kept :
    (d : Disk) (t : Time) (policy : RetentionPolicy) (now : ℕ) (db : Db)
    → Kept (first_pass d t policy now db).1 db
first_pass-Kept d t policy now db =
    unfold first_pass in ground (arith, process_delete_queue-Kept d t now (new_report policy) db)

-- The removal of old snapshots, whatever its policy and whether it succeeds or fails, deletes no
-- snapshot that is the current one, that is pinned, or that was not uploaded.
pub apply_retention-protected :
    (d : Disk) (t : Time) (policy : RetentionPolicy) (now : ℕ) (id : SnapshotId) (db : Db)
    → any (has_id id) db.snapshots ≡ true
    → any (λ r. has_id id r && not (is_protected db.state.current_snapshot_id r)) db.snapshots
      ≡ false
    → any (has_id id) (apply_retention d t policy now db).1.snapshots ≡ true
unfolding apply_retention first_pass
apply_retention-protected d t policy now id db there h =
    let (r, db') = first_pass d t policy now db in
    let (same, state) = first_pass-Kept d t policy now db in
    let hidden = ap₂ (λ s rows. exposed s.current_snapshot_id id rows) state same ∙ h in
    continue-has_id id r (retain_snapshots d t policy now) db'
      (λ a. retain_snapshots-has_id d t policy now id a db' hidden)
    ∙ (ap (any (has_id id)) same ∙ there)

-- A dry run changes nothing.
pub apply_retention-dry_run :
    (d : Disk) (t : Time) (policy : RetentionPolicy) (now : ℕ) (db : Db)
    → policy.dry_run ≡ true
    → (apply_retention d t policy now db).1 ≡ db
unfolding apply_retention retain_snapshots
apply_retention-dry_run d t policy now db dry = ground (arith)
