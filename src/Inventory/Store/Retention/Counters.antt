-- ===== src/Inventory/Store/Retention/Counters.antt =====
-- The counters that the removal of old snapshots reports.
use qurbrix_hwinfo.Common.{
  ℕ, suc, ◌+◌, ◌≡◌, refl, ap, ◌∙◌, true, ◌||◌, Bool-cases, inl, inr, Option, some, List, [], ◌∷◌,
  Text, if◌then◌else◌, length, sort, insert_sorted, arith,
}
use qurbrix_hwinfo.Model.Snapshot.{SnapshotId}
use qurbrix_hwinfo.Inventory.Error.{Result, ok, err}
use qurbrix_hwinfo.Inventory.Store.{Time, Db, SnapshotRow, QueueRow, timestamp, M, continue}
use qurbrix_hwinfo.Inventory.Store.Artifact.{Disk, remove_report}
use qurbrix_hwinfo.Inventory.Store.Retention.{
  RetentionPolicy, RetentionReport, candidate_leb, bump, verdict, tally, classify,
}
use qurbrix_hwinfo.Inventory.Store.Retention.Apply.{
  remove_all, settle, queue_leb, process_delete_queue, delete_rows, delete_eligible,
  retain_snapshots, apply_retention, new_report, is_empty, pending,
}
use qurbrix_hwinfo.Inventory.Store.Retention.Protected.{
  process_delete_queue-Kept, counted, classify-counted, first_pass, first_pass-Kept, candidates,
  examining, classified,
}
use qurbrix_hwinfo.Inventory.Store.Retention.Removed.{
  has_unique_ids, Chosen, classify-Chosen, length-delete_rows,
}

length-insert_sorted :
    (r : SnapshotRow) (rows : List SnapshotRow)
    → length (insert_sorted candidate_leb r rows) ≡ suc (length rows)
unfolding insert_sorted
length-insert_sorted r [] = refl
length-insert_sorted r (x ∷ xs) = ground (arith, length-insert_sorted r xs)

length-sort : (rows : List SnapshotRow) → length (sort candidate_leb rows) ≡ length rows
unfolding sort
length-sort [] = refl
length-sort (r ∷ rs) = length-insert_sorted r (sort candidate_leb rs) ∙ ap suc (length-sort rs)

-- The counters that the loop over the candidates sets, and the number of deletions.
abbrev Same : RetentionReport → RetentionReport → Type 0
Same a b =
    (counted a ≡ counted b)
    × (a.examined ≡ b.examined)
    × (a.eligible ≡ b.eligible)
    × (a.database_deleted ≡ b.database_deleted)

-- An operation that succeeds and keeps those counters.
abbrev Returns : Result RetentionReport → RetentionReport → Type 0
Returns r report = (report' : RetentionReport) × (r ≡ ok report') × Same report' report

module _ (d : Disk) (t : Time) (policy : RetentionPolicy) (now : ℕ) (text : Text)
    (clock : t.format now ≡ some text) where
  settle-Returns :
      (path : Text) (report : RetentionReport) (r : Result (Unit {0})) (db : Db)
      → Returns (settle t now path report r db).0 report
  unfolding settle timestamp
  settle-Returns path report (ok _) db = (
    record report { artifacts_deleted = suc report.artifacts_deleted },
    refl,
    (refl, refl, refl, refl),
  )
  settle-Returns path report (err e) db = (
    record report { artifact_delete_failures = suc report.artifact_delete_failures },
    ground arith,
    (refl, refl, refl, refl),
  )

  remove_all-Returns :
      (qs : List QueueRow) (report : RetentionReport) (db : Db)
      → Returns (remove_all d t now qs report db).0 report
  unfolding remove_all
  remove_all-Returns [] report db = (report, refl, (refl, refl, refl, refl))
  remove_all-Returns (q ∷ qs) report db =
      let (r, db') = remove_report d q.relative_path db in
      let (s, db'') = settle t now q.relative_path report r db' in
      let (mid, e, (p0, p1, p2, p3)) = settle-Returns q.relative_path report r db' in
      let (last, e', (q0, q1, q2, q3)) = remove_all-Returns qs mid db'' in
      (
        last,
        ap (λ x. (continue x (λ a. remove_all d t now qs a) db'').0) e ∙ e',
        (q0 ∙ p0, q1 ∙ p1, q2 ∙ p2, q3 ∙ p3),
      )

  first_pass-Returns : (db : Db) → Returns (first_pass d t policy now db).0 (new_report policy)
  unfolding process_delete_queue first_pass
  first_pass-Returns db = elim (Bool-cases policy.dry_run) [
    | inl dry ↦ (new_report policy, ground arith, (refl, refl, refl, refl))
    | inr wet ↦
        let (report, e, p) =
          remove_all-Returns (sort queue_leb db.delete_queue) (new_report policy) db in
        (report, ground arith, p)
  ]

  classify-eligible :
      (cur : Option SnapshotId) (ranks : List (Text × ℕ)) (rows : List SnapshotRow)
      (report : RetentionReport)
      → (classify t policy now cur ranks rows report).0.eligible
        ≡ report.eligible + length (classify t policy now cur ranks rows report).1
  unfolding classify
  classify-eligible cur ranks [] report = omega arith
  classify-eligible cur ranks (row ∷ rows) report =
      let (rank, ranks') = bump row.machine_bind_id ranks in
      ground (
        arith,
        classify-eligible cur ranks' rows (tally (verdict t policy now cur rank row) report),
      )

  delete_eligible-Returns :
      (rows : List SnapshotRow) (report : RetentionReport) (db : Db)
      → Returns
          (delete_eligible d t now rows report db).0
          (record report { database_deleted = length rows })
  unfolding delete_eligible process_delete_queue timestamp
  delete_eligible-Returns rows report db =
      let deleted = delete_rows text rows db in
      let started = record report { database_deleted = length rows } in
      let qs = sort queue_leb deleted.delete_queue in
      let (report', e, same) = remove_all-Returns qs started deleted in
      let left = length (remove_all d t now qs started deleted).1.delete_queue in
      (record report' { pending_artifact_deletes = left }, ground arith, same)

  -- The counters of a run that deletes: every row examined has one verdict, and the rows deleted are
  -- the eligible ones.
  abbrev Balanced : RetentionReport → Type 0
  Balanced report =
      (counted report ≡ report.examined)
      × (report.database_deleted ≡ (if policy.dry_run then 0 else report.eligible))

  -- What the end of the run knows of the loop's result.
  abbrev Ready : ℕ → RetentionReport → List SnapshotRow → Type 0
  Ready n report rows =
      (counted report ≡ n)
      × (report.examined ≡ n)
      × (report.eligible ≡ length rows)
      × (report.database_deleted ≡ 0)

  abbrev ending : List SnapshotRow → RetentionReport → M RetentionReport
  ending rows report db =
      if policy.dry_run || is_empty rows
      then pending report db
      else delete_eligible d t now rows report db

  -- The table is then smaller by the rows deleted.
  abbrev Ends : ℕ → Result RetentionReport × Db → Type 0
  Ends n (r, after) =
      (report : RetentionReport) × (r ≡ ok report)
      × ((report.examined ≡ n)
          × Balanced report
          × (length after.snapshots + report.database_deleted ≡ n))

  length-delete_eligible :
      (rows : List SnapshotRow) (report : RetentionReport) (db : Db)
      → Chosen rows db.snapshots
      → length (delete_eligible d t now rows report db).1.snapshots + length rows
        ≡ length db.snapshots
  unfolding delete_eligible timestamp
  length-delete_eligible rows report db h =
      let deleted = delete_rows text rows db in
      let started = record report { database_deleted = length rows } in
      let kept = ap length (process_delete_queue-Kept d t now started deleted).0 in
      ground (arith, kept, length-delete_rows text rows db h)

  ending-dry :
      (n : ℕ) (rows : List SnapshotRow) (report : RetentionReport) (db : Db)
      → policy.dry_run ≡ true
      → Ready n report rows
      → length db.snapshots ≡ n
      → Ends n (ending rows report db)
  ending-dry n rows report db dry h size = (
    record report { pending_artifact_deletes = length db.delete_queue },
    ground arith,
    ground arith,
  )

  ending-Ends :
      (n : ℕ) (rows : List SnapshotRow) (report : RetentionReport) (db : Db)
      → Ready n report rows
      → length db.snapshots ≡ n
      → Chosen rows db.snapshots
      → Ends n (ending rows report db)
  ending-Ends n [] report db h size chosen = (
    record report { pending_artifact_deletes = length db.delete_queue },
    ground arith,
    ground arith,
  )
  ending-Ends n (r ∷ rs) report db h size chosen = elim (Bool-cases policy.dry_run) [
    | inl dry ↦ ending-dry n (r ∷ rs) report db dry h size
    | inr wet ↦
        let (report', e, same) = delete_eligible-Returns (r ∷ rs) report db in
        let less = length-delete_eligible (r ∷ rs) report db chosen in
        (report', ground (arith, e), ground arith)
  ]

  classify-fixed :
      (cur : Option SnapshotId) (ranks : List (Text × ℕ)) (rows : List SnapshotRow)
      (report : RetentionReport)
      → ((classify t policy now cur ranks rows report).0.examined ≡ report.examined)
        × ((classify t policy now cur ranks rows report).0.database_deleted
            ≡ report.database_deleted)
  unfolding classify
  classify-fixed cur ranks [] report = (refl, refl)
  classify-fixed cur ranks (row ∷ rows) report =
      let (rank, ranks') = bump row.machine_bind_id ranks in
      ground
        (arith, classify-fixed cur ranks' rows (tally (verdict t policy now cur rank row) report))

  retain_snapshots-Ends :
      (report : RetentionReport) (db : Db)
      → Same report (new_report policy)
      → has_unique_ids db.snapshots ≡ true
      → Ends (length db.snapshots) (retain_snapshots d t policy now report db)
  unfolding retain_snapshots
  retain_snapshots-Ends report db fresh unique =
      let cur = db.state.current_snapshot_id in
      let (report', rows) = classified t policy now report db in
      let sum = classify-counted t policy now cur [] (candidates db) (examining db report) in
      let rest = classify-eligible cur [] (candidates db) (examining db report) in
      let (fixed, undeleted) = classify-fixed cur [] (candidates db) (examining db report) in
      let size = length-sort db.snapshots in
      ending-Ends (length db.snapshots) rows report' db
        (omega arith, fixed ∙ size, omega arith, undeleted ∙ fresh.3) refl
        (classify-Chosen t policy now cur db.snapshots (examining db report) unique)

-- If the clock's time has a text and no two snapshots have the same id, the removal of old snapshots
-- returns a report, also when files are refused. It has examined all snapshots, and its five counters
-- of verdicts add up to their number. The rows it reports as deleted are as many as the eligible ones,
-- or none on a dry run, and the table of snapshots is smaller by exactly that many rows.
pub apply_retention-counters :
    (d : Disk) (t : Time) (policy : RetentionPolicy) (now : ℕ) (db : Db) (text : Text)
    → t.format now ≡ some text
    → has_unique_ids db.snapshots ≡ true
    → (report : RetentionReport) × ((apply_retention d t policy now db).0 ≡ ok report)
      × ((report.examined ≡ length db.snapshots)
          × (counted report ≡ report.examined)
          × (report.database_deleted ≡ (if policy.dry_run then 0 else report.eligible))
          × (length (apply_retention d t policy now db).1.snapshots + report.database_deleted
              ≡ length db.snapshots))
unfolding apply_retention first_pass
apply_retention-counters d t policy now db text clock unique =
    let (r, db') = first_pass d t policy now db in
    let (report, e, same) = first_pass-Returns d t policy now text clock db in
    let kept = (first_pass-Kept d t policy now db).0 in
    let (report', e', (size, balanced, less)) =
      retain_snapshots-Ends d t policy now text clock report db' same
        (ap has_unique_ids kept ∙ unique) in
    let run = ap (λ x. continue x (retain_snapshots d t policy now) db') e in
    (
      report',
      ap (λ x. x.0) run ∙ e',
      (
        size ∙ ap length kept,
        balanced.0,
        balanced.1,
        ap (λ x. length x.1.snapshots + report'.database_deleted) run ∙ less ∙ ap length kept,
      ),
    )
