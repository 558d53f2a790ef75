-- ===== src/Tests/Store.antt =====
-- The store's theorems at concrete inputs.
use mathlib.Core.Path.{subst}
use qurbrix_hwinfo.Common.{
  length, ◌+◌, arith, ℕ, Option, Bool, text_leb, ◌≢◌, ◌≡◌, refl, true, false, not, ◌&&◌, none, some,
  [], ◌∷◌, Text, codes, text_eq, any, length, ◌++◌, if◌then◌else◌,
}
use qurbrix_hwinfo.Model.Snapshot.{core_complete}
use qurbrix_hwinfo.Inventory.Error.{ok, err, stale_lease}
use qurbrix_hwinfo.Inventory.Store.Probes.{recover_stale, is_stale}
use qurbrix_hwinfo.Inventory.Store.Probes.Recovery.{Recovery, recover_stale-outcome}
use qurbrix_hwinfo.Inventory.Store.{ProbeRow, ProbeKind, ProbeStatus, Db, empty_db, is_live}
use qurbrix_hwinfo.Inventory.Store.Lease.{try_acquire_lease}
use qurbrix_hwinfo.Inventory.Store.Lease.Exclusion.{
  acquire, renew, free, calls, Within, calls-Foreign, try_acquire_lease_outcome, is_free,
}
use qurbrix_hwinfo.Inventory.Store.Artifact.{safe_artifact_path}
use qurbrix_hwinfo.Inventory.Store.Artifact.Confined.{safe_artifact_path-confined, is_file_name}
use qurbrix_hwinfo.Inventory.Store.Publish.{publish, check_lease, is_failed, load_scan_report}
use qurbrix_hwinfo.Inventory.Store.Publish.Atomic.{publish-err, SameTables}
use qurbrix_hwinfo.Inventory.Store.Publish.Readback.{publish-ok}
use qurbrix_hwinfo.Inventory.Store.Retention.{has_id, is_current, RetentionReport}
use qurbrix_hwinfo.Inventory.Store.Retention.Apply.{apply_retention}
use qurbrix_hwinfo.Inventory.Store.Retention.Protected.{
  apply_retention-protected, apply_retention-dry_run, is_protected, counted,
}
use qurbrix_hwinfo.Inventory.Store.Retention.Removed.{has_unique_ids}
use qurbrix_hwinfo.Inventory.Store.Retention.Counters.{apply_retention-counters}
use qurbrix_hwinfo.Tests.Data.{
  clock, disk, sample_report, sample_publication, sample_lease, leased_db, stocked_db,
  strict_policy, dry_policy,
}

abbrev test : Option Text → Bool
test none = false
test (some text) = is_live text sample_lease

within : (n : ℕ) → test (clock.format n) ≡ true → Within clock sample_lease n
within n h text e = subst (λ o. test o ≡ true) e h

other : codes "you" ≢ codes "me"
other e = cc e

live_at_5 : test (clock.format 5) ≡ true
unfolding text_leb
live_at_5 = refl

live_at_6 : test (clock.format 6) ≡ true
unfolding text_leb
live_at_6 = refl

calls-Foreign_example :
    ((calls clock
        (acquire 5 (codes "you") 9 ∷ renew 6 (codes "you") 9 ∷ free (codes "you") ∷ [])
        leased_db).0
      ≡ false)
    × ((calls clock
          (acquire 5 (codes "you") 9 ∷ renew 6 (codes "you") 9 ∷ free (codes "you") ∷ [])
          leased_db).1.lease
        ≡ some sample_lease)
calls-Foreign_example =
    calls-Foreign clock sample_lease
      (acquire 5 (codes "you") 9 ∷ renew 6 (codes "you") 9 ∷ free (codes "you") ∷ []) leased_db refl
      ((other, within 5 live_at_5), ((other, within 6 live_at_6), (other, tt)))

try_acquire_lease_outcome_example :
    ((try_acquire_lease clock 5 (codes "you") 9 leased_db).0
      ≡ ok (is_free (5 ∷ []) (some sample_lease)))
    × ((try_acquire_lease clock 5 (codes "you") 9 leased_db).1.lease ≡ (
        if is_free (5 ∷ []) (some sample_lease)
        then some (record { owner_id = codes "you"; acquired_at = 5 ∷ []; expires_at = 14 ∷ [] })
        else some sample_lease))
try_acquire_lease_outcome_example =
    try_acquire_lease_outcome clock 5 (codes "you") 9 leased_db (5 ∷ []) (14 ∷ []) refl refl

good_path : safe_artifact_path (codes "reports/./a.json") ≡ ok (codes "reports/a.json")
unfolding safe_artifact_path qurbrix_hwinfo.Common.starts_with qurbrix_hwinfo.Common.split text_eq
    qurbrix_hwinfo.Common.join
good_path = refl

safe_artifact_path-confined_example :
    (name : Text) × (codes "reports/a.json" ≡ codes "reports/" ++ name) × (is_file_name name ≡ true)
safe_artifact_path-confined_example =
    safe_artifact_path-confined (codes "reports/./a.json") (codes "reports/a.json") good_path

fenced : (publish disk clock 5 sample_publication empty_db).0 ≡ err stale_lease
unfolding publish core_complete qurbrix_hwinfo.Model.Snapshot.has_group
    qurbrix_hwinfo.Inventory.Store.Artifact.write_report qurbrix_hwinfo.Common.starts_with
    qurbrix_hwinfo.Common.split text_eq
fenced = refl

publish-err_example : SameTables (publish disk clock 5 sample_publication empty_db).1 empty_db
publish-err_example = publish-err disk clock 5 sample_publication empty_db stale_lease fenced

publishes : (publish disk clock 5 sample_publication leased_db).0 ≡ ok (codes "a")
unfolding publish core_complete qurbrix_hwinfo.Model.Snapshot.has_group
    qurbrix_hwinfo.Inventory.Store.Artifact.write_report qurbrix_hwinfo.Common.starts_with
    qurbrix_hwinfo.Common.split text_eq text_leb qurbrix_hwinfo.Inventory.Store.is_storable
publishes = refl

publish-ok_example :
    (is_failed sample_report.status ≡ false)
    × (not (core_complete sample_publication.snapshot_probe.coverage) ≡ false)
    × ((check_lease clock 5 (some (codes "me")) leased_db ≡ ok tt)
        × (codes "a" ≡ codes "a")
        × ((publish disk clock 5 sample_publication leased_db).1.state.current_snapshot_id
            ≡ some (codes "a"))
        × ((load_scan_report disk
              (codes "a")
              (publish disk clock 5 sample_publication leased_db).1).0
            ≡ ok (some sample_report)))
publish-ok_example =
    publish-ok disk clock 5 sample_publication (codes "a") leased_db (λ bytes e. refl)
      (λ path. refl) publishes

stocked : any (has_id (codes "pinned")) stocked_db.snapshots ≡ true
unfolding has_id text_eq
stocked = refl

guarded :
    any (λ r. has_id (codes "pinned") r && not (is_protected none r)) stocked_db.snapshots ≡ false
unfolding has_id is_current text_eq
guarded = refl

apply_retention-protected_example :
    any
      (has_id (codes "pinned"))
      (apply_retention disk clock strict_policy 9 stocked_db).1.snapshots
    ≡ true
apply_retention-protected_example =
    apply_retention-protected disk clock strict_policy 9 (codes "pinned") stocked_db stocked guarded

-- The other snapshot goes.
old_deleted :
    any (has_id (codes "old")) (apply_retention disk clock strict_policy 9 stocked_db).1.snapshots
    ≡ false
unfolding apply_retention has_id qurbrix_hwinfo.Common.sort text_eq text_leb
    qurbrix_hwinfo.Inventory.Store.Artifact.remove_report qurbrix_hwinfo.Common.starts_with
    qurbrix_hwinfo.Common.split
old_deleted = refl

stocked_unique : has_unique_ids stocked_db.snapshots ≡ true
unfolding has_unique_ids text_eq
stocked_unique = refl

apply_retention-counters_example :
    (report : RetentionReport) × ((apply_retention disk clock strict_policy 9 stocked_db).0
      ≡ ok report)
    × ((report.examined ≡ 2)
        × (counted report ≡ report.examined)
        × (report.database_deleted ≡ report.eligible)
        × (length (apply_retention disk clock strict_policy 9 stocked_db).1.snapshots
              + report.database_deleted
            ≡ 2))
apply_retention-counters_example =
    apply_retention-counters disk clock strict_policy 9 stocked_db (9 ∷ []) refl stocked_unique

apply_retention-dry_run_example :
    (apply_retention disk clock dry_policy 9 stocked_db).1 ≡ stocked_db
apply_retention-dry_run_example = apply_retention-dry_run disk clock dry_policy 9 stocked_db refl

abbrev running_row : ProbeRow
running_row = record {
  probe_id = 1;
  probe_type = ProbeKind.full;
  started_at = 3 ∷ [];
  finished_at = none;
  status = ProbeStatus.running;
  snapshot_id = none;
  previous_snapshot_id = none;
  machine_bind_id = none;
  configuration_fingerprint = none;
  duration_ms = none;
  warning_count = none;
  error_code = none;
  error_message = none;
}

abbrev interrupted_db : Db
interrupted_db = record empty_db {
  probes = running_row ∷ record running_row { probe_id = 2; started_at = 9 ∷ [] } ∷ [];
}

recover_stale-outcome_example :
    ((recover_stale clock 9 0 interrupted_db).0 ≡ ok tt)
    × Recovery (9 ∷ []) (9 ∷ []) interrupted_db (recover_stale clock 9 0 interrupted_db).1
recover_stale-outcome_example =
    recover_stale-outcome clock 9 0 interrupted_db (9 ∷ []) (9 ∷ []) refl (omega arith) refl

-- The probe was a stale one.
was_stale : any (is_stale (9 ∷ [])) interrupted_db.probes ≡ true
unfolding text_leb
was_stale = refl
