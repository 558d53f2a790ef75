-- ===== src/Inventory/Service/Scan.antt =====
-- service.rs: the full scan of the process that holds the lease.
use qurbrix_hwinfo.Common.{
  dedup, sort, ℕ, Bool, true, false, not, ◌&&◌, Option, none, some, List, [], ◌++◌, map, Text,
  codes, text_eq, if◌then◌else◌, length,
}
use qurbrix_hwinfo.Model.Evidence.{ScanWarning}
use qurbrix_hwinfo.Model.Report.{ScanReport, ScanStatus}
use qurbrix_hwinfo.Model.Snapshot.{
  SnapshotId, PartialPolicy, CoreIdentityGroup, QuickProbeReport, core_complete, group_eq,
}
use qurbrix_hwinfo.Inventory.Error.{
  InventoryError, IoKind, full_scan_failed, partial_rejected, core_identity_incomplete, stale_lease,
  error_code, error_text, Result, ok, err,
}
use qurbrix_hwinfo.Inventory.Canonical.Digest.{group_leb, Codec, canonicalize_devices}
use qurbrix_hwinfo.Inventory.Store.{Time, Db, ProbeKind, ProbeCompletion, M, ◌>>=◌}
use qurbrix_hwinfo.Inventory.Store.Artifact.{Disk}
use qurbrix_hwinfo.Inventory.Store.Probes.{start_probe, finish_probe}
use qurbrix_hwinfo.Inventory.Store.Publish.{Publication, publish, is_failed}
use qurbrix_hwinfo.Inventory.Service.{current_state, ObserveInventoryOptions, reusable_snapshot}

pub data FullScanResult : Type 0 where
  reused published : SnapshotId → FullScanResult

-- The libraries, and the instants at which a full scan starts and ends.
pub record Setting : Type 0 where
  pub disk : Disk
  pub time : Time
  pub codec : Codec
  pub io_text : IoKind → Text
  pub started : ℕ
  pub ended : ℕ
  pub duration_ms : ℕ
  pub new_id : SnapshotId

-- `fail_full_probe`, whose own error is dropped.
unfoldable pub fail_full_probe :
    Setting → ℕ → Option Text → Option Text → Option ℕ → InventoryError → Db → Db
fail_full_probe s history machine fingerprint warnings e db =
    (finish_probe s.time s.ended history
      (record {
        completion = ProbeCompletion.failed;
        snapshot_id = none;
        machine_bind_id = machine;
        configuration_fingerprint = fingerprint;
        duration_ms = some s.duration_ms;
        warning_count = warnings;
        error_code = some (error_code e);
        error_message = some (error_text s.io_text e);
      })
      db).1

abbrev pub fail_with {ℓ} :
    {A : Type ℓ} → Setting → ℕ → Option Text → Option Text → Option ℕ → InventoryError → M A
fail_with s history machine fingerprint warnings e db =
    (err e, fail_full_probe s history machine fingerprint warnings e db)

abbrev pub is_partial : ScanStatus → Bool
is_partial ScanStatus.partial = true
is_partial _ = false

abbrev pub rejects : PartialPolicy → Bool
rejects PartialPolicy.reject = true
rejects PartialPolicy.publish_if_core_complete = false

-- A stale lease is passed on, any other error of the scan is a failed scan.
abbrev pub scan_error : InventoryError → InventoryError
scan_error stale_lease = stale_lease
scan_error _ = full_scan_failed

abbrev pub warning_line : ScanWarning → Text
warning_line w = w.code ++ (codes ": " ++ w.message)

-- Collected into a `BTreeSet`.
abbrev pub absent_of : Option QuickProbeReport → List CoreIdentityGroup
absent_of none = []
absent_of (some quick) = dedup group_eq (sort group_leb quick.coverage.trusted_absent)

-- The quick probe's values go into the state if they have all groups.
abbrev pub state_probe : Option QuickProbeReport → QuickProbeReport → QuickProbeReport
state_probe none canonical = canonical
state_probe (some quick) canonical = if core_complete quick.coverage then quick else canonical

-- The time at which the devices are made canonical.
abbrev pub observed_at : Setting → Text
observed_at s = elim (s.time.format s.ended) [
  | none ↦ codes "1970-01-01T00:00:00Z"
  | some text ↦ text
]

-- The end of the probe if the publication failed.
unfoldable pub conclude_scan : Setting → ℕ → Result SnapshotId → M FullScanResult
conclude_scan s history (ok id) db = (ok (published id), db)
conclude_scan s history (err e) db = fail_with s history none none none e db

abbrev pub publication :
    Setting → Option QuickProbeReport → Text → ℕ → ScanReport → QuickProbeReport → Publication
publication s quick owner history report canonical = record {
  snapshot_id = s.new_id;
  report = report;
  snapshot_probe = canonical;
  state_probe = state_probe quick canonical;
  probe_id = some history;
  lease_owner_id = some owner;
}

unfoldable pub publish_canonical :
    Setting → Option QuickProbeReport → Text → ℕ → ScanReport → QuickProbeReport → M FullScanResult
unfolding conclude_scan
publish_canonical s quick owner history report canonical db =
    let (r, db') =
      publish s.disk s.time s.ended (publication s quick owner history report canonical) db in
    conclude_scan s history r db'

-- The devices made canonical.
unfoldable pub publish_identity :
    Setting
    → Option QuickProbeReport
    → Text
    → ℕ
    → ScanReport
    → Result QuickProbeReport
    → M FullScanResult
unfolding publish_canonical
publish_identity s quick owner history report (err e) =
    fail_with s history none none (some (length report.warnings)) e
publish_identity s quick owner history report (ok canonical) =
    if not (core_complete canonical.coverage)
    then fail_with s history (some canonical.machine_bind_id)
        (some canonical.configuration_fingerprint) (some (length report.warnings))
        core_identity_incomplete
    else publish_canonical s quick owner history report canonical

-- The report of a scan that did not fail, to its publication.
unfoldable pub publish_scan :
    Setting
    → ObserveInventoryOptions
    → Option QuickProbeReport
    → Text
    → ℕ
    → ScanReport
    → M FullScanResult
unfolding publish_identity
publish_scan s options quick owner history report =
    if is_partial report.status && rejects options.partial_policy
    then fail_with s history none none (some (length report.warnings)) partial_rejected
    else publish_identity s quick owner history report (
        canonicalize_devices s.codec report.devices (map warning_line report.warnings)
          (absent_of quick) (observed_at s))

-- What is done with the scan's outcome.
unfoldable pub scanned :
    Setting
    → ObserveInventoryOptions
    → Option QuickProbeReport
    → Text
    → ℕ
    → Result ScanReport
    → M FullScanResult
unfolding publish_scan
scanned s options quick owner history (err e) = fail_with s history none none none (scan_error e)
scanned s options quick owner history (ok report) =
    if is_failed report.status
    then fail_with s history none none none full_scan_failed
    else publish_scan s options quick owner history report

abbrev pub same_snapshot : Option SnapshotId → Option SnapshotId → Bool
same_snapshot none none = true
same_snapshot (some a) (some b) = text_eq a b
same_snapshot _ _ = false

-- The snapshot of a peer that published since, if it serves.
unfoldable pub peer_snapshot :
    Setting
    → ObserveInventoryOptions
    → Option QuickProbeReport
    → Option SnapshotId
    → Db
    → Option SnapshotId
unfolding reusable_snapshot current_state
peer_snapshot s options none baseline db = none
peer_snapshot s options (some quick) baseline db =
    if same_snapshot db.state.current_snapshot_id baseline
    then none
    else reusable_snapshot s.disk s.time s.started (current_state db) quick options true db

-- The scan, with its renewals of the lease and whatever else happens to the store meanwhile, is an
-- argument.
unfoldable pub scan_under_lease :
    Setting
    → ObserveInventoryOptions
    → M ScanReport
    → Option QuickProbeReport
    → Text
    → ℕ
    → M FullScanResult
unfolding scanned
scan_under_lease s options scan quick owner history db =
    let (r, db') = scan db in scanned s options quick owner history r db'

-- The snapshot of a peer, or a full scan.
unfoldable pub reuse_or_scan :
    Setting
    → ObserveInventoryOptions
    → M ScanReport
    → Option QuickProbeReport
    → Text
    → Option SnapshotId
    → M FullScanResult
unfolding scan_under_lease
reuse_or_scan s options scan quick owner (some id) db = (ok (reused id), db)
reuse_or_scan s options scan quick owner none db =
    (start_probe s.time s.started ProbeKind.full db.state.current_snapshot_id
        >>= scan_under_lease s options scan quick owner)
      db

unfoldable pub run_full_scan_under_lease :
    Setting
    → ObserveInventoryOptions
    → M ScanReport
    → Option QuickProbeReport
    → Option SnapshotId
    → Text
    → M FullScanResult
unfolding peer_snapshot reuse_or_scan
run_full_scan_under_lease s options scan quick baseline owner db =
    reuse_or_scan s options scan quick owner (peer_snapshot s options quick baseline db) db
