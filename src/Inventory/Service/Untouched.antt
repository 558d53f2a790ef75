-- ===== src/Inventory/Service/Untouched.antt =====
-- A full scan that fails.
use qurbrix_hwinfo.Common.{
  ℕ, ◌≡◌, refl, ◌∙◌, Bool, true, false, Option, not, ◌&&◌, length, none, some, Text, arith,
  if◌then◌else◌,
}
use qurbrix_hwinfo.Model.Report.{ScanReport}
use qurbrix_hwinfo.Model.Snapshot.{SnapshotId, core_complete, QuickProbeReport}
use qurbrix_hwinfo.Inventory.Error.{InventoryError, Result, ok, err}
use qurbrix_hwinfo.Inventory.Store.{Db, M, continue, now_rfc3339, timestamp, ProbeKind, Time}
use qurbrix_hwinfo.Inventory.Store.Probes.{
  start_probe, insert_probe, finish_probe, finish_row, ProbeEnd,
}
use qurbrix_hwinfo.Inventory.Store.Publish.{publish, is_failed}
use qurbrix_hwinfo.Inventory.Store.Publish.Atomic.{publish-err}
use qurbrix_hwinfo.Inventory.Service.{ObserveInventoryOptions}
use qurbrix_hwinfo.Inventory.Service.Scan.{
  Setting, FullScanResult, fail_full_probe, fail_with, publication, conclude_scan,
  publish_canonical, publish_identity, publish_scan, scanned, scan_under_lease, reuse_or_scan,
  peer_snapshot, is_partial, rejects, scan_error, run_full_scan_under_lease,
}

-- The same snapshots and the same state.
abbrev pub Untouched : Db → Db → Type 0
Untouched a b = (a.snapshots ≡ b.snapshots) × (a.state ≡ b.state)

Untouched-trans : (a b c : Db) → Untouched a b → Untouched b c → Untouched a c
Untouched-trans a b c h k = (h.0 ∙ k.0, h.1 ∙ k.1)

finish_probe-Untouched :
    (t : Time) (now id : ℕ) (e : ProbeEnd) (db : Db) → Untouched (finish_probe t now id e db).1 db
unfolding finish_probe finish_row now_rfc3339 timestamp
finish_probe-Untouched t now id e db = ground arith

start_probe-Untouched :
    (t : Time) (now : ℕ) (kind : ProbeKind) (previous : Option SnapshotId) (db : Db)
    → Untouched (start_probe t now kind previous db).1 db
unfolding start_probe insert_probe now_rfc3339 timestamp
start_probe-Untouched t now kind previous db = ground arith

module _ (s : Setting) (history : ℕ) where
  fail_full_probe-Untouched :
      (machine fingerprint : Option Text) (warnings : Option ℕ) (e : InventoryError) (db : Db)
      → Untouched (fail_full_probe s history machine fingerprint warnings e db) db
  unfolding fail_full_probe
  fail_full_probe-Untouched machine fingerprint warnings e db =
      finish_probe-Untouched s.time s.ended history _ db

  -- An operation that fails leaves the snapshots and the state.
  abbrev Safe : M FullScanResult → Type 0
  Safe m = (db : Db) (e : InventoryError) → (m db).0 ≡ err e → Untouched (m db).1 db

  fail_with-Safe :
      (machine fingerprint : Option Text) (warnings : Option ℕ) (e : InventoryError)
      → Safe (fail_with s history machine fingerprint warnings e)
  fail_with-Safe machine fingerprint warnings e db e' h =
      fail_full_probe-Untouched machine fingerprint warnings e db

  if-Safe : (b : Bool) (m n : M FullScanResult) → Safe m → Safe n → Safe (if b then m else n)
  if-Safe true m n h k = h
  if-Safe false m n h k = k

  module _ (options : ObserveInventoryOptions) (quick : Option QuickProbeReport)
      (owner : Text) where
    conclude_scan-Safe :
        (r : Result SnapshotId) (db db' : Db) (e : InventoryError)
        → ((x : InventoryError) → r ≡ err x → Untouched db' db)
        → (conclude_scan s history r db').0 ≡ err e
        → Untouched (conclude_scan s history r db').1 db
    unfolding conclude_scan
    conclude_scan-Safe (ok id) db db' e k h = cc
    conclude_scan-Safe (err x) db db' e k h =
        Untouched-trans (fail_full_probe s history none none none x db') db' db
          (fail_full_probe-Untouched none none none x db') (k x refl)

    publish_canonical-Safe :
        (report : ScanReport) (canonical : QuickProbeReport)
        → Safe (publish_canonical s quick owner history report canonical)
    unfolding publish_canonical
    publish_canonical-Safe report canonical db e h =
        let p = publication s quick owner history report canonical in
        let (r, db') = publish s.disk s.time s.ended p db in
        conclude_scan-Safe r db db' e
          (λ x q. let same = publish-err s.disk s.time s.ended p db x q in (same.2, same.1)) h

    publish_identity-Safe :
        (report : ScanReport) (r : Result QuickProbeReport)
        → Safe (publish_identity s quick owner history report r)
    unfolding publish_identity
    publish_identity-Safe report (err e) =
        fail_with-Safe none none (some (length report.warnings)) e
    publish_identity-Safe report (ok canonical) =
        if-Safe (not (core_complete canonical.coverage)) _ _ (fail_with-Safe _ _ _ _)
          (publish_canonical-Safe report canonical)

    publish_scan-Safe :
        (report : ScanReport) → Safe (publish_scan s options quick owner history report)
    unfolding publish_scan
    publish_scan-Safe report =
        if-Safe (is_partial report.status && rejects options.partial_policy) _ _
          (fail_with-Safe _ _ _ _) (publish_identity-Safe report _)

    scanned-Safe : (r : Result ScanReport) → Safe (scanned s options quick owner history r)
    unfolding scanned
    scanned-Safe (err e) = fail_with-Safe none none none (scan_error e)
    scanned-Safe (ok report) =
        if-Safe (is_failed report.status) _ _ (fail_with-Safe _ _ _ _) (publish_scan-Safe report)

    scan_under_lease-Safe :
        (scan : M ScanReport)
        → ((db : Db) → Untouched (scan db).1 db)
        → Safe (scan_under_lease s options scan quick owner history)
    unfolding scan_under_lease
    scan_under_lease-Safe scan quiet db e h =
        let (r, db') = scan db in
        let result = scanned s options quick owner history r db' in
        Untouched-trans result.1 db' db (scanned-Safe r db' e h) (quiet db)

module _ (s : Setting) (options : ObserveInventoryOptions) (scan : M ScanReport)
    (quick : Option QuickProbeReport) (owner : Text)
    (quiet : (x : Db) → Untouched (scan x).1 x) where
  started-Untouched :
      (r : Result ℕ) (db db' : Db) (e : InventoryError)
      → Untouched db' db
      → (continue r (scan_under_lease s options scan quick owner) db').0 ≡ err e
      → Untouched (continue r (scan_under_lease s options scan quick owner) db').1 db
  started-Untouched (ok history) db db' e same h =
      Untouched-trans (scan_under_lease s options scan quick owner history db').1 db' db
        (scan_under_lease-Safe s history options quick owner scan quiet db' e h) same
  started-Untouched (err x) db db' e same h = same

  reuse_or_scan-Untouched :
      (o : Option SnapshotId) (db : Db) (e : InventoryError)
      → (reuse_or_scan s options scan quick owner o db).0 ≡ err e
      → Untouched (reuse_or_scan s options scan quick owner o db).1 db
  unfolding reuse_or_scan
  reuse_or_scan-Untouched (some id) db e h = (refl, refl)
  reuse_or_scan-Untouched none db e h =
      let previous = db.state.current_snapshot_id in
      let (r, db') = start_probe s.time s.started ProbeKind.full previous db in
      started-Untouched r db db' e
        (start_probe-Untouched s.time s.started ProbeKind.full previous db) h

-- A full scan under the lease that ends with an error leaves the stored snapshots and the current
-- state as they were, if nothing changed them while the devices were scanned.
pub run_full_scan_under_lease-err :
    (s : Setting) (options : ObserveInventoryOptions) (scan : M ScanReport)
    (quick : Option QuickProbeReport) (baseline : Option SnapshotId) (owner : Text) (db : Db)
    (e : InventoryError)
    → ((x : Db) → Untouched (scan x).1 x)
    → (run_full_scan_under_lease s options scan quick baseline owner db).0 ≡ err e
    → Untouched (run_full_scan_under_lease s options scan quick baseline owner db).1 db
unfolding run_full_scan_under_lease
run_full_scan_under_lease-err s options scan quick baseline owner db e quiet h =
    reuse_or_scan-Untouched s options scan quick owner quiet
      (peer_snapshot s options quick baseline db) db e h
