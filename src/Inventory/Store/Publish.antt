-- ===== src/Inventory/Store/Publish.antt =====
-- store.rs: the publication of a report, in one transaction, and the reading of snapshots. The tables
-- of identifiers, properties, relations, sources and warnings are left out: their statements do not fail.
pub mod Atomic
pub mod Readback
use qurbrix_hwinfo.Common.{
  ℕ, suc, Bool, true, false, not, ◌&&◌, ◌||◌, Option, none, some, List, [], ◌∷◌, ◌++◌, Text, codes,
  text_eq, if◌then◌else◌, length, any, unwrap_or, and_then,
}
use qurbrix_hwinfo.Model.Kind.{as_str}
use qurbrix_hwinfo.Model.Device.{Device, BusInfo, DriverInfo, DriverStatus}
use qurbrix_hwinfo.Model.Report.{ScanReport, ScanStatus}
use qurbrix_hwinfo.Model.Snapshot.{
  SnapshotId, ArtifactMetadata, StoredSnapshot, PublishedScanStatus, QuickProbeReport,
  core_complete,
}
use qurbrix_hwinfo.Inventory.Error.{InventoryError, stale_lease, invalid_report, Result, ok, err}
use qurbrix_hwinfo.Inventory.Store.{
  is_storable, check_failed, Time, Db, StateRow, SnapshotRow, StoredDeviceSummary, ProbeCompletion,
  ProbeRow, M, continue, ◌>>=◌, pure, raise, lift, now_rfc3339,
}
use qurbrix_hwinfo.Inventory.Store.Lease.{owns}
use qurbrix_hwinfo.Inventory.Store.Artifact.{Disk, write_report, read_report, remove_report}
use qurbrix_hwinfo.Inventory.Store.Probes.{ProbeEnd, end_row, update_probes, is_probe, is_running}

-- `bus_projection`.
unfoldable pub bus_projection : Option BusInfo → Option Text × Option Text
bus_projection none = (none, none)
bus_projection (some (BusInfo.pci address _ _ _ _ _)) = (some (codes "pci"), some address)
bus_projection (some (BusInfo.usb bus device _ _ _ _ _)) =
    (some (codes "usb"), some (unwrap_or bus [] ++ (codes ":" ++ unwrap_or device [])))
bus_projection (some (BusInfo.platform path)) = (some (codes "platform"), some path)
bus_projection (some BusInfo.virtual) = (some (codes "virtual"), none)
bus_projection (some BusInfo.unknown) = (some (codes "unknown"), none)

-- The name of the variant, in lower case.
abbrev pub status_text : DriverStatus → Text
status_text DriverStatus.in_use = codes "inuse"
status_text DriverStatus.available = codes "available"
status_text DriverStatus.missing = codes "missing"
status_text DriverStatus.unknown = codes "unknown"

abbrev pub driver_status : Option DriverInfo → Option Text
driver_status none = none
driver_status (some driver) = some (status_text driver.status)

unfoldable pub has_device : Text → List Device → Bool
has_device id devices = any (λ d. text_eq d.id id) devices

-- `filter(|id| device_ids.contains(id))`.
unfoldable pub known_id : List Device → Option Text → Option Text
unfolding has_device
known_id devices none = none
known_id devices (some id) = if has_device id devices then some id else none

unfoldable pub device_row : SnapshotId → List Device → ℕ → Device → StoredDeviceSummary
unfolding known_id bus_projection
device_row id devices ordinal device =
    let (bus_kind, bus_address) = bus_projection device.bus in
    record {
      snapshot_id = id;
      device_id = device.id;
      kind = as_str device.kind;
      name = device.name;
      vendor = device.vendor;
      model = device.model;
      serial = device.serial;
      bus_kind = bus_kind;
      bus_address = bus_address;
      driver_name = and_then device.driver (λ driver. driver.name);
      driver_status = driver_status device.driver;
      parent_device_id = known_id devices device.parent_id;
      ordinal = ordinal;
    }

-- The rows of the devices; two devices with one id break the primary key.
unfoldable pub insert_devices :
    SnapshotId → List Device → ℕ → List Device → Result (List StoredDeviceSummary)
unfolding device_row has_device
insert_devices id all ordinal [] = ok []
insert_devices id all ordinal (d ∷ ds) =
    let rest = insert_devices id all (suc ordinal) ds in
    if has_device d.id ds
    then err (InventoryError.database (codes "UNIQUE constraint failed"))
    else elim rest [ err e ↦ err e | ok rows ↦ ok (device_row id all ordinal d ∷ rows) ]

abbrev pub published : ScanStatus → Option PublishedScanStatus
published ScanStatus.complete = some PublishedScanStatus.complete
published ScanStatus.partial = some PublishedScanStatus.partial
published ScanStatus.failed = none

abbrev pub is_complete : ScanStatus → Bool
is_complete ScanStatus.complete = true
is_complete _ = false

-- The lease check that opens the transaction.
unfoldable pub check_lease : Time → ℕ → Option Text → Db → Result (Unit {0})
unfolding owns now_rfc3339
check_lease t now none db = ok tt
check_lease t now (some owner) db = elim (now_rfc3339 t now) [
  | err e ↦ err e
  | ok text ↦ if owns text owner db.lease then ok tt else err stale_lease
]

abbrev pub stored_row :
    SnapshotId
    → Text
    → PublishedScanStatus
    → ScanReport
    → QuickProbeReport
    → ArtifactMetadata
    → List StoredDeviceSummary
    → SnapshotRow
stored_row id created_at status report probe artifact devices = record {
  stored = record {
    snapshot_id = id;
    machine_bind_id = probe.machine_bind_id;
    bindid_algorithm = probe.bindid_algorithm;
    schema_version = report.schema_version;
    scanner_version = report.metadata.scanner_version;
    created_at = created_at;
    scan_status = status;
    configuration_fingerprint = probe.configuration_fingerprint;
    artifact = artifact;
    device_count = length report.devices;
    warning_count = length report.warnings;
    duration_ms = report.metadata.duration_ms;
    pinned = false;
    uploaded_at = none;
  };
  devices = devices;
}

abbrev pub state_row : SnapshotId → QuickProbeReport → StateRow
state_row id probe = record {
  current_snapshot_id = some id;
  current_machine_bind_id = some probe.machine_bind_id;
  bindid_algorithm = some probe.bindid_algorithm;
  last_configuration_fingerprint = some probe.configuration_fingerprint;
  core_identity_count = some (length probe.identity_records);
  fingerprint_version = some probe.fingerprint_version;
  last_quick_probe_at = some probe.observed_at;
  updated_at = probe.observed_at;
}

-- The update of the probe's row, if it still runs.
unfoldable pub finish_published :
    Option ℕ → Text → SnapshotId → ScanReport → QuickProbeReport → List ProbeRow → List ProbeRow
unfolding update_probes
finish_published none created_at id report probe rows = rows
finish_published (some probe_id) created_at id report probe rows =
    update_probes (λ row. is_probe probe_id row && is_running row.status)
      (end_row created_at (record {
        completion =
            if is_complete report.status
            then ProbeCompletion.succeeded
            else ProbeCompletion.partial;
        snapshot_id = some id;
        machine_bind_id = some probe.machine_bind_id;
        configuration_fingerprint = some probe.configuration_fingerprint;
        duration_ms = report.metadata.duration_ms;
        warning_count = some (length report.warnings);
        error_code = none;
        error_message = none;
      }))
      rows

-- What a publication is given.
pub record Publication : Type 0 where
  pub snapshot_id : SnapshotId
  pub report : ScanReport
  pub snapshot_probe : QuickProbeReport
  pub state_probe : QuickProbeReport
  pub probe_id : Option ℕ
  pub lease_owner_id : Option Text

-- `unreachable!()` panics on the worker's thread.
abbrev pub status_of : ScanStatus → Result PublishedScanStatus
status_of s = elim (published s) [
  | none ↦ err (InventoryError.worker (codes "internal error: entered unreachable code"))
  | some status ↦ ok status
]

abbrev pub insert_snapshot : SnapshotId → Option ℕ → Db → Result (Unit {0})
insert_snapshot id duration_ms db =
    if not (is_storable duration_ms)
    then err check_failed
    else if any (λ r. text_eq r.snapshot_id id) db.snapshots
    then err (InventoryError.database (codes "UNIQUE constraint failed"))
    else ok tt

-- The tables behind the statements of the transaction, all of them or none.
unfoldable pub publish_transaction : Time → ℕ → Text → Publication → ArtifactMetadata → M (Unit {0})
unfolding check_lease insert_devices finish_published
publish_transaction t now created_at p artifact db =
    continue (check_lease t now p.lease_owner_id db)
      (λ _. continue (status_of p.report.status) (λ status.
        continue (insert_snapshot p.snapshot_id p.report.metadata.duration_ms db) (λ _.
          continue (insert_devices p.snapshot_id p.report.devices 0 p.report.devices) (λ devices db.
            (
              ok tt,
              record db {
                snapshots =
                    stored_row p.snapshot_id created_at status p.report p.snapshot_probe artifact
                      devices
                    ∷ db.snapshots;
                state = state_row p.snapshot_id p.state_probe;
                probes =
                    finish_published p.probe_id created_at p.snapshot_id p.report p.snapshot_probe
                      db.probes;
              },
            )))))
      db

abbrev pub is_failed : ScanStatus → Bool
is_failed ScanStatus.failed = true
is_failed _ = false

-- The end of `publish_sync`: a failed transaction takes the file with it.
unfoldable pub conclude : Disk → Publication → ArtifactMetadata → Result (Unit {0}) → M SnapshotId
conclude d p artifact (ok _) db = (ok p.snapshot_id, db)
conclude d p artifact (err e) db = (err e, (remove_report d artifact.relative_path db).1)

unfoldable pub publish : Disk → Time → ℕ → Publication → M SnapshotId
unfolding publish_transaction conclude now_rfc3339
publish d t now p =
    if is_failed p.report.status
    then raise (invalid_report (codes "failed scans cannot be published"))
    else if not (core_complete p.snapshot_probe.coverage)
    then raise (invalid_report (codes "core identity is incomplete"))
    else do
      created_at ← lift (now_rfc3339 t now)
      artifact ← write_report d p.snapshot_id p.report
      λ db.
          let (r, db') = publish_transaction t now created_at p artifact db in
          conclude d p artifact r db'

unfoldable pub find_snapshot : SnapshotId → List SnapshotRow → Option StoredSnapshot
find_snapshot id [] = none
find_snapshot id (r ∷ rs) =
    let rest = find_snapshot id rs in if text_eq r.snapshot_id id then some r.stored else rest

unfoldable pub load_snapshot : SnapshotId → M (Option StoredSnapshot)
unfolding find_snapshot
load_snapshot id db = (ok (find_snapshot id db.snapshots), db)

-- The report of a found snapshot.
unfoldable pub load_found : Disk → Option StoredSnapshot → M (Option ScanReport)
unfolding read_report
load_found d none = pure none
load_found d (some s) = do report ← read_report d s.artifact; pure (some report)

unfoldable pub load_scan_report : Disk → SnapshotId → M (Option ScanReport)
unfolding load_found load_snapshot
load_scan_report d id = do snapshot ← load_snapshot id; load_found d snapshot
