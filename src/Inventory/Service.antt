-- ===== src/Inventory/Service.antt =====
-- service.rs: when a stored snapshot is used again. The wait for the lease, a loop over other processes'
-- doings, is not here.
pub mod Scan
pub mod Reuse
pub mod Untouched
pub mod Wait
use qurbrix_hwinfo.Common.{
  ℕ, ◌+◌, ◌*◌, ◌/◌, ◌^◌, Bool, true, false, not, ◌&&◌, ◌||◌, Option, none, some, List, [], ◌∷◌,
  ◌++◌, map, Text, codes, text_eq, if◌then◌else◌, leb, ltb, ◌==◌, length, is_none, and_then,
}
use qurbrix_hwinfo.Model.Evidence.{ScanWarning}
use qurbrix_hwinfo.Model.Report.{ScanReport, ScanStatus}
use qurbrix_hwinfo.Model.Snapshot.{
  SnapshotId, StoredSnapshot, PartialPolicy, CoreIdentityGroup, QuickProbeReport, core_complete,
}
use qurbrix_hwinfo.Inventory.Error.{
  InventoryError, IoKind, full_scan_failed, partial_rejected, core_identity_incomplete, stale_lease,
  error_code, error_text, Result, ok, err,
}
use qurbrix_hwinfo.Inventory.Canonical.Digest.{Codec, canonicalize_devices}
use qurbrix_hwinfo.Inventory.Store.{
  Time, Db, ProbeKind, ProbeCompletion, M, continue, ◌>>=◌, pure, raise, lift,
}
use qurbrix_hwinfo.Inventory.Store.Artifact.{Disk}
use qurbrix_hwinfo.Inventory.Store.Probes.{ProbeEnd, start_probe, finish_probe}
use qurbrix_hwinfo.Inventory.Store.Publish.{
  Publication, publish, find_snapshot, load_scan_report, is_failed,
}

pub record InventoryState : Type 0 where
  pub current_snapshot_id : Option SnapshotId
  pub current_machine_bind_id : Option Text
  pub bindid_algorithm : Option Text
  pub last_configuration_fingerprint : Option Text
  pub fingerprint_version : Option ℕ
  pub last_quick_probe_at : Option Text
  pub current_snapshot_created_at : Option Text

abbrev created_at_of : Option StoredSnapshot → Option Text
created_at_of none = none
created_at_of (some s) = some s.created_at

-- The left join of the state with its snapshot.
abbrev joined_created_at : Option SnapshotId → Db → Option Text
joined_created_at none db = none
joined_created_at (some id) db = created_at_of (find_snapshot id db.snapshots)

-- `current_state_sync`. An id that is stored is one that was written, so it parses.
unfoldable pub current_state : Db → InventoryState
current_state db = record {
  current_snapshot_id = db.state.current_snapshot_id;
  current_machine_bind_id = db.state.current_machine_bind_id;
  bindid_algorithm = db.state.bindid_algorithm;
  last_configuration_fingerprint = db.state.last_configuration_fingerprint;
  fingerprint_version = db.state.fingerprint_version;
  last_quick_probe_at = db.state.last_quick_probe_at;
  current_snapshot_created_at = joined_created_at db.state.current_snapshot_id db;
}

-- The options that this part reads; a duration is in nanoseconds.
pub record ObserveInventoryOptions : Type 0 where
  pub force_full_scan : Bool
  pub max_snapshot_age : Option ℕ
  pub partial_policy : PartialPolicy

abbrev pub is_text : Option Text → Text → Bool
is_text none s = false
is_text (some x) s = text_eq x s

abbrev pub is_number : Option ℕ → ℕ → Bool
is_number none n = false
is_number (some x) n = x == n

-- The age is negative, or at most the whole seconds of the limit, which `as i64` turns negative from
-- 2^63 on.
abbrev is_young : ℕ → ℕ → ℕ → Bool
is_young now created seconds =
    ltb now created || (ltb seconds (2 ^ 63) && leb now (created + seconds * 1000000000))

unfoldable pub is_fresh : Time → ℕ → Option Text → Option ℕ → Bool
is_fresh t now created_at none = true
is_fresh t now none (some max_age) = false
is_fresh t now (some text) (some max_age) = elim (t.parse text) [
  | none ↦ false
  | some created ↦ is_young now created (max_age / 1000000000)
]

-- The identity, the configuration and the version of the fingerprint agree.
unfoldable pub same_hardware : InventoryState → QuickProbeReport → Bool
same_hardware state quick =
    is_text state.current_machine_bind_id quick.machine_bind_id
    && is_text state.last_configuration_fingerprint quick.configuration_fingerprint
    && is_number state.fingerprint_version quick.fingerprint_version

unfoldable pub hardware_changed : InventoryState → QuickProbeReport → Bool
hardware_changed state quick =
    is_none state.current_snapshot_id
    || not (is_text state.current_machine_bind_id quick.machine_bind_id)
    || not (is_text state.last_configuration_fingerprint quick.configuration_fingerprint)
    || not (is_number state.fingerprint_version quick.fingerprint_version)

-- `matches!(…, Ok(Some(_)))`.
abbrev pub is_loaded : Result (Option ScanReport) → Bool
is_loaded (ok (some _)) = true
is_loaded (ok none) = false
is_loaded (err _) = false

-- `reusable_snapshot` behind its first `?`.
unfoldable pub reuse_current :
    Disk
    → Time
    → ℕ
    → InventoryState
    → QuickProbeReport
    → ObserveInventoryOptions
    → Bool
    → Db
    → SnapshotId
    → Option SnapshotId
unfolding same_hardware is_fresh
reuse_current d t now state quick options ignore_force db id =
    if options.force_full_scan && not ignore_force
    then none
    else if not (same_hardware state quick)
        || not (is_fresh t now state.current_snapshot_created_at options.max_snapshot_age)
    then none
    else if is_loaded (load_scan_report d id db).0
    then some id
    else none

unfoldable pub reusable_snapshot :
    Disk
    → Time
    → ℕ
    → InventoryState
    → QuickProbeReport
    → ObserveInventoryOptions
    → Bool
    → Db
    → Option SnapshotId
unfolding reuse_current
reusable_snapshot d t now state quick options ignore_force db =
    and_then state.current_snapshot_id (reuse_current d t now state quick options ignore_force db)
