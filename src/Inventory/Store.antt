-- ===== src/Inventory/Store.antt =====
-- The state that crates/hw-inventory/src/store.rs keeps: the SQLite tables of
-- migrations/0001_initial.sql and the artifact files beside them. SQLite answers every statement here;
-- an operation takes the instant at which it runs, in nanoseconds, from its caller.
pub mod Lease
pub mod Probes
pub mod Artifact
pub mod Publish
pub mod Retention
pub mod Steps
use qurbrix_hwinfo.Common.{
  ltb, ◌^◌, ℕ, Bool, true, false, not, Option, none, some, List, [], Text, codes, text_eq, text_leb,
  and_then,
}
use qurbrix_hwinfo.Model.Snapshot.{SnapshotId, StoredSnapshot}
use qurbrix_hwinfo.Inventory.Error.{InventoryError, invalid_report, Result, ok, err}

-- The RFC 3339 texts of instants, from the `time` crate.
pub record Time : Type 0 where
  pub format : ℕ → Option Text
  pub parse : Text → Option ℕ

pub record LeaseRow : Type 0 where
  pub owner_id : Text
  pub acquired_at : Text
  pub expires_at : Text

pub data ProbeKind : Type 0 where
  quick full : ProbeKind

pub data ProbeCompletion : Type 0 where
  succeeded partial failed : ProbeCompletion

pub data ProbeStatus : Type 0 where
  running : ProbeStatus
  finished : ProbeCompletion → ProbeStatus

pub record ProbeRow : Type 0 where
  pub probe_id : ℕ
  pub probe_type : ProbeKind
  pub started_at : Text
  pub finished_at : Option Text
  pub status : ProbeStatus
  pub snapshot_id : Option SnapshotId
  pub previous_snapshot_id : Option SnapshotId
  pub machine_bind_id : Option Text
  pub configuration_fingerprint : Option Text
  pub duration_ms : Option ℕ
  pub warning_count : Option ℕ
  pub error_code : Option Text
  pub error_message : Option Text

-- The one row of `inventory_state`.
pub record StateRow : Type 0 where
  pub current_snapshot_id : Option SnapshotId
  pub current_machine_bind_id : Option Text
  pub bindid_algorithm : Option Text
  pub last_configuration_fingerprint : Option Text
  pub core_identity_count : Option ℕ
  pub fingerprint_version : Option ℕ
  pub last_quick_probe_at : Option Text
  pub updated_at : Text

pub record StoredDeviceSummary : Type 0 where
  pub snapshot_id : SnapshotId
  pub device_id : Text
  pub kind : Text
  pub name : Text
  pub vendor : Option Text
  pub model : Option Text
  pub serial : Option Text
  pub bus_kind : Option Text
  pub bus_address : Option Text
  pub driver_name : Option Text
  pub driver_status : Option Text
  pub parent_device_id : Option Text
  pub ordinal : ℕ

-- The rows that one publication inserts into hardware_snapshot, snapshot_artifact and
-- snapshot_lifecycle, and its rows of snapshot_device. Nothing inserts or deletes one without the
-- others.
pub record SnapshotRow : Type 0 where
  pub stored : StoredSnapshot
  pub open stored use *
  pub devices : List StoredDeviceSummary

pub record QueueRow : Type 0 where
  pub relative_path : Text
  pub sha256 : Text
  pub attempts : ℕ
  pub last_error : Option Text
  pub updated_at : Text

pub record Db : Type 0 where
  pub lease : Option LeaseRow
  pub state : StateRow
  pub snapshots : List SnapshotRow
  pub probes : List ProbeRow
  pub delete_queue : List QueueRow
  pub files : List (Text × List ℕ)

abbrev pub snapshot_cli_schema_version : Text
snapshot_cli_schema_version = codes "qurbrix.hw.snapshot.cli.v1"

-- What the migration leaves.
abbrev pub empty_db : Db
empty_db = record {
  lease = none;
  state = record {
    current_snapshot_id = none;
    current_machine_bind_id = none;
    bindid_algorithm = none;
    last_configuration_fingerprint = none;
    core_identity_count = none;
    fingerprint_version = none;
    last_quick_probe_at = none;
    updated_at = codes "1970-01-01T00:00:00Z";
  };
  snapshots = [];
  probes = [];
  delete_queue = [];
  files = [];
}

-- An operation that may fail; what it wrote before an error stays written.
abbrev pub M {ℓ} : Type ℓ → Type ℓ
M A = Db → Result A × Db

abbrev pub continue {ℓ κ} : {A : Type ℓ} {B : Type κ} → Result A → (A → M B) → M B
continue (ok a) f db = f a db
continue (err e) f db = (err e, db)

infixl 5 ◌>>=◌
abbrev pub ◌>>=◌ {ℓ κ} : {A : Type ℓ} {B : Type κ} → M A → (A → M B) → M B
◌>>=◌ m f db = let (r, db') = m db in continue r f db'

abbrev pub pure {ℓ} : {A : Type ℓ} → A → M A
pure a db = (ok a, db)

abbrev pub raise {ℓ} : {A : Type ℓ} → InventoryError → M A
raise e db = (err e, db)

abbrev pub lift {ℓ} : {A : Type ℓ} → Result A → M A
lift r db = (r, db)

-- A u64 that is cast `as i64` passes its column's check, which is that it is not negative.
unfoldable pub is_storable : Option ℕ → Bool
is_storable none = true
is_storable (some n) = ltb n (2 ^ 63)

abbrev pub check_failed : InventoryError
check_failed = InventoryError.database (codes "CHECK constraint failed")

-- A timestamp, with the message of its `map_err`.
unfoldable pub timestamp : Time → ℕ → Text → Result Text
timestamp t instant message = elim (t.format instant) [
  | some text ↦ ok text
  | none ↦ err (invalid_report message)
]

-- `now_rfc3339`.
unfoldable pub now_rfc3339 : Time → ℕ → Result Text
unfolding timestamp
now_rfc3339 t now = timestamp t now (codes "UTC timestamp formatting failed")

-- A row with `expires_at > ?` for the text of the present.
abbrev pub is_live : Text → LeaseRow → Bool
is_live now l = not (text_leb l.expires_at now)
