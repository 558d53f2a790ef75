-- ===== src/Inventory/Diff.antt =====
-- diff.rs: what changed between two snapshots. The derived equality of devices is an argument.
pub mod Reversed
use qurbrix_hwinfo.Common.{
  Bool, true, false, not, Option, none, some, List, [], ◌∷◌, ◌++◌, Text, codes, text_eq, text_leb,
  if◌then◌else◌, sort, dedup,
}
use qurbrix_hwinfo.Model.Device.{Device}
use qurbrix_hwinfo.Model.Report.{ScanReport}
use qurbrix_hwinfo.Model.Snapshot.{SnapshotId, StoredSnapshot}
use qurbrix_hwinfo.Inventory.Error.{snapshot_not_found, Result, ok, err}
use qurbrix_hwinfo.Inventory.Store.{M, ◌>>=◌, pure, lift, snapshot_cli_schema_version}
use qurbrix_hwinfo.Inventory.Store.Artifact.{Disk}
use qurbrix_hwinfo.Inventory.Store.Publish.{load_snapshot, load_scan_report}

pub record ChangedDevice : Type 0 where
  pub device_id : Text
  pub before : Device
  pub after : Device

pub record SnapshotDiff : Type 0 where
  pub schema_version : Text
  pub from_snapshot_id : SnapshotId
  pub to_snapshot_id : SnapshotId
  pub machine_identity_changed : Bool
  pub configuration_changed : Bool
  pub added : List Device
  pub removed : List Device
  pub changed : List ChangedDevice

-- The device of an id in the map collected from a list: the last one in it.
unfoldable pub find_last : Text → List Device → Option Device
find_last id [] = none
find_last id (d ∷ ds) = elim (find_last id ds) [
  | some found ↦ some found
  | none ↦ if text_eq d.id id then some d else none
]

abbrev pub device_ids : List Device → List Text
device_ids [] = []
device_ids (d ∷ ds) = d.id ∷ device_ids ds

-- The ids of both lists, once each and in their order.
unfoldable pub all_ids : List Device → List Device → List Text
all_ids before after = dedup text_eq (sort text_leb (device_ids before ++ device_ids after))

pub record Parts : Type 0 where
  pub added : List Device
  pub removed : List Device
  pub changed : List ChangedDevice

-- The `match` in the loop, in front of what the later ids give.
unfoldable pub sorted_out :
    (Device → Device → Bool) → Text → Option Device → Option Device → Parts → Parts
sorted_out eq id none none p = p
sorted_out eq id none (some d) p = record p { added = d ∷ p.added }
sorted_out eq id (some d) none p = record p { removed = d ∷ p.removed }
sorted_out eq id (some b) (some a) p =
    if eq b a
    then p
    else record p { changed = record { device_id = id; before = b; after = a } ∷ p.changed }

unfoldable pub compare_ids :
    (Device → Device → Bool) → List Device → List Device → List Text → Parts
unfolding sorted_out find_last
compare_ids eq before after [] = record { added = []; removed = []; changed = [] }
compare_ids eq before after (id ∷ ids) =
    sorted_out eq id (find_last id before) (find_last id after) (compare_ids eq before after ids)

abbrev pub by_id : Device → Device → Bool
by_id a b = text_leb a.id b.id

unfoldable pub compared :
    (Device → Device → Bool)
    → StoredSnapshot
    → StoredSnapshot
    → List Device
    → List Device
    → SnapshotDiff
unfolding compare_ids all_ids
compared eq from to before after =
    let parts = compare_ids eq before after (all_ids before after) in
    record {
      schema_version = snapshot_cli_schema_version;
      from_snapshot_id = from.snapshot_id;
      to_snapshot_id = to.snapshot_id;
      machine_identity_changed = not (text_eq from.machine_bind_id to.machine_bind_id);
      configuration_changed =
          not (text_eq from.configuration_fingerprint to.configuration_fingerprint);
      added = sort by_id parts.added;
      removed = sort by_id parts.removed;
      changed = parts.changed;
    }

-- `ok_or(SnapshotNotFound(id))`.
abbrev pub found {ℓ} : {A : Type ℓ} → SnapshotId → Option A → Result A
found id none = err (snapshot_not_found id)
found id (some a) = ok a

unfoldable pub diff_snapshots :
    Disk → (Device → Device → Bool) → SnapshotId → SnapshotId → M SnapshotDiff
unfolding compared
diff_snapshots d eq from_id to_id = do
  stored_from ← load_snapshot from_id
  from ← lift (found from_id stored_from)
  stored_to ← load_snapshot to_id
  to ← lift (found to_id stored_to)
  loaded_from ← load_scan_report d from_id
  before ← lift (found from_id loaded_from)
  loaded_to ← load_scan_report d to_id
  after ← lift (found to_id loaded_to)
  pure (compared eq from to before.devices after.devices)
