-- ===== src/Tests/Data.antt =====
-- A clock, a disk, a codec, and small reports and databases.
use qurbrix_hwinfo.Common.{ℕ, Bool, true, false, Option, none, some, [], ◌∷◌, Text, codes}
use qurbrix_hwinfo.Model.Kind.{DeviceKind}
use qurbrix_hwinfo.Model.Device.{Device, new_device}
use qurbrix_hwinfo.Model.Properties.{DeviceProperties, cpu_info_default}
use qurbrix_hwinfo.Model.Report.{ScanReport, empty_report}
use qurbrix_hwinfo.Model.Snapshot.{
  QuickProbeReport, required, snapshot_schema_version, fingerprint_version, bindid_v2_algorithm,
  PublishedScanStatus,
}
use qurbrix_hwinfo.Inventory.Error.{ok}
use qurbrix_hwinfo.Inventory.Canonical.Digest.{Codec}
use qurbrix_hwinfo.Inventory.Store.{Time, Db, empty_db, LeaseRow, SnapshotRow}
use qurbrix_hwinfo.Inventory.Store.Artifact.{Disk, WriteOutcome}
use qurbrix_hwinfo.Inventory.Store.Publish.{Publication}
use qurbrix_hwinfo.Inventory.Store.Retention.{RetentionPolicy}

abbrev parse_instant : Text → Option ℕ
parse_instant (n ∷ []) = some n
parse_instant _ = none

-- The text of an instant is one character.
abbrev pub clock : Time
clock = record { format = λ n. some (n ∷ []); parse = parse_instant }

abbrev pub sample_report : ScanReport
sample_report = empty_report

abbrev pub disk : Disk
disk = record {
  write = λ _. WriteOutcome.written;
  refuses_read = λ _. none;
  refuses_remove = λ _. none;
  to_vec = λ _. some (1 ∷ 2 ∷ []);
  from_slice = λ _. some sample_report;
  sha256_hex = λ bytes. bytes;
}

abbrev pub codec : Codec
codec = record {
  json_array = λ _. codes "[]";
  json_records = λ _. ok (1 ∷ []);
  json_configuration = λ _ _ _. ok (2 ∷ []);
  sha256_hex = λ bytes. bytes;
}

abbrev pub sample_probe : QuickProbeReport
sample_probe = record {
  schema_version = snapshot_schema_version;
  fingerprint_version = fingerprint_version;
  bindid_algorithm = bindid_v2_algorithm;
  machine_bind_id = codes "machine";
  configuration_fingerprint = codes "configuration";
  canonical_payload_sha256 = codes "configuration";
  observed_at = codes "now";
  identity_records = [];
  configuration_records = [];
  coverage = record { covered = required; missing = []; trusted_absent = [] };
  warnings = [];
}

abbrev pub sample_publication : Publication
sample_publication = record {
  snapshot_id = codes "a";
  report = sample_report;
  snapshot_probe = sample_probe;
  state_probe = sample_probe;
  probe_id = none;
  lease_owner_id = some (codes "me");
}

abbrev pub sample_lease : LeaseRow
sample_lease = record { owner_id = codes "me"; acquired_at = 1 ∷ []; expires_at = 100 ∷ [] }

abbrev pub leased_db : Db
leased_db = record empty_db { lease = some sample_lease }

abbrev pub sample_row : Text → ℕ → Bool → Option Text → SnapshotRow
sample_row id created pinned uploaded = record {
  stored = record {
    snapshot_id = id;
    machine_bind_id = codes "machine";
    bindid_algorithm = bindid_v2_algorithm;
    schema_version = codes "v2";
    scanner_version = none;
    created_at = created ∷ [];
    scan_status = PublishedScanStatus.complete;
    configuration_fingerprint = codes "configuration";
    artifact = record {
      relative_path = codes "reports/a";
      sha256 = [];
      size_bytes = 0;
      schema_version = codes "v2";
    };
    device_count = 0;
    warning_count = 0;
    duration_ms = none;
    pinned = pinned;
    uploaded_at = uploaded;
  };
  devices = [];
}

-- A pinned snapshot, and one that may go.
abbrev pub stocked_db : Db
stocked_db = record empty_db {
  snapshots =
      sample_row (codes "pinned") 1 true (some (2 ∷ []))
      ∷ sample_row (codes "old") 1 false (some (2 ∷ []))
      ∷ [];
}

abbrev pub strict_policy : RetentionPolicy
strict_policy = record { keep_recent_per_machine = 0; uploaded_max_age = 0; dry_run = false }

abbrev pub dry_policy : RetentionPolicy
dry_policy = record { keep_recent_per_machine = 0; uploaded_max_age = 0; dry_run = true }

abbrev pub cpu_device : Device
cpu_device =
    record (new_device (codes "cpu:0") DeviceKind.cpu (codes "CPU")
      (DeviceProperties.cpu cpu_info_default)) { vendor = some (codes "Acme") }
