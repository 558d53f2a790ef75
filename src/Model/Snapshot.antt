-- ===== src/Model/Snapshot.antt =====
-- crates/hw-model/src/snapshot.rs. A snapshot id, a UUID, is the text that it is shown as and that
-- the database holds.
use qurbrix_hwinfo.Common.{ℕ, Bool, true, false, ◌||◌, List, [], ◌∷◌, Option, Text, codes, any, all}

abbrev pub SnapshotId : Type 0
SnapshotId = Text

abbrev pub snapshot_schema_version : Text
snapshot_schema_version = codes "qurbrix.hw.snapshot.v1"

abbrev pub fingerprint_version : ℕ
fingerprint_version = 2

abbrev pub bindid_v2_algorithm : Text
bindid_v2_algorithm = codes "qurbrix-hw-bindid-sha256-v2"

pub data PartialPolicy : Type 0 where
  publish_if_core_complete reject : PartialPolicy

pub data CoreIdentityGroup : Type 0 where
  platform cpu memory storage physical_network gpu : CoreIdentityGroup

-- The place of a group in its declaration, by which the derived order goes.
abbrev pub group_rank : CoreIdentityGroup → ℕ
group_rank platform = 0
group_rank cpu = 1
group_rank memory = 2
group_rank storage = 3
group_rank physical_network = 4
group_rank gpu = 5

abbrev pub group_eq : CoreIdentityGroup → CoreIdentityGroup → Bool
group_eq platform platform = true
group_eq cpu cpu = true
group_eq memory memory = true
group_eq storage storage = true
group_eq physical_network physical_network = true
group_eq gpu gpu = true
group_eq _ _ = false

-- `Vec::contains` on groups.
unfoldable pub has_group : List CoreIdentityGroup → CoreIdentityGroup → Bool
has_group groups g = any (group_eq g) groups

-- `CoreIdentityGroup::REQUIRED`.
abbrev pub required : List CoreIdentityGroup
required = platform ∷ cpu ∷ memory ∷ storage ∷ physical_network ∷ []

pub record IdentityCoverage : Type 0 where
  pub covered : List CoreIdentityGroup
  pub missing : List CoreIdentityGroup
  pub trusted_absent : List CoreIdentityGroup

unfoldable pub core_complete : IdentityCoverage → Bool
core_complete c = all (λ g. has_group c.covered g || has_group c.trusted_absent g) required

pub record QuickProbeReport : Type 0 where
  pub schema_version : Text
  pub fingerprint_version : ℕ
  pub bindid_algorithm : Text
  pub machine_bind_id : Text
  pub configuration_fingerprint : Text
  pub canonical_payload_sha256 : Text
  pub observed_at : Text
  pub identity_records : List Text
  pub configuration_records : List Text
  pub coverage : IdentityCoverage
  pub warnings : List Text

pub data PublishedScanStatus : Type 0 where
  complete partial : PublishedScanStatus

pub record ArtifactMetadata : Type 0 where
  pub relative_path : Text
  pub sha256 : Text
  pub size_bytes : ℕ
  pub schema_version : Text

pub record StoredSnapshot : Type 0 where
  pub snapshot_id : SnapshotId
  pub machine_bind_id : Text
  pub bindid_algorithm : Text
  pub schema_version : Text
  pub scanner_version : Option Text
  pub created_at : Text
  pub scan_status : PublishedScanStatus
  pub configuration_fingerprint : Text
  pub artifact : ArtifactMetadata
  pub device_count : ℕ
  pub warning_count : ℕ
  pub duration_ms : Option ℕ
  pub pinned : Bool
  pub uploaded_at : Option Text

pub data EnsureSnapshotOutcome : Type 0 where
  reused published : SnapshotId → EnsureSnapshotOutcome
  failed : (previous : Option SnapshotId) → EnsureSnapshotOutcome
