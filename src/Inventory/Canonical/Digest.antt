-- ===== src/Inventory/Canonical/Digest.antt =====
-- canonical.rs: `canonicalize_devices` with `covered_groups` and `group_name`.
use qurbrix_hwinfo.Common.{
  ℕ, Bool, ◌&&◌, not, Option, none, some, List, [], ◌∷◌, ◌++◌, map, Text, codes, text_eq, before,
  filter_map, and_then, retain, sort, dedup, leb, if◌then◌else◌,
}
use qurbrix_hwinfo.Model.Device.{Device}
use qurbrix_hwinfo.Model.Snapshot.{
  CoreIdentityGroup, platform, cpu, memory, storage, physical_network, gpu, group_rank, group_eq,
  has_group, required, QuickProbeReport, snapshot_schema_version, fingerprint_version,
  bindid_v2_algorithm,
}
use qurbrix_hwinfo.Inventory.Error.{Result, ok, ◌>>=◌}
use qurbrix_hwinfo.Inventory.Canonical.Normalize.{normalize_records}
use qurbrix_hwinfo.Inventory.Canonical.Records.{Records, no_records, collect_device_records}

-- What serde_json and sha2 give: byte strings, and the lower case hexadecimal text of a digest.
pub record Codec : Type 0 where
  pub json_array : List (Option Text) → Text
  -- `serde_json::to_vec` of the identity records.
  pub json_records : List Text → Result (List ℕ)
  -- `serde_json::to_vec` of the map of configuration records, version and identity records.
  pub json_configuration : List Text → ℕ → List Text → Result (List ℕ)
  pub sha256_hex : List ℕ → Text

unfoldable pub group_name : CoreIdentityGroup → Text
group_name platform = codes "platform"
group_name cpu = codes "cpu"
group_name memory = codes "memory"
group_name storage = codes "storage"
group_name physical_network = codes "physical_network"
group_name gpu = codes "gpu"

unfoldable pub group_of_kind : Text → Option CoreIdentityGroup
group_of_kind kind =
    if text_eq kind (codes "platform")
    then some platform
    else if text_eq kind (codes "cpu")
    then some cpu
    else if text_eq kind (codes "memory")
    then some memory
    else if text_eq kind (codes "storage")
    then some storage
    else if text_eq kind (codes "physical_network")
    then some physical_network
    else if text_eq kind (codes "gpu")
    then some gpu
    else none

unfoldable pub record_group : Text → Option CoreIdentityGroup
record_group line = and_then (before b':' line) group_of_kind

abbrev pub group_leb : CoreIdentityGroup → CoreIdentityGroup → Bool
group_leb a b = leb (group_rank a) (group_rank b)

-- Into a `BTreeSet`, which has its elements once and in their order.
unfoldable pub covered_groups : List Text → List CoreIdentityGroup
covered_groups records = dedup group_eq (sort group_leb (filter_map record_group records))

absence_record : CoreIdentityGroup → Text
absence_record group = codes "absence:group=" ++ group_name group

module _ (c : Codec) where
  -- The loop over the devices.
  unfoldable pub collect_all : List Device → Records → Records
  collect_all [] r = r
  collect_all (device ∷ devices) r =
      collect_all devices (collect_device_records c.json_array device r)

  -- All that is computed from the two lists of records.
  unfoldable pub digest :
      List Text → List Text → List CoreIdentityGroup → Text → List Text → Result QuickProbeReport
  digest identity configuration trusted_absent observed_at warnings =
      let covered = covered_groups identity in
      let missing =
        retain (λ g. not (has_group covered g) && not (has_group trusted_absent g)) required in
      do
        machine_payload ← c.json_records identity
        configuration_bytes ← c.json_configuration configuration fingerprint_version identity
        let fingerprint = c.sha256_hex configuration_bytes
        ok (record {
          schema_version = snapshot_schema_version;
          fingerprint_version = fingerprint_version;
          bindid_algorithm = bindid_v2_algorithm;
          machine_bind_id = c.sha256_hex machine_payload;
          configuration_fingerprint = fingerprint;
          canonical_payload_sha256 = fingerprint;
          observed_at = observed_at;
          identity_records = identity;
          configuration_records = configuration;
          coverage = record {
            covered = covered;
            missing = missing;
            trusted_absent = trusted_absent;
          };
          warnings = warnings;
        })

  -- `trusted_absent` is a `BTreeSet`: the list of its elements in their order.
  unfoldable pub canonicalize_devices :
      List Device → List Text → List CoreIdentityGroup → Text → Result QuickProbeReport
  unfolding absence_record
  canonicalize_devices devices warnings trusted_absent observed_at =
      let r = collect_all devices no_records in
      digest (normalize_records (r.identity ++ map absence_record trusted_absent))
        (normalize_records r.configuration) trusted_absent observed_at warnings
