-- ===== src/Inventory/Error.antt =====
-- crates/hw-inventory/src/error.rs. A library's error is kept as its message, an input or output
-- error also with the kinds that the program tells apart.
use qurbrix_hwinfo.Common.{ℕ, ◌≡◌, refl, ap, ◌++◌, Text, codes, to_string}
use qurbrix_hwinfo.Model.Snapshot.{SnapshotId}

pub data IoKind : Type 0 where
  not_found permission_denied other : IoKind

pub data InventoryError : Type 0 where
  database : Text → InventoryError
  io : IoKind → InventoryError
  serialization : Text → InventoryError
  worker : Text → InventoryError
  unsupported_schema : ℕ → InventoryError
  invalid_artifact_path : Text → InventoryError
  artifact_size_mismatch artifact_hash_mismatch artifact_schema_mismatch : InventoryError
  invalid_report : Text → InventoryError
  invalid_snapshot_id : Text → InventoryError
  full_scan_failed partial_rejected core_identity_incomplete : InventoryError
  lease_timeout stale_lease : InventoryError
  snapshot_not_found : SnapshotId → InventoryError
  destination_exists : Text → InventoryError

-- `InventoryError::code`.
unfoldable pub error_code : InventoryError → Text
error_code (database _) = codes "inventory.database"
error_code (io _) = codes "inventory.io"
error_code (serialization _) = codes "inventory.serialization"
error_code (worker _) = codes "inventory.worker"
error_code (unsupported_schema _) = codes "inventory.schema_unsupported"
error_code (invalid_artifact_path _) = codes "inventory.artifact_path"
error_code artifact_size_mismatch = codes "inventory.artifact_size"
error_code artifact_hash_mismatch = codes "inventory.artifact_hash"
error_code artifact_schema_mismatch = codes "inventory.artifact_schema"
error_code (invalid_report _) = codes "inventory.report_invalid"
error_code (invalid_snapshot_id _) = codes "inventory.snapshot_id"
error_code full_scan_failed = codes "inventory.full_scan_failed"
error_code partial_rejected = codes "inventory.partial_rejected"
error_code core_identity_incomplete = codes "inventory.core_identity_incomplete"
error_code lease_timeout = codes "inventory.lease_timeout"
error_code stale_lease = codes "inventory.stale_lease"
error_code (snapshot_not_found _) = codes "inventory.snapshot_not_found"
error_code (destination_exists _) = codes "inventory.destination_exists"

-- The text of an error, given what the system says of an input or output error.
unfoldable pub error_text : (IoKind → Text) → InventoryError → Text
unfolding to_string
error_text f (database m) = codes "database error: " ++ m
error_text f (io kind) = codes "filesystem error: " ++ f kind
error_text f (serialization m) = codes "serialization error: " ++ m
error_text f (worker m) = codes "blocking inventory worker failed: " ++ m
error_text f (unsupported_schema v) = codes "unsupported database schema version " ++ to_string v
error_text f (invalid_artifact_path path) = codes "invalid artifact path: " ++ path
error_text f artifact_size_mismatch = codes "artifact size mismatch"
error_text f artifact_hash_mismatch = codes "artifact SHA-256 mismatch"
error_text f artifact_schema_mismatch = codes "artifact schema mismatch"
error_text f (invalid_report m) = codes "invalid published report: " ++ m
error_text f (invalid_snapshot_id id) = codes "stored snapshot identifier is invalid: " ++ id
error_text f full_scan_failed = codes "full hardware scan failed"
error_text f partial_rejected = codes "partial hardware scan was rejected by policy"
error_text f core_identity_incomplete = codes "core hardware identity is incomplete"
error_text f lease_timeout = codes "timed out waiting for the snapshot scan lease"
error_text f stale_lease = codes "scan lease is no longer owned by this publisher"
error_text f (snapshot_not_found id) = codes "snapshot not found: " ++ id
error_text f (destination_exists path) = codes "destination already exists: " ++ path

pub data Result {ℓ} (A : Type ℓ) : Type ℓ where
  ok : A → Result A
  err : InventoryError → Result A

infixl 5 ◌>>=◌
abbrev pub ◌>>=◌ {ℓ κ} : {A : Type ℓ} {B : Type κ} → Result A → (A → Result B) → Result B
ok a >>= f = f a
err e >>= f = err e

-- The value that a `?` let through, and what the code behind it then gave.
abbrev pub Through {ℓ κ} : {A : Type ℓ} {B : Type κ} → Result A → (A → Result B) → B → Type (ℓ ⊔ κ)
Through {A} r next out = (value : A) × ((r ≡ ok value) × (next value ≡ ok out))

pub >>=-Through {ℓ κ} :
    {A : Type ℓ} {B : Type κ} (r : Result A) (next : A → Result B) (out : B)
    → (r >>= next) ≡ ok out
    → Through r next out
>>=-Through (err reason) next out passed = cc
>>=-Through (ok value) next out passed = (value, (refl, passed))

pub ok_injective {ℓ} : {A : Type ℓ} (a b : A) → ok a ≡ ok b → a ≡ b
ok_injective {A} a b e = ap value e
  where
    value : Result A → A
    value (ok x) = x
    value (err _) = a
