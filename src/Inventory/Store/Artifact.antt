-- ===== src/Inventory/Store/Artifact.antt =====
-- artifact.rs: the report files under the state directory. A file is known by its place there, and
-- the disk may refuse an operation.
pub mod Confined
use qurbrix_hwinfo.Common.{
  ℕ, ◌≡◌, Bool, true, false, not, ◌&&◌, ◌||◌, Option, none, some, List, [], ◌∷◌, ◌++◌, Text, codes,
  text_eq, if◌then◌else◌, ◌==◌, length, any, all, retain, is_none, split, is_empty, starts_with,
  join,
}
use qurbrix_hwinfo.Model.Snapshot.{SnapshotId, ArtifactMetadata}
use qurbrix_hwinfo.Model.Report.{ScanReport}
use qurbrix_hwinfo.Inventory.Error.{InventoryError, IoKind, Result, ok, err}
use qurbrix_hwinfo.Inventory.Store.{Db, M, continue, ◌>>=◌, pure, raise, lift}

-- The outcome of writing a file and renaming it to its place: it may fail before or after the rename.
pub data WriteOutcome : Type 0 where
  written : WriteOutcome
  before_rename after_rename : IoKind → WriteOutcome

-- The disk, serde_json and sha2.
pub record Disk : Type 0 where
  pub write : Text → WriteOutcome
  pub refuses_read : Text → Option IoKind
  pub refuses_remove : Text → Option IoKind
  pub to_vec : ScanReport → Option (List ℕ)
  pub from_slice : List ℕ → Option ScanReport
  pub sha256_hex : List ℕ → Text

-- `std::path::Component`, for a Unix path.
pub data Component : Type 0 where
  root_dir cur_dir parent_dir : Component
  normal : Text → Component

-- The pieces between slashes: an empty one and a `.` name nothing, but for a leading `.`.
unfoldable pub piece_components : List Text → List Component
piece_components [] = []
piece_components (p ∷ ps) =
    let rest = piece_components ps in
    if is_empty p || text_eq p (codes ".")
    then rest
    else if text_eq p (codes "..")
    then parent_dir ∷ rest
    else normal p ∷ rest

unfoldable pub leading : List Text → List Component
leading [] = []
leading (p ∷ ps) = if text_eq p (codes ".") then cur_dir ∷ [] else []

abbrev pub is_absolute : Text → Bool
is_absolute path = starts_with (codes "/") path

-- `Path::components`.
unfoldable pub components : Text → List Component
unfolding piece_components leading
components path =
    if is_absolute path
    then root_dir ∷ piece_components (split b'/' path)
    else leading (split b'/' path) ++ piece_components (split b'/' path)

abbrev pub is_normal : Component → Bool
is_normal (normal _) = true
is_normal _ = false

-- What the first component is as a text.
abbrev pub first_text : List Component → Option Text
first_text [] = none
first_text (normal s ∷ _) = some s
first_text (root_dir ∷ _) = some (codes "/")
first_text (cur_dir ∷ _) = some (codes ".")
first_text (parent_dir ∷ _) = some (codes "..")

abbrev pub component_text : Component → Text
component_text (normal s) = s
component_text root_dir = codes "/"
component_text cur_dir = codes "."
component_text parent_dir = codes ".."

abbrev pub is_reports : Option Text → Bool
is_reports none = false
is_reports (some s) = text_eq s (codes "reports")

abbrev pub texts : List Component → List Text
texts [] = []
texts (c ∷ cs) = component_text c ∷ texts cs

-- `safe_artifact_path`, with the place of the file under the state directory.
unfoldable pub safe_artifact_path : Text → Result Text
unfolding components
safe_artifact_path relative =
    if is_absolute relative
      || any (λ part. not (is_normal part)) (components relative)
      || not (length (components relative) == 2)
      || not (is_reports (first_text (components relative)))
    then err (InventoryError.invalid_artifact_path relative)
    else ok (join (codes "/") (texts (components relative)))

-- The content of the file at a place.
unfoldable pub file_at : Text → List (Text × List ℕ) → Option (List ℕ)
file_at path [] = none
file_at path ((p, bytes) ∷ fs) = if text_eq p path then some bytes else file_at path fs

abbrev pub without_file : Text → List (Text × List ℕ) → List (Text × List ℕ)
without_file path files = retain (λ f. not (text_eq f.0 path)) files

-- A rename replaces what was at the place.
abbrev pub put_file : Text → List ℕ → Db → Db
put_file path bytes db = record db { files = (path, bytes) ∷ without_file path db.files }

abbrev pub report_path : SnapshotId → Text
report_path id = codes "reports/" ++ (id ++ codes ".json")

abbrev pub metadata_of : Disk → SnapshotId → ScanReport → List ℕ → ArtifactMetadata
metadata_of d id report bytes = record {
  relative_path = report_path id;
  sha256 = d.sha256_hex bytes;
  size_bytes = length bytes;
  schema_version = report.schema_version;
}

unfoldable pub store_file : WriteOutcome → Text → List ℕ → M (Unit {0})
store_file WriteOutcome.written path bytes db = (ok tt, put_file path bytes db)
store_file (WriteOutcome.before_rename kind) path bytes db = (err (InventoryError.io kind), db)
store_file (WriteOutcome.after_rename kind) path bytes db =
    (err (InventoryError.io kind), put_file path bytes db)

abbrev pub to_bytes : Disk → ScanReport → Result (List ℕ)
to_bytes d report = elim (d.to_vec report) [
  | some bytes ↦ ok bytes
  | none ↦ err (InventoryError.serialization (codes "report"))
]

unfoldable pub write_report : Disk → SnapshotId → ScanReport → M ArtifactMetadata
unfolding safe_artifact_path store_file
write_report d id report = do
  path ← lift (safe_artifact_path (report_path id))
  bytes ← lift (to_bytes d report)
  _ ← store_file (d.write path) path bytes
  pure (metadata_of d id report bytes)

-- The checks of `read_report` on the bytes at the place.
unfoldable pub decode : Disk → ArtifactMetadata → List ℕ → Result ScanReport
decode d metadata bytes =
    if not (length bytes == metadata.size_bytes)
    then err InventoryError.artifact_size_mismatch
    else if not (text_eq (d.sha256_hex bytes) metadata.sha256)
    then err InventoryError.artifact_hash_mismatch
    else elim (d.from_slice bytes) [
      | none ↦ err (InventoryError.serialization (codes "report"))
      | some report ↦
          if text_eq report.schema_version metadata.schema_version
          then ok report
          else err InventoryError.artifact_schema_mismatch
    ]

-- The bytes that a file gives, or the error of the system.
abbrev pub bytes_of : Option IoKind → Option (List ℕ) → Result (List ℕ)
bytes_of (some kind) content = err (InventoryError.io kind)
bytes_of none none = err (InventoryError.io IoKind.not_found)
bytes_of none (some bytes) = ok bytes

unfoldable pub read_report : Disk → ArtifactMetadata → M ScanReport
unfolding safe_artifact_path file_at decode
read_report d metadata = do
  path ← lift (safe_artifact_path metadata.relative_path)
  bytes ← λ db. (bytes_of (d.refuses_read path) (file_at path db.files), db)
  lift (decode d metadata bytes)

-- `fs::remove_file`, where a missing file is no error.
unfoldable pub remove_file : Option IoKind → Text → M (Unit {0})
remove_file (some IoKind.not_found) path db = (ok tt, db)
remove_file (some kind) path db = (err (InventoryError.io kind), db)
remove_file none path db = (ok tt, record db { files = without_file path db.files })

unfoldable pub remove_report : Disk → Text → M (Unit {0})
unfolding safe_artifact_path remove_file
remove_report d relative = do
  path ← lift (safe_artifact_path relative)
  remove_file (d.refuses_remove path) path
