-- ===== src/Inventory/Store/Steps.antt =====
-- The operations of the store as steps, of whichever processes, in whatever order.
pub mod Current
pub mod Published
pub mod Retained
pub mod Always
use qurbrix_hwinfo.Common.{ℕ, Bool, Option, Text}
use qurbrix_hwinfo.Model.Snapshot.{SnapshotId}
use qurbrix_hwinfo.Inventory.Store.{Time, Db, ProbeKind}
use qurbrix_hwinfo.Inventory.Store.Artifact.{Disk}
use qurbrix_hwinfo.Inventory.Store.Lease.{try_acquire_lease, renew_lease, release_lease}
use qurbrix_hwinfo.Inventory.Store.Probes.{ProbeEnd, start_probe, finish_probe, recover_stale}
use qurbrix_hwinfo.Inventory.Store.Publish.{Publication, publish}
use qurbrix_hwinfo.Inventory.Store.Retention.{RetentionPolicy, set_pinned, mark_uploaded}
use qurbrix_hwinfo.Inventory.Store.Retention.Apply.{apply_retention}

module _ (d : Disk) (t : Time) where
  pub data Step (db : Db) : Db → Type 0 where
    published : (now : ℕ) (p : Publication) → Step db (publish d t now p db).1
    retained : (policy : RetentionPolicy) (now : ℕ) → Step db (apply_retention d t policy now db).1
    pinned : (now : ℕ) (id : SnapshotId) (pin : Bool) → Step db (set_pinned t now id pin db).1
    uploaded :
        (now : ℕ) (id : SnapshotId) (at : Option Text) → Step db (mark_uploaded t now id at db).1
    acquired :
        (now : ℕ) (owner : Text) (duration : ℕ)
        → Step db (try_acquire_lease t now owner duration db).1
    renewed :
        (now : ℕ) (owner : Text) (duration : ℕ) → Step db (renew_lease t now owner duration db).1
    released : (owner : Text) → Step db (release_lease owner db).1
    started :
        (now : ℕ) (kind : ProbeKind) (previous : Option SnapshotId)
        → Step db (start_probe t now kind previous db).1
    finished : (now id : ℕ) (end : ProbeEnd) → Step db (finish_probe t now id end db).1
    recovered : (now age : ℕ) → Step db (recover_stale t now age db).1

  pub data Reach (db : Db) : Db → Type 0 where
    here : Reach db db
    next : {a b : Db} → Reach db a → Step a b → Reach db b
