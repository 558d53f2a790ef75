-- ===== src/Inventory/Service/Reuse.antt =====
-- The reuse of a snapshot.
use qurbrix_hwinfo.Common.{
  ℕ, ◌≡◌, refl, sym, ap, ◌∙◌, Bool, true, false, Option, some, not, ◌&&◌, ◌||◌, if◌then◌else◌,
  and_then, none, arith,
}
use qurbrix_hwinfo.Model.Snapshot.{SnapshotId, QuickProbeReport}
use qurbrix_hwinfo.Inventory.Store.{Time, Db}
use qurbrix_hwinfo.Inventory.Store.Artifact.{Disk}
use qurbrix_hwinfo.Inventory.Store.Publish.{load_scan_report}
use qurbrix_hwinfo.Inventory.Service.{
  InventoryState, ObserveInventoryOptions, hardware_changed, is_fresh, is_loaded, reuse_current,
  reusable_snapshot, same_hardware,
}

decided :
    (force same fresh loaded : Bool) (current id : SnapshotId)
    → (if force
        then none
        else if not same || not fresh
        then none
        else if loaded
        then some current
        else none)
      ≡ some id
    → (force ≡ false) × (same ≡ true) × (fresh ≡ true) × (loaded ≡ true) × (current ≡ id)
decided true same fresh loaded current id h = cc
decided false false fresh loaded current id h = cc
decided false true false loaded current id h = cc
decided false true true false current id h = cc
decided false true true true current id h = (refl, refl, refl, refl, cc)

and_then-some :
    (o : Option SnapshotId) (f : SnapshotId → Option SnapshotId) (id : SnapshotId)
    → and_then o f ≡ some id
    → (c : SnapshotId) × (o ≡ some c) × (f c ≡ some id)
and_then-some none f id h = cc
and_then-some (some c) f id h = (c, refl, h)

same_hardware-changed :
    (state : InventoryState) (quick : QuickProbeReport) (id : SnapshotId)
    → state.current_snapshot_id ≡ some id
    → same_hardware state quick ≡ true
    → hardware_changed state quick ≡ false
unfolding hardware_changed same_hardware
same_hardware-changed state quick id e h = ground arith

-- A snapshot is used again only if it is the current one, no full scan is forced unless that is to be
-- ignored, the hardware has not changed, the snapshot is fresh, and its report loads.
pub reusable_snapshot-some :
    (d : Disk) (t : Time) (now : ℕ) (state : InventoryState) (quick : QuickProbeReport)
    (options : ObserveInventoryOptions) (ignore_force : Bool) (db : Db) (id : SnapshotId)
    → reusable_snapshot d t now state quick options ignore_force db ≡ some id
    → (state.current_snapshot_id ≡ some id)
      × ((options.force_full_scan && not ignore_force) ≡ false)
      × (hardware_changed state quick ≡ false)
      × (is_fresh t now state.current_snapshot_created_at options.max_snapshot_age ≡ true)
      × (is_loaded (load_scan_report d id db).0 ≡ true)
unfolding reusable_snapshot reuse_current
reusable_snapshot-some d t now state quick options ignore_force db id h =
    let (c, e, k) =
      and_then-some state.current_snapshot_id
        (reuse_current d t now state quick options ignore_force db) id h in
    let (force, same, fresh, loaded, p) =
      decided (options.force_full_scan && not ignore_force) (same_hardware state quick)
        (is_fresh t now state.current_snapshot_created_at options.max_snapshot_age)
        (is_loaded (load_scan_report d c db).0) c id k in
    (
      e ∙ ap some p,
      force,
      same_hardware-changed state quick c e same,
      fresh,
      sym (ap (λ i. is_loaded (load_scan_report d i db).0) p) ∙ loaded,
    )
