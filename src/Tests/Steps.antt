-- ===== src/Tests/Steps.antt =====
-- A run of the store's operations, and the theorem on it.
use qurbrix_hwinfo.Common.{◌≡◌, refl, Bool, false, ℕ, some, codes, Text}
use qurbrix_hwinfo.Inventory.Store.{Db, empty_db}
use qurbrix_hwinfo.Inventory.Store.Lease.{try_acquire_lease}
use qurbrix_hwinfo.Inventory.Store.Publish.{publish}
use qurbrix_hwinfo.Inventory.Store.Retention.{RetentionPolicy}
use qurbrix_hwinfo.Inventory.Store.Retention.Apply.{apply_retention}
use qurbrix_hwinfo.Inventory.Store.Steps.{here, next, acquired, published, retained}
use qurbrix_hwinfo.Inventory.Store.Steps.Current.{HasCurrent}
use qurbrix_hwinfo.Inventory.Store.Steps.Always.{Reach-HasCurrent}
use qurbrix_hwinfo.Tests.Data.{clock, disk, sample_publication}

abbrev strict : RetentionPolicy
strict = record { dry_run = false; keep_recent_per_machine = 0; uploaded_max_age = 0 }

abbrev leased : Db
leased = (try_acquire_lease clock 1 (codes "me") 1000 empty_db).1

abbrev stored : Db
stored = (publish disk clock 5 sample_publication leased).1

abbrev cleaned : Db
cleaned = (apply_retention disk clock strict 90 stored).1

cleaned-current : cleaned.state.current_snapshot_id ≡ some (codes "a")
unfolding try_acquire_lease publish apply_retention qurbrix_hwinfo.Common.sort
    qurbrix_hwinfo.Model.Snapshot.core_complete qurbrix_hwinfo.Model.Snapshot.has_group
    qurbrix_hwinfo.Inventory.Store.Artifact.write_report qurbrix_hwinfo.Common.starts_with
    qurbrix_hwinfo.Common.split qurbrix_hwinfo.Common.text_eq qurbrix_hwinfo.Common.text_leb
    qurbrix_hwinfo.Inventory.Store.is_storable
cleaned-current = refl

Reach-HasCurrent_example : HasCurrent cleaned
Reach-HasCurrent_example = Reach-HasCurrent disk clock (
    next (next (next here (acquired 1 (codes "me") 1000)) (published 5 sample_publication))
      (retained strict 90))
