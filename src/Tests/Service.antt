-- ===== src/Tests/Service.antt =====
-- The service's theorems at concrete inputs.
use qurbrix_hwinfo.Common.{
  Bool, ℕ, ◌≡◌, refl, true, false, not, ◌&&◌, none, some, [], ◌∷◌, Text, codes, text_eq,
}
use qurbrix_hwinfo.Model.Report.{ScanReport}
use qurbrix_hwinfo.Model.Snapshot.{PartialPolicy}
use qurbrix_hwinfo.Inventory.Error.{err, full_scan_failed}
use qurbrix_hwinfo.Inventory.Store.{Db, M, empty_db}
use qurbrix_hwinfo.Inventory.Store.Publish.{publish, load_scan_report}
use qurbrix_hwinfo.Inventory.Service.{
  ObserveInventoryOptions, current_state, reusable_snapshot, hardware_changed, is_fresh, is_loaded,
}
use qurbrix_hwinfo.Inventory.Service.Scan.{Setting, run_full_scan_under_lease}
use qurbrix_hwinfo.Inventory.Service.Reuse.{reusable_snapshot-some}
use qurbrix_hwinfo.Inventory.Service.Untouched.{Untouched, run_full_scan_under_lease-err}
use qurbrix_hwinfo.Model.Device.{Device}
use qurbrix_hwinfo.Model.Snapshot.{StoredSnapshot}
use qurbrix_hwinfo.Inventory.Diff.{compared}
use qurbrix_hwinfo.Inventory.Diff.Reversed.{compared-reversed}
use qurbrix_hwinfo.Tests.Data.{
  cpu_device, sample_row, clock, disk, codec, sample_probe, sample_publication, leased_db,
  stocked_db,
}

abbrev published_db : Db
published_db = (publish disk clock 5 sample_publication leased_db).1

abbrev options : ObserveInventoryOptions
options = record {
  force_full_scan = false;
  max_snapshot_age = some 9000000000;
  partial_policy = PartialPolicy.reject;
}

reuses :
    reusable_snapshot disk clock 6
      (current_state published_db)
      sample_probe
      options
      false
      published_db
    ≡ some (codes "a")
unfolding reusable_snapshot current_state publish qurbrix_hwinfo.Model.Snapshot.core_complete
    qurbrix_hwinfo.Model.Snapshot.has_group qurbrix_hwinfo.Inventory.Store.Artifact.write_report
    qurbrix_hwinfo.Common.starts_with qurbrix_hwinfo.Common.split text_eq
    qurbrix_hwinfo.Common.text_leb qurbrix_hwinfo.Inventory.Store.Publish.find_snapshot
    load_scan_report qurbrix_hwinfo.Common.join qurbrix_hwinfo.Inventory.Store.is_storable
reuses = refl

reusable_snapshot-some_example :
    ((current_state published_db).current_snapshot_id ≡ some (codes "a"))
    × ((options.force_full_scan && not false) ≡ false)
    × (hardware_changed (current_state published_db) sample_probe ≡ false)
    × (is_fresh clock 6
          (current_state published_db).current_snapshot_created_at
          options.max_snapshot_age
        ≡ true)
    × (is_loaded (load_scan_report disk (codes "a") published_db).0 ≡ true)
reusable_snapshot-some_example =
    reusable_snapshot-some disk clock 6 (current_state published_db) sample_probe options false
      published_db (codes "a") reuses

abbrev setting : Setting
setting = record {
  disk = disk;
  time = clock;
  codec = codec;
  io_text = λ _. codes "io";
  started = 5;
  ended = 7;
  duration_ms = 2;
  new_id = codes "b";
}

abbrev failing_scan : M ScanReport
failing_scan db = (err full_scan_failed, db)

scan_fails :
    (run_full_scan_under_lease setting options failing_scan none none (codes "me") stocked_db).0
    ≡ err full_scan_failed
unfolding run_full_scan_under_lease qurbrix_hwinfo.Inventory.Store.Probes.start_probe
scan_fails = refl

run_full_scan_under_lease-err_example :
    Untouched
      (run_full_scan_under_lease setting options failing_scan none none (codes "me") stocked_db).1
      stocked_db
run_full_scan_under_lease-err_example =
    run_full_scan_under_lease-err setting options failing_scan none none (codes "me") stocked_db
      full_scan_failed (λ x. (refl, refl)) scan_fails

abbrev second_device : Device
second_device = record cpu_device { id = codes "cpu:1" }

abbrev never_equal : Device → Device → Bool
never_equal a b = false

abbrev stored : StoredSnapshot
stored = (sample_row (codes "a") 1 false none).stored

compared-reversed_example :
    ((compared never_equal stored stored (cpu_device ∷ []) (second_device ∷ [])).added
      ≡ (compared never_equal stored stored (second_device ∷ []) (cpu_device ∷ [])).removed)
    × ((compared never_equal stored stored (cpu_device ∷ []) (second_device ∷ [])).removed
        ≡ (compared never_equal stored stored (second_device ∷ []) (cpu_device ∷ [])).added)
compared-reversed_example =
    compared-reversed never_equal stored stored (cpu_device ∷ []) (second_device ∷ [])
