-- ===== src/Tests/Waiting.antt =====
-- A process that waits for the lease of another.
use qurbrix_hwinfo.Common.{
  ℕ, suc, ◌+◌, ◌*◌, ◌/◌, ◌≡◌, refl, true, false, Option, none, some, Text, codes, [], ◌∷◌, arith,
}
use qurbrix_hwinfo.Model.Snapshot.{PartialPolicy}
use qurbrix_hwinfo.Inventory.Error.{ok, err, lease_timeout, stale_lease}
use qurbrix_hwinfo.Inventory.Store.{empty_db}
use qurbrix_hwinfo.Inventory.Service.Wait.{
  Wait, wait_for_lease, lease_poll_interval, scan_with_lease_policy,
}
use qurbrix_hwinfo.Inventory.Service.Wait.Ends.{wait_for_lease-ends, ends, IsQuiet}
use qurbrix_hwinfo.Tests.Data.{clock, disk, leased_db, sample_report}

-- The lease of the peer lives until the instant 100.
abbrev waiting : ℕ → Wait
waiting now = record {
  disk = disk;
  time = clock;
  options = record {
    force_full_scan = false;
    max_snapshot_age = none;
    partial_policy = PartialPolicy.reject;
  };
  owner_id = codes "waiter";
  lease_wait_timeout = 30000000;
  baseline_current = none;
  quick = none;
  utc = λ k. now + k;
  steady = λ k. k * 20000000;
  others = λ _ db. db;
}

undisturbed : IsQuiet (waiting 1)
undisturbed = (λ k db. refl, λ k. omega arith)

wait_for_lease-ends_example :
    ends (wait_for_lease (waiting 1) (30000000 / lease_poll_interval + 3) 0 none 0 leased_db) ≡ true
wait_for_lease-ends_example = wait_for_lease-ends (waiting 1) undisturbed 0 leased_db (omega arith)

-- It gives up in the third round, or has the lease as soon as it has ended.
gave_up : wait_for_lease (waiting 1) 3 0 none 0 leased_db ≡ some (err lease_timeout, leased_db)
unfolding wait_for_lease qurbrix_hwinfo.Common.text_leb
gave_up = refl

renewed :
    (scan_with_lease_policy clock
      (codes "me")
      50
      (record { meanwhile = λ db. db; instant = 20 }
        ∷ record { meanwhile = λ db. db; instant = 40 }
        ∷ [])
      (λ db. (ok sample_report, db))
      leased_db).0
    ≡ ok sample_report
unfolding scan_with_lease_policy qurbrix_hwinfo.Common.text_eq qurbrix_hwinfo.Common.text_leb
renewed = refl

lost :
    (scan_with_lease_policy clock
      (codes "me")
      50
      (record { meanwhile = λ db. empty_db; instant = 20 } ∷ [])
      (λ db. (ok sample_report, db))
      leased_db).0
    ≡ err stale_lease
unfolding scan_with_lease_policy
lost = refl
