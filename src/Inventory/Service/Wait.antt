-- ===== src/Inventory/Service/Wait.antt =====
-- service.rs: the wait for the scan lease, and the renewals of it during a scan. What other processes do
-- between two rounds is an argument, and so are the instants; those of one round are one instant.
pub mod Ends
use qurbrix_hwinfo.Common.{
  ℕ, zero, suc, ◌+◌, ◌-◌, ◌*◌, Bool, true, false, not, ◌&&◌, Option, none, some, List, [], ◌∷◌,
  Text, codes, text_eq, if◌then◌else◌, leb, and_then, length,
}
use qurbrix_hwinfo.Model.Report.{ScanReport}
use qurbrix_hwinfo.Model.Snapshot.{SnapshotId, QuickProbeReport}
use qurbrix_hwinfo.Inventory.Error.{
  InventoryError, stale_lease, lease_timeout, error_code, Result, ok, err,
}
use qurbrix_hwinfo.Inventory.Store.{Time, Db, ProbeCompletion, M, continue}
use qurbrix_hwinfo.Inventory.Store.Artifact.{Disk}
use qurbrix_hwinfo.Inventory.Store.Lease.{try_acquire_lease, active_lease, renew_lease}
use qurbrix_hwinfo.Inventory.Store.Probes.{ProbeEnd, finish_probe}
use qurbrix_hwinfo.Inventory.Service.{current_state, ObserveInventoryOptions, reusable_snapshot}
use qurbrix_hwinfo.Inventory.Service.Scan.{same_snapshot}

-- `SCAN_LEASE_DURATION`, `LEASE_POLL_INTERVAL` and `LEASE_RENEW_INTERVAL`, in nanoseconds.
abbrev pub scan_lease_duration : ℕ
scan_lease_duration = 120000000000

abbrev pub lease_poll_interval : ℕ
lease_poll_interval = 20000000

-- The quick probe's report, its open row of the history, and its duration.
pub record OpenQuick : Type 0 where
  pub report : QuickProbeReport
  pub history : ℕ
  pub duration_ms : ℕ

-- What the wait is given, and the world around it: the instants of the rounds on the clock of the
-- lease and on the steady one, and what others do to the store after a round.
pub record Wait : Type 0 where
  pub disk : Disk
  pub time : Time
  pub options : ObserveInventoryOptions
  pub owner_id : Text
  pub lease_wait_timeout : ℕ
  pub baseline_current : Option SnapshotId
  pub quick : Option OpenQuick
  pub utc : ℕ → ℕ
  pub steady : ℕ → ℕ
  pub others : ℕ → Db → Db

pub data Waited : Type 0 where
  acquired : Waited
  reused_snapshot : SnapshotId → Waited

pub data Round : Type 0 where
  ended : Result Waited → Db → Round
  again : Option (Text × Text) → ℕ → Db → Round

-- `==` on what `active_lease` returns.
unfoldable pub same_lease : Option (Text × Text) → Option (Text × Text) → Bool
unfolding text_eq
same_lease none none = true
same_lease (some a) (some b) = text_eq a.0 b.0 && text_eq a.1 b.1
same_lease _ _ = false

abbrev pub ended_unit : Waited → Result (Unit {0}) → Db → Round
ended_unit w (ok _) db = ended (ok w) db
ended_unit w (err e) db = ended (err e) db

module _ (w : Wait) (k : ℕ) where
  -- A snapshot that a peer published, or that serves by now.
  unfoldable pub peer_reusable : Db → Option SnapshotId
  unfolding current_state reusable_snapshot
  peer_reusable db = and_then w.quick λ quick.
      reusable_snapshot w.disk w.time (w.utc k) (current_state db) quick.report w.options
        (not (same_snapshot db.state.current_snapshot_id w.baseline_current)) db

  unfoldable pub finish_reused : SnapshotId → Db → Round
  unfolding finish_probe
  finish_reused id db = elim w.quick [
    | none ↦ ended (ok (reused_snapshot id)) db
    | some quick ↦
        let (r, db') =
          finish_probe w.time (w.utc k) quick.history
            (record {
              completion = ProbeCompletion.succeeded;
              snapshot_id = some id;
              machine_bind_id = some quick.report.machine_bind_id;
              configuration_fingerprint = some quick.report.configuration_fingerprint;
              duration_ms = some quick.duration_ms;
              warning_count = some (length quick.report.warnings);
              error_code = none;
              error_message = none;
            })
            db in
        ended_unit (reused_snapshot id) r db'
  ]

  -- The quick probe's row is ended, and an error of that is dropped.
  unfoldable pub time_out : Db → Round
  unfolding finish_probe
  time_out db = elim w.quick [
    | none ↦ ended (err lease_timeout) db
    | some quick ↦
        ended (err lease_timeout)
          (finish_probe w.time (w.utc k) quick.history
            (record {
              completion = ProbeCompletion.failed;
              snapshot_id = none;
              machine_bind_id = none;
              configuration_fingerprint = none;
              duration_ms = some quick.duration_ms;
              warning_count = none;
              error_code = some (error_code lease_timeout);
              error_message = some (codes "timed out waiting for the snapshot scan lease");
            })
            db).1
  ]

  -- The progress of the lease: the waiting time starts anew when another lease is seen.
  unfoldable pub check_progress :
      Option (Text × Text) → ℕ → Result (Option (Text × Text)) → Db → Round
  unfolding time_out same_lease
  check_progress observed started (err e) db = ended (err e) db
  check_progress observed started (ok active) db =
      let since = if same_lease active observed then started else w.steady k in
      if leb w.lease_wait_timeout (w.steady k - since)
      then time_out db
      else again (if same_lease active observed then observed else active) since db

  unfoldable pub refused : Option (Text × Text) → ℕ → Db → Round
  unfolding peer_reusable finish_reused check_progress active_lease
  refused observed started db = elim (peer_reusable db) [
    | some id ↦ finish_reused id db
    | none ↦
        let (r, db') = active_lease w.time (w.utc k) db in check_progress observed started r db'
  ]

  unfoldable pub attempted : Option (Text × Text) → ℕ → Result Bool → Db → Round
  unfolding refused
  attempted observed started (err e) db = ended (err e) db
  attempted observed started (ok true) db = ended (ok acquired) db
  attempted observed started (ok false) db = refused observed started db

  -- One round of the loop, up to its sleep.
  unfoldable pub poll : Option (Text × Text) → ℕ → Db → Round
  unfolding attempted try_acquire_lease
  poll observed started db =
      let (r, db') = try_acquire_lease w.time (w.utc k) w.owner_id scan_lease_duration db in
      attempted observed started r db'

-- The loop, for a number of rounds at most.
unfoldable pub wait_for_lease :
    Wait → ℕ → ℕ → Option (Text × Text) → ℕ → Db → Option (Result Waited × Db)
unfolding poll
wait_for_lease w zero k observed started db = none
wait_for_lease w (suc fuel) k observed started db = elim (poll w k observed started db) [
  | ended r db' ↦ some (r, db')
  | again o s db' ↦ wait_for_lease w fuel (suc k) o s (w.others k db')
]

-- A tick of the renewals: what others did to the store before it, and its instant.
pub record Tick : Type 0 where
  pub meanwhile : Db → Db
  pub instant : ℕ

-- `scan_with_lease_policy`: the renewals up to the end of the scan, and then its outcome.
unfoldable pub scan_with_lease_policy : Time → Text → ℕ → List Tick → M ScanReport → M ScanReport
unfolding renew_lease
scan_with_lease_policy t owner duration [] scan db = scan db
scan_with_lease_policy t owner duration (tick ∷ ticks) scan db =
    let (r, db') = renew_lease t tick.instant owner duration (tick.meanwhile db) in
    continue r
      (λ renewed. if renewed then scan_with_lease_policy t owner duration ticks scan else λ db.
        (err stale_lease, db))
      db'
