-- ===== src/Inventory/Store/Steps/Current.antt =====
-- The rule that the current snapshot is one that is stored, and the operations on single rows.
use qurbrix_hwinfo.Common.{
  codes, ℕ, ◌≡◌, refl, ◌∙◌, ap₂, Bool, true, Option, none, some, List, [], ◌∷◌, Text, any,
  Bool-cases, inl, inr, arith,
}
use qurbrix_hwinfo.Model.Snapshot.{SnapshotId}
use qurbrix_hwinfo.Inventory.Error.{Result, ok, err}
use qurbrix_hwinfo.Inventory.Store.{
  Time, Db, SnapshotRow, ProbeKind, M, continue, timestamp, now_rfc3339,
}
use qurbrix_hwinfo.Inventory.Store.Lease.{try_acquire_lease, renew_lease, release_lease, take_lease}
use qurbrix_hwinfo.Inventory.Store.Probes.{
  ProbeEnd, start_probe, finish_probe, recover_stale, insert_probe, finish_row, recover, earlier,
}
use qurbrix_hwinfo.Inventory.Store.Retention.{
  has_id, set_pinned, set_pin, mark_uploaded, set_upload, upload_time,
}
use qurbrix_hwinfo.Inventory.Store.Retention.Protected.{Kept}

-- There is no current snapshot, or it is in the table.
abbrev pub is_stored : Option SnapshotId → List SnapshotRow → Bool
is_stored none rows = true
is_stored (some id) rows = any (has_id id) rows

abbrev pub HasCurrent : Db → Type 0
HasCurrent db = is_stored db.state.current_snapshot_id db.snapshots ≡ true

any-set_pin :
    (id other : SnapshotId) (pin : Bool) (rows : List SnapshotRow)
    → any (has_id id) (set_pin other pin rows) ≡ any (has_id id) rows
unfolding has_id
any-set_pin id other pin [] = refl
any-set_pin id other pin (r ∷ rs) = ground (arith, any-set_pin id other pin rs)

any-set_upload :
    (id other : SnapshotId) (at : Text) (rows : List SnapshotRow)
    → any (has_id id) (set_upload other at rows) ≡ any (has_id id) rows
unfolding has_id
any-set_upload id other at [] = refl
any-set_upload id other at (r ∷ rs) = ground (arith, any-set_upload id other at rs)

is_stored-set_pin :
    (o : Option SnapshotId) (other : SnapshotId) (pin : Bool) (rows : List SnapshotRow)
    → is_stored o (set_pin other pin rows) ≡ is_stored o rows
is_stored-set_pin none other pin rows = refl
is_stored-set_pin (some id) other pin rows = any-set_pin id other pin rows

is_stored-set_upload :
    (o : Option SnapshotId) (other : SnapshotId) (at : Text) (rows : List SnapshotRow)
    → is_stored o (set_upload other at rows) ≡ is_stored o rows
is_stored-set_upload none other at rows = refl
is_stored-set_upload (some id) other at rows = any-set_upload id other at rows

-- What leaves the snapshots and the state alone keeps the current one.
pub Kept-HasCurrent : (a b : Db) → Kept a b → HasCurrent b → HasCurrent a
Kept-HasCurrent a b (snapshots, state) h =
    ap₂ (λ s rows. is_stored s.current_snapshot_id rows) state snapshots ∙ h

pub continue-HasCurrent {ℓ κ} :
    {A : Type ℓ} {B : Type κ} (r : Result A) (f : A → M B) (db : Db)
    → ((a : A) → HasCurrent (f a db).1)
    → HasCurrent db
    → HasCurrent (continue r f db).1
continue-HasCurrent (ok a) f db k h = k a
continue-HasCurrent (err e) f db k h = h

pub set_pinned-HasCurrent :
    (t : Time) (now : ℕ) (id : SnapshotId) (pin : Bool) (db : Db)
    → HasCurrent db
    → HasCurrent (set_pinned t now id pin db).1
unfolding set_pinned
set_pinned-HasCurrent t now id pin db h =
    continue-HasCurrent (timestamp t now (codes "UTC timestamp formatting failed")) _ db
      (λ _. elim (Bool-cases (any (has_id id) db.snapshots)) [
        | inl e ↦ rw e (is_stored-set_pin db.state.current_snapshot_id id pin db.snapshots ∙ h)
        | inr e ↦ rw e h
      ])
      h

pub mark_uploaded-HasCurrent :
    (t : Time) (now : ℕ) (id : SnapshotId) (at : Option Text) (db : Db)
    → HasCurrent db
    → HasCurrent (mark_uploaded t now id at db).1
unfolding mark_uploaded
mark_uploaded-HasCurrent t now id at db h =
    continue-HasCurrent (upload_time t now at) _ db
      (λ text. elim (Bool-cases (any (has_id id) db.snapshots)) [
        | inl e ↦ rw e (is_stored-set_upload db.state.current_snapshot_id id text db.snapshots ∙ h)
        | inr e ↦ rw e h
      ])
      h

module _ (t : Time) (now : ℕ) (db : Db) (h : HasCurrent db) where
  pub try_acquire_lease-HasCurrent :
      (owner : Text) (d : ℕ) → HasCurrent (try_acquire_lease t now owner d db).1
  unfolding try_acquire_lease take_lease timestamp
  try_acquire_lease-HasCurrent owner d = ground arith

  pub renew_lease-HasCurrent : (owner : Text) (d : ℕ) → HasCurrent (renew_lease t now owner d db).1
  unfolding renew_lease timestamp
  renew_lease-HasCurrent owner d = ground arith

  pub start_probe-HasCurrent :
      (kind : ProbeKind) (previous : Option SnapshotId)
      → HasCurrent (start_probe t now kind previous db).1
  unfolding start_probe insert_probe now_rfc3339 timestamp
  start_probe-HasCurrent kind previous = ground arith

  pub finish_probe-HasCurrent : (id : ℕ) (e : ProbeEnd) → HasCurrent (finish_probe t now id e db).1
  unfolding finish_probe finish_row now_rfc3339 timestamp
  finish_probe-HasCurrent id e = ground arith

  pub recover_stale-HasCurrent : (age : ℕ) → HasCurrent (recover_stale t now age db).1
  unfolding recover_stale recover earlier now_rfc3339 timestamp
  recover_stale-HasCurrent age = ground arith

  pub release_lease-HasCurrent : (owner : Text) → HasCurrent (release_lease owner db).1
  unfolding release_lease
  release_lease-HasCurrent owner = ground arith
