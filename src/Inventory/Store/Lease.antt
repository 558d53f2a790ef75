-- ===== src/Inventory/Store/Lease.antt =====
-- store.rs: the scan lease. The table has at most the row with id 1.
pub mod Exclusion
use qurbrix_hwinfo.Common.{
  ℕ, ◌+◌, Bool, true, false, ◌&&◌, Option, none, some, Text, codes, text_eq, text_leb,
  if◌then◌else◌,
}
use qurbrix_hwinfo.Inventory.Error.{Result, ok, err}
use qurbrix_hwinfo.Inventory.Store.{
  Time, LeaseRow, Db, M, ◌>>=◌, lift, timestamp, now_rfc3339, is_live,
}

-- `DELETE FROM scan_lease WHERE expires_at <= ?1`.
unfoldable pub sweep : Text → Option LeaseRow → Option LeaseRow
sweep now none = none
sweep now (some l) = if is_live now l then some l else none

-- `INSERT OR IGNORE`, and whether a row was inserted.
unfoldable pub insert_lease : LeaseRow → Option LeaseRow → Bool × Option LeaseRow
insert_lease l none = (true, some l)
insert_lease l (some held) = (false, some held)

-- The transaction of `try_acquire_lease_sync`.
unfoldable pub take_lease : Text → Text → Text → M Bool
unfolding sweep insert_lease
take_lease now owner expires db =
    let wanted : LeaseRow = record { owner_id = owner; acquired_at = now; expires_at = expires } in
    let (inserted, lease) = insert_lease wanted (sweep now db.lease) in
    (ok inserted, record db { lease = lease })

unfoldable pub try_acquire_lease : Time → ℕ → Text → ℕ → M Bool
unfolding take_lease timestamp
try_acquire_lease t now owner duration = do
  now_text ← lift (timestamp t now (codes "UTC timestamp formatting failed"))
  expires ← lift (timestamp t (now + duration) (codes "lease timestamp formatting failed"))
  take_lease now_text owner expires

-- `DELETE FROM scan_lease WHERE id = 1 AND owner_id = ?1`.
unfoldable pub release : Text → Option LeaseRow → Option LeaseRow
release owner none = none
release owner (some l) = if text_eq l.owner_id owner then none else some l

unfoldable pub release_lease : Text → M (Unit {0})
unfolding release
release_lease owner db = (ok tt, record db { lease = release owner db.lease })

-- `UPDATE scan_lease SET expires_at = ?1 WHERE id = 1 AND owner_id = ?2 AND expires_at > ?3`.
unfoldable pub extend : Text → Text → Text → Option LeaseRow → Bool × Option LeaseRow
extend now owner expires none = (false, none)
extend now owner expires (some l) =
    if text_eq l.owner_id owner && is_live now l
    then (true, some (record l { expires_at = expires }))
    else (false, some l)

unfoldable pub renew_lease : Time → ℕ → Text → ℕ → M Bool
unfolding extend timestamp
renew_lease t now owner duration = do
  now_text ← lift (timestamp t now (codes "UTC timestamp formatting failed"))
  expires ← lift (timestamp t (now + duration) (codes "lease timestamp formatting failed"))
  λ db.
      let (updated, lease) = extend now_text owner expires db.lease in
      (ok updated, record db { lease = lease })

unfoldable pub live_lease : Text → Option LeaseRow → Option (Text × Text)
live_lease now none = none
live_lease now (some l) = if is_live now l then some (l.owner_id, l.expires_at) else none

unfoldable pub active_lease : Time → ℕ → M (Option (Text × Text))
unfolding live_lease now_rfc3339
active_lease t now = do
  now_text ← lift (now_rfc3339 t now)
  λ db. (ok (live_lease now_text db.lease), db)

-- The check that opens a publication: `owner_id = ?1 AND expires_at > ?2`.
unfoldable pub owns : Text → Text → Option LeaseRow → Bool
owns now owner none = false
owns now owner (some l) = text_eq l.owner_id owner && is_live now l
