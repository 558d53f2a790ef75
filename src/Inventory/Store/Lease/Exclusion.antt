-- ===== src/Inventory/Store/Lease/Exclusion.antt =====
-- Exclusion by the scan lease: while it has not run out, nobody but its owner gets, extends or ends it.
use qurbrix_hwinfo.Common.{
  ℕ, ◌+◌, ◌≡◌, ◌≢◌, refl, Bool, true, false, ◌||◌, not, Option, Option-cases, none, some, List, [],
  ◌∷◌, Text, text_eq_sound, arith, if◌then◌else◌, All, inl, inr,
}
use qurbrix_hwinfo.Inventory.Error.{Result, ok, err}
use qurbrix_hwinfo.Inventory.Store.{Time, LeaseRow, Db, is_live}
use qurbrix_hwinfo.Inventory.Store.Lease.{try_acquire_lease, renew_lease, release_lease}

-- What a process may do to the lease, with the instant at which it does it.
pub data LeaseCall : Type 0 where
  acquire : (now : ℕ) (owner : Text) (duration : ℕ) → LeaseCall
  renew : (now : ℕ) (owner : Text) (duration : ℕ) → LeaseCall
  free : (owner : Text) → LeaseCall

abbrev granted : Result Bool → Bool
granted (ok b) = b
granted (err e) = false

-- The state behind a call, and whether it granted the lease.
unfoldable pub call : Time → LeaseCall → Db → Bool × Db
call t (acquire now owner duration) db =
    let (r, db') = try_acquire_lease t now owner duration db in (granted r, db')
call t (renew now owner duration) db =
    let (r, db') = renew_lease t now owner duration db in (granted r, db')
call t (free owner) db = (false, (release_lease owner db).1)

-- A sequence of calls of any processes: the state behind it, and whether any call was granted.
unfoldable pub calls : Time → List LeaseCall → Db → Bool × Db
calls t [] db = (false, db)
calls t (c ∷ cs) db =
    let (now, db') = call t c db in let (later, db'') = calls t cs db' in (now || later, db'')

-- The instant is before the end of the lease, by the order of the texts.
abbrev pub Within : Time → LeaseRow → ℕ → Type 0
Within t l now = (text : Text) → t.format now ≡ some text → is_live text l ≡ true

-- A call of a process other than the lease's owner, made before the lease ends.
abbrev pub Foreign : Time → LeaseRow → LeaseCall → Type 0
Foreign t l (acquire now owner duration) = (owner ≢ l.owner_id) × Within t l now
Foreign t l (renew now owner duration) = (owner ≢ l.owner_id) × Within t l now
Foreign t l (free owner) = owner ≢ l.owner_id

module _ (t : Time) (l : LeaseRow) where
  acquire-Foreign :
      (now : ℕ) (owner : Text) (duration : ℕ) (db : Db)
      → db.lease ≡ some l
      → Within t l now
      → ((call t (acquire now owner duration) db).0 ≡ false)
        × ((call t (acquire now owner duration) db).1.lease ≡ some l)
  unfolding call try_acquire_lease
  acquire-Foreign now owner duration db held within = elim (Option-cases (t.format now)) [
    | inl e ↦ ground arith
    | inr (text, e) ↦ ground (arith, within text e)
  ]

  renew-Foreign :
      (now : ℕ) (owner : Text) (duration : ℕ) (db : Db)
      → db.lease ≡ some l
      → owner ≢ l.owner_id
      → ((call t (renew now owner duration) db).0 ≡ false)
        × ((call t (renew now owner duration) db).1.lease ≡ some l)
  unfolding call renew_lease
  renew-Foreign now owner duration db held other = ground (arith, text_eq_sound l.owner_id owner)

  free-Foreign :
      (owner : Text) (db : Db)
      → db.lease ≡ some l
      → owner ≢ l.owner_id
      → (call t (free owner) db).1.lease ≡ some l
  unfolding call release_lease
  free-Foreign owner db held other = ground (arith, text_eq_sound l.owner_id owner)

  call-Foreign :
      (c : LeaseCall) (db : Db)
      → db.lease ≡ some l
      → Foreign t l c
      → ((call t c db).0 ≡ false) × ((call t c db).1.lease ≡ some l)
  call-Foreign (acquire now owner duration) db held f =
      acquire-Foreign now owner duration db held f.1
  call-Foreign (renew now owner duration) db held f = renew-Foreign now owner duration db held f.0
  call-Foreign (free owner) db held f = (unfold call in refl, free-Foreign owner db held f)

-- While a lease has not ended, whatever other processes call, no call of theirs is granted, and the
-- row stays as it is: nobody else acquires, renews or releases it.
pub calls-Foreign :
    (t : Time) (l : LeaseRow) (cs : List LeaseCall) (db : Db)
    → db.lease ≡ some l
    → All (Foreign t l) cs
    → ((calls t cs db).0 ≡ false) × ((calls t cs db).1.lease ≡ some l)
unfolding calls
calls-Foreign t l [] db held f = (refl, held)
calls-Foreign t l (c ∷ cs) db held (f, fs) =
    let (refused, kept) = call-Foreign t l c db held f in
    let (later, still) = calls-Foreign t l cs (call t c db).1 kept fs in (rw refused later, still)

-- No lease, or one that has ended by the order of the texts.
abbrev pub is_free : Text → Option LeaseRow → Bool
is_free now none = true
is_free now (some l) = not (is_live now l)

-- An acquisition is granted exactly if the table holds no lease that lives, and then the row is the
-- caller's; if it is not granted, the row stays.
pub try_acquire_lease_outcome :
    (t : Time) (now : ℕ) (owner : Text) (duration : ℕ) (db : Db) (text expires : Text)
    → t.format now ≡ some text
    → t.format (now + duration) ≡ some expires
    → ((try_acquire_lease t now owner duration db).0 ≡ ok (is_free text db.lease))
      × ((try_acquire_lease t now owner duration db).1.lease ≡ (
          if is_free text db.lease
          then some (record { owner_id = owner; acquired_at = text; expires_at = expires })
          else db.lease))
unfolding try_acquire_lease
try_acquire_lease_outcome t now owner duration db text expires p q = ground arith
