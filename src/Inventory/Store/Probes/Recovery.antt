-- ===== src/Inventory/Store/Probes/Recovery.antt =====
-- The recovery of probes that a process left running.
use mathlib.Core.Path.{subst}
use qurbrix_hwinfo.Common.{
  sym, ap, ℕ, ◌-◌, ◌*◌, ◌/◌, ◌^◌, ◌≤◌, ◌≡◌, ◌⊎◌, refl, min, false, true, Option, none, some, List,
  [], ◌∷◌, Text, codes, text_leb, arith, inl, inr, Bool-cases,
}
use qurbrix_hwinfo.Inventory.Error.{ok}
use qurbrix_hwinfo.Inventory.Store.{
  Time, Db, LeaseRow, is_live, ProbeRow, running, finished, failed, timestamp,
}
use qurbrix_hwinfo.Inventory.Store.Lease.{sweep}
use qurbrix_hwinfo.Inventory.Store.Lease.Exclusion.{is_free}
use qurbrix_hwinfo.Inventory.Store.Probes.{
  is_running, update_probes, is_stale, recovered, recover, earlier, recover_stale,
}

-- What a recovery with this cutoff makes of a row.
pub data Swept (now cutoff : Text) (row : ProbeRow) : ProbeRow → Type 0 where
  -- It was running and began before the cutoff: it has failed now, and all else is as before.
  interrupted :
      row.status ≡ running
      → text_leb cutoff row.started_at ≡ false
      → Swept now cutoff row (record row {
        finished_at = some now;
        status = finished failed;
        error_code = some (codes "inventory.process_interrupted");
        error_message = some (codes "stale running probe recovered");
      })
  -- It had ended.
  ended : is_running row.status ≡ false → Swept now cutoff row row
  -- It began at the cutoff or later.
  fresh : text_leb cutoff row.started_at ≡ true → Swept now cutoff row row

-- The same for the rows of a table, one by one.
pub data AllSwept (now cutoff : Text) : List ProbeRow → List ProbeRow → Type 0 where
  none_left : AllSwept now cutoff [] []
  row_swept :
      {a b : ProbeRow} {xs ys : List ProbeRow}
      → Swept now cutoff a b
      → AllSwept now cutoff xs ys
      → AllSwept now cutoff (a ∷ xs) (b ∷ ys)

is_running-status : (row : ProbeRow) → is_running row.status ≡ true → row.status ≡ running
is_running-status row h = ground arith

update_probes-AllSwept :
    (now cutoff : Text) (rows : List ProbeRow)
    → AllSwept now cutoff rows (update_probes (is_stale cutoff) (recovered now) rows)
unfolding update_probes
update_probes-AllSwept now cutoff [] = none_left
update_probes-AllSwept now cutoff (row ∷ rows) =
    let rest = update_probes-AllSwept now cutoff rows in
    elim (Bool-cases (is_running row.status)) [
      | inl r ↦ elim (Bool-cases (text_leb cutoff row.started_at)) [
        | inl late ↦ rw (update_probes, r, late) (row_swept (fresh late) rest)
        | inr early ↦
            rw (update_probes, r, early)
              (row_swept (interrupted (is_running-status row r) early) rest)
      ]
      | inr e ↦ rw (update_probes, e) (row_swept (ended e) rest)
    ]

abbrev pub recovery_age : ℕ → ℕ
recovery_age age = min (age / 1000000000) (2 ^ 63 - 1) * 1000000000

-- The rows of a store after a recovery, given the rows before it.
abbrev pub Recovery : Text → Text → Db → Db → Type 0
Recovery now cutoff before after =
    ((is_free now before.lease ≡ false) × (after ≡ before))
    ⊎ ((is_free now before.lease ≡ true)
        × (after ≡ record before { lease = none; probes = after.probes })
        × AllSwept now cutoff before.probes after.probes)

recover-Recovery :
    (now cutoff : Text) (lease : Option LeaseRow) (db : Db)
    → db.lease ≡ lease
    → Recovery now cutoff db (recover now cutoff (sweep now lease) db)
unfolding recover sweep
recover-Recovery now cutoff none db e =
    inr (ap (is_free now) e, refl, update_probes-AllSwept now cutoff db.probes)
recover-Recovery now cutoff (some l) db e = elim (Bool-cases (is_live now l)) [
  | inl alive ↦
      rw (sweep, alive) (inl (rw (e, alive) refl, ap (λ x. record db { lease = x }) (sym e)))
  | inr dead ↦
      rw (sweep, dead) (inr (rw (e, dead) refl, refl, update_probes-AllSwept now cutoff db.probes))
]

-- If the present and the instant of the cutoff have texts, the recovery succeeds. With a living lease
-- it changes nothing. Without one no lease is left, and of the probes, whose rows stay in their places,
-- exactly those that were running and began before the cutoff, in the order of the texts, have failed,
-- at the present time and as interrupted, while their other columns, the other probes and the other
-- tables are as before.
pub recover_stale-outcome :
    (t : Time) (now age : ℕ) (db : Db) (text cutoff : Text)
    → t.format now ≡ some text
    → recovery_age age ≤ now
    → t.format (now - recovery_age age) ≡ some cutoff
    → ((recover_stale t now age db).0 ≡ ok tt)
      × Recovery text cutoff db (recover_stale t now age db).1
unfolding recover_stale earlier timestamp
recover_stale-outcome t now age db text cutoff p le q =
    let outcome : recover_stale t now age db
        ≡ (ok tt, recover text cutoff (sweep text db.lease) db) =
      ground arith in
    subst (λ r. (r.0 ≡ ok tt) × Recovery text cutoff db r.1) (sym outcome)
      (refl, recover-Recovery text cutoff db.lease db refl)
