-- ===== src/Inventory/Service/Wait/Ends.antt =====
-- The wait for the lease ends.
use qurbrix_hwinfo.Common.{
  ℕ, zero, suc, ◌+◌, ◌-◌, ◌*◌, ◌/◌, ◌≤◌, Bool, true, false, not, ◌&&◌, ◌≡◌, ◌≢◌, refl, sym, ap, ◌∙◌,
  ◌⊎◌, inl, inr, Option, none, some, Option-cases, Bool-cases, Text, text_eq, text_eq_refl,
  text_eq_sound, if◌then◌else◌, leb, is_none, arith,
}
use qurbrix_hwinfo.Inventory.Error.{Result, ok, err}
use qurbrix_hwinfo.Inventory.Store.{Time, LeaseRow, Db, timestamp, now_rfc3339}
use qurbrix_hwinfo.Inventory.Store.Lease.{
  try_acquire_lease, active_lease, take_lease, sweep, insert_lease, live_lease,
}
use qurbrix_hwinfo.Inventory.Service.Wait.{
  ended_unit, Wait, Waited, Round, ended, again, same_lease, peer_reusable, finish_reused, time_out,
  check_progress, refused, attempted, poll, wait_for_lease, lease_poll_interval,
  scan_lease_duration,
}

-- What a waiting process sees of a lease.
abbrev view : Option LeaseRow → Option (Text × Text)
view none = none
view (some l) = some (l.owner_id, l.expires_at)

same_lease_refl : (o : Option (Text × Text)) → same_lease o o ≡ true
unfolding same_lease
same_lease_refl none = refl
same_lease_refl (some a) = rw (text_eq_refl a.0, text_eq_refl a.1) refl

same_lease_sound : (a b : Option (Text × Text)) → same_lease a b ≡ true → a ≡ b
unfolding same_lease
same_lease_sound none none h = refl
same_lease_sound none (some b) h = cc
same_lease_sound (some a) none h = cc
same_lease_sound (some (a, x)) (some (b, y)) h =
    let both = and_true (text_eq a b) (text_eq x y) h in
    cc (text_eq_sound a b both.0, text_eq_sound x y both.1)
  where
    and_true : (p q : Bool) → (p && q) ≡ true → (p ≡ true) × (q ≡ true)
    and_true p q e = ground arith

seen_lease :
    (active observed : Option (Text × Text))
    → (if same_lease active observed then observed else active) ≡ active
seen_lease active observed = elim (Bool-cases (same_lease active observed)) [
  | inl e ↦ rw e (sym (same_lease_sound active observed e))
  | inr e ↦ rw e refl
]

-- A refused attempt leaves the row, which a look at the same instant sees.
abbrev Refusal : Time → ℕ → Db → Result Bool → Db → Type 0
Refusal t now db r db' =
    r ≡ ok false → (db'.lease ≡ db.lease) × (active_lease t now db' ≡ (ok (view db.lease), db'))

swept :
    (now : Text) (l : LeaseRow) (held : Option LeaseRow)
    → (insert_lease l (sweep now held)).0 ≡ false
    → (sweep now held ≡ held) × (live_lease now held ≡ view held)
unfolding insert_lease sweep live_lease
swept now l none h = cc
swept now l (some x) h = ground arith

kept_row :
    (now : Text) (l : LeaseRow) (held : Option LeaseRow)
    → (insert_lease l (sweep now held)).0 ≡ false
    → (insert_lease l (sweep now held)).1 ≡ held
unfolding insert_lease sweep
kept_row now l none h = cc
kept_row now l (some x) h = ground arith

take_lease-Refusal :
    (now owner expires : Text) (db : Db)
    → (take_lease now owner expires db).0 ≡ ok false
    → ((take_lease now owner expires db).1.lease ≡ db.lease)
      × (live_lease now (take_lease now owner expires db).1.lease ≡ view db.lease)
unfolding take_lease
take_lease-Refusal now owner expires db h =
    let l : LeaseRow = record { owner_id = owner; acquired_at = now; expires_at = expires } in
    let no : (insert_lease l (sweep now db.lease)).0 ≡ false = cc in
    let same = kept_row now l db.lease no in (same, rw same (swept now l db.lease no).1)

try_acquire_lease-Refusal :
    (t : Time) (now : ℕ) (owner : Text) (d : ℕ) (db : Db)
    → Refusal t now db (try_acquire_lease t now owner d db).0 (try_acquire_lease t now owner d db).1
unfolding try_acquire_lease timestamp active_lease now_rfc3339
try_acquire_lease-Refusal t now owner d db = elim (Option-cases (t.format now)) [
  | inl e ↦ rw (try_acquire_lease, timestamp, e) (λ h. cc)
  | inr (text, e) ↦ elim (Option-cases (t.format (now + d))) [
    | inl f ↦ rw (try_acquire_lease, timestamp, e, f) (λ h. cc)
    | inr (expires, f) ↦
        rw (try_acquire_lease, active_lease, now_rfc3339, timestamp, e, f)
          (λ h.
            let k = take_lease-Refusal text owner expires db h in
            (k.0, ap (λ v. (ok v, (take_lease text owner expires db).1)) k.1))
  ]
]

-- A round that goes on: the row is as it was, the lease was seen, and the time is not up.
abbrev GoesOn : Wait → ℕ → Option (Text × Text) → ℕ → Db → Option (Text × Text) → ℕ → Db → Type 0
GoesOn w k observed started db o s db' =
    (db'.lease ≡ db.lease)
    × (o ≡ view db.lease)
    × (s ≡ (if same_lease (view db.lease) observed then started else w.steady k))
    × (leb w.lease_wait_timeout (w.steady k - s) ≡ false)

module _ (w : Wait) (k : ℕ) (o : Option (Text × Text)) (s : ℕ) (db' : Db) where
  ended_unit-ends :
      (v : Waited) (r : Result (Unit {0})) (db : Db) → ended_unit v r db ≢ again o s db'
  ended_unit-ends v (ok _) db e = cc
  ended_unit-ends v (err _) db e = cc

  finish_reused-ends : (id : _) (db : Db) → finish_reused w k id db ≢ again o s db'
  unfolding finish_reused
  finish_reused-ends id db = elim (Option-cases w.quick) [
    | inl e ↦ rw (finish_reused, e) (λ h. cc)
    | inr (quick, e) ↦ rw (finish_reused, e) (ended_unit-ends _ _ _)
  ]

  time_out-ends : (db : Db) → time_out w k db ≢ again o s db'
  unfolding time_out
  time_out-ends db = elim (Option-cases w.quick) [
    | inl e ↦ rw (time_out, e) (λ h. cc)
    | inr (quick, e) ↦ rw (time_out, e) (λ h. cc)
  ]

  going_on :
      (late : Bool) (r : Round) (seen : Option (Text × Text)) (since : ℕ) (db : Db)
      → r ≢ again o s db'
      → (if late then r else again seen since db) ≡ again o s db'
      → (late ≡ false) × (seen ≡ o) × (since ≡ s) × (db ≡ db')
  going_on true r seen since db n h = absurd (n h)
  going_on false r seen since db n h = (refl, cc, cc, cc)

  module _ (observed : Option (Text × Text)) (started : ℕ) (db : Db) where
    check_progress-GoesOn :
        (db1 : Db)
        → db1.lease ≡ db.lease
        → check_progress w k observed started (ok (view db.lease)) db1 ≡ again o s db'
        → GoesOn w k observed started db o s db'
    unfolding check_progress
    check_progress-GoesOn db1 l h =
        let g = going_on _ (time_out w k db1) _ _ db1 (time_out-ends db1) h in
        (
          ap (λ (d : Db). d.lease) (sym g.3) ∙ l,
          sym g.1 ∙ seen_lease (view db.lease) observed,
          sym g.2,
          rw g.2 at g.0,
        )

    refused-GoesOn :
        (db1 : Db)
        → (db1.lease ≡ db.lease) × (active_lease w.time (w.utc k) db1 ≡ (ok (view db.lease), db1))
        → refused w k observed started db1 ≡ again o s db'
        → GoesOn w k observed started db o s db'
    unfolding refused
    refused-GoesOn db1 l = elim (Option-cases (peer_reusable w k db1)) [
      | inl e ↦ rw (refused, e, l.1) (check_progress-GoesOn db1 l.0)
      | inr (id, e) ↦ rw (refused, e) (λ h. absurd (finish_reused-ends id db1 h))
    ]

    attempted-GoesOn :
        (r : Result Bool) (db1 : Db)
        → Refusal w.time (w.utc k) db r db1
        → attempted w k observed started r db1 ≡ again o s db'
        → GoesOn w k observed started db o s db'
    unfolding attempted
    attempted-GoesOn (err e) db1 f h = cc
    attempted-GoesOn (ok true) db1 f h = cc
    attempted-GoesOn (ok false) db1 f h = refused-GoesOn db1 (f refl) h

    poll-GoesOn :
        poll w k observed started db ≡ again o s db' → GoesOn w k observed started db o s db'
    unfolding poll
    poll-GoesOn h =
        attempted-GoesOn _ _
          (try_acquire_lease-Refusal w.time (w.utc k) w.owner_id scan_lease_duration db) h

-- The lease's row is left alone by the others, and every round ends with its sleep.
abbrev pub IsQuiet : Wait → Type 0
IsQuiet w =
    ((k : ℕ) (db : Db) → (w.others k db).lease ≡ db.lease)
    × ((k : ℕ) → w.steady k + lease_poll_interval ≤ w.steady (suc k))

abbrev pub ends : Option (Result Waited × Db) → Bool
ends o = not (is_none o)

Round-cases :
    (r : Round)
    → ((a : Result Waited) × (d : Db) × (r ≡ ended a d))
      ⊎ ((o : Option (Text × Text)) × (s : ℕ) × (d : Db) × (r ≡ again o s d))
Round-cases (ended a d) = inl (a, d, refl)
Round-cases (again o s d) = inr (o, s, d, refl)

module _ (w : Wait) (quiet : IsQuiet w) where
  -- After a round that goes on, the lease that was seen is still there.
  seen_again :
      (k : ℕ) (observed : Option (Text × Text)) (started : ℕ) (db : Db) (o : Option (Text × Text))
      (s : ℕ) (d : Db)
      → GoesOn w k observed started db o s d
      → o ≡ view (w.others k d).lease
  seen_again k observed started db o s d g = g.1 ∙ ap view (sym (quiet.0 k d ∙ g.0))

  since_start :
      (k : ℕ) (started : ℕ) (db : Db) (o : Option (Text × Text)) (s : ℕ) (d : Db)
      → GoesOn w k (view db.lease) started db o s d
      → s ≡ started
  since_start k started db o s d g = g.2 ∙ rw (same_lease_refl (view db.lease)) refl

  not_yet :
      (k started s : ℕ)
      → started ≤ w.steady k
      → w.lease_wait_timeout ≤ (w.steady k - started) + 0 * lease_poll_interval
      → s ≡ started
      → leb w.lease_wait_timeout (w.steady k - s) ≡ false
      → ⊥
  not_yet k started s before enough e late = ground arith

  -- From a round whose lease was seen before, the rounds left cover the time left.
  ends_seen :
      (left k : ℕ) (started : ℕ) (db : Db) (observed : Option (Text × Text))
      → observed ≡ view db.lease
      → started ≤ w.steady k
      → w.lease_wait_timeout ≤ (w.steady k - started) + left * lease_poll_interval
      → ends (wait_for_lease w (suc left) k observed started db) ≡ true
  unfolding wait_for_lease
  ends_seen zero k started db observed v before enough =
      rw v (elim (Round-cases (poll w k (view db.lease) started db)) [
        | inl (a, d, e) ↦ rw (wait_for_lease, e) refl
        | inr (o, s, d, e) ↦
            let g = poll-GoesOn w k o s d (view db.lease) started db e in
            absurd (not_yet k started s before enough (since_start k started db o s d g) g.3)
      ])
  ends_seen (suc left) k started db observed v before enough =
      rw v (elim (Round-cases (poll w k (view db.lease) started db)) [
        | inl (a, d, e) ↦ rw (wait_for_lease, e) refl
        | inr (o, s, d, e) ↦
            let g = poll-GoesOn w k o s d (view db.lease) started db e in
            let at : s ≡ started = since_start k started db o s d g in
            let slept : w.steady k + lease_poll_interval ≤ w.steady (suc k) = quiet.1 k in
            rw (wait_for_lease, e)
              (ends_seen left (suc k) s (w.others k d) o (seen_again k _ started db o s d g)
                (omega (arith, at, slept, before)) (omega (arith, at, slept, before, enough)))
      ])

  ends_from :
      (left : ℕ) (started : ℕ) (db : Db)
      → started ≤ w.steady 0
      → w.lease_wait_timeout ≤ left * lease_poll_interval
      → ends (wait_for_lease w (suc (suc left)) 0 none started db) ≡ true
  unfolding wait_for_lease
  ends_from left started db before enough = elim (Round-cases (poll w 0 none started db)) [
    | inl (a, d, e) ↦ rw (wait_for_lease, e) refl
    | inr (o, s, d, e) ↦
        let g = poll-GoesOn w 0 o s d none started db e in
        let past : s ≤ w.steady 0 =
          earlier (same_lease (view db.lease) none) started s _ before g.2 in
        let slept : w.steady 0 + lease_poll_interval ≤ w.steady 1 = quiet.1 0 in
        rw (wait_for_lease, e)
          (ends_seen left 1 s (w.others 0 d) o (seen_again 0 none started db o s d g)
            (omega (arith, past, slept)) (omega (arith, enough)))
  ]
    where
      earlier :
          (b : Bool) (started s now : ℕ)
          → started ≤ now
          → s ≡ (if b then started else now)
          → s ≤ now
      earlier true started s now h e = omega arith
      earlier false started s now h e = omega arith

  -- While the others leave the lease's row alone and every round ends with its sleep, the wait ends,
  -- within as many rounds as sleeps fit into its timeout, and three.
  pub wait_for_lease-ends :
      (started : ℕ) (db : Db)
      → started ≤ w.steady 0
      → ends (wait_for_lease w (w.lease_wait_timeout / lease_poll_interval + 3) 0 none started db)
        ≡ true
  unfolding wait_for_lease
  wait_for_lease-ends started db before =
      let rounds = w.lease_wait_timeout / lease_poll_interval in
      let fuel : rounds + 3 ≡ suc (suc (rounds + 1)) = omega arith in
      rw fuel (ends_from (rounds + 1) started db before (omega arith))
