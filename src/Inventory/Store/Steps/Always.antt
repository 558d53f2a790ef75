-- ===== src/Inventory/Store/Steps/Always.antt =====
-- The current snapshot is stored in every state that is reached.
use qurbrix_hwinfo.Common.{refl}
use qurbrix_hwinfo.Inventory.Store.{Time, Db, empty_db}
use qurbrix_hwinfo.Inventory.Store.Artifact.{Disk}
use qurbrix_hwinfo.Inventory.Store.Steps.{
  Step, published, retained, pinned, uploaded, acquired, renewed, released, started, finished,
  recovered, Reach, here, next,
}
use qurbrix_hwinfo.Inventory.Store.Steps.Current.{
  HasCurrent, set_pinned-HasCurrent, mark_uploaded-HasCurrent, try_acquire_lease-HasCurrent,
  renew_lease-HasCurrent, start_probe-HasCurrent, finish_probe-HasCurrent, recover_stale-HasCurrent,
  release_lease-HasCurrent,
}
use qurbrix_hwinfo.Inventory.Store.Steps.Published.{publish-HasCurrent}
use qurbrix_hwinfo.Inventory.Store.Steps.Retained.{apply_retention-HasCurrent}

module _ (d : Disk) (t : Time) where
  Step-HasCurrent : {a b : Db} → Step d t a b → HasCurrent a → HasCurrent b
  Step-HasCurrent {a} (published now p) h = publish-HasCurrent d t now p a h
  Step-HasCurrent {a} (retained policy now) h = apply_retention-HasCurrent d t policy now a h
  Step-HasCurrent {a} (pinned now id pin) h = set_pinned-HasCurrent t now id pin a h
  Step-HasCurrent {a} (uploaded now id at) h = mark_uploaded-HasCurrent t now id at a h
  Step-HasCurrent {a} (acquired now owner n) h = try_acquire_lease-HasCurrent t now a h owner n
  Step-HasCurrent {a} (renewed now owner n) h = renew_lease-HasCurrent t now a h owner n
  Step-HasCurrent {a} (released owner) h = release_lease-HasCurrent t 0 a h owner
  Step-HasCurrent {a} (started now kind previous) h = start_probe-HasCurrent t now a h kind previous
  Step-HasCurrent {a} (finished now id end) h = finish_probe-HasCurrent t now a h id end
  Step-HasCurrent {a} (recovered now age) h = recover_stale-HasCurrent t now a h age

  Reach-kept : {a b : Db} → Reach d t a b → HasCurrent a → HasCurrent b
  Reach-kept here h = h
  Reach-kept (next r s) h = Step-HasCurrent s (Reach-kept r h)

-- In every state of the store that its operations reach from an empty one, in whatever order and at
-- whatever times, whether they succeed or fail, there is no current snapshot or it is in the table.
pub Reach-HasCurrent : (d : Disk) (t : Time) {db : Db} → Reach d t empty_db db → HasCurrent db
Reach-HasCurrent d t r = Reach-kept d t r refl
