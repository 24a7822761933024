-- ===== src/Ledger/Steps/Invariant.antt =====
-- The invariant of the tables of cathedral/ledger.py over its steps.
use cathedral_compute.Base.{◌≡◌, refl, true, all, arith, ◌<◌, Member}
use cathedral_compute.Ledger.{Ledger, Epoch, new_ledger, is_blocking, is_final}
use cathedral_compute.Ledger.Epochs.Order.{
  ordered, below, ordered-final_lt, ordered-blocking_unique,
}
use cathedral_compute.Ledger.Completion.{Services}
use cathedral_compute.Ledger.Steps.{Step, Reach, consistent}
use cathedral_compute.Ledger.Steps.Order.{Step-Move, Move-ordered}
use cathedral_compute.Ledger.Steps.Tallies.{Tallied, Step-Tallied}

pub consistent-parts :
    (l : Ledger)
    → consistent l ≡ true
    → (ordered l.epochs ≡ true) × (all (below l.next_id) l.epochs ≡ true) × Tallied l
unfolding consistent
consistent-parts l h = ground arith

parts-consistent :
    (l : Ledger)
    → (ordered l.epochs ≡ true) × (all (below l.next_id) l.epochs ≡ true) × Tallied l
    → consistent l ≡ true
unfolding consistent
parts-consistent l (inv, older, (rows_older, fresh)) = rw (inv, older, rows_older, fresh)

-- Every step keeps the tables consistent.
pub Step-consistent :
    (sv : Services) (l m : Ledger) → consistent l ≡ true → Step sv l m → consistent m ≡ true
Step-consistent sv l m inv taken =
    let (in_order, older, tallied) = consistent-parts l inv in
    let (kept, below') = Move-ordered (Step-Move sv in_order taken) in_order older in
    parts-consistent m (kept, below', Step-Tallied sv l m in_order older taken tallied)

-- Tables that any sequence of methods that return makes from consistent tables are consistent: the
-- epochs are in order, with source epochs rising over the final ones and at most the newest
-- running or complete, ids are below the next one, and a running epoch has no scores.
pub Reach-consistent :
    (sv : Services) (l m : Ledger) → Reach sv l m → consistent l ≡ true → consistent m ≡ true
Reach-consistent sv l m Reach.start inv = inv
Reach-consistent sv l m (Reach.step {m = k} reached taken) inv =
    Step-consistent sv k m (Reach-consistent sv l k reached inv) taken

-- In tables reached from the new ledger, an epoch that is complete or published has a source epoch
-- above that of every older epoch that is complete or published: no source epoch is final twice.
pub Reach-final_lt :
    (sv : Services) (l : Ledger) (e x : Epoch)
    → Reach sv new_ledger l
    → Member e l.epochs
    → Member x l.epochs
    → x.epoch_id < e.epoch_id
    → is_final x.status ≡ true
    → x.source_epoch < e.source_epoch
unfolding consistent ordered
Reach-final_lt sv l e x reached m k older final =
    ordered-final_lt l.epochs e x
      (consistent-parts l (Reach-consistent sv new_ledger l reached refl)).0 m k older final

-- In tables reached from the new ledger, any two epochs that are running or complete are the same.
pub Reach-blocking_unique :
    (sv : Services) (l : Ledger) (e x : Epoch)
    → Reach sv new_ledger l
    → Member e l.epochs
    → Member x l.epochs
    → is_blocking e.status ≡ true
    → is_blocking x.status ≡ true
    → e ≡ x
unfolding consistent ordered
Reach-blocking_unique sv l e x reached m k active also =
    ordered-blocking_unique l.epochs e x
      (consistent-parts l (Reach-consistent sv new_ledger l reached refl)).0 m k active also
