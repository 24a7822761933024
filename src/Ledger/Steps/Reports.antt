-- ===== src/Ledger/Steps/Reports.antt =====
-- The frozen reports over the steps of cathedral/ledger.py.
use cathedral_compute.Base.{
  ℕ, ◌≡◌, refl, true, false, List, ◌∷◌, some, all, nat_beq, arith, subst, sym, ◌∙◌, inl, inr,
}
use cathedral_compute.Ledger.{Ledger, Epoch, published, abandoned, has_id, epoch_at, is_running}
use cathedral_compute.Ledger.Epochs.Order.{below, find_first-cases, all-find_first}
use cathedral_compute.Ledger.Completion.{Services}
use cathedral_compute.Ledger.Steps.{Reach, Move, Advance, consistent}
use cathedral_compute.Ledger.Steps.Order.{Step-Move, Advance-id, find_first-holds}
use cathedral_compute.Ledger.Steps.Invariant.{consistent-parts, Reach-consistent}

-- The row of an epoch that has stopped, with what it keeps of an earlier row.
pub record Kept (id : ℕ) (e : Epoch) (es : List Epoch) : Type 0 where
  pub row : Epoch
  pub found : epoch_at id es ≡ some row
  pub stopped : is_running row.status ≡ false
  pub same_source : row.source_epoch ≡ e.source_epoch
  pub same_report : row.report ≡ e.report
  pub same_digest : row.report_digest ≡ e.report_digest

head_id :
    (id : ℕ) (f : Epoch) (rest : List Epoch) → has_id id f ≡ true → epoch_at id (f ∷ rest) ≡ some f
head_id id f rest h = rw h

tail_id :
    (id : ℕ) (f : Epoch) (rest : List Epoch)
    → has_id id f ≡ false
    → epoch_at id (f ∷ rest) ≡ epoch_at id rest
tail_id id f rest h = rw h

-- A stopped row can only be published or abandoned.
Advance-Kept :
    {e f : Epoch} (id : ℕ) (rest : List Epoch)
    → Advance e f
    → has_id id e ≡ true
    → is_running e.status ≡ false
    → Kept id e (f ∷ rest)
Advance-Kept id rest (Advance.aborting runs) here_id stops = ground arith
Advance-Kept id rest (Advance.completing report digest runs) here_id stops = ground arith
Advance-Kept {e = e} id rest (Advance.publishing ready) here_id stops = record {
  row = record e { status = published };
  found = head_id id (record e { status = published }) rest here_id;
  stopped = refl;
  same_source = refl;
  same_report = refl;
  same_digest = refl;
}
Advance-Kept {e = e} id rest (Advance.abandoning ready) here_id stops = record {
  row = record e { status = abandoned };
  found = head_id id (record e { status = abandoned }) rest here_id;
  stopped = refl;
  same_source = refl;
  same_report = refl;
  same_digest = refl;
}

unchanged_row :
    (id : ℕ) (e : Epoch) (es : List Epoch)
    → epoch_at id es ≡ some e
    → is_running e.status ≡ false
    → Kept id e es
unchanged_row id e es found stops = record {
  row = e;
  found = found;
  stopped = stops;
  same_source = refl;
  same_report = refl;
  same_digest = refl;
}

Move-Kept :
    {n k : ℕ} {es fs : List Epoch} (id : ℕ) (e : Epoch)
    → Move n es k fs
    → all (below n) es ≡ true
    → epoch_at id es ≡ some e
    → is_running e.status ≡ false
    → Kept id e fs
Move-Kept {es = es} id e Move.stays older found stops = unchanged_row id e es found stops
Move-Kept {n = n} {es = es} id e (Move.starts x free higher id_is runs) older found stops =
    let e_below = all-find_first (below n) (has_id id) es older found in
    let e_id = find_first-holds (has_id id) es found in
    let other : has_id id x ≡ false = ground (arith, e_below, e_id, id_is) in
    unchanged_row id e (x ∷ es) (tail_id id x es other ∙ found) stops
Move-Kept id e (Move.advances {e = x} {f = f} {rest = rest} same advance) older found stops =
    let found' = subst (λ xs. epoch_at id xs ≡ some e) same found in
    elim (find_first-cases (has_id id) x rest found') [
      | inl (here_id, is_e) ↦
          subst (λ y. Kept id y (f ∷ rest)) is_e
            (Advance-Kept id rest advance here_id
              (subst (λ y. is_running y.status ≡ false) (sym is_e) stops))
      | inr (other, later) ↦
          unchanged_row id e (f ∷ rest)
            (tail_id id f rest (subst (λ i. nat_beq i id ≡ false) (Advance-id advance) other)
              ∙ later)
            stops
    ]

Kept-trans :
    (id : ℕ) (e : Epoch) (es fs : List Epoch) (k : Kept id e es) → Kept id k.row fs → Kept id e fs
Kept-trans id e es fs k j = record {
  row = j.row;
  found = j.found;
  stopped = j.stopped;
  same_source = j.same_source ∙ k.same_source;
  same_report = j.same_report ∙ k.same_report;
  same_digest = j.same_digest ∙ k.same_digest;
}

-- Whatever sequence of methods runs on consistent tables, the row of an epoch that is no longer
-- running stays in them, does not run again, and keeps its source epoch, its frozen report and the
-- report's digest.
pub Reach-Kept :
    (sv : Services) (l m : Ledger) (id : ℕ) (e : Epoch)
    → consistent l ≡ true
    → Reach sv l m
    → epoch_at id l.epochs ≡ some e
    → is_running e.status ≡ false
    → Kept id e m.epochs
Reach-Kept sv l m id e inv Reach.start found stops = unchanged_row id e l.epochs found stops
Reach-Kept sv l m id e inv (Reach.step {m = k} reached taken) found stops =
    let before = Reach-Kept sv l k id e inv reached found stops in
    let (in_order, older, tallied) = consistent-parts k (Reach-consistent sv l k reached inv) in
    Kept-trans id e k.epochs m.epochs before
      (Move-Kept id before.row (Step-Move sv in_order taken) older before.found before.stopped)
