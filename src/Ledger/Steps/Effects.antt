-- ===== src/Ledger/Steps/Effects.antt =====
-- What the methods of cathedral/ledger.py on an epoch do to the tables when they return.
use cathedral_compute.Base.{
  ℕ, suc, sym, ◌≡◌, refl, Bool, true, not, List, ◌∷◌, Option, none, some, String, ok, all, arith,
  raise_if->>, >>=-eq-ok, ok-injective, if-eq-ok, ◌⊎◌, find_first, update_first, subst, ap, inl,
  inr,
}
use cathedral_compute.Base.Int.{ℤ, pos_part}
use cathedral_compute.Base.Text.{Bytes, codes}
use cathedral_compute.Ledger.Audience.{is_space}
use cathedral_compute.Ledger.{
  Ledger, Epoch, epoch_at, set_epoch, published, abandoned, has_id, ledger_closed, is_aborted,
  retry_first, not_greater, is_running, is_complete, is_blocking, find_epoch, cannot_abort,
  not_complete, bad_reason, cannot_publish, published_digest_mismatch, is_published,
}
use cathedral_compute.Ledger.Epochs.{
  BeginRequest, begin_epoch, validate_begin, insert_epoch, abandon_completed_epoch, mark_published,
  is_expected, supplied, blocking_epoch, last_final, above, no_block, retries_other, is_retry,
}
use cathedral_compute.Ledger.Epochs.Order.{ordered, active_head}
use cathedral_compute.Ledger.Completion.{abort_epoch, abort_running}
use cathedral_compute.Ledger.Steps.{Move, Advance}

abbrev pub Moved : Ledger → Ledger → Type 0
Moved l m = Move l.next_id l.epochs m.next_id m.epochs

-- Beginning an epoch leaves the other tables.
abbrev pub Begun : Ledger → Ledger → Type 0
Begun l m =
    Moved l m
    × (l.scores ≡ m.scores)
    × (l.challenges ≡ m.challenges)
    × (l.attestations ≡ m.attestations)
    × (l.jobs ≡ m.jobs)

free-blocking_epoch : (o : Option Epoch) {u : Unit {0}} → no_block o ≡ ok u → o ≡ none
free-blocking_epoch none h = refl
free-blocking_epoch (some e) h = cc

-- The row that `begin_epoch` inserts.
pub record IsBegun (source : ℕ) (l m : Ledger) (id : ℕ) : Type 0 where
  pub row : Epoch
  pub inserted : m ≡ record l { epochs = row ∷ l.epochs; next_id = suc l.next_id }
  pub free : blocking_epoch l.epochs ≡ none
  pub higher : above (last_final l.epochs) row.source_epoch ≡ true
  pub next_number : row.epoch_id ≡ l.next_id
  pub same_id : row.epoch_id ≡ id
  pub same_source : row.source_epoch ≡ source
  pub runs : is_running row.status ≡ true

pub insert_epoch-row :
    (source : ℕ) (release : Option ℤ) (digest : Option String) (anchor : Option (String × ℤ))
    (anchor_block : Option (ℤ × List ℕ)) (l : Ledger) {id : ℕ} {m : Ledger}
    → insert_epoch source release digest anchor anchor_block l ≡ ok (id, m)
    → IsBegun source l m id
unfolding insert_epoch
insert_epoch-row source release digest anchor anchor_block l h =
    let (is_open, h1) = raise_if->> l.closed ledger_closed _ h in
    let (u, free, h2) = >>=-eq-ok (no_block (blocking_epoch l.epochs)) _ h1 in
    let (first, h3) =
      raise_if->> (retries_other (find_first (is_retry (last_final l.epochs)) l.epochs) source)
        retry_first _ h2 in
    let (higher, h4) = raise_if->> (not (above (last_final l.epochs) source)) not_greater _ h3 in
    record {
      row = _;
      inserted = sym (ap (λ p. p.1) (ok-injective h4));
      free = free-blocking_epoch (blocking_epoch l.epochs) free;
      higher = ground arith;
      next_number = refl;
      same_id = ap (λ p. p.0) (ok-injective h4);
      same_source = refl;
      runs = refl;
    }

pub insert_epoch-effect :
    (source : ℕ) (release : Option ℤ) (digest : Option String) (anchor : Option (String × ℤ))
    (anchor_block : Option (ℤ × List ℕ)) (l : Ledger) {id : ℕ} {m : Ledger}
    → insert_epoch source release digest anchor anchor_block l ≡ ok (id, m)
    → Begun l m
insert_epoch-effect source release digest anchor anchor_block l h =
    let b = insert_epoch-row source release digest anchor anchor_block l h in
    subst (Begun l) (sym b.inserted)
      (Move.starts b.row b.free b.higher b.next_number b.runs, refl, refl, refl, refl)

pub find_epoch-ok :
    (id : ℕ) (l : Ledger) {e : Epoch}
    → find_epoch id l ≡ ok e
    → find_first (has_id id) l.epochs ≡ some e
unfolding find_epoch
find_epoch-ok id l h = ground arith

pub head-update_first :
    (p : Epoch → Bool) (f : Epoch → Epoch) (es : List Epoch) {e : Epoch} {rest : List Epoch}
    → es ≡ e ∷ rest
    → p e ≡ true
    → f e ∷ rest ≡ update_first p f es
head-update_first p f es same holds = rw (same, holds)

-- The update of a row that can still change.
pub update-Move :
    (id : ℕ) (f : Epoch → Epoch) (l : Ledger) {e : Epoch}
    → ordered l.epochs ≡ true
    → find_first (has_id id) l.epochs ≡ some e
    → is_blocking e.status ≡ true
    → Advance e (f e)
    → Move l.next_id l.epochs l.next_id (update_first (has_id id) f l.epochs)
update-Move id f l {e = e} inv found active advance =
    let (rest, same, holds) = active_head (has_id id) l.epochs inv found active in
    subst (Move l.next_id l.epochs l.next_id) (head-update_first (has_id id) f l.epochs same holds)
      (Move.advances same advance)

pub begin_epoch-row :
    (r : BeginRequest) (l : Ledger) {id : ℕ} {m : Ledger}
    → begin_epoch r l ≡ ok (id, m)
    → IsBegun (pos_part r.source_epoch) l m id
unfolding begin_epoch
begin_epoch-row r l h =
    let (checked, valid, inserted) = >>=-eq-ok (validate_begin r) _ h in
    insert_epoch-row (pos_part r.source_epoch) r.registry_release r.registry_digest checked.1
      checked.0 l inserted

pub begin_epoch-effect :
    (r : BeginRequest) (l : Ledger) {id : ℕ} {m : Ledger} → begin_epoch r l ≡ ok (id, m) → Begun l m
unfolding begin_epoch
begin_epoch-effect r l h =
    let (checked, valid, inserted) = >>=-eq-ok (validate_begin r) _ h in
    insert_epoch-effect (pos_part r.source_epoch) r.registry_release r.registry_digest checked.1
      checked.0 l inserted

pub find_epoch-found :
    (id : ℕ) (l : Ledger) {e : Epoch} → epoch_at id l.epochs ≡ some e → find_epoch id l ≡ ok e
unfolding find_epoch
find_epoch-found id l found = rw (found, find_epoch)

pub abort_epoch-row :
    (id now : ℕ) (l : Ledger) {m : Ledger}
    → abort_epoch id now l ≡ ok m
    → (e : Epoch) × (find_first (has_id id) l.epochs ≡ some e)
      × (((is_aborted e.status ≡ true) × (l ≡ m))
          ⊎ ((is_running e.status ≡ true) × (abort_running id now l ≡ m)))
unfolding abort_epoch
abort_epoch-row id now l h =
    let (a, h1) = raise_if->> l.closed ledger_closed _ h in
    let (e, found, h2) = >>=-eq-ok (find_epoch id l) _ h1 in
    elim (if-eq-ok (is_aborted e.status) _ _ h2) [
      | inl (already, h3) ↦ (e, find_epoch-ok id l found, inl (already, ok-injective h3))
      | inr (other, h3) ↦
          let (runs, h4) = raise_if->> (not (is_running e.status)) cannot_abort _ h3 in
          (e, find_epoch-ok id l found, inr (ground (arith, runs), ok-injective h4))
    ]

pub abort_epoch-effect :
    (id now : ℕ) (l : Ledger) {m : Ledger}
    → abort_epoch id now l ≡ ok m
    → (l ≡ m)
      ⊎ ((e : Epoch) × (find_first (has_id id) l.epochs ≡ some e)
          × (is_running e.status ≡ true)
          × (abort_running id now l ≡ m))
abort_epoch-effect id now l h =
    let (e, found, outcome) = abort_epoch-row id now l h in
    elim outcome [ inl (already, same) ↦ inl same | inr (runs, same) ↦ inr (e, found, runs, same) ]

-- What the operations that close an epoch do, when they do anything.
pub abandon-effect :
    (id : ℕ) (reason : String) (l : Ledger) {m : Ledger}
    → abandon_completed_epoch id reason l ≡ ok m
    → (e : Epoch) × (find_first (has_id id) l.epochs ≡ some e)
      × (is_complete e.status ≡ true)
      × (set_epoch id (λ row. record row { status = abandoned }) l ≡ m)
unfolding abandon_completed_epoch
abandon-effect id reason l h =
    let (blank, h0) = raise_if->> (all is_space (codes reason)) bad_reason _ h in
    let (a, h1) = raise_if->> l.closed ledger_closed _ h0 in
    let (e, found, h2) = >>=-eq-ok (find_epoch id l) _ h1 in
    let (ready, h3) = raise_if->> (not (is_complete e.status)) not_complete _ h2 in
    (e, find_epoch-ok id l found, ground (arith, ready), ok-injective h3)

pub publish-effect :
    (id : ℕ) (digest : Option Bytes) (l : Ledger) {m : Ledger}
    → mark_published id digest l ≡ ok m
    → (e : Epoch) × (find_first (has_id id) l.epochs ≡ some e)
      × (is_expected (supplied digest e.report_digest) e.report_digest ≡ true)
      × (((is_published e.status ≡ true) × (l ≡ m))
          ⊎ ((is_complete e.status ≡ true)
              × (set_epoch id (λ row. record row { status = published }) l ≡ m)))
unfolding mark_published
publish-effect id digest l h =
    let (a, h1) = raise_if->> l.closed ledger_closed _ h in
    let (e, found, h2) = >>=-eq-ok (find_epoch id l) _ h1 in
    let test = is_expected (supplied digest e.report_digest) e.report_digest in
    elim (if-eq-ok (is_published e.status) _ _ h2) [
      | inl (already, h3) ↦
          let (matches, h4) = raise_if->> (not test) published_digest_mismatch _ h3 in
          (e, find_epoch-ok id l found, ground (arith, matches), inl (already, ok-injective h4))
      | inr (other, h3) ↦
          let (ready, h4) = raise_if->> (not (is_complete e.status)) cannot_publish _ h3 in
          let (matches, h5) = raise_if->> (not test) published_digest_mismatch _ h4 in
          (
            e,
            find_epoch-ok id l found,
            ground (arith, matches),
            inr (ground (arith, ready), ok-injective h5),
          )
    ]
