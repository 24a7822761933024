-- ===== src/Ledger/Steps/Tallies.antt =====
-- The scores in the tables over the steps of cathedral/ledger.py.
use cathedral_compute.Base.{
  ℕ, suc, ◌≡◌, refl, Bool, true, false, not, List, [], ◌∷◌, ◌++◌, some, map, all, any, ltb, nat_beq,
  arith, find_first, update_first, subst, ap, sym, inl, inr, &&_parts,
}
use cathedral_compute.Ledger.{Ledger, Epoch, Report, Score, has_id, is_running, is_blocking}
use cathedral_compute.Ledger.Epochs.Order.{ordered, below, is_behind, active_head, all-find_first}
use cathedral_compute.Ledger.Completion.{Services, abort_running, frozen}
use cathedral_compute.Ledger.Jobs.Pruning.{prune-effect}
use cathedral_compute.Ledger.Steps.{Step, Move, unscored}
use cathedral_compute.Ledger.Steps.Effects.{
  head-update_first, abort_epoch-effect, abandon-effect, publish-effect, begin_epoch-effect, Moved,
}
use cathedral_compute.Ledger.Jobs.Effects.{
  insert_job-effect, enqueue-effect, claim-effect, resolve_leased-effect,
}
use cathedral_compute.Ledger.Steps.Freezing.{frozen_tables, complete_epoch-effect}
use cathedral_compute.Ledger.Steps.Work.{issue-effect, resolve-effect, attest-effect}
use cathedral_compute.Ledger.Steps.Order.{Step-Move, Advance-stops, find_own}

abbrev row_below : ℕ → ℕ × Score → Bool
row_below n row = ltb row.0 n

abbrev pub row_of_epoch : ℕ → ℕ × Score → Bool
row_of_epoch id row = nat_beq row.0 id

abbrev stopped : Epoch → Bool
stopped e = not (is_running e.status)

all-unscored_stopped :
    (rows : List (ℕ × Score)) (es : List Epoch)
    → all stopped es ≡ true
    → all (unscored rows) es ≡ true
all-unscored_stopped rows [] h = refl
all-unscored_stopped rows (e ∷ es) h = ground (arith, all-unscored_stopped rows es)

all-stopped_behind :
    (e : Epoch) (es : List Epoch) → all (is_behind e) es ≡ true → all stopped es ≡ true
all-stopped_behind e [] h = refl
all-stopped_behind e (x ∷ xs) h = ground (arith, all-stopped_behind e xs)

-- Once the newest row has stopped, no row runs.
stopped_update :
    (p : Epoch → Bool) (f : Epoch → Epoch) (es : List Epoch) {e : Epoch}
    → ordered es ≡ true
    → find_first p es ≡ some e
    → is_blocking e.status ≡ true
    → is_running (f e).status ≡ false
    → all stopped (update_first p f es) ≡ true
unfolding ordered
stopped_update p f es {e = e} inv found active stops =
    let (rest, same, holds) = active_head p es inv found active in
    let behind =
      (&&_parts (all (is_behind e) rest) _ (subst (λ xs. ordered xs ≡ true) same inv)).0 in
    subst (λ xs. all stopped xs ≡ true) (head-update_first p f es same holds)
      (rw (stops, all-stopped_behind e rest behind))

-- A new id has no scores.
none_of_new :
    (n : ℕ) (rows : List (ℕ × Score))
    → all (row_below n) rows ≡ true
    → any (row_of_epoch n) rows ≡ false
none_of_new n [] h = refl
none_of_new n (row ∷ rows) h = ground (arith, none_of_new n rows)

rows_below_suc :
    (n : ℕ) (rows : List (ℕ × Score))
    → all (row_below n) rows ≡ true
    → all (row_below (suc n)) rows ≡ true
rows_below_suc n [] h = refl
rows_below_suc n (row ∷ rows) h = ground (arith, rows_below_suc n rows)

-- A move that leaves the scores as they are.
Move-unscored :
    {n k : ℕ} {es fs : List Epoch} (rows : List (ℕ × Score))
    → Move n es k fs
    → all (row_below n) rows ≡ true
    → all (unscored rows) es ≡ true
    → (all (row_below k) rows ≡ true) × (all (unscored rows) fs ≡ true)
Move-unscored rows Move.stays older fresh = (older, fresh)
Move-unscored {n = n} rows (Move.starts e free higher id_is runs) older fresh =
    let none_yet =
      subst (λ i. any (row_of_epoch i) rows ≡ false) (sym id_is) (none_of_new n rows older) in
    (rows_below_suc n rows older, rw (none_yet, runs, fresh))
Move-unscored rows (Move.advances {e = e} {f = f} {rest = rest} same advance) older fresh =
    let fresh' = subst (λ xs. all (unscored rows) xs ≡ true) same fresh in
    (older, rw (Advance-stops advance, (&&_parts (unscored rows e) _ fresh').1))

rows_below-append :
    (n id : ℕ) (scores : List Score) (rows : List (ℕ × Score))
    → ltb id n ≡ true
    → all (row_below n) rows ≡ true
    → all (row_below n) (map (λ s. (id, s)) scores ++ rows) ≡ true
rows_below-append n id [] rows h older = older
rows_below-append n id (s ∷ scores) rows h older =
    ground (arith, rows_below-append n id scores rows)

-- The scores and epochs of a ledger, as the invariant relates them.
abbrev pub Tallied : Ledger → Type 0
Tallied l = (all (row_below l.next_id) l.scores ≡ true) × (all (unscored l.scores) l.epochs ≡ true)

Moved-Tallied : (l m : Ledger) → Moved l m → l.scores ≡ m.scores → Tallied l → Tallied m
Moved-Tallied l m moved same (older, fresh) =
    subst (λ rows. (all (row_below m.next_id) rows ≡ true) × (all (unscored rows) m.epochs ≡ true))
      same (Move-unscored l.scores moved older fresh)

frozen_tables-Tallied :
    (sv : Services) (e : Epoch) (scores : List Score) (report : Report) (l : Ledger)
    → ordered l.epochs ≡ true
    → all (below l.next_id) l.epochs ≡ true
    → find_first (has_id e.epoch_id) l.epochs ≡ some e
    → is_running e.status ≡ true
    → Tallied l
    → Tallied (frozen_tables sv e scores report l)
frozen_tables-Tallied sv e scores report l inv older found runs (rows_older, fresh) =
    let tables = frozen_tables sv e scores report l in
    (
      rows_below-append l.next_id e.epoch_id scores l.scores
          (all-find_first (below l.next_id) (has_id e.epoch_id) l.epochs older found) rows_older,
      all-unscored_stopped tables.scores tables.epochs (
          stopped_update (has_id e.epoch_id)
            (frozen report (sv.sha256_hex (sv.canonical_json report))) l.epochs inv found
            (ground (arith, runs)) refl),
    )

-- A step other than a completion leaves the scores.
pub Step-Tallied :
    (sv : Services) (l m : Ledger)
    → ordered l.epochs ≡ true
    → all (below l.next_id) l.epochs ≡ true
    → Step sv l m
    → Tallied l
    → Tallied m
unfolding abort_running
Step-Tallied sv l m inv older (Step.complete_step id r scores h) tallied =
    let (e, found, outcome) = complete_epoch-effect sv id r l h in
    elim outcome [
      | inl (final, loaded, same) ↦ subst Tallied same tallied
      | inr (generated_at, audience, runs, done) ↦
          subst Tallied done.tables
            (frozen_tables-Tallied sv e _ _ l inv older (find_own id l.epochs found) runs tallied)
    ]
Step-Tallied sv l m inv older (Step.begin_step r id h) tallied =
    let (moved, same, challenges, attestations, jobs) = begin_epoch-effect r l h in
    Moved-Tallied l m moved same tallied
Step-Tallied sv l m inv older (Step.abort_step id now h) tallied =
    Moved-Tallied l m (Step-Move sv inv (Step.abort_step id now h))
      (elim (abort_epoch-effect id now l h) [
        | inl same ↦ ap (λ x. x.scores) same
        | inr (e, found, runs, same) ↦ ap (λ x. x.scores) same
      ])
      tallied
Step-Tallied sv l m inv older (Step.abandon_step id reason h) tallied =
    let (e, found, ready, same) = abandon-effect id reason l h in
    Moved-Tallied l m (Step-Move sv inv (Step.abandon_step id reason h)) (ap (λ x. x.scores) same)
      tallied
Step-Tallied sv l m inv older (Step.publish_step id digest h) tallied =
    let (e, found, matches, outcome) = publish-effect id digest l h in
    Moved-Tallied l m (Step-Move sv inv (Step.publish_step id digest h))
      (elim outcome [
        | inl (already, same) ↦ ap (λ x. x.scores) same
        | inr (ready, same) ↦ ap (λ x. x.scores) same
      ])
      tallied
Step-Tallied sv l m inv older (Step.issue_step c hotkey id h) tallied =
    let (e, found, runs, free, same) = issue-effect c hotkey id l h in subst Tallied same tallied
Step-Tallied sv l m inv older (Step.resolve_step c status units derived h) tallied =
    let (row, u, at_id, is_open, valid, same) = resolve-effect c status units derived l h in
    subst Tallied same tallied
Step-Tallied sv l m inv older (Step.attest_step id hotkey a h) tallied =
    elim (attest-effect id hotkey a l h) [
      | inl same ↦ subst Tallied same tallied
      | inr (free, same) ↦ subst Tallied same tallied
    ]
Step-Tallied sv l m inv older (Step.enqueue_step hashes item customer key uuid now job h) tallied =
    elim (enqueue-effect hashes item customer key uuid now l h) [
      | inl same ↦ subst Tallied same tallied
      | inr inserted ↦
          let (free, quota, room, same) = insert_job-effect _ l inserted in
          subst Tallied same tallied
    ]
Step-Tallied sv l m inv older
      (Step.claim_step hashes owner i lease_seconds max_attempts token now lease h) tallied =
    let (js, cs, claimed, same) =
      claim-effect hashes owner i lease_seconds max_attempts token now l h in
    subst Tallied same tallied
Step-Tallied sv l m inv older
      (Step.resolve_leased_step hashes result_json x status units derived q now h) tallied =
    let (d, u, j, body, error, derived_units, good, current, at_x, is_open, same) =
      resolve_leased-effect hashes result_json x status units derived q now l h in
    subst Tallied same tallied
Step-Tallied sv l m inv older (Step.prune_step limit_time limit customer count h) tallied =
    let (ids, same) = prune-effect limit_time limit customer l h in subst Tallied same tallied
