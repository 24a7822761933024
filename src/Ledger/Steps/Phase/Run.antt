-- ===== src/Ledger/Steps/Phase/Run.antt =====
-- The methods of cathedral/ledger.py as turns of the machine of the epochs, each under its label.
use cathedral_compute.Base.{
  ℕ, ◌≡◌, refl, sym, ap, true, not, List, [], ◌∷◌, none, some, ok, all, arith, subst, inl, inr,
  nat_beq_iff, find_first,
}
use cathedral_compute.Base.Int.{pos_part}
use cathedral_compute.Ledger.{Ledger, Epoch, new_ledger, has_id}
use cathedral_compute.Ledger.Epochs.{BeginRequest, begin_epoch, blocking_epoch}
use cathedral_compute.Ledger.Epochs.Order.{ordered, below}
use cathedral_compute.Ledger.Completion.{Services, abort_running}
use cathedral_compute.Ledger.Jobs.Pruning.{prune-effect}
use cathedral_compute.Ledger.Jobs.Effects.{
  insert_job-effect, enqueue-effect, claim-effect, resolve_leased-effect,
}
use cathedral_compute.Ledger.Steps.{Step, Reach, consistent}
use cathedral_compute.Ledger.Steps.Effects.{
  begin_epoch-row, abort_epoch-row, abandon-effect, publish-effect,
}
use cathedral_compute.Ledger.Steps.Order.{find_own, find_first-holds}
use cathedral_compute.Ledger.Steps.Freezing.{complete_epoch-effect}
use cathedral_compute.Ledger.Steps.Work.{issue-effect, resolve-effect, attest-effect}
use cathedral_compute.Ledger.Steps.Invariant.{consistent-parts, Reach-consistent}
use cathedral_compute.Ledger.Steps.Phase.{
  Label, begins, aborts, completes, publishes, abandons, works, Turn, Turns, idle, view,
  last_published,
}
use cathedral_compute.Ledger.Steps.Phase.Rows.{
  aborted-Turn, frozen-Turn, published-Turn, abandoned-Turn, update-Turn, begun-Turn, not_named,
  not_opened,
}

-- The label of a method that returned.
abbrev pub label_of : {sv : Services} {l m : Ledger} → Step sv l m → Label
label_of (Step.begin_step r id h) = begins id (pos_part r.source_epoch)
label_of (Step.abort_step id now h) = aborts id
label_of (Step.complete_step id r scores h) = completes id
label_of (Step.abandon_step id reason h) = abandons id
label_of (Step.publish_step id digest h) = publishes id
label_of (Step.issue_step challenge hotkey id h) = works
label_of (Step.resolve_step challenge status units derived h) = works
label_of (Step.attest_step id hotkey a h) = works
label_of (Step.enqueue_step hashes item customer key uuid now job h) = works
label_of (Step.claim_step hashes owner id lease_seconds max_attempts token now lease h) = works
label_of (Step.resolve_leased_step hashes result_json challenge status units derived q now h) =
    works
label_of (Step.prune_step resolved_before limit customer count h) = works

-- The labels of a sequence of methods, the newest first.
abbrev pub trace : {sv : Services} {l m : Ledger} → Reach sv l m → List Label
trace Reach.start = []
trace (Reach.step reached taken) = label_of taken ∷ trace reached

abbrev Seen : Label → Ledger → Ledger → Type 0
Seen label l m = Turn label (view l.epochs) (view m.epochs)

begin-Seen :
    (r : BeginRequest) (id : ℕ) (l m : Ledger)
    → all (below l.next_id) l.epochs ≡ true
    → begin_epoch r l ≡ ok (id, m)
    → Seen (begins id (pos_part r.source_epoch)) l m
begin-Seen r id l m older h =
    let b = begin_epoch-row r l h in
    let turn =
      begun-Turn b.row l.epochs
        (subst (λ n. all (below n) l.epochs ≡ true) (sym b.next_number) older) b.free b.higher
        b.runs in
    subst (λ x. Seen (begins id (pos_part r.source_epoch)) l x) (sym b.inserted)
      (subst (λ s. Turn (begins id s) (view l.epochs) (view (b.row ∷ l.epochs))) b.same_source
        (subst (λ i. Turn (begins i b.row.source_epoch) (view l.epochs) (view (b.row ∷ l.epochs)))
          b.same_id turn))

work-Seen : (l m : Ledger) → l.epochs ≡ m.epochs → Seen works l m
work-Seen l m same = subst (λ es. Turn works (view l.epochs) (view es)) same (Turn.rests refl)

own_id :
    (id : ℕ) (es : List Epoch) {e : Epoch} → find_first (has_id id) es ≡ some e → e.epoch_id ≡ id
own_id id es {e = e} found = (nat_beq_iff e.epoch_id id).0 (find_first-holds (has_id id) es found)

-- A method that returns is seen as the turn of its label.
Step-Turn :
    (sv : Services) {l m : Ledger}
    → ordered l.epochs ≡ true
    → all (below l.next_id) l.epochs ≡ true
    → (taken : Step sv l m) → Seen (label_of taken) l m
unfolding abort_running
Step-Turn sv {l = l} {m = m} inv older (Step.begin_step r id h) = begin-Seen r id l m older h
Step-Turn sv {l = l} inv older (Step.abort_step id now h) =
    let (e, found, outcome) = abort_epoch-row id now l h in
    elim outcome [
      | inl (already, same) ↦
          subst (Seen (aborts id) l) same
            (Turn.rests (ap not (not_named id l.epochs inv found (ground (arith, already)))))
      | inr (runs, same) ↦ subst (Seen (aborts id) l) same (
          update-Turn aborts id _ l.epochs inv found (ground (arith, runs))
            (λ rest behind. aborted-Turn e rest behind runs))
    ]
Step-Turn sv {l = l} {m = m} inv older (Step.complete_step id r scores h) =
    let (e, found, outcome) = complete_epoch-effect sv id r l h in
    elim outcome [
      | inl (final, loaded, same) ↦
          subst (Seen (completes id) l) same
            (Turn.rests (ap not (not_opened id l.epochs inv found (ground (arith, final)))))
      | inr (generated_at, audience, runs, done) ↦
          let own = own_id id l.epochs found in
          subst (λ i. Seen (completes i) l m) own
            (subst (Seen (completes e.epoch_id) l) done.tables (
              update-Turn completes e.epoch_id _ l.epochs inv (find_own id l.epochs found)
                (ground (arith, runs)) (λ rest behind. frozen-Turn e rest behind _ _ runs)))
    ]
Step-Turn sv {l = l} inv older (Step.abandon_step id reason h) =
    let (e, found, ready, same) = abandon-effect id reason l h in
    subst (Seen (abandons id) l) same (
      update-Turn abandons id _ l.epochs inv found (ground (arith, ready))
        (λ rest behind. abandoned-Turn e rest behind ready))
Step-Turn sv {l = l} inv older (Step.publish_step id digest h) =
    let (e, found, matches, outcome) = publish-effect id digest l h in
    elim outcome [
      | inl (already, same) ↦
          subst (Seen (publishes id) l) same
            (Turn.rests (ap not (not_named id l.epochs inv found (ground (arith, already)))))
      | inr (ready, same) ↦ subst (Seen (publishes id) l) same (
          update-Turn publishes id _ l.epochs inv found (ground (arith, ready))
            (λ rest behind. published-Turn e rest behind ready))
    ]
Step-Turn sv {l = l} {m = m} inv older (Step.issue_step c hotkey id h) =
    let (e, found, runs, free, same) = issue-effect c hotkey id l h in
    work-Seen l m (ap (λ (x : Ledger). x.epochs) same)
Step-Turn sv {l = l} {m = m} inv older (Step.resolve_step c status units derived h) =
    let (row, u, at_id, is_open, valid, same) = resolve-effect c status units derived l h in
    work-Seen l m (ap (λ (x : Ledger). x.epochs) same)
Step-Turn sv {l = l} {m = m} inv older (Step.attest_step id hotkey a h) =
    elim (attest-effect id hotkey a l h) [
      | inl same ↦ work-Seen l m (ap (λ (x : Ledger). x.epochs) same)
      | inr (free, same) ↦ work-Seen l m (ap (λ (x : Ledger). x.epochs) same)
    ]
Step-Turn sv {l = l} {m = m} inv older (Step.enqueue_step hashes item customer key uuid now job h) =
    elim (enqueue-effect hashes item customer key uuid now l h) [
      | inl same ↦ work-Seen l m (ap (λ (x : Ledger). x.epochs) same)
      | inr inserted ↦
          let (free, quota, room, same) = insert_job-effect _ l inserted in
          work-Seen l m (ap (λ (x : Ledger). x.epochs) same)
    ]
Step-Turn sv {l = l} {m = m} inv older
      (Step.claim_step hashes owner i lease_seconds max_attempts token now lease h) =
    let (js, cs, claimed, same) =
      claim-effect hashes owner i lease_seconds max_attempts token now l h in
    work-Seen l m (ap (λ (x : Ledger). x.epochs) same)
Step-Turn sv {l = l} {m = m} inv older
      (Step.resolve_leased_step hashes result_json x status units derived q now h) =
    let (d, u, j, body, error, derived_units, good, current, at_x, is_open, same) =
      resolve_leased-effect hashes result_json x status units derived q now l h in
    work-Seen l m (ap (λ (x : Ledger). x.epochs) same)
Step-Turn sv {l = l} {m = m} inv older (Step.prune_step limit_time limit customer count h) =
    let (ids, same) = prune-effect limit_time limit customer l h in
    work-Seen l m (ap (λ (x : Ledger). x.epochs) same)

-- The methods of the ledger refine the machine: what they make of a new ledger, in any sequence, is
-- seen as a run of the machine, from no published source epoch and the idle phase, whose labels are
-- the methods of the sequence with the ids of their epochs. In such a run `begin_epoch` opens an
-- epoch, in the idle phase, above the newest published source epoch; `abort_epoch`,
-- `complete_epoch`, `mark_published` and `abandon_completed_epoch` close the open or the waiting
-- epoch of their id, each to its own phase; only `mark_published` changes the newest published source
-- epoch; and a method changes nothing of this when it works within an epoch or repeats itself.
pub Reach-Turns :
    (sv : Services) (l : Ledger) (reached : Reach sv new_ledger l)
    → Turns (trace reached) (none, idle) (view l.epochs)
unfolding view last_published blocking_epoch consistent ordered
Reach-Turns sv l Reach.start = Turns.done
Reach-Turns sv l (Reach.step {m = k} reached taken) =
    let (in_order, older, tallied) =
      consistent-parts k (Reach-consistent sv new_ledger k reached refl) in
    Turns.next (Reach-Turns sv k reached) (Step-Turn sv in_order older taken)
