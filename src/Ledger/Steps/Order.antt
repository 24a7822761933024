-- ===== src/Ledger/Steps/Order.antt =====
-- The epochs over the steps of cathedral/ledger.py.
use cathedral_compute.Base.{
  ℕ, ◌≡◌, refl, Bool, true, false, List, [], ◌∷◌, some, all, arith, find_first, subst, sym, inl,
  inr, &&_parts, nat_beq_iff,
}
use cathedral_compute.Ledger.{Ledger, Epoch, has_id, is_running}
use cathedral_compute.Ledger.Epochs.Order.{
  ordered, below, is_behind, find_first-cases, all-is_behind, all-below-suc, all-is_behind_same,
}
use cathedral_compute.Ledger.Completion.{Services, abort_running}
use cathedral_compute.Ledger.Jobs.Pruning.{prune-effect}
use cathedral_compute.Ledger.Steps.{Step, Move, Advance}
use cathedral_compute.Ledger.Steps.Effects.{
  Moved, begin_epoch-effect, update-Move, abort_epoch-effect, abandon-effect, publish-effect,
}
use cathedral_compute.Ledger.Jobs.Effects.{
  insert_job-effect, enqueue-effect, claim-effect, resolve_leased-effect,
}
use cathedral_compute.Ledger.Steps.Freezing.{complete_epoch-effect}
use cathedral_compute.Ledger.Steps.Work.{issue-effect, resolve-effect, attest-effect}

pub find_first-holds {ℓ} :
    {A : Type ℓ} (p : A → Bool) (xs : List A) {a : A} → find_first p xs ≡ some a → p a ≡ true
find_first-holds p [] found = cc
find_first-holds p (x ∷ xs) found = elim (find_first-cases p x xs found) [
  | inl (holds, same) ↦ subst (λ y. p y ≡ true) same holds
  | inr (fails, later) ↦ find_first-holds p xs later
]

pub find_own :
    (id : ℕ) (es : List Epoch) {e : Epoch}
    → find_first (has_id id) es ≡ some e
    → find_first (has_id e.epoch_id) es ≡ some e
find_own id es {e = e} found =
    subst (λ n. find_first (has_id n) es ≡ some e)
      (sym ((nat_beq_iff e.epoch_id id).0 (find_first-holds (has_id id) es found))) found

-- A step moves the epochs as `Move` says.
pub Step-Move : (sv : Services) {l m : Ledger} → ordered l.epochs ≡ true → Step sv l m → Moved l m
unfolding abort_running
Step-Move sv {l = l} inv (Step.begin_step r id h) = (begin_epoch-effect r l h).0
Step-Move sv {l = l} inv (Step.abort_step id now h) = elim (abort_epoch-effect id now l h) [
  | inl same ↦ subst (Moved l) same Move.stays
  | inr (e, found, runs, same) ↦
      subst (Moved l) same
        (update-Move id _ l inv found (ground (arith, runs)) (Advance.aborting runs))
]
Step-Move sv {l = l} inv (Step.complete_step id r scores h) =
    let (e, found, outcome) = complete_epoch-effect sv id r l h in
    elim outcome [
      | inl (final, loaded, same) ↦ subst (Moved l) same Move.stays
      | inr (generated_at, audience, runs, done) ↦ subst (Moved l) done.tables (
          update-Move e.epoch_id _ l inv (find_own id l.epochs found) (ground (arith, runs))
            (Advance.completing _ _ runs))
    ]
Step-Move sv {l = l} inv (Step.abandon_step id reason h) =
    let (e, found, ready, same) = abandon-effect id reason l h in
    subst (Moved l) same
      (update-Move id _ l inv found (ground (arith, ready)) (Advance.abandoning ready))
Step-Move sv {l = l} inv (Step.publish_step id digest h) =
    let (e, found, matches, outcome) = publish-effect id digest l h in
    elim outcome [
      | inl (already, same) ↦ subst (Moved l) same Move.stays
      | inr (ready, same) ↦
          subst (Moved l) same
            (update-Move id _ l inv found (ground (arith, ready)) (Advance.publishing ready))
    ]
Step-Move sv {l = l} inv (Step.issue_step c hotkey id h) =
    let (e, found, runs, free, same) = issue-effect c hotkey id l h in
    subst (Moved l) same Move.stays
Step-Move sv {l = l} inv (Step.resolve_step c status units derived h) =
    let (row, u, at_id, is_open, valid, same) = resolve-effect c status units derived l h in
    subst (Moved l) same Move.stays
Step-Move sv {l = l} inv (Step.attest_step id hotkey a h) = elim (attest-effect id hotkey a l h) [
  | inl same ↦ subst (Moved l) same Move.stays
  | inr (free, same) ↦ subst (Moved l) same Move.stays
]
Step-Move sv {l = l} inv (Step.enqueue_step hashes item customer key uuid now job h) =
    elim (enqueue-effect hashes item customer key uuid now l h) [
      | inl same ↦ subst (Moved l) same Move.stays
      | inr inserted ↦
          let (free, quota, room, same) = insert_job-effect _ l inserted in
          subst (Moved l) same Move.stays
    ]
Step-Move sv {l = l} inv
      (Step.claim_step hashes owner i lease_seconds max_attempts token now lease h) =
    let (js, cs, claimed, same) =
      claim-effect hashes owner i lease_seconds max_attempts token now l h in
    subst (Moved l) same Move.stays
Step-Move sv {l = l} inv
      (Step.resolve_leased_step hashes result_json x status units derived q now h) =
    let (d, u, j, body, error, derived_units, good, current, at_x, is_open, same) =
      resolve_leased-effect hashes result_json x status units derived q now l h in
    subst (Moved l) same Move.stays
Step-Move sv {l = l} inv (Step.prune_step limit_time limit customer count h) =
    let (ids, same) = prune-effect limit_time limit customer l h in subst (Moved l) same Move.stays

-- A move keeps the order and the ids below the next one.
pub Advance-id : {e f : Epoch} → Advance e f → e.epoch_id ≡ f.epoch_id
Advance-id (Advance.aborting h) = refl
Advance-id (Advance.completing report digest h) = refl
Advance-id (Advance.publishing h) = refl
Advance-id (Advance.abandoning h) = refl

pub Advance-source : {e f : Epoch} → Advance e f → e.source_epoch ≡ f.source_epoch
Advance-source (Advance.aborting h) = refl
Advance-source (Advance.completing report digest h) = refl
Advance-source (Advance.publishing h) = refl
Advance-source (Advance.abandoning h) = refl

pub Advance-stops : {e f : Epoch} → Advance e f → is_running f.status ≡ false
Advance-stops (Advance.aborting h) = refl
Advance-stops (Advance.completing report digest h) = refl
Advance-stops (Advance.publishing h) = refl
Advance-stops (Advance.abandoning h) = refl

pub Move-ordered :
    {n k : ℕ} {es fs : List Epoch}
    → Move n es k fs
    → ordered es ≡ true
    → all (below n) es ≡ true
    → (ordered fs ≡ true) × (all (below k) fs ≡ true)
unfolding ordered
Move-ordered Move.stays inv older = (inv, older)
Move-ordered {n = n} {es = es} (Move.starts e free higher id_is runs) inv older =
    let behind =
      all-is_behind e es free higher (subst (λ i. all (below i) es ≡ true) (sym id_is) older) in
    (rw (behind, inv), ground (arith, all-below-suc n es older, id_is))
Move-ordered {n = n} (Move.advances {e = e} {f = f} {rest = rest} same advance) inv older =
    let inv' = subst (λ xs. ordered xs ≡ true) same inv in
    let older' = subst (λ xs. all (below n) xs ≡ true) same older in
    let (behind, rest_ordered) = &&_parts (all (is_behind e) rest) (ordered rest) inv' in
    (
      rw (
        all-is_behind_same e f rest (Advance-id advance) (Advance-source advance) behind,
        rest_ordered,
      ),
      ground (arith, older', Advance-id advance),
    )
