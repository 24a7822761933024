-- ===== src/Ledger/Steps/Evidence.antt =====
-- The rows of attestations over the steps of cathedral/ledger.py.
use cathedral_compute.Base.{
  ℕ, ◌≡◌, List, ◌∷◌, none, some, String, nat_beq, find_first, subst, sym, ◌∙◌, inl, inr, Bool-cases,
  string_eq, text_eq, nat_beq_iff, &&_parts, eq_iff, ◌==◌,
}
use cathedral_compute.Ledger.{Ledger, Attestation}
use cathedral_compute.Ledger.Attestations.{AttestationRequest, is_row, row_of}
use cathedral_compute.Ledger.Completion.{Services, abort_running}
use cathedral_compute.Ledger.Jobs.Pruning.{prune-effect}
use cathedral_compute.Ledger.Steps.{Step, Reach}
use cathedral_compute.Ledger.Steps.Effects.{
  begin_epoch-effect, abort_epoch-effect, abandon-effect, publish-effect,
}
use cathedral_compute.Ledger.Jobs.Effects.{
  insert_job-effect, enqueue-effect, claim-effect, resolve_leased-effect,
}
use cathedral_compute.Ledger.Steps.Freezing.{complete_epoch-effect}
use cathedral_compute.Ledger.Steps.Work.{issue-effect, resolve-effect, attest-effect}

-- Evidence of another worker or epoch goes in front.
row_of-other :
    (i id : ℕ) (x hotkey : String) (a : AttestationRequest) (rows : List Attestation)
    {row : Attestation}
    → find_first (is_row id hotkey) rows ≡ some row
    → find_first (is_row i x) rows ≡ none
    → find_first (is_row id hotkey) (row_of i x a ∷ rows) ≡ some row
row_of-other i id x hotkey a rows found free = elim (Bool-cases (is_row id hotkey (row_of i x a))) [
  | inl same ↦
      let (same_id, same_key) = &&_parts (nat_beq i id) (x == hotkey) same in
      let ids = (nat_beq_iff i id).0 same_id in
      let keys = (eq_iff x hotkey).0 same_key in
      let twice =
        sym found
        ∙ subst (λ k. find_first (is_row id k) rows ≡ none) keys
            (subst (λ n. find_first (is_row n x) rows ≡ none) ids free) in
      cc
  | inr other ↦ rw other found
]

abbrev HoldsRow : ℕ → String → Attestation → Ledger → Type 0
HoldsRow id hotkey row l = find_first (is_row id hotkey) l.attestations ≡ some row

Step-HoldsRow :
    (sv : Services) (l m : Ledger) (id : ℕ) (hotkey : String) (row : Attestation)
    → Step sv l m
    → HoldsRow id hotkey row l
    → HoldsRow id hotkey row m
unfolding abort_running
Step-HoldsRow sv l m id hotkey row (Step.begin_step r i h) found =
    let (moved, scores, challenges, attestations, jobs) = begin_epoch-effect r l h in
    subst (λ rows. find_first (is_row id hotkey) rows ≡ some row) attestations found
Step-HoldsRow sv l m id hotkey row (Step.abort_step i now h) found =
    elim (abort_epoch-effect i now l h) [
      | inl same ↦ subst (HoldsRow id hotkey row) same found
      | inr (e, at_id, runs, same) ↦ subst (HoldsRow id hotkey row) same found
    ]
Step-HoldsRow sv l m id hotkey row (Step.complete_step i r scores h) found =
    let (e, at_id, outcome) = complete_epoch-effect sv i r l h in
    elim outcome [
      | inl (final, loaded, same) ↦ subst (HoldsRow id hotkey row) same found
      | inr (generated_at, audience, runs, done) ↦ subst (HoldsRow id hotkey row) done.tables found
    ]
Step-HoldsRow sv l m id hotkey row (Step.abandon_step i reason h) found =
    let (e, at_id, ready, same) = abandon-effect i reason l h in
    subst (HoldsRow id hotkey row) same found
Step-HoldsRow sv l m id hotkey row (Step.publish_step i digest h) found =
    let (e, at_id, matches, outcome) = publish-effect i digest l h in
    elim outcome [
      | inl (already, same) ↦ subst (HoldsRow id hotkey row) same found
      | inr (ready, same) ↦ subst (HoldsRow id hotkey row) same found
    ]
Step-HoldsRow sv l m id hotkey row (Step.issue_step x k i h) found =
    let (e, at_id, runs, free, same) = issue-effect x k i l h in
    subst (HoldsRow id hotkey row) same found
Step-HoldsRow sv l m id hotkey row (Step.resolve_step x status units derived h) found =
    let (d, u, at_x, is_open, valid, same) = resolve-effect x status units derived l h in
    subst (HoldsRow id hotkey row) same found
Step-HoldsRow sv l m id hotkey row (Step.attest_step i x a h) found =
    elim (attest-effect i x a l h) [
      | inl same ↦ subst (HoldsRow id hotkey row) same found
      | inr (free, same) ↦
          subst (HoldsRow id hotkey row) same
            (row_of-other i id x hotkey a l.attestations found free)
    ]
Step-HoldsRow sv l m id hotkey row (Step.enqueue_step hashes item customer key uuid now job h)
      found =
    elim (enqueue-effect hashes item customer key uuid now l h) [
      | inl same ↦ subst (HoldsRow id hotkey row) same found
      | inr inserted ↦
          let (free, quota, room, same) = insert_job-effect _ l inserted in
          subst (HoldsRow id hotkey row) same found
    ]
Step-HoldsRow sv l m id hotkey row
      (Step.claim_step hashes owner i lease_seconds max_attempts token now lease h) found =
    let (js, cs, claimed, same) =
      claim-effect hashes owner i lease_seconds max_attempts token now l h in
    subst (HoldsRow id hotkey row) same found
Step-HoldsRow sv l m id hotkey row
      (Step.resolve_leased_step hashes result_json x status units derived q now h) found =
    let (d, u, j, body, error, derived_units, good, current, at_x, is_open, same) =
      resolve_leased-effect hashes result_json x status units derived q now l h in
    subst (HoldsRow id hotkey row) same found
Step-HoldsRow sv l m id hotkey row (Step.prune_step limit_time limit customer count h) found =
    let (ids, same) = prune-effect limit_time limit customer l h in
    subst (HoldsRow id hotkey row) same found

-- Whatever sequence of methods runs, the attestation of a worker in an epoch, once written, stays the
-- one that the ledger finds for that worker and epoch.
pub Reach-attestation :
    (sv : Services) (l m : Ledger) (id : ℕ) (hotkey : String) (row : Attestation)
    → Reach sv l m
    → find_first (is_row id hotkey) l.attestations ≡ some row
    → find_first (is_row id hotkey) m.attestations ≡ some row
Reach-attestation sv l m id hotkey row Reach.start found = found
Reach-attestation sv l m id hotkey row (Reach.step {m = k} reached taken) found =
    Step-HoldsRow sv k m id hotkey row taken (Reach-attestation sv l k id hotkey row reached found)
