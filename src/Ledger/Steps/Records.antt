-- ===== src/Ledger/Steps/Records.antt =====
-- The rows of challenges over the steps of cathedral/ledger.py.
use cathedral_compute.Base.{
  ℕ, ◌≡◌, true, false, List, [], ◌∷◌, Option, none, some, map, filter, arith, update_first, subst,
  ap, sym, ◌∙◌, inl, inr, Bool-cases, string_eq, text_eq, text_beq_iff,
}
use cathedral_compute.Ledger.{
  Ledger, Challenge, ChallengeStatus, Job, Lease, is_issued, has_challenge, challenge_at, give_up,
}
use cathedral_compute.Ledger.Epochs.Order.{find_first-cases}
use cathedral_compute.Ledger.Challenges.{resolved}
use cathedral_compute.Ledger.Completion.{Services, abort_running, give_up_leased, leased_in}
use cathedral_compute.Ledger.Jobs.Pruning.{prune-effect}
use cathedral_compute.Ledger.Steps.{Step, Reach}
use cathedral_compute.Ledger.Steps.Effects.{
  begin_epoch-effect, abort_epoch-effect, abandon-effect, publish-effect,
}
use cathedral_compute.Ledger.Jobs.Effects.{
  insert_job-effect, enqueue-effect, claim-effect, resolve_leased-effect, Claimed,
}
use cathedral_compute.Ledger.Jobs.Claim.{is_expired}
use cathedral_compute.Ledger.Steps.Freezing.{complete_epoch-effect}
use cathedral_compute.Ledger.Steps.Work.{issue-effect, resolve-effect, attest-effect}

-- The row of `c` in a table.
abbrev Holds : List ℕ → Challenge → List Challenge → Type 0
Holds id c cs = challenge_at id cs ≡ some c

give_up-settled : (x : List ℕ) (c : Challenge) → is_issued c.status ≡ false → give_up x c ≡ c
give_up-settled x c h = ground arith

give_up-id : (x id : List ℕ) (c : Challenge) → has_challenge id (give_up x c) ≡ has_challenge id c
give_up-id x id c = ground arith

give_up-Holds :
    (x id : List ℕ) (c : Challenge) (cs : List Challenge)
    → Holds id c cs
    → is_issued c.status ≡ false
    → Holds id c (map (give_up x) cs)
give_up-Holds x id c [] found settled = found
give_up-Holds x id c (r ∷ rs) found settled =
    elim (find_first-cases (has_challenge id) r rs found) [
      | inl (here_id, is_c) ↦
          let kept =
            give_up-settled x r (subst (λ y. is_issued y.status ≡ false) (sym is_c) settled) in
          rw (give_up-id x id r, here_id, kept, is_c)
      | inr (other, later) ↦ rw (give_up-id x id r, other) (give_up-Holds x id c rs later settled)
    ]

give_up_leased-Holds :
    (js : List Job) (id : List ℕ) (c : Challenge) (cs : List Challenge)
    → Holds id c cs
    → is_issued c.status ≡ false
    → Holds id c (give_up_leased js cs)
unfolding give_up_leased
give_up_leased-Holds [] id c cs found settled = found
give_up_leased-Holds (j ∷ js) id c cs found settled =
    give_up_leased-Holds js id c _ (released j.lease) settled
  where
    released :
        (o : Option Lease)
        → Holds id c (elim o [ none ↦ cs | some lease ↦ map (give_up lease.challenge_id) cs ])
    released none = found
    released (some lease) = give_up-Holds lease.challenge_id id c cs found settled

-- A resolution of another challenge.
resolved-Holds :
    (x : List ℕ) (status : ChallengeStatus) (units : ℕ) (id : List ℕ) (c : Challenge)
    {d : Challenge} (cs : List Challenge)
    → Holds id c cs
    → is_issued c.status ≡ false
    → challenge_at x cs ≡ some d
    → is_issued d.status ≡ true
    → Holds id c (update_first (has_challenge x) (resolved status units) cs)
resolved-Holds x status units id c [] found settled found_d is_open = found
resolved-Holds x status units id c (r ∷ rs) found settled found_d is_open =
    elim (find_first-cases (has_challenge x) r rs found_d) [
      | inl (here_x, is_d) ↦ elim (find_first-cases (has_challenge id) r rs found) [
        | inl (here_id, is_c) ↦
            let twice = ap (λ y. is_issued y.status) (sym is_c ∙ is_d) in
            ground (arith, twice, settled, is_open)
        | inr (other, later) ↦ rw here_x (rw other later)
      ]
      | inr (not_x, later_d) ↦ rw not_x (elim (find_first-cases (has_challenge id) r rs found) [
        | inl (here_id, is_c) ↦ rw here_id (ap some is_c)
        | inr (other, later) ↦
            rw other (resolved-Holds x status units id c rs later settled later_d is_open)
      ])
    ]

-- A new challenge has a new id.
issued-Holds :
    (n : Challenge) (id : List ℕ) (c : Challenge) (cs : List Challenge)
    → Holds id c cs
    → challenge_at n.challenge_id cs ≡ none
    → Holds id c (n ∷ cs)
issued-Holds n id c cs found free = elim (Bool-cases (has_challenge id n)) [
  | inl same ↦
      let ids = (text_beq_iff n.challenge_id id).0 same in
      let twice = sym found ∙ subst (λ i. challenge_at i cs ≡ none) ids free in cc
  | inr other ↦ rw other found
]

claimed-Holds :
    (id : List ℕ) (c : Challenge) (swept cs : List Challenge) (before after : List Job)
    → Claimed swept before cs after
    → Holds id c swept
    → Holds id c cs
claimed-Holds id c swept cs before after Claimed.no_claim found = found
claimed-Holds id c swept cs before after (Claimed.claim n x lease free) found =
    issued-Holds n id c swept found free

Step-Holds :
    (sv : Services) (l m : Ledger) (id : List ℕ) (c : Challenge)
    → Step sv l m
    → Holds id c l.challenges
    → is_issued c.status ≡ false
    → Holds id c m.challenges
unfolding abort_running
Step-Holds sv l m id c (Step.begin_step r i h) found settled =
    let (moved, scores, challenges, attestations, jobs) = begin_epoch-effect r l h in
    subst (Holds id c) challenges found
Step-Holds sv l m id c (Step.abort_step i now h) found settled =
    elim (abort_epoch-effect i now l h) [
      | inl same ↦ subst (λ t. Holds id c t.challenges) same found
      | inr (e, at_id, runs, same) ↦
          subst (λ t. Holds id c t.challenges) same
            (give_up_leased-Holds (filter (leased_in i) l.jobs) id c l.challenges found settled)
    ]
Step-Holds sv l m id c (Step.complete_step i r scores h) found settled =
    let (e, at_id, outcome) = complete_epoch-effect sv i r l h in
    elim outcome [
      | inl (final, loaded, same) ↦ subst (λ t. Holds id c t.challenges) same found
      | inr (generated_at, audience, runs, done) ↦
          subst (λ t. Holds id c t.challenges) done.tables found
    ]
Step-Holds sv l m id c (Step.abandon_step i reason h) found settled =
    let (e, at_id, ready, same) = abandon-effect i reason l h in
    subst (λ t. Holds id c t.challenges) same found
Step-Holds sv l m id c (Step.publish_step i digest h) found settled =
    let (e, at_id, matches, outcome) = publish-effect i digest l h in
    elim outcome [
      | inl (already, same) ↦ subst (λ t. Holds id c t.challenges) same found
      | inr (ready, same) ↦ subst (λ t. Holds id c t.challenges) same found
    ]
Step-Holds sv l m id c (Step.issue_step x hotkey i h) found settled =
    let (e, at_id, runs, free, same) = issue-effect x hotkey i l h in
    subst (λ t. Holds id c t.challenges) same (issued-Holds _ id c l.challenges found free)
Step-Holds sv l m id c (Step.resolve_step x status units derived h) found settled =
    let (d, u, at_x, is_open, valid, same) = resolve-effect x status units derived l h in
    subst (λ t. Holds id c t.challenges) same
      (resolved-Holds x status u id c l.challenges found settled at_x is_open)
Step-Holds sv l m id c (Step.attest_step i hotkey a h) found settled =
    elim (attest-effect i hotkey a l h) [
      | inl same ↦ subst (λ t. Holds id c t.challenges) same found
      | inr (free, same) ↦ subst (λ t. Holds id c t.challenges) same found
    ]
Step-Holds sv l m id c (Step.enqueue_step hashes item customer key uuid now job h) found settled =
    elim (enqueue-effect hashes item customer key uuid now l h) [
      | inl same ↦ subst (λ t. Holds id c t.challenges) same found
      | inr inserted ↦
          let (free, quota, room, same) = insert_job-effect _ l inserted in
          subst (λ t. Holds id c t.challenges) same found
    ]
Step-Holds sv l m id c (Step.claim_step hashes owner i lease_seconds max_attempts token now lease h)
      found settled =
    let (js, cs, claimed, same) =
      claim-effect hashes owner i lease_seconds max_attempts token now l h in
    subst (λ t. Holds id c t.challenges) same
      (claimed-Holds id c _ cs _ js claimed
        (give_up_leased-Holds (filter (is_expired now) l.jobs) id c l.challenges found settled))
Step-Holds sv l m id c (Step.resolve_leased_step hashes result_json x status units derived q now h)
      found settled =
    let (d, u, j, body, error, derived_units, good, current, at_x, is_open, same) =
      resolve_leased-effect hashes result_json x status units derived q now l h in
    subst (λ t. Holds id c t.challenges) same
      (resolved-Holds x status u id c l.challenges found settled at_x is_open)
Step-Holds sv l m id c (Step.prune_step limit_time limit customer count h) found settled =
    let (ids, same) = prune-effect limit_time limit customer l h in
    subst (λ t. Holds id c t.challenges) same found

-- Whatever sequence of methods runs, a challenge that is no longer issued keeps its row: its hotkey,
-- epoch, status and work units never change again.
pub Reach-challenge_at :
    (sv : Services) (l m : Ledger) (id : List ℕ) (c : Challenge)
    → Reach sv l m
    → challenge_at id l.challenges ≡ some c
    → is_issued c.status ≡ false
    → challenge_at id m.challenges ≡ some c
Reach-challenge_at sv l m id c Reach.start found settled = found
Reach-challenge_at sv l m id c (Reach.step {m = k} reached taken) found settled =
    Step-Holds sv k m id c taken (Reach-challenge_at sv l k id c reached found settled) settled
