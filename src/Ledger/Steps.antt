-- ===== src/Ledger/Steps.antt =====
-- The steps of cathedral/ledger.py: a method of the ledger that returns, as a step from the tables
-- before to the tables after, and what a step does to the epochs.
pub mod Effects
pub mod Freezing
pub mod Work
pub mod Order
pub mod Tallies
pub mod Invariant
pub mod Phase
pub mod Reports
pub mod Posting
pub mod Completing
pub mod Records
pub mod Evidence
pub mod Retrying
pub mod Queue
use cathedral_compute.Base.{
  ℕ, suc, ◌≡◌, refl, Bool, true, false, not, ◌&&◌, ◌||◌, List, [], ◌∷◌, Option, none, some, String,
  Result, ok, err, all, any, ltb, nat_beq, if◌then◌else◌,
}
use cathedral_compute.Base.Text.{Bytes}
use cathedral_compute.Ledger.{
  Ledger, Epoch, Job, EpochStatus, running, aborted, complete, published, abandoned,
  ChallengeStatus, Score, Report, LifecycleRow, is_running, is_complete,
}
use cathedral_compute.Ledger.Epochs.{
  BeginRequest, begin_epoch, abandon_completed_epoch, mark_published, blocking_epoch, last_final,
  above,
}
use cathedral_compute.Ledger.Epochs.Order.{ordered, below}
use cathedral_compute.Ledger.Challenges.{issue_challenge, resolve_challenge}
use cathedral_compute.Ledger.Attestations.{AttestationRequest, add_attestation}
use cathedral_compute.Sat.WorkItem.{SatWorkItem, Hashes}
use cathedral_compute.Ledger.Jobs.{enqueue_job}
use cathedral_compute.Ledger.Jobs.Pruning.{prune_jobs}
use cathedral_compute.Ledger.Jobs.Claim.{CustomerJobLease, claim_job}
use cathedral_compute.Ledger.Jobs.Resolution.{CustomerResult, CustomerResolution, resolve_leased}
use cathedral_compute.Ledger.Completion.{
  Services, CompletionRequest, complete_epoch, abort_epoch, frozen,
}

-- A method that returns.
pub data Step (sv : Services) (l m : Ledger) : Type 0 where
  begin_step : (r : BeginRequest) (id : ℕ) → begin_epoch r l ≡ ok (id, m) → Step sv l m
  abort_step : (id now : ℕ) → abort_epoch id now l ≡ ok m → Step sv l m
  complete_step :
      (id : ℕ) (r : CompletionRequest) (scores : List Score)
      → complete_epoch sv id r l ≡ ok (scores, m)
      → Step sv l m
  abandon_step :
      (id : ℕ) (reason : String) → abandon_completed_epoch id reason l ≡ ok m → Step sv l m
  publish_step : (id : ℕ) (digest : Option Bytes) → mark_published id digest l ≡ ok m → Step sv l m
  issue_step :
      (challenge : List ℕ) (hotkey : String) (id : ℕ)
      → issue_challenge challenge hotkey id l ≡ ok m
      → Step sv l m
  resolve_step :
      (challenge : List ℕ) (status : ChallengeStatus) (units : ℕ) (derived : Bool)
      → resolve_challenge challenge status units derived l ≡ ok m
      → Step sv l m
  attest_step :
      (id : ℕ) (hotkey : String) (a : AttestationRequest)
      → add_attestation id hotkey a l ≡ ok m
      → Step sv l m
  enqueue_step :
      (hashes : Hashes) (item : SatWorkItem) (customer : String) (key : Option String)
      (uuid : List ℕ) (now : ℕ) (job : Job)
      → enqueue_job hashes item customer key uuid now l ≡ ok (job, m)
      → Step sv l m
  claim_step :
      (hashes : Hashes) (owner : String) (id lease_seconds max_attempts : ℕ) (token : List ℕ)
      (now : ℕ) (lease : Option CustomerJobLease)
      → claim_job hashes owner id lease_seconds max_attempts token now l ≡ ok (lease, m)
      → Step sv l m
  resolve_leased_step :
      (hashes : Hashes) (result_json : CustomerResult → Bytes) (challenge : List ℕ)
      (status : ChallengeStatus) (units : ℕ) (derived : Bool) (q : CustomerResolution) (now : ℕ)
      → resolve_leased hashes result_json challenge status units derived q now l ≡ ok m
      → Step sv l m
  prune_step :
      (resolved_before limit : ℕ) (customer : Option String) (count : ℕ)
      → prune_jobs resolved_before limit customer l ≡ ok (count, m)
      → Step sv l m

-- Any number of steps.
pub data Reach (sv : Services) : Ledger → Ledger → Type 0 where
  start : {l : Ledger} → Reach sv l l
  step : {l m n : Ledger} → Reach sv l m → Step sv m n → Reach sv l n

-- What happens to one epoch.
pub data Advance : Epoch → Epoch → Type 0 where
  aborting : {e : Epoch} → is_running e.status ≡ true → Advance e (record e { status = aborted })
  completing :
      {e : Epoch} (report : Report) (digest : Bytes)
      → is_running e.status ≡ true
      → Advance e (frozen report digest e)
  publishing :
      {e : Epoch} → is_complete e.status ≡ true → Advance e (record e { status = published })
  abandoning :
      {e : Epoch} → is_complete e.status ≡ true → Advance e (record e { status = abandoned })

-- What happens to the epochs and the next id.
pub data Move (next : ℕ) (es : List Epoch) : ℕ → List Epoch → Type 0 where
  stays : Move next es next es
  starts :
      (e : Epoch)
      → blocking_epoch es ≡ none
      → above (last_final es) e.source_epoch ≡ true
      → e.epoch_id ≡ next
      → is_running e.status ≡ true
      → Move next es (suc next) (e ∷ es)
  advances :
      {e f : Epoch} {rest : List Epoch} → es ≡ e ∷ rest → Advance e f → Move next es next (f ∷ rest)

abbrev pub unscored : List (ℕ × Score) → Epoch → Bool
unscored rows e = not (is_running e.status) || not (any (λ row. nat_beq row.0 e.epoch_id) rows)

-- The invariant of the tables: the epochs in order, their ids and those of the scores below the
-- next one, and no score of a running epoch.
unfoldable pub consistent : Ledger → Bool
unfolding ordered
consistent l =
    ordered l.epochs
    && all (below l.next_id) l.epochs
    && all (λ row. ltb row.0 l.next_id) l.scores
    && all (unscored l.scores) l.epochs
