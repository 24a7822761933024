-- ===== src/Ledger.antt =====
-- cathedral/ledger.py: the tables of the validator's SQLite ledger. A table is a list of rows, the
-- newest first; a row is found by its primary key. A method is a function from the tables to a
-- result with the new tables, so that a transaction that raises leaves them as they were. Times
-- that are only recorded are left out, and so are the migrations of older databases. Work units
-- are whole numbers. Hashes, the clock and the random identifiers are arguments.
pub mod Audience
pub mod Epochs
pub mod Challenges
pub mod Attestations
pub mod Scores
pub mod Completion
pub mod Publication
pub mod Jobs
pub mod Steps
mod Examples
use cathedral_compute.Base.{
  ℕ, String, Bool, true, false, not, ◌&&◌, ◌||◌, List, [], Option, none, some, nat_beq, string_eq,
  text_eq, ◌==◌, find_first, update_first, Result, err, ok, ◌>>=◌, ◌>>◌, raise_if, if◌then◌else◌,
}
use cathedral_compute.Base.Int.{ℤ}
use cathedral_compute.Base.Text.{Bytes}
use cathedral_compute.Lifecycle.{State, Reason}
use cathedral_compute.Sat.WorkItem.{SatWorkItem}

pub data EpochStatus : Type 0 where
  running aborted complete published abandoned : EpochStatus

pub data ChallengeStatus : Type 0 where
  issued verified failed given_up : ChallengeStatus

-- The messages of `LedgerError`, and the integrity error of the database.
pub data LedgerError : Type 0 where
  ledger_closed epoch_not_found bad_source_epoch registry_pair anchor_pair : LedgerError
  bad_anchor_block bad_anchor_hash anchor_without_audience audience_pair bad_audience : LedgerError
  bad_registry_metadata bad_generated_at bad_report_score retry_first not_greater not_running
        cannot_abort cannot_complete :
      LedgerError
  cannot_publish not_complete bad_reason missing_identity duplicate_challenge : LedgerError
  bad_resolve_status not_validator_derived challenge_not_found already_resolved : LedgerError
  bad_envelope_digest missing_envelope bad_challenge_digest bad_hardware_shape : LedgerError
  bad_policy_mode attestation_immutable bad_hotkey anchored_audience unresolved_challenges :
      LedgerError
  report_too_large too_many_candidates bad_report_hotkey too_many_verified : LedgerError
  authority_expired published_digest_mismatch no_report report_corrupt not_accepted : LedgerError
  integrity_error bad_customer bad_idempotency_key bad_item idempotency_conflict : LedgerError
  queue_full customer_quota storage_full bad_owner bad_lease_seconds bad_attempts : LedgerError
  payload_corrupt payload_invalid lease_mismatch lease_required bad_disposition : LedgerError
  unverified_success result_schema result_mismatch result_unsatisfiable bad_assignment : LedgerError
  result_unsatisfied result_too_large not_failed_resolution bad_job_error error_required :
      LedgerError
  job_not_found stale_lease item_mismatch lease_expired lease_changed bad_prune : LedgerError
  epoch_blocking : ℕ → LedgerError

-- A score is a share of the epoch's maximum, kept as a fraction; Python divides the floats.
pub record Score : Type 0 where
  pub hotkey : String
  pub work_units : ℕ
  pub numerator : ℕ
  pub denominator : ℕ

-- The columns of `epoch_worker_lifecycle` that `complete_epoch` reads.
pub record LifecycleRow : Type 0 where
  pub epoch_id : ℕ
  pub hotkey : String
  pub state : State
  pub generation : ℤ
  pub revision : ℤ
  pub event_id : ℤ
  pub reason : Reason
  pub evidence_expires_at : Option String
  pub snapshot_at : String

-- The report whose canonical JSON is frozen.
pub record Report : Type 0 where
  pub source_epoch : ℕ
  pub generated_at : String
  pub policy_modes : List String
  pub registry_release : Option ℤ
  pub registry_digest : Option String
  pub worker_lifecycle : List LifecycleRow
  pub scores : List Score
  pub audience : Option (String × ℤ)

pub record Epoch : Type 0 where
  pub epoch_id : ℕ
  pub source_epoch : ℕ
  pub status : EpochStatus
  pub registry_release : Option ℤ
  pub registry_digest : Option String
  pub anchor : Option (String × ℤ)
  pub anchor_block : Option (ℤ × List ℕ)
  pub report : Option Report
  pub report_digest : Option Bytes

-- A challenge id is kept as code points, as in the SAT lane. `given_up` is `abandoned`.
pub record Challenge : Type 0 where
  pub challenge_id : List ℕ
  pub epoch_id : ℕ
  pub hotkey : String
  pub status : ChallengeStatus
  pub work_units : ℕ

pub record Attestation : Type 0 where
  pub epoch_id : ℕ
  pub hotkey : String
  pub tee_type : String
  pub workload : String
  pub evidence_digest : String
  pub policy_mode : String
  pub score_eligible : Bool
  pub envelope_digest : Option String
  pub challenge_digest : Option String

pub data JobStatus : Type 0 where
  queued leased succeeded job_failed : JobStatus

pub record Lease : Type 0 where
  pub token : List ℕ
  pub owner : String
  pub epoch_id : ℕ
  pub challenge_id : List ℕ
  pub expires_at : ℕ

-- A row of `customer_jobs`, its body kept as the item that the body encodes. The five lease
-- columns are null together.
pub record Job : Type 0 where
  pub job_id : List ℕ
  pub customer_id : String
  pub idempotency_key : Option String
  pub item : SatWorkItem
  pub payload_digest : List ℕ
  pub status : JobStatus
  pub submitted_at : ℕ
  pub available_at : ℕ
  pub attempt_count : ℕ
  pub lease : Option Lease
  pub result : Option Bytes
  pub last_error : Option (List ℕ)
  pub resolved_at : Option ℕ

pub record Ledger : Type 0 where
  pub closed : Bool
  pub epochs : List Epoch
  pub challenges : List Challenge
  pub attestations : List Attestation
  pub lifecycle : List LifecycleRow
  pub scores : List (ℕ × Score)
  pub jobs : List Job
  pub next_id : ℕ

abbrev pub new_ledger : Ledger
new_ledger = record {
  closed = false;
  epochs = [];
  challenges = [];
  attestations = [];
  lifecycle = [];
  scores = [];
  jobs = [];
  next_id = 1;
}

abbrev pub is_running : EpochStatus → Bool
is_running running = true
is_running _ = false

abbrev pub is_complete : EpochStatus → Bool
is_complete complete = true
is_complete _ = false

abbrev pub is_aborted : EpochStatus → Bool
is_aborted aborted = true
is_aborted _ = false

abbrev pub is_published : EpochStatus → Bool
is_published published = true
is_published _ = false

-- `status IN ('running', 'complete')` and `status IN ('complete', 'published')`
abbrev pub is_blocking : EpochStatus → Bool
is_blocking s = is_running s || is_complete s

abbrev pub is_final : EpochStatus → Bool
is_final s = is_complete s || is_published s

abbrev pub is_issued : ChallengeStatus → Bool
is_issued issued = true
is_issued _ = false

abbrev pub is_verified : ChallengeStatus → Bool
is_verified verified = true
is_verified _ = false

abbrev pub has_id : ℕ → Epoch → Bool
has_id id e = nat_beq e.epoch_id id

abbrev pub epoch_at : ℕ → List Epoch → Option Epoch
epoch_at id es = find_first (has_id id) es

-- `UPDATE epochs SET ... WHERE epoch_id = ?`
abbrev pub set_epoch : ℕ → (Epoch → Epoch) → Ledger → Ledger
set_epoch id f l = record l { epochs = update_first (has_id id) f l.epochs }

-- `_epoch`
unfoldable pub find_epoch : ℕ → Ledger → Result LedgerError Epoch
find_epoch id l = elim (epoch_at id l.epochs) [ none ↦ err epoch_not_found | some e ↦ ok e ]

-- `_require_running`
unfoldable pub require_running : ℕ → Ledger → Result LedgerError Epoch
unfolding find_epoch
require_running id l = do
  e ← find_epoch id l
  raise_if (not (is_running e.status)) not_running
  ok e

abbrev pub has_challenge : List ℕ → Challenge → Bool
has_challenge id c = c.challenge_id == id

abbrev pub challenge_at : List ℕ → List Challenge → Option Challenge
challenge_at id cs = find_first (has_challenge id) cs

-- `UPDATE challenges SET status = 'abandoned', work_units = 0 WHERE challenge_id = ? AND status = 'issued'`
abbrev pub give_up : List ℕ → Challenge → Challenge
give_up id c =
    if has_challenge id c && is_issued c.status
    then record c { status = given_up; work_units = 0 }
    else c

abbrev pub is_leased : JobStatus → Bool
is_leased leased = true
is_leased _ = false

abbrev pub is_queued : JobStatus → Bool
is_queued queued = true
is_queued _ = false
