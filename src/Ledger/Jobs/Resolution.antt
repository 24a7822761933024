-- ===== src/Ledger/Jobs/Resolution.antt =====
-- `resolve_challenge` of cathedral/ledger.py with a customer's lease: the result or the error of a
-- job's attempt is checked, the lease must be the job's current one, and the challenge and the job
-- are resolved together. The canonical JSON of a result is a parameter.
use cathedral_compute.Base.{
  ℕ, String, Bool, true, false, not, ◌&&◌, ◌||◌, List, Option, none, some, leb, ltb, any, length,
  find_first, update_first, nat_beq, string_eq, text_eq, ◌==◌, if◌then◌else◌, Result, err, ok,
  ◌>>=◌, ◌>>◌, raise_if,
}
use cathedral_compute.Base.Int.{ℤ, pos, int_beq, int_eq}
use cathedral_compute.Base.Text.{codes, Bytes}
use cathedral_compute.Sat.Certificate.{covers_variables, satisfies_clauses}
use cathedral_compute.Sat.WorkItem.{SatWorkItem, Hashes, customer_sat_work_units, same_instance}
use cathedral_compute.Ledger.{
  Ledger, ChallengeStatus, failed, given_up, Job, JobStatus, queued, succeeded, job_failed, Lease,
  LedgerError, ledger_closed, unverified_success, result_mismatch, result_unsatisfiable,
  bad_assignment, result_unsatisfied, result_too_large, not_failed_resolution, bad_job_error,
  error_required, bad_attempts, job_not_found, stale_lease, item_mismatch, lease_expired,
  lease_changed, lease_mismatch, is_leased, is_verified,
}
use cathedral_compute.Ledger.Audience.{lstrip, rstrip}
use cathedral_compute.Ledger.Challenges.{validated_resolution_units, resolve_in_transaction}
use cathedral_compute.Ledger.Epochs.{is_none}
use cathedral_compute.Ledger.Jobs.{stored_item, dispatch_item, has_job, max_result_bytes}
use cathedral_compute.Ledger.Jobs.Claim.{CustomerJobLease, in_range}

pub data Disposition : Type 0 where
  success failure retry : Disposition

pub record CustomerResult : Type 0 where
  pub satisfiable : Bool
  pub assignment : List ℤ
  pub work_units : ℕ
  pub challenge_id : List ℕ
  pub assigned_hotkey : String

pub record CustomerResolution : Type 0 where
  pub lease : CustomerJobLease
  pub disposition : Disposition
  pub result : Option CustomerResult
  pub error : Option String
  pub max_attempts : ℕ

abbrev pub is_success : Disposition → Bool
is_success success = true
is_success _ = false

abbrev is_failed_status : ChallengeStatus → Bool
is_failed_status failed = true
is_failed_status given_up = true
is_failed_status _ = false

abbrev pub stripped : String → List ℕ
unfolding lstrip rstrip
stripped s = rstrip (lstrip (codes s))

-- Every variable of the instance once
abbrev pub is_complete_assignment : SatWorkItem → List ℤ → Bool
unfolding covers_variables
is_complete_assignment item assignment =
    pos (length assignment) == item.instance'.n_vars && covers_variables item.instance' assignment

-- `_validate_customer_result`
unfoldable pub validate_customer_result :
    CustomerJobLease → CustomerResult → Result LedgerError (Unit {0})
validate_customer_result lease r = do
  raise_if
      (not (r.challenge_id == lease.challenge_id)
        || not (r.assigned_hotkey == lease.owner_hotkey)
        || not (nat_beq r.work_units customer_sat_work_units))
      result_mismatch
  raise_if (not r.satisfiable) result_unsatisfiable
  raise_if (not (is_complete_assignment lease.item r.assignment)) bad_assignment
  raise_if (not (satisfies_clauses r.assignment lease.item.instance'.clauses)) result_unsatisfied

-- The result that a successful job must bring
unfoldable pub check_success :
    ChallengeStatus
    → CustomerJobLease
    → Option CustomerResult
    → Option String
    → Result LedgerError (Unit {0})
check_success status lease (some r) none =
    raise_if (not (is_verified status)) unverified_success >> validate_customer_result lease r
check_success status lease _ _ = err unverified_success

abbrev max_error_length : ℕ
max_error_length = 1000

abbrev pub error_ok : Option String → Bool
unfolding lstrip rstrip
error_ok none = true
error_ok (some s) = not (nat_beq (length (stripped s)) 0) && leb (length (codes s)) max_error_length

-- `_customer_result_body`
unfoldable pub result_body :
    (CustomerResult → Bytes) → Option CustomerResult → Result LedgerError (Option Bytes)
result_body canonical_json none = ok none
result_body canonical_json (some r) = do
  let body = canonical_json r
  raise_if (nat_beq (length body) 0 || ltb max_result_bytes (length body)) result_too_large
  ok (some body)

abbrev pub stripped_error : Option String → Option (List ℕ)
unfolding lstrip rstrip
stripped_error none = none
stripped_error (some s) = some (stripped s)

-- What the disposition asks of the status and the result
unfoldable pub check_disposition :
    ChallengeStatus → CustomerResolution → Result LedgerError (Unit {0})
unfolding check_success
check_disposition status q =
    if is_success q.disposition
    then check_success status q.lease q.result q.error
    else raise_if (not (is_failed_status status) || not (is_none q.result)) not_failed_resolution

-- `_validate_customer_resolution`
unfoldable pub validate_customer_resolution :
    (CustomerResult → Bytes)
    → ChallengeStatus
    → CustomerResolution
    → Result LedgerError (Option Bytes × Option (List ℕ))
unfolding check_disposition result_body lstrip rstrip
validate_customer_resolution canonical_json status q = do
  raise_if (not (in_range q.max_attempts 100)) bad_attempts
  check_disposition status q
  raise_if (not (error_ok q.error)) bad_job_error
  raise_if (not (is_success q.disposition) && is_none q.error) error_required
  body ← result_body canonical_json q.result
  ok (body, stripped_error q.error)

unfoldable pub or_no_job : Option Job → Result LedgerError Job
or_no_job none = err job_not_found
or_no_job (some j) = ok j

abbrev pub is_lease_of : CustomerJobLease → Lease → Bool
is_lease_of q lease =
    lease.token == q.lease_token
    && lease.owner == q.owner_hotkey
    && nat_beq lease.epoch_id q.epoch_id
    && lease.challenge_id == q.challenge_id

abbrev pub is_current : CustomerJobLease → Job → Bool
is_current q j =
    is_leased j.status
    && nat_beq j.attempt_count q.attempt
    && (elim j.lease [ none ↦ false | some lease ↦ is_lease_of q lease ])

-- `==` of two work items
unfoldable pub same_item : SatWorkItem → SatWorkItem → Bool
same_item x y =
    same_instance x.instance' y.instance'
    && int_beq x.seed y.seed
    && x.challenge_id == y.challenge_id

abbrev pub lapsed : ℕ → Job → Bool
lapsed now j = elim j.lease [ none ↦ true | some lease ↦ leb lease.expires_at now ]

-- `_require_current_customer_lease`
unfoldable pub require_current_lease :
    Hashes → CustomerJobLease → ℕ → Ledger → Result LedgerError Job
unfolding or_no_job same_item
require_current_lease hashes q now l = do
  j ← or_no_job (find_first (has_job q.job_id) l.jobs)
  raise_if (not (is_current q j)) stale_lease
  original ← stored_item hashes j
  raise_if (not (same_item q.item (dispatch_item hashes original q.job_id q.attempt))) item_mismatch
  raise_if (lapsed now j) lease_expired
  ok j

abbrev pub final_status : Disposition → ℕ → ℕ → JobStatus
final_status success attempt max_attempts = succeeded
final_status failure attempt max_attempts = job_failed
final_status retry attempt max_attempts = if ltb attempt max_attempts then queued else job_failed

abbrev pub resolved_time : JobStatus → ℕ → Option ℕ
resolved_time queued now = none
resolved_time _ now = some now

-- `WHERE job_id = ? AND status = 'leased' AND lease_token = ?`
abbrev pub holds_lease : CustomerJobLease → Job → Bool
holds_lease q j =
    has_job q.job_id j
    && is_leased j.status
    && (elim j.lease [ none ↦ false | some lease ↦ lease.token == q.lease_token ])

abbrev pub settle_job : JobStatus → ℕ → Option Bytes → Option (List ℕ) → Job → Job
settle_job status now body error j = record j {
  status = status;
  available_at = now;
  lease = none;
  result = body;
  last_error = error;
  resolved_at = resolved_time status now;
}

-- `UPDATE customer_jobs SET status = ? ...`
abbrev pub settle : CustomerResolution → Option Bytes → Option (List ℕ) → ℕ → Ledger → Ledger
settle q body error now l =
    let status = final_status q.disposition q.lease.attempt q.max_attempts in
    record l { jobs = update_first (holds_lease q.lease) (settle_job status now body error) l.jobs }

-- `_resolve_customer_job_in_transaction`
unfoldable pub resolve_job :
    CustomerResolution → Option Bytes → Option (List ℕ) → ℕ → Ledger → Result LedgerError Ledger
resolve_job q body error now l = do
  raise_if (not (any (holds_lease q.lease) l.jobs)) lease_changed
  ok (settle q body error now l)

unfoldable pub resolve_leased :
    Hashes
    → (CustomerResult → Bytes)
    → List ℕ
    → ChallengeStatus
    → ℕ
    → Bool
    → CustomerResolution
    → ℕ
    → Ledger
    → Result LedgerError Ledger
unfolding validate_customer_resolution require_current_lease resolve_job
resolve_leased hashes canonical_json id status work_units validator_derived q now l = do
  units ← validated_resolution_units status work_units validator_derived
  (body, error) ← validate_customer_resolution canonical_json status q
  raise_if (not (q.lease.challenge_id == id)) lease_mismatch
  raise_if l.closed ledger_closed
  j ← require_current_lease hashes q.lease now l
  done ← resolve_in_transaction id status units l
  resolve_job q body error now done.1
