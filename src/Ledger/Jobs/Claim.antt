-- ===== src/Ledger/Jobs/Claim.antt =====
-- `claim_customer_job` of cathedral/ledger.py: expired leases go back to the queue or fail, and the
-- oldest queued job is leased with a challenge of its own.
use cathedral_compute.Base.{
  ℕ, ◌+◌, suc, String, Bool, false, not, ◌&&◌, ◌||◌, List, [], ◌∷◌, Option, none, some, leb, ltb,
  length, filter, update_first, update_where, nat_beq, string_eq, text_eq, ◌==◌, if◌then◌else◌,
  Result, ok, ◌>>=◌, ◌>>◌, raise_if,
}
use cathedral_compute.Base.Text.{codes}
use cathedral_compute.Sat.WorkItem.{SatWorkItem, Hashes}
use cathedral_compute.Ledger.{
  Ledger, Job, queued, leased, job_failed, Lease, LedgerError, ledger_closed, bad_owner,
  bad_lease_seconds, bad_attempts, duplicate_challenge, is_leased, is_queued, challenge_at,
  require_running,
}
use cathedral_compute.Ledger.Challenges.{insert_challenge, is_free}
use cathedral_compute.Ledger.Completion.{give_up_leased}
use cathedral_compute.Ledger.Scores.{text_ltb}
use cathedral_compute.Ledger.Jobs.{stored_item, dispatch_item, has_job}

pub record CustomerJobLease : Type 0 where
  pub job_id : List ℕ
  pub lease_token : List ℕ
  pub owner_hotkey : String
  pub epoch_id : ℕ
  pub challenge_id : List ℕ
  pub attempt : ℕ
  pub item : SatWorkItem

-- `status = 'leased' AND lease_expires_at <= ?`
abbrev pub is_expired : ℕ → Job → Bool
is_expired now j =
    is_leased j.status && (elim j.lease [ none ↦ false | some lease ↦ leb lease.expires_at now ])

abbrev pub expire_job : ℕ → ℕ → Job → Job
expire_job now max_attempts j = record j {
  status = if leb max_attempts j.attempt_count then job_failed else queued;
  available_at = now;
  lease = none;
  last_error = some (codes "customer job lease expired");
  resolved_at = if leb max_attempts j.attempt_count then some now else none;
}

-- `status = 'queued' AND attempt_count >= ?`
abbrev pub is_spent : ℕ → Job → Bool
is_spent max_attempts j = is_queued j.status && leb max_attempts j.attempt_count

abbrev pub spend_job : ℕ → Job → Job
spend_job now j = record j {
  status = job_failed;
  last_error = some (codes "customer job retry limit reached");
  resolved_at = some now;
}

-- The two sweeps before the claim
unfoldable pub sweep : ℕ → ℕ → Ledger → Ledger
unfolding give_up_leased
sweep now max_attempts l = record l {
  challenges = give_up_leased (filter (is_expired now) l.jobs) l.challenges;
  jobs =
      update_where (is_spent max_attempts) (spend_job now)
        (update_where (is_expired now) (expire_job now max_attempts) l.jobs);
}

abbrev pub is_ready : ℕ → ℕ → Job → Bool
is_ready now max_attempts j =
    is_queued j.status && leb j.available_at now && ltb j.attempt_count max_attempts

-- `ORDER BY available_at,submitted_at,job_id`
abbrev before : Job → Job → Bool
before j k =
    ltb j.available_at k.available_at
    || (nat_beq j.available_at k.available_at
        && (ltb j.submitted_at k.submitted_at
            || (nat_beq j.submitted_at k.submitted_at && text_ltb j.job_id k.job_id)))

abbrev earlier : Job → Option Job → Job
earlier j none = j
earlier j (some k) = if before k j then k else j

unfoldable pub oldest : List Job → Option Job
oldest [] = none
oldest (j ∷ js) = some (earlier j (oldest js))

abbrev pub lease_job : Lease → Job → Job
lease_job lease j = record j {
  status = leased;
  attempt_count = suc j.attempt_count;
  lease = some lease;
  last_error = none;
  resolved_at = none;
}

abbrev pub in_range : ℕ → ℕ → Bool
in_range n top = leb 1 n && leb n top

-- `WHERE job_id = ? AND status = 'queued'`
abbrev pub queued_job : List ℕ → Job → Bool
queued_job id j = has_job id j && is_queued j.status

abbrev pub lease_of : List ℕ → String → ℕ → List ℕ → ℕ → Lease
lease_of token owner epoch_id challenge expires = record {
  token = token;
  owner = owner;
  epoch_id = epoch_id;
  challenge_id = challenge;
  expires_at = expires;
}

abbrev pub authority_of : List ℕ → String → ℕ → Job → SatWorkItem → CustomerJobLease
authority_of token owner epoch_id j item = record {
  job_id = j.job_id;
  lease_token = token;
  owner_hotkey = owner;
  epoch_id = epoch_id;
  challenge_id = item.challenge_id;
  attempt = suc j.attempt_count;
  item = item;
}

-- The lease of the job chosen, on the tables after the sweeps
unfoldable pub grant :
    Hashes
    → String
    → ℕ
    → List ℕ
    → ℕ
    → Job
    → Ledger
    → Result LedgerError (Option CustomerJobLease × Ledger)
grant hashes owner epoch_id token expires j l = do
  original ← stored_item hashes j
  let item = dispatch_item hashes original j.job_id (suc j.attempt_count)
  raise_if (not (is_free (challenge_at item.challenge_id l.challenges))) duplicate_challenge
  let lease = lease_of token owner epoch_id item.challenge_id expires
  ok (
    some (authority_of token owner epoch_id j item),
    record (insert_challenge item.challenge_id owner epoch_id l) {
      jobs = update_first (queued_job j.job_id) (lease_job lease) l.jobs;
    },
  )

unfoldable pub claim_job :
    Hashes
    → String
    → ℕ
    → ℕ
    → ℕ
    → List ℕ
    → ℕ
    → Ledger
    → Result LedgerError (Option CustomerJobLease × Ledger)
unfolding sweep oldest grant require_running
claim_job hashes owner epoch_id lease_seconds max_attempts token now l = do
  raise_if (owner == "" || ltb 256 (length (codes owner))) bad_owner
  raise_if (not (in_range lease_seconds 86400)) bad_lease_seconds
  raise_if (not (in_range max_attempts 100)) bad_attempts
  raise_if l.closed ledger_closed
  e ← require_running epoch_id l
  let swept = sweep now max_attempts l
  elim (oldest (filter (is_ready now max_attempts) swept.jobs)) [
    | none ↦ ok (none, swept)
    | some j ↦ grant hashes owner epoch_id token (now + lease_seconds) j swept
  ]
