-- ===== src/Ledger/Jobs.antt =====
-- The customer jobs of cathedral/ledger.py: `enqueue_customer_job`, the item that a job's attempt
-- dispatches, and the reading of a stored item. Times are numbers, which ISO texts of one format
-- order alike; a stored body is kept as the item it encodes, and its digest is checked as the code
-- checks it. The random identifiers are arguments.
pub mod Claim
pub mod Resolution
pub mod Effects
pub mod Pruning
pub mod Success
pub mod Settled
mod Examples
use cathedral_compute.Base.{
  ℕ, ◌+◌, ◌*◌, ◌^◌, ◌%◌, String, Bool, true, false, not, ◌&&◌, ◌||◌, List, [], ◌∷◌, ◌++◌, Option,
  none, some, all, any, leb, ltb, length, take, filter, find_first, nat_beq, string_eq, text_eq,
  ◌==◌, if◌then◌else◌, Result, err, ok, ◌>>=◌, ◌>>◌, raise_if,
}
use cathedral_compute.Base.Int.{ℤ, pos}
use cathedral_compute.Base.Text.{codes, hex, from_bytes_big, Bytes}
use cathedral_compute.Base.Json.{Json, num, text, list, object, end, field, dumps, compact}
use cathedral_compute.Sat.WorkItem.{
  SatWorkItem, Hashes, compute_challenge_id, validate_sat_work_item, json_clauses,
}
use cathedral_compute.Ledger.{
  Ledger, Job, JobStatus, queued, leased, succeeded, job_failed, Lease, LedgerError, ledger_closed,
  bad_customer, bad_idempotency_key, bad_item, idempotency_conflict, queue_full, customer_quota,
  storage_full, payload_corrupt, payload_invalid, integrity_error, is_leased, is_queued,
}
use cathedral_compute.Ledger.Audience.{is_visible}
use cathedral_compute.Ledger.Attestations.{is_alphanumeric}

abbrev pub max_result_bytes : ℕ
max_result_bytes = 64 * 1024

abbrev pub max_active : ℕ
max_active = 1024

abbrev pub max_active_per_customer : ℕ
max_active_per_customer = 64

abbrev pub max_storage : ℕ
max_storage = 256 * 1024 * 1024

-- `[A-Za-z0-9][A-Za-z0-9._:-]{0,127}`
abbrev is_id_char : ℕ → Bool
is_id_char c = is_alphanumeric c || nat_beq c 46 || nat_beq c 95 || nat_beq c 58 || nat_beq c 45

abbrev id_text : List ℕ → Bool
id_text [] = false
id_text (c ∷ cs) = is_alphanumeric c && all is_id_char cs && leb (length cs) 127

unfoldable pub is_customer_id : String → Bool
is_customer_id s = id_text (codes s)

-- `[\x21-\x7e]{1,128}`, when there is a key
unfoldable pub is_key : Option String → Bool
is_key none = true
is_key (some s) = leb 1 (length (codes s)) && leb (length (codes s)) 128 && all is_visible (codes s)

item_json : SatWorkItem → Json
item_json item = object (
    field "challenge_id" (text item.challenge_id) (
      field "clauses" (list (json_clauses item.instance'.clauses))
        (field "n_vars" (num item.instance'.n_vars) (field "seed" (num item.seed) end))))

-- The body that `_customer_item_body` makes of a valid item
unfoldable pub item_body : SatWorkItem → Bytes
unfolding item_json
item_body item = dumps compact (item_json item)

abbrev pub digest_text : Hashes → Bytes → List ℕ
digest_text hashes body = codes "sha256:" ++ hex (hashes.sha256 body)

valid_item : Hashes → SatWorkItem → LedgerError → Result LedgerError (Unit {0})
valid_item hashes item error = elim (validate_sat_work_item hashes item) [
  | err e ↦ err error
  | ok u ↦ ok u
]

-- `_customer_item_from_body`
unfoldable pub stored_item : Hashes → Job → Result LedgerError SatWorkItem
unfolding valid_item item_body
stored_item hashes j = do
  raise_if (not (digest_text hashes (item_body j.item) == j.payload_digest)) payload_corrupt
  valid_item hashes j.item payload_invalid
  ok j.item

-- `_customer_dispatch_item`: the attempt's own seed and challenge over the customer's instance.
seed_material : SatWorkItem → List ℕ → ℕ → Json
seed_material original job_id attempt = object (
    field "attempt" (num (pos attempt)) (
      field "domain" (text (codes "cathedral-customer-sat-dispatch-v1"))
        (field "job_id" (text job_id) (field "submitted_seed" (num original.seed) end))))

dispatch_seed : Hashes → SatWorkItem → List ℕ → ℕ → ℤ
unfolding seed_material
dispatch_seed hashes original job_id attempt =
    let digest = hashes.sha256 (dumps compact (seed_material original job_id attempt)) in
    pos (from_bytes_big 0 (take 8 digest) % 2 ^ 63)

unfoldable pub dispatch_item : Hashes → SatWorkItem → List ℕ → ℕ → SatWorkItem
unfolding dispatch_seed
dispatch_item hashes original job_id attempt =
    let seed = dispatch_seed hashes original job_id attempt in
    record {
      instance' = original.instance';
      seed = seed;
      challenge_id = compute_challenge_id hashes original.instance' seed;
    }

-- `status IN ('queued','leased')`
abbrev pub is_active : Job → Bool
is_active j = is_queued j.status || is_leased j.status

abbrev pub is_active_of : String → Job → Bool
is_active_of customer j = j.customer_id == customer && is_active j

abbrev option_length {ℓ} : {A : Type ℓ} → Option (List A) → ℕ
option_length none = 0
option_length (some xs) = length xs

abbrev pub job_storage : Job → ℕ
unfolding item_body
job_storage j =
    length (item_body j.item)
    + (if is_active j then max_result_bytes else option_length j.result)
    + option_length j.last_error

unfoldable pub storage : List Job → ℕ
unfolding item_body
storage [] = 0
storage (j ∷ js) = job_storage j + storage js

abbrev same_key : String → String → Job → Bool
same_key customer key j =
    j.customer_id == customer && (elim j.idempotency_key [ none ↦ false | some k ↦ k == key ])

abbrev pub existing_job : String → Option String → List Job → Option Job
existing_job customer none js = none
existing_job customer (some key) js = find_first (same_key customer key) js

abbrev pub has_job : List ℕ → Job → Bool
has_job id j = j.job_id == id

abbrev pub new_job : List ℕ → String → Option String → SatWorkItem → List ℕ → ℕ → Job
new_job id customer key item digest now = record {
  job_id = id;
  customer_id = customer;
  idempotency_key = key;
  item = item;
  payload_digest = digest;
  status = queued;
  submitted_at = now;
  available_at = now;
  attempt_count = 0;
  lease = none;
  result = none;
  last_error = none;
  resolved_at = none;
}

-- The insertion of a new job, once no job has its idempotency key
unfoldable pub insert_job : Job → Ledger → Result LedgerError (Job × Ledger)
unfolding storage
insert_job j l = do
  raise_if (leb max_active (length (filter is_active l.jobs))) queue_full
  raise_if (leb max_active_per_customer (length (filter (is_active_of j.customer_id) l.jobs)))
      customer_quota
  raise_if (ltb max_storage (storage l.jobs + (length (item_body j.item) + max_result_bytes)))
      storage_full
  raise_if (any (has_job j.job_id) l.jobs) integrity_error
  ok (j, record l { jobs = j ∷ l.jobs })

-- `enqueue_customer_job`, which leaves the stored job of a repeated key
unfoldable pub enqueue_job :
    Hashes
    → SatWorkItem
    → String
    → Option String
    → List ℕ
    → ℕ
    → Ledger
    → Result LedgerError (Job × Ledger)
unfolding is_customer_id is_key valid_item insert_job
enqueue_job hashes item customer key uuid now l = do
  raise_if (not (is_customer_id customer)) bad_customer
  raise_if (not (is_key key)) bad_idempotency_key
  valid_item hashes item bad_item
  let digest = digest_text hashes (item_body item)
  raise_if l.closed ledger_closed
  elim (existing_job customer key l.jobs) [
    | some j ↦
        raise_if (not (j.payload_digest == digest)) idempotency_conflict
        >> (stored_item hashes j >>= λ stored. ok (j, l))
    | none ↦ insert_job (new_job (codes "job-" ++ uuid) customer key item digest now) l
  ]
