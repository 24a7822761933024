-- ===== src/Ledger/Jobs/Examples.antt =====
-- One customer job: submitted, leased by a worker in a running epoch, and resolved with a satisfying
-- assignment.
use cathedral_compute.Base.{ℕ, ◌≡◌, refl, true, List, [], ◌∷◌, ◌++◌, none, some, ok, replicate}
use cathedral_compute.Base.Int.{pos}
use cathedral_compute.Base.Text.{codes, hex, from_bytes_big}
use cathedral_compute.Sat.Instance.{validate_sat_instance}
use cathedral_compute.Base.Json.{dumps}
use cathedral_compute.Sat.WorkItem.{
  SatWorkItem, Hashes, validate_sat_work_item, compute_challenge_id, same_instance, same_clauses,
  same_clause,
}
use cathedral_compute.Sat.Certificate.{covers_variables, satisfies_clauses}
use cathedral_compute.Ledger.{
  Ledger, Job, Lease, new_ledger, issued, verified, require_running, find_epoch,
}
use cathedral_compute.Ledger.Challenges.{
  validated_resolution_units, resolve_in_transaction, or_missing,
}
use cathedral_compute.Ledger.Completion.{give_up_leased}
use cathedral_compute.Ledger.Examples.{services, request, began, begins_7}
use cathedral_compute.Ledger.Jobs.{
  enqueue_job, insert_job, is_customer_id, is_key, storage, stored_item, new_job, item_body,
  dispatch_item,
}
use cathedral_compute.Ledger.Jobs.Claim.{
  CustomerJobLease, claim_job, sweep, oldest, grant, lease_job, lease_of, authority_of,
}
use cathedral_compute.Ledger.Jobs.Resolution.{
  CustomerResult, CustomerResolution, success, resolve_leased, validate_customer_resolution,
  check_disposition, check_success, validate_customer_result, result_body, require_current_lease,
  or_no_job, same_item, resolve_job, settle,
}
use cathedral_compute.Ledger.Steps.{Step, Reach}
use cathedral_compute.Ledger.Steps.Queue.{IsOrderly, Reach-IsOrderly}

-- A hash with one value.
abbrev hashes : Hashes
hashes = record { sha256 = λ bytes. replicate 32 0; hmac_sha256 = λ key bytes. replicate 32 0 }

abbrev zeros : List ℕ
zeros = replicate 64 b'0'

abbrev item : SatWorkItem
item = record {
  instance' = record { n_vars = pos 1; clauses = (pos 1 ∷ []) ∷ [] };
  seed = pos 0;
  challenge_id = zeros;
}

abbrev submitted : Job
submitted = new_job (codes "job-1") "operator" none item (codes "sha256:" ++ zeros) 1

abbrev enqueued : Ledger
enqueued = record began { jobs = submitted ∷ [] }

abbrev grip : Lease
grip = lease_of (codes "t") "a" 1 zeros 61

abbrev claimed : Ledger
claimed = record began {
  challenges =
      record { challenge_id = zeros; epoch_id = 1; hotkey = "a"; status = issued; work_units = 0 }
      ∷ [];
  jobs = lease_job grip submitted ∷ [];
}

abbrev authority : CustomerJobLease
authority = authority_of (codes "t") "a" 1 submitted item

enqueues : enqueue_job hashes item "operator" none (codes "1") 1 began ≡ ok (submitted, enqueued)
unfolding enqueue_job insert_job is_customer_id is_key storage item_body validate_sat_work_item
    validate_sat_instance compute_challenge_id hex dumps
enqueues = refl

claims : claim_job hashes "a" 1 60 3 (codes "t") 1 enqueued ≡ ok (some authority, claimed)
unfolding claim_job sweep oldest grant require_running find_epoch give_up_leased stored_item
    dispatch_item validate_sat_work_item validate_sat_instance compute_challenge_id hex dumps
    from_bytes_big
claims = refl

abbrev answer : CustomerResult
answer = record {
  satisfiable = true;
  assignment = pos 1 ∷ [];
  work_units = 20;
  challenge_id = zeros;
  assigned_hotkey = "a";
}

abbrev claim_of_success : CustomerResolution
claim_of_success = record {
  lease = authority;
  disposition = success;
  result = some answer;
  error = none;
  max_attempts = 3;
}

abbrev settled : Ledger
settled = settle claim_of_success (some (codes "r")) none 9 (record claimed {
  challenges =
      record {
        challenge_id = zeros;
        epoch_id = 1;
        hotkey = "a";
        status = verified;
        work_units = 20;
      }
      ∷ [];
})

resolves :
    resolve_leased hashes (λ r. codes "r") zeros verified 20 true claim_of_success 9 claimed
    ≡ ok settled
unfolding resolve_leased validated_resolution_units resolve_in_transaction or_missing
    validate_customer_resolution check_disposition check_success validate_customer_result
    covers_variables satisfies_clauses result_body require_current_lease or_no_job same_item
    same_instance same_clauses same_clause resolve_job stored_item dispatch_item
    validate_sat_work_item validate_sat_instance compute_challenge_id hex dumps from_bytes_big
resolves = refl

settled_reached : Reach services new_ledger settled
settled_reached =
    Reach.step {m = claimed}
      (Reach.step {m = enqueued}
        (Reach.step {m = began}
          (Reach.step {m = new_ledger} Reach.start (Step.begin_step (request (pos 7)) 1 begins_7))
          (Step.enqueue_step hashes item "operator" none (codes "1") 1 submitted enqueues))
        (Step.claim_step hashes "a" 1 60 3 (codes "t") 1 (some authority) claims))
      (Step.resolve_leased_step hashes (λ r. codes "r") zeros verified 20 true claim_of_success 9
        resolves)

Reach-IsOrderly_example : IsOrderly settled.jobs
Reach-IsOrderly_example = Reach-IsOrderly services settled settled_reached
