-- ===== src/Ledger/Jobs/Success.antt =====
-- The success of a customer's job in cathedral/ledger.py: the result against the stored instance.
use cathedral_compute.Base.{
  ℕ, ◌≡◌, refl, true, false, not, ◌&&◌, ◌||◌, List, [], ◌∷◌, Option, none, some, String, ok,
  nat_beq, ltb, length, find_first, arith, raise_if->>, raise_if-ok, >>=-eq-ok, ok-injective, ap,
  sym, ◌∙◌, subst, &&_parts, string_eq, text_eq, ◌==◌,
}
use cathedral_compute.Base.Int.{int_beq, int_beq_iff}
use cathedral_compute.Base.Text.{Bytes}
use cathedral_compute.Sat.Instance.{Clause, SatInstance}
use cathedral_compute.Sat.Certificate.{check_assignment, satisfies_clauses}
use cathedral_compute.Sat.WorkItem.{
  SatWorkItem, Hashes, customer_sat_work_units, same_clause, same_clauses, same_instance,
}
use cathedral_compute.Ledger.{
  Ledger, ChallengeStatus, Job, bad_attempts, unverified_success, result_mismatch,
  result_unsatisfiable, bad_assignment, result_unsatisfied, payload_corrupt, payload_invalid,
  stale_lease, item_mismatch, lease_expired, bad_job_error, error_required, result_too_large,
  is_verified,
}
use cathedral_compute.Ledger.Jobs.{
  stored_item, dispatch_item, digest_text, valid_item, item_body, has_job, max_result_bytes,
}
use cathedral_compute.Ledger.Epochs.{is_none}
use cathedral_compute.Ledger.Jobs.Claim.{CustomerJobLease, in_range}
use cathedral_compute.Ledger.Jobs.Resolution.{
  CustomerResult, CustomerResolution, is_success, is_complete_assignment, validate_customer_result,
  check_success, check_disposition, validate_customer_resolution, error_ok, result_body,
  stripped_error, or_no_job, is_current, same_item, lapsed, require_current_lease,
}

same_clause-eq : (c d : Clause) → same_clause c d ≡ true → c ≡ d
unfolding same_clause
same_clause-eq [] [] h = refl
same_clause-eq [] (m ∷ d) h = ground arith
same_clause-eq (l ∷ c) [] h = ground arith
same_clause-eq (l ∷ c) (m ∷ d) h = ground (arith, same_clause-eq c d, int_beq_iff l m)

same_clauses-eq : (c d : List Clause) → same_clauses c d ≡ true → c ≡ d
unfolding same_clauses
same_clauses-eq [] [] h = refl
same_clauses-eq [] (m ∷ d) h = ground arith
same_clauses-eq (l ∷ c) [] h = ground arith
same_clauses-eq (l ∷ c) (m ∷ d) h = ground (arith, same_clauses-eq c d, same_clause-eq l m)

same_instance-eq : (i j : SatInstance) → same_instance i j ≡ true → i ≡ j
unfolding same_instance
same_instance-eq i j h =
    let (vars, clauses) = &&_parts (int_beq i.n_vars j.n_vars) _ h in
    ap (λ n. record i { n_vars = n }) ((int_beq_iff i.n_vars j.n_vars).0 vars)
    ∙ ap (λ cs. record j { clauses = cs }) (same_clauses-eq i.clauses j.clauses clauses)

validate_customer_result-check :
    (lease : CustomerJobLease) (r : CustomerResult) {u : Unit {0}}
    → validate_customer_result lease r ≡ ok u
    → check_assignment lease.item.instance' r.assignment ≡ true
unfolding validate_customer_result check_assignment
validate_customer_result-check lease r h =
    let (a, h1) =
      raise_if->>
        (not (r.challenge_id == lease.challenge_id)
          || not (r.assigned_hotkey == lease.owner_hotkey)
          || not (nat_beq r.work_units customer_sat_work_units))
        result_mismatch _ h in
    let (b, h2) = raise_if->> (not r.satisfiable) result_unsatisfiable _ h1 in
    let (c, h3) =
      raise_if->> (not (is_complete_assignment lease.item r.assignment)) bad_assignment _ h2 in
    let d =
      raise_if-ok (not (satisfies_clauses r.assignment lease.item.instance'.clauses))
        result_unsatisfied h3 in
    ground (arith, c, d)

-- The result that a success needs.
pub check_success-result :
    (status : ChallengeStatus) (lease : CustomerJobLease) (result : Option CustomerResult)
    (error : Option String) {u : Unit {0}}
    → check_success status lease result error ≡ ok u
    → (r : CustomerResult) × (result ≡ some r)
      × (is_verified status ≡ true)
      × (check_assignment lease.item.instance' r.assignment ≡ true)
      × (error ≡ none)
unfolding check_success
check_success-result status lease none error h = cc
check_success-result status lease (some r) none h =
    let (a, h1) = raise_if->> (not (is_verified status)) unverified_success _ h in
    (r, refl, ground (arith, a), validate_customer_result-check lease r h1, refl)
check_success-result status lease (some r) (some e) h = cc

pub success_result :
    (canonical_json : CustomerResult → Bytes) (status : ChallengeStatus) (q : CustomerResolution)
    {checked : Option Bytes × Option (List ℕ)}
    → is_success q.disposition ≡ true
    → validate_customer_resolution canonical_json status q ≡ ok checked
    → (r : CustomerResult) × (q.result ≡ some r)
      × (is_verified status ≡ true)
      × (check_assignment q.lease.item.instance' r.assignment ≡ true)
      × (q.error ≡ none)
unfolding validate_customer_resolution check_disposition
success_result canonical_json status q succeeds h =
    let (a, h1) = raise_if->> (not (in_range q.max_attempts 100)) bad_attempts _ h in
    let (u, b, h2) = >>=-eq-ok (check_disposition status q) _ h1 in
    check_success-result status q.lease q.result q.error (rw succeeds at b)

result_body-some :
    (canonical_json : CustomerResult → Bytes) (result : Option CustomerResult) (r : CustomerResult)
    {body : Option Bytes}
    → result ≡ some r
    → result_body canonical_json result ≡ ok body
    → body ≡ some (canonical_json r)
unfolding result_body
result_body-some canonical_json none r brought h = cc
result_body-some canonical_json (some x) r brought h =
    let body = canonical_json x in
    let (a, h1) =
      raise_if->> (nat_beq (length body) 0 || ltb max_result_bytes (length body)) result_too_large _
        h in
    let same : x ≡ r = cc in sym (ok-injective h1) ∙ ap (λ y. some (canonical_json y)) same

-- The rows of a success: its result is canonical, and it has no error.
pub success_rows :
    (canonical_json : CustomerResult → Bytes) (status : ChallengeStatus) (q : CustomerResolution)
    {body : Option Bytes} {error : Option (List ℕ)}
    → is_success q.disposition ≡ true
    → validate_customer_resolution canonical_json status q ≡ ok (body, error)
    → (r : CustomerResult) × (q.result ≡ some r)
      × (is_verified status ≡ true)
      × (check_assignment q.lease.item.instance' r.assignment ≡ true)
      × (body ≡ some (canonical_json r))
      × (error ≡ none)
unfolding validate_customer_resolution
success_rows canonical_json status q succeeds h =
    let (r, brought, checked, satisfied, silent) =
      success_result canonical_json status q succeeds h in
    let (a, h1) = raise_if->> (not (in_range q.max_attempts 100)) bad_attempts _ h in
    let (u, b, h2) = >>=-eq-ok (check_disposition status q) _ h1 in
    let (c, h3) = raise_if->> (not (error_ok q.error)) bad_job_error _ h2 in
    let (d, h4) =
      raise_if->> (not (is_success q.disposition) && is_none q.error) error_required _ h3 in
    let (body, e, h5) = >>=-eq-ok (result_body canonical_json q.result) _ h4 in
    let same = ok-injective h5 in
    (
      r,
      brought,
      checked,
      satisfied,
      sym (ap (λ p. p.0) same) ∙ result_body-some canonical_json q.result r brought e,
      sym (ap (λ p. p.1) same) ∙ ap stripped_error silent,
    )

-- A success leaves a result in the job's row.
pub success_body :
    (canonical_json : CustomerResult → Bytes) (status : ChallengeStatus) (q : CustomerResolution)
    {body : Option Bytes} {error : Option (List ℕ)}
    → is_success q.disposition ≡ true
    → validate_customer_resolution canonical_json status q ≡ ok (body, error)
    → is_none body ≡ false
success_body canonical_json status q succeeds h =
    let (r, brought, checked, satisfied, written, silent) =
      success_rows canonical_json status q succeeds h in
    subst (λ t. is_none t ≡ false) (sym written) refl

found_job : (o : Option Job) {j : Job} → or_no_job o ≡ ok j → o ≡ some j
unfolding or_no_job
found_job none h = cc
found_job (some j) h = cc

-- The attempt's item has the customer's instance.
dispatched :
    (hashes : Hashes) (item original : SatWorkItem) (job_id : List ℕ) (attempt : ℕ)
    → same_item item (dispatch_item hashes original job_id attempt) ≡ true
    → item.instance' ≡ original.instance'
unfolding same_item dispatch_item
dispatched hashes item original job_id attempt h =
    let same : same_instance item.instance' original.instance' ≡ true = ground (arith, h) in
    same_instance-eq item.instance' original.instance' same

stored_item-item :
    (hashes : Hashes) (j : Job) {item : SatWorkItem}
    → stored_item hashes j ≡ ok item
    → item ≡ j.item
unfolding stored_item
stored_item-item hashes j h =
    let (a, h1) =
      raise_if->> (not (digest_text hashes (item_body j.item) == j.payload_digest)) payload_corrupt
        _ h in
    let (u, b, h2) = >>=-eq-ok (valid_item hashes j.item payload_invalid) _ h1 in
    sym (ok-injective h2)

-- The job that a current lease holds.
pub require_current_lease-job :
    (hashes : Hashes) (q : CustomerJobLease) (now : ℕ) (l : Ledger) {j : Job}
    → require_current_lease hashes q now l ≡ ok j
    → (find_first (has_job q.job_id) l.jobs ≡ some j)
      × (q.item.instance' ≡ j.item.instance')
      × (is_current q j ≡ true)
unfolding require_current_lease
require_current_lease-job hashes q now l h =
    let (k, found, h1) = >>=-eq-ok (or_no_job (find_first (has_job q.job_id) l.jobs)) _ h in
    let (a, h2) = raise_if->> (not (is_current q k)) stale_lease _ h1 in
    let (original, stored, h3) = >>=-eq-ok (stored_item hashes k) _ h2 in
    let (b, h4) =
      raise_if->> (not (same_item q.item (dispatch_item hashes original q.job_id q.attempt)))
        item_mismatch _ h3 in
    let (c, h5) = raise_if->> (lapsed now k) lease_expired _ h4 in
    let same = ok-injective h5 in
    (
      found_job (find_first (has_job q.job_id) l.jobs) found ∙ ap some same,
      dispatched hashes q.item original q.job_id q.attempt (ground (arith, b))
          ∙ ap (λ x. x.instance') (stored_item-item hashes k stored)
          ∙ ap (λ x. x.item.instance') same,
      subst (λ x. is_current q x ≡ true) same (ground (arith, a)),
    )
