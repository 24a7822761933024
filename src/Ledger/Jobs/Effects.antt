-- ===== src/Ledger/Jobs/Effects.antt =====
-- What the methods of cathedral/ledger.py on customer jobs do to the tables when they return.
use cathedral_compute.Base.{
  ℕ, ◌+◌, suc, ◌≡◌, raise_if, ◌>>=◌, ◌>>◌, Bool, true, false, not, ◌||◌, List, ◌∷◌, ◌++◌, Option,
  none, some, String, Result, ok, leb, ltb, length, filter, any, update_first, raise_if->>,
  >>=-eq-ok, ok-injective, ◌⊎◌, inl, inr, ap, ◌∙◌, string_eq, text_eq, ◌==◌,
}
use cathedral_compute.Base.Text.{codes, Bytes}
use cathedral_compute.Sat.WorkItem.{SatWorkItem, Hashes}
use cathedral_compute.Ledger.{
  Ledger, Challenge, ChallengeStatus, Job, Lease, LedgerError, ledger_closed, bad_customer,
  bad_idempotency_key, bad_item, idempotency_conflict, queue_full, customer_quota, storage_full,
  integrity_error, bad_owner, bad_lease_seconds, bad_attempts, duplicate_challenge, lease_mismatch,
  lease_changed, is_issued, has_challenge, challenge_at, require_running,
}
use cathedral_compute.Ledger.Challenges.{
  is_free, resolved, resolve_in_transaction, validated_resolution_units,
}
use cathedral_compute.Ledger.Completion.{give_up_leased}
use cathedral_compute.Ledger.Steps.Work.{resolve_in_transaction-effect, free_row}
use cathedral_compute.Ledger.Jobs.{
  enqueue_job, insert_job, new_job, existing_job, stored_item, dispatch_item, valid_item,
  digest_text, item_body, is_customer_id, is_key, is_active, is_active_of, storage, max_active,
  max_active_per_customer, max_storage, max_result_bytes, has_job,
}
use cathedral_compute.Ledger.Jobs.Claim.{
  CustomerJobLease, claim_job, grant, sweep, oldest, is_expired, is_ready, in_range, queued_job,
  lease_job, lease_of,
}
use cathedral_compute.Ledger.Jobs.Resolution.{
  CustomerResult, CustomerResolution, resolve_leased, resolve_job, validate_customer_resolution,
  require_current_lease, holds_lease, settle,
}

pub insert_job-effect :
    (j : Job) (l : Ledger) {k : Job} {m : Ledger}
    → insert_job j l ≡ ok (k, m)
    → (leb max_active (length (filter is_active l.jobs)) ≡ false)
      × (leb max_active_per_customer (length (filter (is_active_of j.customer_id) l.jobs)) ≡ false)
      × (ltb max_storage (storage l.jobs + (length (item_body j.item) + max_result_bytes)) ≡ false)
      × (record l { jobs = j ∷ l.jobs } ≡ m)
unfolding insert_job
insert_job-effect j l h =
    let (a, h1) = raise_if->> (leb max_active (length (filter is_active l.jobs))) queue_full _ h in
    let (b, h2) =
      raise_if->>
        (leb max_active_per_customer (length (filter (is_active_of j.customer_id) l.jobs)))
        customer_quota _ h1 in
    let (c, h3) =
      raise_if->>
        (ltb max_storage (storage l.jobs + (length (item_body j.item) + max_result_bytes)))
        storage_full _ h2 in
    let (d, h4) = raise_if->> (any (has_job j.job_id) l.jobs) integrity_error _ h3 in
    (a, b, c, ap (λ p. p.1) (ok-injective h4))

-- A job that is there is left, or the new one is inserted.
pub enqueue-effect :
    (hashes : Hashes) (item : SatWorkItem) (customer : String) (key : Option String) (uuid : List ℕ)
    (now : ℕ) (l : Ledger) {j : Job} {m : Ledger}
    → enqueue_job hashes item customer key uuid now l ≡ ok (j, m)
    → (l ≡ m)
      ⊎ (insert_job
            (new_job
              (codes "job-" ++ uuid)
              customer
              key
              item
              (digest_text hashes (item_body item))
              now)
            l
          ≡ ok (j, m))
unfolding enqueue_job
enqueue-effect hashes item customer key uuid now l {j = j} {m = m} h =
    let (a, h1) = raise_if->> (not (is_customer_id customer)) bad_customer _ h in
    let (b, h2) = raise_if->> (not (is_key key)) bad_idempotency_key _ h1 in
    let (u, c, h3) = >>=-eq-ok (valid_item hashes item bad_item) _ h2 in
    let (d, h4) = raise_if->> l.closed ledger_closed _ h3 in
    chosen (existing_job customer key l.jobs) h4
  where
    chosen :
        (o : Option Job)
        → (elim o [
          | some k ↦
              raise_if
                (not (k.payload_digest == digest_text hashes (item_body item)))
                idempotency_conflict
              >> (stored_item hashes k >>= λ stored. ok (k, l))
          | none ↦
              insert_job
                (new_job
                  (codes "job-" ++ uuid)
                  customer
                  key
                  item
                  (digest_text hashes (item_body item))
                  now)
                l
        ])
          ≡ ok (j, m)
        → (l ≡ m)
          ⊎ (insert_job
                (new_job
                  (codes "job-" ++ uuid)
                  customer
                  key
                  item
                  (digest_text hashes (item_body item))
                  now)
                l
              ≡ ok (j, m))
    chosen none k = inr k
    chosen (some x) k =
        let (e, k1) =
          raise_if->> (not (x.payload_digest == digest_text hashes (item_body item)))
            idempotency_conflict _ k in
        let (stored, f, k2) = >>=-eq-ok (stored_item hashes x) _ k1 in
        inl (ap (λ p. p.1) (ok-injective k2))

-- The challenges and the jobs that a claim leaves of those after the sweeps.
pub data Claimed (cs : List Challenge) (js : List Job) : List Challenge → List Job → Type 0 where
  no_claim : Claimed cs js cs js
  claim :
      (c : Challenge) (id : List ℕ) (lease : Lease)
      → challenge_at c.challenge_id cs ≡ none
      → Claimed cs js (c ∷ cs) (update_first (queued_job id) (lease_job lease) js)

pub grant-effect :
    (hashes : Hashes) (owner : String) (epoch_id : ℕ) (token : List ℕ) (expires : ℕ) (j : Job)
    (l : Ledger) {q : Option CustomerJobLease} {m : Ledger}
    → grant hashes owner epoch_id token expires j l ≡ ok (q, m)
    → (js : List Job) × (cs : List Challenge) × Claimed l.challenges l.jobs cs js
      × (record l { challenges = cs; jobs = js } ≡ m)
unfolding grant
grant-effect hashes owner epoch_id token expires j l h =
    let (original, a, h1) = >>=-eq-ok (stored_item hashes j) _ h in
    let item = dispatch_item hashes original j.job_id (suc j.attempt_count) in
    let (free, h2) =
      raise_if->> (not (is_free (challenge_at item.challenge_id l.challenges))) duplicate_challenge
        _ h1 in
    (
      _,
      _,
      Claimed.claim _ j.job_id (lease_of token owner epoch_id item.challenge_id expires)
          (free_row (challenge_at item.challenge_id l.challenges) free),
      ap (λ p. p.1) (ok-injective h2),
    )

pub claim-effect :
    (hashes : Hashes) (owner : String) (epoch_id lease_seconds max_attempts : ℕ) (token : List ℕ)
    (now : ℕ) (l : Ledger) {q : Option CustomerJobLease} {m : Ledger}
    → claim_job hashes owner epoch_id lease_seconds max_attempts token now l ≡ ok (q, m)
    → (js : List Job) × (cs : List Challenge) × Claimed
        (give_up_leased (filter (is_expired now) l.jobs) l.challenges)
        (sweep now max_attempts l).jobs
        cs
        js
      × (record l { challenges = cs; jobs = js } ≡ m)
unfolding claim_job sweep
claim-effect hashes owner epoch_id lease_seconds max_attempts token now l {q = q} {m = m} h =
    let (a, h1) = raise_if->> (owner == "" || ltb 256 (length (codes owner))) bad_owner _ h in
    let (b, h2) = raise_if->> (not (in_range lease_seconds 86400)) bad_lease_seconds _ h1 in
    let (c, h3) = raise_if->> (not (in_range max_attempts 100)) bad_attempts _ h2 in
    let (d, h4) = raise_if->> l.closed ledger_closed _ h3 in
    let (e, found, h5) = >>=-eq-ok (require_running epoch_id l) _ h4 in
    chosen (oldest (filter (is_ready now max_attempts) (sweep now max_attempts l).jobs)) h5
  where
    chosen :
        (o : Option Job)
        → ◌≡◌ {A = Result LedgerError (Option CustomerJobLease × Ledger)}
            (elim o [
              | none ↦ ok (none, sweep now max_attempts l)
              | some j ↦
                  grant hashes owner epoch_id token
                    (now + lease_seconds)
                    j
                    (sweep now max_attempts l)
            ])
            (ok (q, m))
        → (js : List Job) × (cs : List Challenge) × Claimed
            (give_up_leased (filter (is_expired now) l.jobs) l.challenges)
            (sweep now max_attempts l).jobs
            cs
            js
          × (record l { challenges = cs; jobs = js } ≡ m)
    chosen none k = (_, _, Claimed.no_claim, ap (λ p. p.1) (ok-injective k))
    chosen (some j) k =
        let (js, cs, claimed, same) =
          grant-effect hashes owner epoch_id token (now + lease_seconds) j
            (sweep now max_attempts l) k in
        (js, cs, claimed, same)

-- The resolution of a challenge that carries a lease.
pub resolve_leased-effect :
    (hashes : Hashes) (canonical_json : CustomerResult → Bytes) (id : List ℕ)
    (status : ChallengeStatus) (units : ℕ) (derived : Bool) (q : CustomerResolution) (now : ℕ)
    (l : Ledger) {m : Ledger}
    → resolve_leased hashes canonical_json id status units derived q now l ≡ ok m
    → (c : Challenge) × (u : ℕ) × (j : Job) × (body : Option Bytes) × (error : Option (List ℕ))
      × (validated_resolution_units status units derived ≡ ok u)
      × (validate_customer_resolution canonical_json status q ≡ ok (body, error))
      × (require_current_lease hashes q.lease now l ≡ ok j)
      × (challenge_at id l.challenges ≡ some c)
      × (is_issued c.status ≡ true)
      × (settle q body error now (record l {
        challenges = update_first (has_challenge id) (resolved status u) l.challenges;
      })
          ≡ m)
unfolding resolve_leased resolve_job
resolve_leased-effect hashes canonical_json id status units derived q now l h =
    let (u, valid, h1) = >>=-eq-ok (validated_resolution_units status units derived) _ h in
    let (checked, good, h2) =
      >>=-eq-ok (validate_customer_resolution canonical_json status q) _ h1 in
    let (a, h3) = raise_if->> (not (q.lease.challenge_id == id)) lease_mismatch _ h2 in
    let (b, h4) = raise_if->> l.closed ledger_closed _ h3 in
    let (j, current, h5) = >>=-eq-ok (require_current_lease hashes q.lease now l) _ h4 in
    let (done, h6, h7) = >>=-eq-ok (resolve_in_transaction id status u l) _ h5 in
    let (at_id, is_open, tables) = resolve_in_transaction-effect id status u l h6 in
    let (d, h8) = raise_if->> (not (any (holds_lease q.lease) done.1.jobs)) lease_changed _ h7 in
    (
      done.0,
      u,
      j,
      checked.0,
      checked.1,
      valid,
      good,
      current,
      at_id,
      is_open,
      ap (settle q checked.0 checked.1 now) tables ∙ ok-injective h8,
    )
