-- ===== src/Ledger/Steps/Queue.antt =====
-- The rows of customer jobs over the steps of cathedral/ledger.py.
use cathedral_compute.Base.{
  ℕ, ◌≡◌, ◌≤◌, refl, Bool, true, false, not, ◌&&◌, ◌||◌, List, [], ◌∷◌, Option, all, length, filter,
  update_first, update_where, arith, subst, ◌∙◌, inl, inr, ok, Bool-cases,
}
use cathedral_compute.Base.Text.{codes, Bytes}
use cathedral_compute.Ledger.{
  Ledger, Challenge, Job, JobStatus, queued, leased, succeeded, job_failed, Lease, new_ledger,
  is_leased, ChallengeStatus,
}
use cathedral_compute.Ledger.Epochs.{is_none, same_bool}
use cathedral_compute.Ledger.Completion.{Services, abort_running, leased_in, release_job}
use cathedral_compute.Ledger.Jobs.{is_active, max_active}
use cathedral_compute.Ledger.Jobs.Claim.{
  is_expired, expire_job, is_spent, spend_job, queued_job, lease_job, sweep,
}
use cathedral_compute.Ledger.Jobs.Effects.{
  insert_job-effect, enqueue-effect, claim-effect, resolve_leased-effect, Claimed,
}
use cathedral_compute.Ledger.Jobs.Resolution.{
  CustomerResult, CustomerResolution, Disposition, success, failure, retry, is_success,
  validate_customer_resolution, settle_job, final_status, holds_lease,
}
use cathedral_compute.Ledger.Jobs.Success.{success_body}
use cathedral_compute.Ledger.Jobs.Pruning.{prune-effect, survives}
use cathedral_compute.Ledger.Steps.{Step, Reach}
use cathedral_compute.Ledger.Steps.Effects.{
  begin_epoch-effect, abort_epoch-effect, abandon-effect, publish-effect,
}
use cathedral_compute.Ledger.Steps.Freezing.{complete_epoch-effect}
use cathedral_compute.Ledger.Steps.Work.{issue-effect, resolve-effect, attest-effect}

abbrev pub is_succeeded : JobStatus → Bool
is_succeeded succeeded = true
is_succeeded _ = false

-- The `CHECK` constraints of `customer_jobs`.
abbrev pub is_sound_job : Job → Bool
is_sound_job j =
    same_bool (is_leased j.status) (not (is_none j.lease))
    && (not (is_succeeded j.status) || (not (is_none j.result) && not (is_none j.resolved_at)))

abbrev active_count : List Job → ℕ
active_count js = length (filter is_active js)

-- Every row passes its checks, and the active jobs are within the capacity of the queue.
abbrev pub IsOrderly : List Job → Type 0
IsOrderly js = (all is_sound_job js ≡ true) × (active_count js ≤ max_active)

-- An update that keeps the checks and starts no job.
module _ (p : Job → Bool) (f : Job → Job)
    (keeps : (j : Job) → p j ≡ true → is_sound_job j ≡ true → is_sound_job (f j) ≡ true)
    (starts : (j : Job) → p j ≡ true → is_active (f j) ≡ true → is_active j ≡ true) where
  update_where-count : (js : List Job) → active_count (update_where p f js) ≤ active_count js
  update_where-count [] = omega arith
  update_where-count (j ∷ js) = ground (arith, update_where-count js, starts j)

  update_where-checks :
      (js : List Job) → all is_sound_job js ≡ true → all is_sound_job (update_where p f js) ≡ true
  update_where-checks [] h = refl
  update_where-checks (j ∷ js) h = ground (arith, update_where-checks js, keeps j)

  update_where-IsOrderly : (js : List Job) → IsOrderly js → IsOrderly (update_where p f js)
  update_where-IsOrderly js (checks, count) =
      let less = update_where-count js in (update_where-checks js checks, omega arith)

  update_first-count : (js : List Job) → active_count (update_first p f js) ≤ active_count js
  update_first-count [] = omega arith
  update_first-count (j ∷ js) = ground (arith, update_first-count js, starts j)

  update_first-checks :
      (js : List Job) → all is_sound_job js ≡ true → all is_sound_job (update_first p f js) ≡ true
  update_first-checks [] h = refl
  update_first-checks (j ∷ js) h = ground (arith, update_first-checks js, keeps j)

  update_first-IsOrderly : (js : List Job) → IsOrderly js → IsOrderly (update_first p f js)
  update_first-IsOrderly js (checks, count) =
      let less = update_first-count js in (update_first-checks js checks, omega arith)

expired-IsOrderly :
    (now top : ℕ) (js : List Job)
    → IsOrderly js
    → IsOrderly (update_where (is_expired now) (expire_job now top) js)
expired-IsOrderly now top =
    update_where-IsOrderly (is_expired now) (expire_job now top) (λ j is_due checks. ground arith)
      (λ j is_due active. ground arith)

spent-IsOrderly :
    (now top : ℕ) (js : List Job)
    → IsOrderly js
    → IsOrderly (update_where (is_spent top) (spend_job now) js)
spent-IsOrderly now top =
    update_where-IsOrderly (is_spent top) (spend_job now) (λ j is_due checks. ground arith)
      (λ j is_due active. ground arith)

released-IsOrderly :
    (id now : ℕ) (message : List ℕ) (js : List Job)
    → IsOrderly js
    → IsOrderly (update_where (leased_in id) (release_job now message) js)
released-IsOrderly id now message =
    update_where-IsOrderly (leased_in id) (release_job now message)
      (λ j is_due checks. ground arith) (λ j is_due active. ground arith)

leased-IsOrderly :
    (id : List ℕ) (lease : Lease) (js : List Job)
    → IsOrderly js
    → IsOrderly (update_first (queued_job id) (lease_job lease) js)
leased-IsOrderly id lease =
    update_first-IsOrderly (queued_job id) (lease_job lease) (λ j is_due checks. ground arith)
      (λ j is_due active. ground arith)

settled_checks :
    (status : JobStatus) (now : ℕ) (body : Option Bytes) (error : Option (List ℕ)) (j : Job)
    → is_leased status ≡ false
    → (not (is_succeeded status) || not (is_none body)) ≡ true
    → is_sound_job (settle_job status now body error j) ≡ true
settled_checks queued now body error j free brings = ground arith
settled_checks leased now body error j free brings = ground arith
settled_checks succeeded now body error j free brings = ground arith
settled_checks job_failed now body error j free brings = ground arith

final_status-free : (d : Disposition) (n top : ℕ) → is_leased (final_status d n top) ≡ false
final_status-free success n top = refl
final_status-free failure n top = refl
final_status-free retry n top = ground arith

final_status-succeeded :
    (d : Disposition) (n top : ℕ) → is_succeeded (final_status d n top) ≡ is_success d
final_status-succeeded success n top = refl
final_status-succeeded failure n top = refl
final_status-succeeded retry n top = ground arith

settled-IsOrderly :
    (canonical_json : CustomerResult → Bytes) (status : ChallengeStatus) (q : CustomerResolution)
    (now : ℕ) (body : Option Bytes) (error : Option (List ℕ)) (js : List Job)
    → validate_customer_resolution canonical_json status q ≡ ok (body, error)
    → IsOrderly js
    → IsOrderly (
        update_first
          (holds_lease q.lease)
          (settle_job (final_status q.disposition q.lease.attempt q.max_attempts) now body error)
          js)
settled-IsOrderly canonical_json status q now body error js valid =
    let final = final_status q.disposition q.lease.attempt q.max_attempts in
    let brings : (not (is_succeeded final) || not (is_none body)) ≡ true =
      elim (Bool-cases (is_success q.disposition)) [
        | inl succeeds ↦
            let some_body = success_body canonical_json status q succeeds valid in
            ground (arith, some_body)
        | inr other ↦
            let unfinished =
              final_status-succeeded q.disposition q.lease.attempt q.max_attempts ∙ other in
            ground (arith, unfinished)
      ] in
    update_first-IsOrderly (holds_lease q.lease) (settle_job final now body error)
      (λ j holds checks.
        settled_checks final now body error j
          (final_status-free q.disposition q.lease.attempt q.max_attempts) brings)
      (λ j holds active. ground arith) js

claimed-IsOrderly :
    (cs ds : List Challenge) (js ks : List Job) → Claimed cs js ds ks → IsOrderly js → IsOrderly ks
claimed-IsOrderly cs ds js ks Claimed.no_claim sound = sound
claimed-IsOrderly cs ds js ks (Claimed.claim c id lease free) sound =
    leased-IsOrderly id lease js sound

filter-count : (p : Job → Bool) (js : List Job) → active_count (filter p js) ≤ active_count js
filter-count p [] = omega arith
filter-count p (j ∷ js) = ground (arith, filter-count p js)

filter-checks :
    (p : Job → Bool) (js : List Job)
    → all is_sound_job js ≡ true
    → all is_sound_job (filter p js) ≡ true
filter-checks p [] h = refl
filter-checks p (j ∷ js) h = ground (arith, filter-checks p js)

filter-IsOrderly : (p : Job → Bool) (js : List Job) → IsOrderly js → IsOrderly (filter p js)
filter-IsOrderly p js (checks, count) =
    let less = filter-count p js in (filter-checks p js checks, omega arith)

abbrev Orderly : Ledger → Type 0
Orderly l = IsOrderly l.jobs

-- Every step keeps the jobs orderly.
Step-IsOrderly : (sv : Services) (l m : Ledger) → Step sv l m → IsOrderly l.jobs → IsOrderly m.jobs
unfolding abort_running sweep
Step-IsOrderly sv l m (Step.begin_step r i h) sound =
    let (moved, scores, challenges, attestations, jobs) = begin_epoch-effect r l h in
    subst IsOrderly jobs sound
Step-IsOrderly sv l m (Step.abort_step i now h) sound = elim (abort_epoch-effect i now l h) [
  | inl same ↦ subst Orderly same sound
  | inr (e, found, runs, same) ↦
      subst Orderly same
        (released-IsOrderly i now (codes "customer job epoch aborted") l.jobs sound)
]
Step-IsOrderly sv l m (Step.complete_step i r scores h) sound =
    let (e, at_id, outcome) = complete_epoch-effect sv i r l h in
    elim outcome [
      | inl (final, loaded, same) ↦ subst Orderly same sound
      | inr (generated_at, audience, runs, done) ↦ subst Orderly done.tables sound
    ]
Step-IsOrderly sv l m (Step.abandon_step i reason h) sound =
    let (e, at_id, ready, same) = abandon-effect i reason l h in subst Orderly same sound
Step-IsOrderly sv l m (Step.publish_step i digest h) sound =
    let (e, at_id, matches, outcome) = publish-effect i digest l h in
    elim outcome [
      | inl (already, same) ↦ subst Orderly same sound
      | inr (ready, same) ↦ subst Orderly same sound
    ]
Step-IsOrderly sv l m (Step.issue_step x hotkey i h) sound =
    let (e, at_id, runs, free, same) = issue-effect x hotkey i l h in subst Orderly same sound
Step-IsOrderly sv l m (Step.resolve_step x status units derived h) sound =
    let (d, u, at_x, is_open, valid, same) = resolve-effect x status units derived l h in
    subst Orderly same sound
Step-IsOrderly sv l m (Step.attest_step i hotkey a h) sound = elim (attest-effect i hotkey a l h) [
  | inl same ↦ subst Orderly same sound
  | inr (free, same) ↦ subst Orderly same sound
]
Step-IsOrderly sv l m (Step.enqueue_step hashes item customer key uuid now job h) (checks, count) =
    elim (enqueue-effect hashes item customer key uuid now l h) [
      | inl same ↦ subst Orderly same (checks, count)
      | inr inserted ↦
          let (free, quota, room, same) = insert_job-effect _ l inserted in
          subst Orderly same (checks, ground (arith, free))
    ]
Step-IsOrderly sv l m (Step.claim_step hashes owner i lease_seconds top token now lease h) sound =
    let (js, cs, claimed, same) = claim-effect hashes owner i lease_seconds top token now l h in
    subst Orderly same (
      claimed-IsOrderly _ cs _ js claimed (
        spent-IsOrderly now top (update_where (is_expired now) (expire_job now top) l.jobs)
          (expired-IsOrderly now top l.jobs sound)))
Step-IsOrderly sv l m (Step.resolve_leased_step hashes result_json x status units derived q now h)
      sound =
    let (d, u, j, body, error, derived_units, good, current, at_x, is_open, same) =
      resolve_leased-effect hashes result_json x status units derived q now l h in
    subst Orderly same (settled-IsOrderly result_json status q now body error l.jobs good sound)
Step-IsOrderly sv l m (Step.prune_step limit_time limit customer count h) sound =
    let (ids, same) = prune-effect limit_time limit customer l h in
    subst Orderly same (filter-IsOrderly (survives ids) l.jobs sound)

-- In tables reached from the new ledger every customer job passes the checks of its table, so that a
-- job has a lease exactly while it is leased and a job that succeeded has its result, and at most
-- 1024 jobs are queued or leased.
pub Reach-IsOrderly : (sv : Services) (l : Ledger) → Reach sv new_ledger l → IsOrderly l.jobs
Reach-IsOrderly sv l Reach.start = (refl, omega arith)
Reach-IsOrderly sv l (Reach.step {m = k} reached taken) =
    Step-IsOrderly sv k l taken (Reach-IsOrderly sv k reached)
