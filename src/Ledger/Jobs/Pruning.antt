-- ===== src/Ledger/Jobs/Pruning.antt =====
-- `prune_customer_jobs` of cathedral/ledger.py: the oldest resolved jobs are deleted.
use cathedral_compute.Base.{
  ℕ, ◌≡◌, String, Bool, true, false, not, ◌&&◌, ◌||◌, List, [], ◌∷◌, Option, none, some, leb, ltb,
  nat_beq, length, take, map, filter, member, string_eq, text_eq, ◌==◌, if◌then◌else◌, Result, ok,
  ◌>>◌, raise_if, raise_if->>, ok-injective, ap,
}
use cathedral_compute.Ledger.{
  Ledger, Job, JobStatus, succeeded, job_failed, LedgerError, ledger_closed, bad_prune,
  bad_customer,
}
use cathedral_compute.Ledger.Scores.{text_ltb}
use cathedral_compute.Ledger.Jobs.{is_customer_id}

-- `status IN ('succeeded','failed')`
abbrev is_resolved : JobStatus → Bool
is_resolved succeeded = true
is_resolved job_failed = true
is_resolved _ = false

abbrev time_of : Option ℕ → ℕ
time_of none = 0
time_of (some t) = t

abbrev is_before : ℕ → Option ℕ → Bool
is_before limit none = false
is_before limit (some t) = ltb t limit

abbrev belongs : Option String → Job → Bool
belongs none j = true
belongs (some customer) j = j.customer_id == customer

abbrev is_prunable : ℕ → Option String → Job → Bool
is_prunable resolved_before customer j =
    is_resolved j.status && is_before resolved_before j.resolved_at && belongs customer j

-- `ORDER BY resolved_at,job_id`
abbrev resolved_earlier : Job → Job → Bool
resolved_earlier j k =
    ltb (time_of j.resolved_at) (time_of k.resolved_at)
    || (nat_beq (time_of j.resolved_at) (time_of k.resolved_at) && text_ltb j.job_id k.job_id)

insert_job_by_time : Job → List Job → List Job
insert_job_by_time j [] = j ∷ []
insert_job_by_time j (k ∷ ks) =
    let rest = insert_job_by_time j ks in if resolved_earlier k j then k ∷ rest else j ∷ k ∷ ks

sort_jobs : List Job → List Job
unfolding insert_job_by_time
sort_jobs [] = []
sort_jobs (j ∷ js) = insert_job_by_time j (sort_jobs js)

-- The ids of the jobs to delete
doomed : ℕ → ℕ → Option String → List Job → List (List ℕ)
unfolding sort_jobs
doomed resolved_before limit customer js =
    map (λ j. j.job_id) (take limit (sort_jobs (filter (is_prunable resolved_before customer) js)))

abbrev customer_ok : Option String → Bool
unfolding is_customer_id
customer_ok none = true
customer_ok (some customer) = is_customer_id customer

abbrev pub survives : List (List ℕ) → Job → Bool
survives ids j = not (member j.job_id ids)

unfoldable pub prune_jobs : ℕ → ℕ → Option String → Ledger → Result LedgerError (ℕ × Ledger)
unfolding doomed is_customer_id
prune_jobs resolved_before limit customer l = do
  raise_if (not (leb 1 limit && leb limit 10000)) bad_prune
  raise_if (not (customer_ok customer)) bad_customer
  raise_if l.closed ledger_closed
  let ids = doomed resolved_before limit customer l.jobs
  ok (length ids, record l { jobs = filter (survives ids) l.jobs })

pub prune-effect :
    (resolved_before limit : ℕ) (customer : Option String) (l : Ledger) {count : ℕ} {m : Ledger}
    → prune_jobs resolved_before limit customer l ≡ ok (count, m)
    → (ids : List (List ℕ)) × (record l { jobs = filter (survives ids) l.jobs } ≡ m)
unfolding prune_jobs
prune-effect resolved_before limit customer l h =
    let (a, h1) = raise_if->> (not (leb 1 limit && leb limit 10000)) bad_prune _ h in
    let (b, h2) = raise_if->> (not (customer_ok customer)) bad_customer _ h1 in
    let (c, h3) = raise_if->> l.closed ledger_closed _ h2 in
    (doomed resolved_before limit customer l.jobs, ap (λ p. p.1) (ok-injective h3))
