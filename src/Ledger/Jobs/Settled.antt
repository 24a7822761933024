-- ===== src/Ledger/Jobs/Settled.antt =====
-- The tables of cathedral/ledger.py after a leased customer job was resolved as a success.
use cathedral_compute.Base.{ℕ, ◌≡◌, true, List, none, some, find_first, string_eq, text_eq}
use cathedral_compute.Base.Text.{Bytes}
use cathedral_compute.Sat.Certificate.{check_assignment}
use cathedral_compute.Ledger.{Ledger, Challenge, issued, verified, Job, succeeded, challenge_at}
use cathedral_compute.Ledger.Jobs.{has_job}
use cathedral_compute.Ledger.Jobs.Resolution.{CustomerResult, CustomerResolution}

-- What a success leaves in the tables, of the job and the challenge that the lease names.
pub record IsSettled (canonical_json : CustomerResult → Bytes) (id : List ℕ) (units : ℕ)
    (q : CustomerResolution) (now : ℕ) (l m : Ledger) : Type 0 where
  pub job : Job
  pub result : CustomerResult
  pub challenge : Challenge
  pub leased : find_first (has_job q.lease.job_id) l.jobs ≡ some job
  pub brought : q.result ≡ some result
  pub satisfies : check_assignment job.item.instance' result.assignment ≡ true
  pub was_issued : challenge_at id l.challenges ≡ some challenge
  pub was_open : challenge.status ≡ issued
  pub challenge_after :
      challenge_at id m.challenges
      ≡ some (record challenge { status = verified; work_units = units })
  pub job_after :
      find_first (has_job q.lease.job_id) m.jobs
      ≡ some (record job {
        status = succeeded;
        available_at = now;
        lease = none;
        result = some (canonical_json result);
        last_error = none;
        resolved_at = some now;
      })
