-- ===== src/Lifecycle/Examples.antt =====
-- One worker: attested, stale, attested again, its retries, and the refreshes that it shares.
use cathedral_compute.Base.{
  ℕ, ◌+◌, ◌≤◌, ◌<◌, ◌≡◌, ◌≢◌, ◌↔◌, ◌⊎◌, refl, String, true, false, none, some, arith, ok, take,
  nat_eq, string_eq,
}
use cathedral_compute.Base.Int.{pos}
use cathedral_compute.Base.Dict.{get, put, pop}
use cathedral_compute.Lifecycle.{
  pending, attested, stale, evidence_expired, attestation_verified, refresh_retry,
  refresh_scheduled, refresh_cancelled, require_transition, require_transition_reason,
  require_snapshot_reason,
}
use cathedral_compute.Lifecycle.Order.{
  Reach, here, next, by_reason, Bounds, Reach-Bounds, attested_entry,
}
use cathedral_compute.Lifecycle.Snapshot.{
  DateTime, LifecycleSnapshot, check_snapshot, canonical_utc, eligible_at,
}
use cathedral_compute.Lifecycle.Snapshot.Laws.{IsValid, check_snapshot_iff, eligible_at_window}
use cathedral_compute.Lifecycle.Retry.{
  RetryPolicy, IsPolicy, retry_delay_seconds, exponential, retry_delay_bounds,
}
use cathedral_compute.Lifecycle.Flights.{
  time_out, invoke_begin, invoke_end, set_result, Reattestor, Task, queued, running, run,
  new_reattestor,
}
use cathedral_compute.Lifecycle.Flights.Interleavings.{
  times_out, begins, ends, returns, step, start, runs, single_flight,
}
use cathedral_compute.Lifecycle.Flights.Single.{has_passed}
use cathedral_compute.Lifecycle.Flights.Cancellation.{now, and_then, cancelled_never_returns}

went_stale : Reach pending stale
unfolding require_transition require_transition_reason
went_stale =
    next {t = attested} (next here (by_reason attestation_verified refl refl))
      (by_reason evidence_expired refl refl)

Reach-Bounds_example : Bounds pending stale
Reach-Bounds_example = Reach-Bounds went_stale

stale_to_attested : require_transition stale attested ≡ ok tt
unfolding require_transition
stale_to_attested = refl

retry_of_attested : require_transition_reason attested refresh_retry ≡ ok tt
unfolding require_transition_reason
retry_of_attested = refl

attested_entry_example :
    (refresh_retry ≡ attestation_verified → attested ≡ attested)
    × (attested ≡ attested
        → ((stale ≡ pending) ⊎ (stale ≡ attested) ⊎ (stale ≡ stale))
          × ((refresh_retry ≡ attestation_verified)
              ⊎ (refresh_retry ≡ refresh_scheduled)
              ⊎ (refresh_retry ≡ refresh_retry)
              ⊎ (refresh_retry ≡ refresh_cancelled)))
attested_entry_example =
    attested_entry stale attested refresh_retry stale_to_attested retry_of_attested

abbrev at_time : ℕ → DateTime
at_time n = record { instant = n; is_utc = true }

abbrev worker : LifecycleSnapshot
worker = record {
  hotkey = "miner-a";
  state = attested;
  generation = pos 1;
  revision = pos 4;
  event_id = pos 9;
  reason = attestation_verified;
  state_changed_at = at_time 100;
  evidence_verified_at = some (at_time 90);
  evidence_expires_at = some (at_time 500);
  measurement = some "measurement";
  evidence_digest = some "evidence";
  policy_digest = some "policy";
  policy_registry_release = none;
  policy_registry_digest = none;
  retry_count = pos 0;
  next_retry_at = none;
}

check_snapshot_iff_example : (check_snapshot worker ≡ ok tt) ↔ IsValid worker
check_snapshot_iff_example = check_snapshot_iff worker

worker_valid : check_snapshot worker ≡ ok tt
unfolding check_snapshot require_snapshot_reason canonical_utc
worker_valid = refl

eligible_at_window_example :
    (attested ≡ attested → eligible_at worker (at_time 100) ≡ ok true)
    × (eligible_at worker (at_time 120) ≡ ok true
        → (attested ≡ attested)
          × ((expires : DateTime) × (some (at_time 500) ≡ some expires) × (120 < expires.instant)))
    × (120 ≤ 300
        → eligible_at worker (at_time 300) ≡ ok true
        → eligible_at worker (at_time 120) ≡ ok true)
eligible_at_window_example =
    eligible_at_window worker worker_valid (at_time 120) (at_time 300) refl refl

abbrev policy : RetryPolicy
policy = record { base_seconds = pos 30; maximum_seconds = pos 3600; jitter_seconds = pos 15 }

policy_ok : IsPolicy policy
policy_ok = record {
  some_base = omega arith;
  base_below = omega arith;
  at_most_a_day = omega arith;
  some_jitter = omega arith;
  jitter_below = omega arith;
}

abbrev hotkey : String
hotkey = "miner-a"

named : hotkey ≢ ""
named e = cc

retry_delay_bounds_example :
    (d : ℕ) × (retry_delay_seconds (λ bytes. take 32 bytes) "miner-a" (pos 2) (pos 4) policy ≡ ok d)
    × (1 ≤ d)
    × (exponential 30 3600 4 ≤ d)
    × (d ≤ exponential 30 3600 4 + 15)
    × (d ≤ 3600)
retry_delay_bounds_example =
    retry_delay_bounds (λ bytes. take 32 bytes) "miner-a" (pos 2) (pos 4) policy named (omega arith)
      (omega arith) policy_ok

-- Two callers for the same worker: the second joins the first one's future.
abbrev shared : Reattestor ℕ
shared = (run "miner-a" (pos 1) true (run "miner-a" (pos 1) true new_reattestor).0).0

abbrev the_task : Task ℕ
the_task = record { hotkey = "miner-a"; generation = pos 1; cancelled = false; future = queued }

stored : shared.tasks 0 ≡ some the_task
unfolding run get put pop
stored = refl

single_flight_example : ◌≡◌ {A = ℕ} 0 0
single_flight_example =
    single_flight shared 0 0 the_task the_task
      (step (step start (runs "miner-a" (pos 1) true)) (runs "miner-a" (pos 1) true)) stored stored
      refl refl refl

-- The caller's timeout passes while a worker thread runs the operation.
abbrev begun : Reattestor ℕ
begun = time_out 0 (invoke_begin 0 (run hotkey (pos 1) true new_reattestor).0)

abbrev cancelled_task : Task ℕ
cancelled_task = record the_task { cancelled = true; future = running }

stored_cancelled : begun.tasks 0 ≡ some cancelled_task
unfolding run time_out invoke_begin get put pop
stored_cancelled = refl

-- The operation returns 5 after the event was set.
cancelled_never_returns_example :
    (u : Task ℕ) × ((set_result 0 (invoke_end (ok 5) 0 begun)).tasks 0 ≡ some u)
    × (u.cancelled ≡ true)
    × (has_passed u.future ≡ false)
cancelled_never_returns_example =
    cancelled_never_returns begun (set_result 0 (invoke_end (ok 5) 0 begun)) 0 cancelled_task
      (step (step (step start (runs hotkey (pos 1) true)) (begins 0)) (times_out 0))
      (and_then (and_then now (ends (ok 5) 0)) (returns 0)) stored_cancelled refl refl
