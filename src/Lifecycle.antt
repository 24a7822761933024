-- ===== src/Lifecycle.antt =====
-- The worker lifecycle of cathedral/lifecycle.py: its states, the reasons of its audit events and
-- the tables that say which transitions, with which reasons, are legal. A dict of frozensets is a
-- function into lists; `isinstance` tests hold of every value of the types.
pub mod Order
pub mod Snapshot
pub mod Retry
pub mod Flights
mod Examples
use cathedral_compute.Base.{
  ℕ, ◌≡◌, ◌↔◌, Bool, true, List, [], ◌∷◌, ◌++◌, member, nat_beq, Eq, arith, Result, ok, err,
  if◌then◌else◌,
}

pub data State : Type 0 where
  pending attested stale failed retiring retired revoked : State

pub data Reason : Type 0 where
  enrolled endpoint_changed reenrolled attestation_verified refresh_scheduled : Reason
  refresh_retry evidence_expired verification_failed retry_exhausted policy_revoked : Reason
  identity_conflict operator_retiring operator_retired worker_removed : Reason
  refresh_cancelled backfill_pending backfill_stale : Reason

-- The messages of `LifecycleError`.
pub data LifecycleError : Type 0 where
  illegal_transition : State → State → LifecycleError
  invalid_reason : Reason → State → LifecycleError
  not_utc invalid_snapshot invalid_evidence_window incomplete_attested : LifecycleError
  invalid_registry_reference invalid_retry_policy : LifecycleError
  invalid_refresh_hotkey invalid_refresh_generation invalid_refresh_timeout : LifecycleError
  generation_changed timed_out was_cancelled : LifecycleError
  -- the `RuntimeError` of an executor that was shut down
  shut_down : LifecycleError

abbrev rank : State → ℕ
rank pending = 0
rank attested = 1
rank stale = 2
rank failed = 3
rank retiring = 4
rank retired = 5
rank revoked = 6

abbrev pub state_beq : State → State → Bool
state_beq s t = nat_beq (rank s) (rank t)

pub state_beq_iff : (s t : State) → (state_beq s t ≡ true) ↔ (s ≡ t)
state_beq_iff s t = ground arith

instance abbrev pub state_eq : Eq State
state_eq = record { same = state_beq; same_iff = state_beq_iff }

abbrev pub terminal_states : List State
terminal_states = retired ∷ revoked ∷ []

abbrev pub network_eligible_states : List State
network_eligible_states = pending ∷ attested ∷ stale ∷ []

abbrev pub capacity_consuming_states : List State
capacity_consuming_states = network_eligible_states ++ retiring ∷ revoked ∷ []

-- `ALLOWED_TRANSITIONS`
abbrev pub allowed_transitions : State → List State
allowed_transitions pending = pending ∷ attested ∷ failed ∷ retiring ∷ revoked ∷ []
allowed_transitions attested = attested ∷ stale ∷ failed ∷ retiring ∷ revoked ∷ []
allowed_transitions stale = stale ∷ attested ∷ failed ∷ retiring ∷ revoked ∷ []
allowed_transitions failed = failed ∷ retiring ∷ revoked ∷ []
allowed_transitions retiring = retiring ∷ retired ∷ revoked ∷ []
allowed_transitions retired = retired ∷ []
allowed_transitions revoked = revoked ∷ []

-- `REASON_TARGETS.get(reason, frozenset())`
abbrev pub reason_targets : Reason → List State
reason_targets attestation_verified = attested ∷ []
reason_targets refresh_scheduled = pending ∷ attested ∷ stale ∷ []
reason_targets refresh_retry = pending ∷ attested ∷ stale ∷ []
reason_targets refresh_cancelled = pending ∷ attested ∷ stale ∷ []
reason_targets evidence_expired = stale ∷ []
reason_targets verification_failed = failed ∷ []
reason_targets retry_exhausted = failed ∷ []
reason_targets policy_revoked = revoked ∷ []
reason_targets identity_conflict = revoked ∷ []
reason_targets operator_retiring = retiring ∷ []
reason_targets operator_retired = retired ∷ []
reason_targets worker_removed = retired ∷ []
reason_targets _ = []

-- `SNAPSHOT_REASON_TARGETS.get(reason, frozenset())`
abbrev pub snapshot_reason_targets : Reason → List State
snapshot_reason_targets enrolled = pending ∷ []
snapshot_reason_targets endpoint_changed = pending ∷ []
snapshot_reason_targets reenrolled = pending ∷ []
snapshot_reason_targets backfill_pending = pending ∷ []
snapshot_reason_targets backfill_stale = stale ∷ []
snapshot_reason_targets other = reason_targets other

unfoldable pub require_transition : State → State → Result LifecycleError (Unit {0})
require_transition current target =
    if member target (allowed_transitions current)
    then ok tt
    else err (illegal_transition current target)

unfoldable pub require_transition_reason : State → Reason → Result LifecycleError (Unit {0})
require_transition_reason target reason =
    if member target (reason_targets reason) then ok tt else err (invalid_reason reason target)

unfoldable pub require_snapshot_reason : State → Reason → Result LifecycleError (Unit {0})
require_snapshot_reason state reason =
    if member state (snapshot_reason_targets reason)
    then ok tt
    else err (invalid_reason reason state)
