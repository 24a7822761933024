-- ===== src/Lifecycle/Order.antt =====
-- Where a worker can go by legal transitions.
use cathedral_compute.Base.{◌≡◌, ◌⊎◌, refl, true, false, member, arith, ok}
use cathedral_compute.Lifecycle.{
  State, pending, attested, stale, retired, revoked, Reason, attestation_verified,
  refresh_scheduled, refresh_retry, refresh_cancelled, state_eq, terminal_states,
  network_eligible_states, require_transition, require_transition_reason, require_snapshot_reason,
}

-- A transition that both checks let pass.
pub data Step (s t : State) : Type 0 where
  by_reason :
      (reason : Reason)
      → require_transition s t ≡ ok tt
      → require_transition_reason t reason ≡ ok tt
      → Step s t

pub data Reach (s : State) : State → Type 0 where
  here : Reach s s
  next : {t u : State} → Reach s t → Step t u → Reach s u

-- What no legal transition from a state leaves: a terminal state, the states out of the network,
-- and the states after the first one.
pub record Bounds (s t : State) : Type 0 where
  pub terminal_stays : member s terminal_states ≡ true → t ≡ s
  pub out_stays_out :
      member s network_eligible_states ≡ false → member t network_eligible_states ≡ false
  pub pending_is_first : t ≡ pending → s ≡ pending

Step-Bounds : (s t : State) → Step s t → Bounds s t
unfolding require_transition
Step-Bounds s t (by_reason r h k) = ground arith

Bounds-trans : (s t u : State) → Bounds s t → Bounds t u → Bounds s u
Bounds-trans s t u a b = ground arith

-- Over any number of legal transitions: a retired or revoked worker stays as it is, a worker that
-- is neither pending, attested nor stale never becomes so, and `pending` is never entered again.
pub Reach-Bounds : {s t : State} → Reach s t → Bounds s t
Reach-Bounds {s} here = record {
  terminal_stays = λ h. refl;
  out_stays_out = λ h. h;
  pending_is_first = λ h. h;
}
Reach-Bounds {s} {t} (next {t = mid} r st) =
    Bounds-trans s mid t (Reach-Bounds r) (Step-Bounds mid t st)

-- A transition into `attested` from another state carries `attestation_verified` or one of the
-- refresh reasons; from `failed`, `retiring`, `retired` or `revoked` there is none. The reason
-- `attestation_verified` leads nowhere else.
pub attested_entry :
    (s t : State) (r : Reason)
    → require_transition s t ≡ ok tt
    → require_transition_reason t r ≡ ok tt
    → (r ≡ attestation_verified → t ≡ attested)
      × (t ≡ attested
          → ((s ≡ pending) ⊎ (s ≡ attested) ⊎ (s ≡ stale))
            × ((r ≡ attestation_verified)
                ⊎ (r ≡ refresh_scheduled)
                ⊎ (r ≡ refresh_retry)
                ⊎ (r ≡ refresh_cancelled)))
unfolding require_transition require_transition_reason
attested_entry s t r h k = (λ e. ground arith, λ e. (ground arith, ground arith))

-- Every worker that is not retired can be revoked.
pub revocable : (s : State) → (require_transition s revoked ≡ ok tt) ⊎ (s ≡ retired)
unfolding require_transition
revocable s = ground arith

-- Every reason of a legal transition is also one that a snapshot of the target may show.
pub snapshot_reason_of_transition :
    (t : State) (r : Reason)
    → require_transition_reason t r ≡ ok tt
    → require_snapshot_reason t r ≡ ok tt
unfolding require_transition_reason require_snapshot_reason
snapshot_reason_of_transition t r h = ground arith
