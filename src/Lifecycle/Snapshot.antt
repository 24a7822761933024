-- ===== src/Lifecycle/Snapshot.antt =====
-- `LifecycleSnapshot` of cathedral/lifecycle.py: the checks of `__post_init__`, in order, and
-- `eligible_at`. A datetime is an instant in microseconds with the answer to whether it is aware
-- of UTC with offset 0, which is what `canonical_utc` asks of it.
pub mod Laws
use cathedral_compute.Base.{
  ℕ, ◌-◌, ◌^◌, ◌≤◌, String, Bool, true, false, not, ◌&&◌, ◌||◌, Option, none, some, leb, ltb,
  length, ◌==◌, string_eq, if◌then◌else◌, Result, ok, err, ◌>>=◌, ◌>>◌, raise_if,
}
use cathedral_compute.Base.Int.{ℤ, pos, leb_ℤ, ltb_ℤ}
use cathedral_compute.Base.Text.{codes, is_sha256_digest}
use cathedral_compute.Lifecycle.{
  State, attested, Reason, LifecycleError, not_utc, invalid_snapshot, invalid_evidence_window,
  incomplete_attested, invalid_registry_reference, state_beq, require_snapshot_reason,
}

pub record DateTime : Type 0 where
  pub instant : ℕ
  pub is_utc : Bool

-- The check of `canonical_utc`; the text that it returns is the instant's.
unfoldable pub canonical_utc : DateTime → Result LifecycleError (Unit {0})
canonical_utc t = raise_if (not t.is_utc) not_utc

pub record LifecycleSnapshot : Type 0 where
  pub hotkey : String
  pub state : State
  pub generation : ℤ
  pub revision : ℤ
  pub event_id : ℤ
  pub reason : Reason
  pub state_changed_at : DateTime
  pub evidence_verified_at : Option DateTime
  pub evidence_expires_at : Option DateTime
  pub measurement : Option String
  pub evidence_digest : Option String
  pub policy_digest : Option String
  pub policy_registry_release : Option ℤ
  pub policy_registry_digest : Option String
  pub retry_count : ℤ
  pub next_retry_at : Option DateTime

abbrev pub max_sqlite_integer : ℕ
max_sqlite_integer = 2 ^ 63 - 1

-- `0 < value <= 2**63 - 1`
abbrev pub is_bounded_positive : ℤ → Bool
is_bounded_positive n = ltb_ℤ (pos 0) n && leb_ℤ n (pos max_sqlite_integer)

has_valid_identity : LifecycleSnapshot → Bool
has_valid_identity s =
    not (s.hotkey == "")
    && leb (length (codes s.hotkey)) 512
    && is_bounded_positive s.generation
    && is_bounded_positive s.revision
    && is_bounded_positive s.event_id
    && leb_ℤ (pos 0) s.retry_count

-- `if value is not None: canonical_utc(value)`
abbrev pub optional_utc : Option DateTime → Result LifecycleError (Unit {0})
optional_utc none = ok tt
optional_utc (some t) = raise_if (not t.is_utc) not_utc

-- `verified is not None and expires is not None and expires <= verified`
window_is_empty : Option DateTime → Option DateTime → Bool
window_is_empty (some verified) (some expires) = leb expires.instant verified.instant
window_is_empty _ _ = false

-- `isinstance(value, str) and value`
abbrev pub is_text : Option String → Bool
is_text none = false
is_text (some s) = not (s == "")

-- The evidence that an attested snapshot must carry.
evidence_current : Option DateTime → Option DateTime → ℕ → Bool
evidence_current (some verified) (some expires) now =
    leb verified.instant now && ltb now expires.instant
evidence_current _ _ now = false

attested_is_complete : LifecycleSnapshot → Bool
unfolding evidence_current
attested_is_complete s =
    evidence_current s.evidence_verified_at s.evidence_expires_at s.state_changed_at.instant
    && is_text s.measurement
    && is_text s.evidence_digest
    && is_text s.policy_digest

-- Both parts of the policy registry reference, or neither.
registry_reference_ok : Option ℤ → Option String → Bool
registry_reference_ok none none = true
registry_reference_ok none (some digest) = false
registry_reference_ok (some release) none = false
registry_reference_ok (some release) (some digest) =
    is_bounded_positive release && is_sha256_digest digest

-- `__post_init__`
unfoldable pub check_snapshot : LifecycleSnapshot → Result LifecycleError (Unit {0})
unfolding has_valid_identity window_is_empty attested_is_complete registry_reference_ok
    canonical_utc
check_snapshot s = do
  raise_if (not (has_valid_identity s)) invalid_snapshot
  canonical_utc s.state_changed_at
  require_snapshot_reason s.state s.reason
  optional_utc s.evidence_verified_at
  optional_utc s.evidence_expires_at
  optional_utc s.next_retry_at
  raise_if (window_is_empty s.evidence_verified_at s.evidence_expires_at) invalid_evidence_window
  raise_if (state_beq s.state attested && not (attested_is_complete s)) incomplete_attested
  raise_if (not (registry_reference_ok s.policy_registry_release s.policy_registry_digest))
      invalid_registry_reference

unexpired : Option DateTime → DateTime → Bool
unexpired none when = false
unexpired (some expires) when = ltb when.instant expires.instant

unfoldable pub eligible_at : LifecycleSnapshot → DateTime → Result LifecycleError Bool
unfolding unexpired canonical_utc
eligible_at s when = do
  canonical_utc when
  ok (state_beq s.state attested && unexpired s.evidence_expires_at when)
