-- ===== src/Assurance.antt =====
-- cathedral/assurance.py: the claims that the parts of the program make about a worker, and the
-- policies that name the claims which an authorization needs. A field that Python checks with
-- `isinstance` is a JSON value; `None` is `null`. SHA-256 and `datetime.fromisoformat` are
-- parameters; so is the present time of `verified_at_now`. The frozensets of a policy are the
-- sorted lists of their members.
pub mod Policies
pub mod Documents
pub mod Gates
mod Examples
use cathedral_compute.Base.{
  ℕ, ◌≡◌, ◌↔◌, String, Bool, true, false, not, ◌&&◌, ◌||◌, List, [], ◌∷◌, ◌++◌, Option, none, some,
  arith, all, any, leb, ltb, length, nat_beq, Eq, ◌==◌, text_eq, nat_eq, string_eq, member,
  if◌then◌else◌, Result, ok, err, ◌>>=◌, ◌>>◌, raise_if,
}
use cathedral_compute.Base.Int.{ℤ, pos, int_eq, int_beq}
use cathedral_compute.Base.Text.{codes, hex, is_digest_text, Bytes}
use cathedral_compute.Base.Json.{
  Json, num, text, bool, null, list, object, Items, nil, cons, Fields, end, field, get_field, dumps,
  compact,
}

pub data AssuranceDimension : Type 0 where
  hardware software channel work : AssuranceDimension

pub data ClaimStatus : Type 0 where
  not_evaluated passed failed stale revoked : ClaimStatus

pub data ReasonCategory : Type 0 where
  evidence_invalid policy_rejected channel_mismatch work_invalid evidence_stale : ReasonCategory
  policy_revoked identity_conflict internal_error : ReasonCategory

-- The messages of the module's `ValueError`s.
pub data AssuranceError : Type 0 where
  unevaluated_carries_audit bad_evidence_digest bad_policy_digest bad_timestamp : AssuranceError
  passed_with_reason reason_missing unsupported_schema policy_name_unbounded : AssuranceError
  repeated_dimension invalid_document claim_missing unknown_status_or_reason : AssuranceError

-- What the module takes from the standard library: the digest, the UTC offset in seconds of a
-- timestamp that parses (`none` inside for a naive one), and the text of the present time.
pub record Stdlib : Type 0 where
  pub sha256 : Bytes → Bytes
  pub fromisoformat : List ℕ → Option (Option ℤ)
  pub now : List ℕ

unfoldable pub sha256_digest : Stdlib → Bytes → List ℕ
sha256_digest std value = codes "sha256:" ++ hex (std.sha256 value)

-- The fields of `Policy` of cathedral/common.py that take part in its digest.
pub record Policy : Type 0 where
  pub allowed_measurements : List (List ℕ)
  pub min_tcb : ℤ
  pub allowed_firmware : List (List ℕ)
  pub tdx_strict : Bool
  pub tdx_allowed_tcb_statuses : List (List ℕ)
  pub tdx_allowed_advisories : List (List ℕ)
  pub registry_release : Option ℤ
  pub registry_digest : Option (List ℕ)
  pub registry_profile_ids : List (List ℕ)

json_texts : List (List ℕ) → Items
json_texts [] = nil
json_texts (s ∷ ss) = cons (text s) (json_texts ss)

json_option : {A : Type 0} → (A → Json) → Option A → Json
json_option f none = null
json_option f (some a) = f a

unfoldable pub policy_digest : Stdlib → Policy → List ℕ
unfolding json_texts json_option
policy_digest std p = sha256_digest std (
    dumps compact (
      object (
        field "allowed_firmware" (list (json_texts p.allowed_firmware)) (
          field "allowed_measurements" (list (json_texts p.allowed_measurements)) (
            field "min_tcb" (num p.min_tcb) (
              field "registry_digest" (json_option text p.registry_digest) (
                field "registry_profile_ids" (list (json_texts p.registry_profile_ids)) (
                  field "registry_release" (json_option num p.registry_release) (
                    field "tdx_allowed_advisories" (list (json_texts p.tdx_allowed_advisories)) (
                      field "tdx_allowed_tcb_statuses"
                        (list (json_texts p.tdx_allowed_tcb_statuses))
                        (field "tdx_strict" (bool p.tdx_strict)
                          (field "version" (num (pos 1)) end))))))))))))

abbrev pub status_value : ClaimStatus → List ℕ
status_value not_evaluated = codes "not_evaluated"
status_value passed = codes "passed"
status_value failed = codes "failed"
status_value stale = codes "stale"
status_value revoked = codes "revoked"

abbrev pub reason_value : ReasonCategory → List ℕ
reason_value evidence_invalid = codes "evidence_invalid"
reason_value policy_rejected = codes "policy_rejected"
reason_value channel_mismatch = codes "channel_mismatch"
reason_value work_invalid = codes "work_invalid"
reason_value evidence_stale = codes "evidence_stale"
reason_value policy_revoked = codes "policy_revoked"
reason_value identity_conflict = codes "identity_conflict"
reason_value internal_error = codes "internal_error"

abbrev pub is_passed : ClaimStatus → Bool
is_passed passed = true
is_passed _ = false

-- `value[:-1]` when the value ends with "Z"
before_z : List ℕ → Option (List ℕ)
before_z [] = none
before_z (c ∷ []) = if nat_beq c b'Z' then some [] else none
before_z (c ∷ d ∷ rest) = elim (before_z (d ∷ rest)) [ none ↦ none | some front ↦ some (c ∷ front) ]

utc_offset_is_zero : Option (Option ℤ) → Bool
utc_offset_is_zero (some (some offset)) = offset == pos 0
utc_offset_is_zero _ = false

unfoldable pub valid_utc_timestamp : Stdlib → List ℕ → Bool
unfolding before_z utc_offset_is_zero
valid_utc_timestamp std value = elim (before_z value) [
  | none ↦ false
  | some front ↦ utc_offset_is_zero (std.fromisoformat (front ++ codes "+00:00"))
]

pub record AssuranceClaim : Type 0 where
  pub status : ClaimStatus
  pub evidence_digest : Json
  pub policy_digest : Json
  pub verified_at : Json
  pub reason : Option ReasonCategory

abbrev pub is_null : Json → Bool
is_null null = true
is_null _ = false

abbrev pub is_digest : Json → Bool
is_digest (text s) = is_digest_text s
is_digest _ = false

abbrev pub is_utc : Stdlib → Json → Bool
is_utc std (text s) = valid_utc_timestamp std s
is_utc std _ = false

abbrev pub has_reason : Option ReasonCategory → Bool
has_reason none = false
has_reason (some r) = true

check_evaluated : Stdlib → AssuranceClaim → Result AssuranceError AssuranceClaim
check_evaluated std c = do
  raise_if (not (is_digest c.evidence_digest)) bad_evidence_digest
  raise_if (not (is_digest c.policy_digest)) bad_policy_digest
  raise_if (not (is_utc std c.verified_at)) bad_timestamp
  raise_if (is_passed c.status && has_reason c.reason) passed_with_reason
  raise_if (not (is_passed c.status) && not (has_reason c.reason)) reason_missing
  ok c

check_unevaluated : AssuranceClaim → Result AssuranceError AssuranceClaim
check_unevaluated c = do
  raise_if
      (not (is_null c.evidence_digest)
        || not (is_null c.policy_digest)
        || not (is_null c.verified_at)
        || has_reason c.reason)
      unevaluated_carries_audit
  ok c

abbrev pub is_not_evaluated : ClaimStatus → Bool
is_not_evaluated not_evaluated = true
is_not_evaluated _ = false

-- `AssuranceClaim.__post_init__`
unfoldable pub check_claim : Stdlib → AssuranceClaim → Result AssuranceError AssuranceClaim
unfolding check_evaluated check_unevaluated
check_claim std c = if is_not_evaluated c.status then check_unevaluated c else check_evaluated std c

abbrev pub not_evaluated_claim : AssuranceClaim
not_evaluated_claim = record {
  status = not_evaluated;
  evidence_digest = null;
  policy_digest = null;
  verified_at = null;
  reason = none;
}

abbrev pub assurance_schema : List ℕ
assurance_schema = codes "assurance_claims_v1"

-- The fields `hardware`, `software`, `channel` and `work`; the only schema is `assurance_schema`.
pub record AssuranceClaims : Type 0 where
  pub hardware_claim : AssuranceClaim
  pub software_claim : AssuranceClaim
  pub channel_claim : AssuranceClaim
  pub work_claim : AssuranceClaim

unfoldable pub claim : AssuranceClaims → AssuranceDimension → AssuranceClaim
claim cs hardware = cs.hardware_claim
claim cs software = cs.software_claim
claim cs channel = cs.channel_claim
claim cs work = cs.work_claim

unfoldable pub with_claim : AssuranceClaims → AssuranceDimension → AssuranceClaim → AssuranceClaims
with_claim cs hardware c = record cs { hardware_claim = c }
with_claim cs software c = record cs { software_claim = c }
with_claim cs channel c = record cs { channel_claim = c }
with_claim cs work c = record cs { work_claim = c }

unfoldable pub empty_assurance_claims : AssuranceClaims
empty_assurance_claims = record {
  hardware_claim = not_evaluated_claim;
  software_claim = not_evaluated_claim;
  channel_claim = not_evaluated_claim;
  work_claim = not_evaluated_claim;
}

-- `verified_at or verified_at_now()`
abbrev time_or_now : Stdlib → Option (List ℕ) → List ℕ
time_or_now std none = std.now
time_or_now std (some []) = std.now
time_or_now std (some (c ∷ cs)) = c ∷ cs

-- `evaluated_claim(status, evidence, policy_id, verified_at=..., reason=...)`
unfoldable pub evaluated_claim :
    Stdlib
    → ClaimStatus
    → Bytes
    → List ℕ
    → Option (List ℕ)
    → Option ReasonCategory
    → Result AssuranceError AssuranceClaim
evaluated_claim std status evidence policy_id verified_at reason = check_claim std (record {
  status = status;
  evidence_digest = text (sha256_digest std evidence);
  policy_digest = text policy_id;
  verified_at = text (time_or_now std verified_at);
  reason = reason;
})
