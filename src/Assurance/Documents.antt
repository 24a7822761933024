-- ===== src/Assurance/Documents.antt =====
-- `to_dict` and `assurance_from_dict` of cathedral/assurance.py.
use cathedral_compute.Base.{
  ℕ, Bool, true, false, not, List, Option, none, some, ◌==◌, text_eq, ◌≡◌, refl, if◌then◌else◌,
  Result, err, ok, ◌>>=◌, ◌>>◌, raise_if,
}
use cathedral_compute.Base.Text.{codes}
use cathedral_compute.Base.Json.{Json, text, null, object, Fields, end, field, get_field}
use cathedral_compute.Assurance.{
  AssuranceDimension, hardware, software, channel, work, ClaimStatus, not_evaluated, passed, failed,
  stale, revoked, ReasonCategory, evidence_invalid, policy_rejected, channel_mismatch, work_invalid,
  evidence_stale, policy_revoked, identity_conflict, internal_error, AssuranceError,
  invalid_document, claim_missing, unknown_status_or_reason, Stdlib, AssuranceClaim,
  AssuranceClaims, status_value, reason_value, check_claim, assurance_schema, claim,
}

-- `self.reason.value if self.reason else None`
abbrev json_reason : Option ReasonCategory → Json
json_reason none = null
json_reason (some r) = text (reason_value r)

-- `AssuranceClaim.to_dict(include_digests=...)`
unfoldable pub claim_to_dict : Bool → AssuranceClaim → Json
claim_to_dict include_digests c = object (
    field "status" (text (status_value c.status)) (
      field "verified_at" c.verified_at (
        field "reason" (json_reason c.reason) (
          if include_digests
          then field "evidence_digest" c.evidence_digest (field "policy_digest" c.policy_digest end)
          else end))))

-- `AssuranceClaims.to_dict(include_digests=...)`
unfoldable pub to_dict : Bool → AssuranceClaims → Json
unfolding claim_to_dict claim
to_dict include_digests cs =
    let entry = λ (d : AssuranceDimension). claim_to_dict include_digests (claim cs d) in
    object (
      field "schema" (text assurance_schema) (
        field "claims"
          (object (
            field "hardware" (entry hardware) (
              field "software" (entry software)
                (field "channel" (entry channel) (field "work" (entry work) end)))))
          end))

-- `ClaimStatus(value)`
abbrev status_named : List ℕ → Option ClaimStatus
status_named s =
    if s == codes "not_evaluated"
    then some not_evaluated
    else if s == codes "passed"
    then some passed
    else if s == codes "failed"
    then some failed
    else if s == codes "stale"
    then some stale
    else if s == codes "revoked"
    then some revoked
    else none

-- `ReasonCategory(value)`
abbrev reason_named : List ℕ → Option ReasonCategory
reason_named s =
    if s == codes "evidence_invalid"
    then some evidence_invalid
    else if s == codes "policy_rejected"
    then some policy_rejected
    else if s == codes "channel_mismatch"
    then some channel_mismatch
    else if s == codes "work_invalid"
    then some work_invalid
    else if s == codes "evidence_stale"
    then some evidence_stale
    else if s == codes "policy_revoked"
    then some policy_revoked
    else if s == codes "identity_conflict"
    then some identity_conflict
    else if s == codes "internal_error"
    then some internal_error
    else none

known : {A : Type 0} → Option A → Result AssuranceError A
known none = err unknown_status_or_reason
known (some a) = ok a

parse_status : Json → Result AssuranceError ClaimStatus
unfolding known
parse_status (text s) = known (status_named s)
parse_status _ = err unknown_status_or_reason

parse_reason : Json → Result AssuranceError (Option ReasonCategory)
unfolding known
parse_reason null = ok none
parse_reason (text s) = known (reason_named s) >>= λ r. ok (some r)
parse_reason _ = err unknown_status_or_reason

-- `parse(dimension)`
parse_claim : Stdlib → Json → Result AssuranceError AssuranceClaim
unfolding parse_status parse_reason get_field
parse_claim std (object raw) = do
  status ← parse_status (get_field "status" raw)
  reason ← parse_reason (get_field "reason" raw)
  check_claim std (record {
    status = status;
    evidence_digest = get_field "evidence_digest" raw;
    policy_digest = get_field "policy_digest" raw;
    verified_at = get_field "verified_at" raw;
    reason = reason;
  })
parse_claim std _ = err claim_missing

parse_claims : Stdlib → Json → Result AssuranceError AssuranceClaims
unfolding parse_claim get_field
parse_claims std (object raw) = do
  hw ← parse_claim std (get_field "hardware" raw)
  sw ← parse_claim std (get_field "software" raw)
  ch ← parse_claim std (get_field "channel" raw)
  wk ← parse_claim std (get_field "work" raw)
  ok (record { hardware_claim = hw; software_claim = sw; channel_claim = ch; work_claim = wk })
parse_claims std _ = err invalid_document

has_schema : Json → Bool
has_schema (text s) = s == assurance_schema
has_schema _ = false

unfoldable pub assurance_from_dict : Stdlib → Fields → Result AssuranceError AssuranceClaims
unfolding has_schema parse_claims get_field
assurance_from_dict std value = do
  raise_if (not (has_schema (get_field "schema" value))) invalid_document
  parse_claims std (get_field "claims" value)

parse_status-named : (s : ClaimStatus) → parse_status (text (status_value s)) ≡ ok s
unfolding parse_status
parse_status-named not_evaluated = refl
parse_status-named passed = refl
parse_status-named failed = refl
parse_status-named stale = refl
parse_status-named revoked = refl

parse_reason-named : (r : Option ReasonCategory) → parse_reason (json_reason r) ≡ ok r
unfolding parse_reason
parse_reason-named none = refl
parse_reason-named (some evidence_invalid) = refl
parse_reason-named (some policy_rejected) = refl
parse_reason-named (some channel_mismatch) = refl
parse_reason-named (some work_invalid) = refl
parse_reason-named (some evidence_stale) = refl
parse_reason-named (some policy_revoked) = refl
parse_reason-named (some identity_conflict) = refl
parse_reason-named (some internal_error) = refl

parse_claim-claim_to_dict :
    (std : Stdlib) (c : AssuranceClaim)
    → check_claim std c ≡ ok c
    → parse_claim std (claim_to_dict true c) ≡ ok c
unfolding parse_claim claim_to_dict
parse_claim-claim_to_dict std c good =
    rw (parse_status-named c.status, parse_reason-named c.reason) good

-- The document of claims that each pass the check of their constructor, digests included, reads
-- back as these claims.
pub assurance_from_dict-to_dict :
    (std : Stdlib) (cs : AssuranceClaims)
    → ((d : AssuranceDimension) → check_claim std (claim cs d) ≡ ok (claim cs d))
    → (fields : Fields) × (to_dict true cs ≡ object fields)
      × (assurance_from_dict std fields ≡ ok cs)
unfolding to_dict assurance_from_dict claim
assurance_from_dict-to_dict std cs good = (
  _,
  refl,
  rw
      (
        parse_claim-claim_to_dict std cs.hardware_claim (good hardware),
        parse_claim-claim_to_dict std cs.software_claim (good software),
        parse_claim-claim_to_dict std cs.channel_claim (good channel),
        parse_claim-claim_to_dict std cs.work_claim (good work),
      )
      refl,
)
